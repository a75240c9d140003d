-- ===== src/Actor/Action/Reading.antt =====
-- calvin/actor/actor.py: what the inports hand to an action, told by the single calls of the ports.
use exjobb_calvin.Prelude.{
  ℕ, zero, suc, ◌+◌, ◌≤◌, ◌<◌, String, Bool, true, false, not, ◌&&◌, ◌||◌, ◌≡◌, subst, refl, sym,
  ap, ◌∙◌, List, [], ◌∷◌, ◌++◌, map, length, length-append, leb, inl, inr, Result, ok, >>=-eq-ok,
  ok-injective, if◌then◌else◌, Bool-cases, arith, All, Any, Option, none, some,
}
use exjobb_calvin.Prelude.Dict.{Dict, insert, lookup}
use exjobb_calvin.Token.{Token, is_exception}
use exjobb_calvin.Actor.Action.{
  Datum, raw, tok, Data, one, many, Ports, Specs, total, enough, note, peek_tokens, as_argument,
  arguments,
}

-- Every port has its count, as far as `available` tells; or some port has less.
abbrev pub HasAll : {S : Type 0} → (String → S → Result ℕ) → Specs → S → Type 0
HasAll available ps s = All (λ p. (k : ℕ) × (available p.0 s ≡ ok k) × (p.1 ≤ k)) ps

abbrev pub Lacks : {S : Type 0} → (String → S → Result ℕ) → Specs → S → Type 0
Lacks available ps s = Any (λ p. (k : ℕ) × (available p.0 s ≡ ok k) × (k < p.1)) ps

pub enough-HasAll :
    {S : Type 0} (available : String → S → Result ℕ) (ps : Specs) (s : S)
    → enough available ps s ≡ ok true
    → HasAll available ps s
unfolding enough
enough-HasAll available [] s h = tt
enough-HasAll available ((p, n) ∷ ps) s h =
    let (k, e, h') = >>=-eq-ok (available p s) _ h in
    let (rest, f, both) = >>=-eq-ok (enough available ps s) _ h' in
    let b : (leb n k && rest) ≡ true = ok-injective _ _ both in
    ((k, e, ground (arith, b)), enough-HasAll available ps s (f ∙ ap ok (ground (arith, b))))

pub enough-Lacks :
    {S : Type 0} (available : String → S → Result ℕ) (ps : Specs) (s : S)
    → enough available ps s ≡ ok false
    → Lacks available ps s
unfolding enough
enough-Lacks available [] s h = absurd (let e : true ≡ false = ok-injective _ _ h in cc)
enough-Lacks available ((p, n) ∷ ps) s h =
    let (k, e, h') = >>=-eq-ok (available p s) _ h in
    let (rest, f, both) = >>=-eq-ok (enough available ps s) _ h' in
    let b : (leb n k && rest) ≡ false = ok-injective _ _ both in
    elim (Bool-cases (leb n k)) [
      | inl some_left ↦ inr (enough-Lacks available ps s (f ∙ ap ok (ground (arith, b, some_left))))
      | inr less ↦ inl (k, e, ground (arith, less))
    ]

-- The value of a token, or the token itself when it is an exception.
abbrev pub datum : Token → Datum
datum t = if is_exception t.class then tok t else raw t.value

-- The one datum, or the list of all.
abbrev pub argument_of : List Token → Data
argument_of (t ∷ []) = one (datum t)
argument_of ts = many (map datum ts)

unfoldable pub any_exception : List Token → Bool
any_exception [] = false
any_exception (t ∷ ts) = is_exception t.class || any_exception ts

abbrev pub is_nil : Dict (List ℕ) → Bool
is_nil [] = true
is_nil (_ ∷ _) = false

any_exception-append :
    (ts us : List Token) → any_exception (ts ++ us) ≡ (any_exception ts || any_exception us)
unfolding any_exception
any_exception-append [] us = refl
any_exception-append (t ∷ ts) us = ground (arith, any_exception-append ts us)

insert-not_nil : (p : String) (is : List ℕ) (ex : Dict (List ℕ)) → is_nil (insert p is ex) ≡ false
unfolding insert
insert-not_nil p is [] = refl
insert-not_nil p is ((q, js) ∷ ex) = ground arith

note-not_nil : (p : String) (i : ℕ) (ex : Dict (List ℕ)) → is_nil (note p i ex) ≡ false
unfolding note
note-not_nil p i ex = go (lookup p ex)
  where
    go :
        (o : Option (List ℕ))
        → is_nil (elim o [ none ↦ insert p (i ∷ []) ex | some is ↦ insert p (is ++ i ∷ []) ex ])
          ≡ false
    go none = insert-not_nil p (i ∷ []) ex
    go (some is) = insert-not_nil p (is ++ i ∷ []) ex

noted-nil :
    (b : Bool) (p : String) (i : ℕ) (ex : Dict (List ℕ))
    → is_nil (if b then note p i ex else ex) ≡ (is_nil ex && not b)
noted-nil true p i ex = ground (arith, note-not_nil p i ex)
noted-nil false p i ex = ground arith

as_argument-argument_of :
    (ts : List Token) (d : Data) → as_argument (map datum ts) ≡ ok d → d ≡ argument_of ts
unfolding as_argument
as_argument-argument_of [] d h = cc
as_argument-argument_of (t ∷ []) d h = sym (ok-injective _ _ h)
as_argument-argument_of (t ∷ u ∷ ts) d h = sym (ok-injective _ _ h)

module _ {S : Type 0} (ports : Ports S) where
  -- The tokens of one peek after the other on a port.
  abbrev pub Peeks : String → S → List Token → S → Type 0
  Peeks p s [] s' = s' ≡ s
  Peeks p s (t ∷ ts) s' = (u : S) × (ports.peek p s ≡ ok (t, u)) × Peeks p u ts s'

  -- Port by port: as many tokens as its count are peeked at, and make one argument.
  abbrev pub Reads : Specs → S → List Data → List Token → S → Type 0
  Reads [] s args ts s' = (args ≡ []) × (ts ≡ []) × (s' ≡ s)
  Reads ((p, n) ∷ ps) s args ts s' =
      (here rest : List Token) × (others : List Data) × (u : S) × Peeks p s here u
      × (length here ≡ n)
      × (args ≡ argument_of here ∷ others)
      × (ts ≡ here ++ rest)
      × Reads ps u others rest s'

  -- The places of exceptions are kept, so that there are none exactly if no token was one.
  peek_tokens-Peeks :
      (p : String) (i n : ℕ) (ex : Dict (List ℕ)) (s : S) (ds : List Datum) (ex' : Dict (List ℕ))
      (s' : S)
      → peek_tokens ports p i n ex s ≡ ok (ds, ex', s')
      → (ts : List Token) × Peeks p s ts s'
        × (length ts ≡ n)
        × (ds ≡ map datum ts)
        × (is_nil ex' ≡ (is_nil ex && not (any_exception ts)))
  unfolding peek_tokens any_exception
  peek_tokens-Peeks p i zero ex s ds ex' s' h =
      let e = ok-injective ([], ex, s) (ds, ex', s') h in
      (
        [],
        sym (ap (λ k. k.2) e),
        refl,
        sym (ap (λ k. k.0) e),
        ground (arith, ap (λ k. is_nil k.1) e),
      )
  peek_tokens-Peeks p i (suc n) ex s ds ex' s' h =
      let (a, e, h') = >>=-eq-ok (ports.peek p s) _ h in
      let ex1 = if is_exception a.0.class then note p i ex else ex in
      let (b, f, done) = >>=-eq-ok (peek_tokens ports p (i + 1) n ex1 a.1) _ h' in
      let k = ok-injective (datum a.0 ∷ b.0, b.1, b.2) (ds, ex', s') done in
      let (ts, peeks, count, same, nil) = peek_tokens-Peeks p (i + 1) n ex1 a.1 b.0 b.1 b.2 f in
      (
        a.0 ∷ ts,
        (a.1, e, subst (λ v. Peeks p a.1 ts v) (ap (λ k. k.2) k) peeks),
        ap suc count,
        sym (ap (λ k. k.0) k) ∙ ap (λ r. datum a.0 ∷ r) same,
        ground (arith, nil, ap (λ k. is_nil k.1) k, noted-nil (is_exception a.0.class) p i ex),
      )

  pub arguments-Reads :
      (ps : Specs) (ex : Dict (List ℕ)) (s : S) (args : List Data) (ex' : Dict (List ℕ)) (s' : S)
      → arguments ports ps ex s ≡ ok (args, ex', s')
      → (ts : List Token) × Reads ps s args ts s'
        × (is_nil ex' ≡ (is_nil ex && not (any_exception ts)))
  unfolding arguments any_exception
  arguments-Reads [] ex s args ex' s' h =
      let e = ok-injective ([], ex, s) (args, ex', s') h in
      (
        [],
        (sym (ap (λ k. k.0) e), refl, sym (ap (λ k. k.2) e)),
        ground (arith, ap (λ k. is_nil k.1) e),
      )
  arguments-Reads ((p, n) ∷ ps) ex s args ex' s' h =
      let (a, e, h') = >>=-eq-ok (peek_tokens ports p 0 n ex s) _ h in
      let (d, f, h'') = >>=-eq-ok (as_argument a.0) _ h' in
      let (b, g, done) = >>=-eq-ok (arguments ports ps a.1 a.2) _ h'' in
      let k = ok-injective (d ∷ b.0, b.1, b.2) (args, ex', s') done in
      let (here, peeks, count, same, nil) = peek_tokens-Peeks p 0 n ex s a.0 a.1 a.2 e in
      let (rest, reads, nil') = arguments-Reads ps a.1 a.2 b.0 b.1 b.2 g in
      let one_arg = as_argument-argument_of here d (ap as_argument (sym same) ∙ f) in
      (
        here ++ rest,
        (
          here,
          rest,
          b.0,
          a.2,
          peeks,
          count,
          sym (ap (λ k. k.0) k) ∙ ap (λ r. r ∷ b.0) one_arg,
          refl,
          subst (λ v. Reads ps a.2 b.0 rest v) (ap (λ k. k.2) k) reads,
        ),
        ground (arith, nil, nil', any_exception-append here rest, ap (λ k. is_nil k.1) k),
      )

  -- The counts of the contract are the number of tokens.
  pub Reads-total :
      (ps : Specs) (s : S) (args : List Data) (ts : List Token) (s' : S)
      → Reads ps s args ts s'
      → length ts ≡ total ps
  unfolding total
  Reads-total [] s args ts s' (a, e, k) = ap length e
  Reads-total ((p, n) ∷ ps) s args ts s' (here, rest, others, u, peeks, count, a, e, reads) =
      let others_count = Reads-total ps u others rest s' reads in
      ap length e ∙ omega (arith, count, others_count, length-append here rest)
