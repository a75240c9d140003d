-- ===== src/Actor/Action/Writing.antt =====
-- calvin/actor/actor.py: what an action puts on its outports, told by the single calls of the ports.
use exjobb_calvin.Prelude.{
  ℕ, String, Bool, true, false, ◌&&◌, ◌≡◌, refl, sym, ap, ◌∙◌, List, [], ◌∷◌, map, length, ltb,
  ◌==◌, ==_iff, ◌⊎◌, inl, inr, Result, ok, >>=-eq-ok, ◌>>=◌, ok-injective, if◌then◌else◌, if-cases,
  arith,
}
use exjobb_calvin.Token.{Token, token}
use exjobb_calvin.Token.Values.{list, Values}
use exjobb_calvin.Actor.Action.{
  Datum, Data, one, many, ActionResult, Ports, Specs, items, lengths_match, valid_production,
  as_values, as_token, outgoing, put_tokens, produce, each,
}

-- The tokens that a datum of a production becomes on a port with this count: one for each element of
-- a list of just as many, or the whole datum when the count is not above 1.
abbrev pub Sent : ℕ → Data → List Token → Type 0
Sent n d ts =
    ((ltb 1 n ≡ true)
      × (xs : List Datum) × (items d ≡ ok xs)
      × (length xs ≡ n)
      × (ts ≡ map as_token xs))
    ⊎ ((ltb 1 n ≡ false) × (x : Datum) × (d ≡ one x) × (ts ≡ as_token x ∷ []))
    ⊎ ((ltb 1 n ≡ false)
        × (xs : List Datum) × (vs : Values) × (d ≡ many xs)
        × (as_values xs ≡ ok vs)
        × (ts ≡ record { class = token; value = list vs } ∷ []))

-- A valid datum is sent as its port's count asks.
outgoing_cases :
    (n : ℕ) (ps : Specs) (d : Data) (ds : List Data) (ts : List Token) (b : Bool)
    → ltb 1 n ≡ b
    → (if b
        then (do xs ← items d; if length xs == n then lengths_match ps ds else ok false)
        else lengths_match ps ds)
      ≡ ok true
    → (if b then (do xs ← items d; ok (map as_token xs)) else elim d [
      | one x ↦ ok (as_token x ∷ [])
      | many xs ↦ (do vs ← as_values xs; ok (record { class = token; value = list vs } ∷ []))
    ])
      ≡ ok ts
    → Sent n d ts × (lengths_match ps ds ≡ ok true)
outgoing_cases n ps d ds ts true e valid h =
    let (xs, f, valid') = >>=-eq-ok (items d) _ valid in
    let (ys, g, done) = >>=-eq-ok (items d) _ h in
    let same : xs ≡ ys = ok-injective xs ys (sym f ∙ g) in
    elim (if-cases (length xs == n) (lengths_match ps ds) (ok false) valid') [
      | inl (count, others) ↦ (
        inl (
          e,
          xs,
          f,
          (==_iff _ _).0 count,
          sym (ok-injective _ _ done) ∙ ap (map as_token) (sym same),
        ),
        others,
      )
      | inr (_, invalid) ↦ absurd (let k : false ≡ true = ok-injective _ _ invalid in cc)
    ]
outgoing_cases n ps (one x) ds ts false e valid h =
    (inr (inl (e, x, refl, sym (ok-injective _ _ h))), valid)
outgoing_cases n ps (many xs) ds ts false e valid h =
    let (vs, f, done) = >>=-eq-ok (as_values xs) _ h in
    (inr (inr (e, xs, vs, refl, f, sym (ok-injective _ _ done))), valid)

outgoing-Sent :
    (n : ℕ) (p : String) (ps : Specs) (d : Data) (ds : List Data) (ts : List Token)
    → lengths_match ((p, n) ∷ ps) (d ∷ ds) ≡ ok true
    → outgoing n d ≡ ok ts
    → Sent n d ts × (lengths_match ps ds ≡ ok true)
unfolding lengths_match outgoing
outgoing-Sent n p ps d ds ts valid h = outgoing_cases n ps d ds ts (ltb 1 n) refl valid h

module _ {S : Type 0} (ports : Ports S) where
  -- The tokens are put on the port one after the other.
  abbrev pub Puts : String → S → List Token → S → Type 0
  Puts p s [] s' = s' ≡ s
  Puts p s (t ∷ ts) s' = (u : S) × (ports.put p t s ≡ ok u) × Puts p u ts s'

  -- Each port gets the tokens of its own datum; there are as many data as ports.
  abbrev pub Writes : Specs → S → List Data → S → Type 0
  Writes [] s [] s' = s' ≡ s
  Writes ((p, n) ∷ ps) s (d ∷ ds) s' =
      (ts : List Token) × (u : S) × Sent n d ts × Puts p s ts u × Writes ps u ds s'
  Writes _ s _ s' = ⊥

  put_tokens-Puts :
      (p : String) (ts : List Token) (s s' : S) → put_tokens ports p ts s ≡ ok s' → Puts p s ts s'
  unfolding put_tokens
  put_tokens-Puts p [] s s' h = sym (ok-injective _ _ h)
  put_tokens-Puts p (t ∷ ts) s s' h =
      let (u, e, h') = >>=-eq-ok (ports.put p t s) _ h in (u, e, put_tokens-Puts p ts u s' h')

  pub produce-Writes :
      (ps : Specs) (ds : List Data) (s s' : S)
      → length ps ≡ length ds
      → lengths_match ps ds ≡ ok true
      → produce ports ps ds s ≡ ok s'
      → Writes ps s ds s'
  unfolding produce
  produce-Writes [] [] s s' count valid h = sym (ok-injective _ _ h)
  produce-Writes [] (d ∷ ds) s s' count valid h = absurd (omega arith)
  produce-Writes (p ∷ ps) [] s s' count valid h = absurd (omega arith)
  produce-Writes ((p, n) ∷ ps) (d ∷ ds) s s' count valid h =
      let (ts, e, h') = >>=-eq-ok (outgoing n d) _ h in
      let (u, f, h'') = >>=-eq-ok (put_tokens ports p ts s) _ h' in
      let (sent, others) = outgoing-Sent n p ps d ds ts valid e in
      (ts, u, sent, put_tokens-Puts p ts s u f, produce-Writes ps ds u s' (omega arith) others h'')

-- A valid production: one that was fired, has as many data as the outports, and a list of just the
-- count of the port where that is above 1.
pub valid_production-parts :
    (ps : Specs) (r : ActionResult)
    → valid_production ps r ≡ ok true
    → (length ps ≡ length r.production) × (lengths_match ps r.production ≡ ok true)
unfolding valid_production
valid_production-parts ps r h =
    elim (if-cases (r.did_fire && length ps == length r.production) (lengths_match ps r.production)
      (ok false) h) [
        | inl (both, valid) ↦ (ground (arith, both), valid)
        | inr (_, invalid) ↦ absurd (let e : false ≡ true = ok-injective _ _ invalid in cc)
      ]

-- The same operation on all ports, in order.
abbrev pub Each : {S : Type 0} → (String → S → Result S) → Specs → S → S → Type 0
Each op [] s s' = s' ≡ s
Each {S} op ((p, n) ∷ ps) s s' = (u : S) × (op p s ≡ ok u) × Each op ps u s'

pub each-Each :
    {S : Type 0} (op : String → S → Result S) (ps : Specs) (s s' : S)
    → each op ps s ≡ ok s'
    → Each op ps s s'
unfolding each
each-Each op [] s s' h = sym (ok-injective _ _ h)
each-Each op ((p, n) ∷ ps) s s' h =
    let (u, e, h') = >>=-eq-ok (op p s) _ h in (u, e, each-Each op ps u s' h')
