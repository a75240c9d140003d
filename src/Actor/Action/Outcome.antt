-- ===== src/Actor/Action/Outcome.antt =====
-- calvin/actor/actor.py: the outcomes of an action under `condition`.
use exjobb_calvin.Prelude.{
  ℕ, Bool, true, false, not, ◌&&◌, ◌||◌, ◌≡◌, refl, sym, ap, ◌∙◌, List, [], ◌∷◌, length, ◌⊎◌, inl,
  inr, ok, err, >>=-eq-ok, ok-injective, invalid_production, if-cases, if◌then◌else◌, arith,
}
use exjobb_calvin.Prelude.Dict.{Dict}
use exjobb_calvin.Token.{Token}
use exjobb_calvin.Actor.Action.{
  Data, ActionResult, action_result, Ports, Contract, total, Body, Handler, enough, arguments,
  valid_production, produce, each, settle, withdraw, finish, react, perform, condition,
}
use exjobb_calvin.Actor.Action.Reading.{
  HasAll, Lacks, enough-HasAll, enough-Lacks, Reads, arguments-Reads, Reads-total, any_exception,
  is_nil,
}
use exjobb_calvin.Actor.Action.Writing.{
  Writes, produce-Writes, valid_production-parts, Each, each-Each,
}

module _ {S : Type 0} (ports : Ports S) (c : Contract) where
  -- The action did not run: a port has less than its count, and nothing changed.
  pub record Blocked (s : S) (r : ActionResult) (s' : S) : Type 0 where
    pub lacks :
        Lacks ports.in_available c.action_input s ⊎ Lacks ports.out_available c.action_output s
    pub unchanged : s' ≡ s
    pub result : r ≡ action_result false []

  -- The action ran, fired, and gave each outport its datum: the reads are committed, the production
  -- is written, and the result tells how many tokens were read.
  pub record Settled (read : List Token) (t : S) (r₀ r : ActionResult) (s' : S) : Type 0 where
    pub did_fire : r₀.did_fire ≡ true
    pub committed : S
    pub commits : Each ports.commit c.action_input t committed
    pub writes : Writes ports c.action_output committed r₀.production s'
    pub result :
        r ≡ record r₀ { tokens_consumed = length read; tokens_produced = total c.action_output }

  -- The action ran and did not fire: the reads are taken back, and nothing is written.
  pub record Withdrawn (t : S) (r₀ r : ActionResult) (s' : S) : Type 0 where
    pub did_fire : r₀.did_fire ≡ false
    pub rewinds : Each ports.rewind c.action_input t s'
    pub result : r ≡ r₀

  settle-Settled :
      (read : List Token) (r₀ : ActionResult) (t : S) (r : ActionResult) (s' : S)
      → length read ≡ total c.action_input
      → r₀.did_fire ≡ true
      → valid_production c.action_output r₀ ≡ ok true
      → settle ports c r₀ t ≡ ok (r, s')
      → Settled read t r₀ r s'
  unfolding settle
  settle-Settled read r₀ t r s' count fired valid h =
      let (u, e, rest) = >>=-eq-ok (each ports.commit c.action_input t) _ h in
      let (w, e', done) = >>=-eq-ok (produce ports c.action_output r₀.production u) _ rest in
      let k = ok-injective _ _ done in
      let (as_many, each_valid) = valid_production-parts c.action_output r₀ valid in
      let told = sym (ap (λ p. p.0) k) in
      let same =
        ap (λ n. record r₀ { tokens_consumed = n; tokens_produced = total c.action_output })
          (sym count) in
      record {
        did_fire = fired;
        committed = u;
        commits = each-Each ports.commit c.action_input t u e;
        writes =
            produce-Writes ports c.action_output r₀.production u s' as_many each_valid
              (e' ∙ ap (λ p. ok p.1) k);
        result = told ∙ same;
      }

  withdraw-Withdrawn :
      (r₀ : ActionResult) (t : S) (r : ActionResult) (s' : S)
      → withdraw ports c r₀ t ≡ ok (r, s')
      → Withdrawn t r₀ r s'
  unfolding withdraw
  withdraw-Withdrawn r₀ t r s' h =
      let (u, e, rest) = >>=-eq-ok (each ports.rewind c.action_input t) _ h in
      elim (if-cases r₀.did_fire (err invalid_production) (ok (r₀, u)) rest) [
        | inl (_, raised) ↦ cc
        | inr (quiet, done) ↦
            let k = ok-injective (r₀, u) (r, s') done in
            record {
              did_fire = quiet;
              rewinds = each-Each ports.rewind c.action_input t s' (e ∙ ap (λ p. ok p.1) k);
              result = sym (ap (λ p. p.0) k);
            }
      ]

  finish-cases :
      (read : List Token) (r₀ : ActionResult) (t : S) (r : ActionResult) (s' : S)
      → length read ≡ total c.action_input
      → finish ports c r₀ t ≡ ok (r, s')
      → Settled read t r₀ r s' ⊎ Withdrawn t r₀ r s'
  unfolding finish
  finish-cases read r₀ t r s' count h =
      let (v, valid, rest) = >>=-eq-ok (valid_production c.action_output r₀) _ h in
      elim (if-cases (r₀.did_fire && v) (settle ports c r₀ t) (withdraw ports c r₀ t) rest) [
        | inl (both, done) ↦ inl (
            settle-Settled read r₀ t r s' count (ground (arith, both))
              (valid ∙ ap ok (ground (arith, both))) done)
        | inr (_, done) ↦ inr (withdraw-Withdrawn r₀ t r s' done)
      ]

  module _ (body : Body S) (handler : Handler S) where
    -- The action ran: every port had its count, the arguments are the tokens that were peeked at, and
    -- the body gave a result, or the handler if one of the tokens was an exception.
    pub record Ran (s : S) (read : List Token) (r₀ : ActionResult) (t : S) : Type 0 where
      pub input_tokens : HasAll ports.in_available c.action_input s
      pub output_room : HasAll ports.out_available c.action_output s
      pub args : List Data
      pub exceptions : Dict (List ℕ)
      pub peeked : S
      pub reads : Reads ports c.action_input s args read peeked
      pub reacts :
          (if any_exception read then handler args exceptions peeked else body args peeked)
          ≡ ok (r₀, t)

    -- What a call of the decorated action may come to.
    abbrev pub Outcome : S → ActionResult → S → Type 0
    Outcome s r s' =
        Blocked s r s'
        ⊎ ((read : List Token) × (r₀ : ActionResult) × (t : S) × Ran s read r₀ t
            × (Settled read t r₀ r s' ⊎ Withdrawn t r₀ r s'))

    reacts-to :
        (read : List Token) (args : List Data) (ex : Dict (List ℕ)) (s : S)
        → is_nil ex ≡ not (any_exception read)
        → react body handler args ex s
          ≡ (if any_exception read then handler args ex s else body args s)
    unfolding react
    reacts-to read args [] s h =
        let off : any_exception read ≡ false = ground (arith, h) in rw off refl
    reacts-to read args (e ∷ ex) s h =
        let on : any_exception read ≡ true = ground (arith, h) in rw on refl

    perform-Outcome :
        (s : S) (r : ActionResult) (s' : S)
        → enough ports.in_available c.action_input s ≡ ok true
        → enough ports.out_available c.action_output s ≡ ok true
        → perform ports c body handler s ≡ ok (r, s')
        → Outcome s r s'
    unfolding perform
    perform-Outcome s r s' i o h =
        let (a, e, rest) = >>=-eq-ok (arguments ports c.action_input [] s) _ h in
        let (p, e', rest') = >>=-eq-ok (react body handler a.0 a.1 a.2) _ rest in
        let (read, reads, nil) = arguments-Reads ports c.action_input [] s a.0 a.1 a.2 e in
        let count = Reads-total ports c.action_input s a.0 read a.2 reads in
        inr (
          read,
          p.0,
          p.1,
          record {
            input_tokens = enough-HasAll ports.in_available c.action_input s i;
            output_room = enough-HasAll ports.out_available c.action_output s o;
            args = a.0;
            exceptions = a.1;
            peeked = a.2;
            reads = reads;
            reacts = sym (reacts-to read a.0 a.1 a.2 nil) ∙ e';
          },
          finish-cases read p.0 p.1 r s' count rest',
        )

    some-Lacks :
        (s : S) (i o : Bool)
        → enough ports.in_available c.action_input s ≡ ok i
        → enough ports.out_available c.action_output s ≡ ok o
        → (not i || not o) ≡ true
        → Lacks ports.in_available c.action_input s ⊎ Lacks ports.out_available c.action_output s
    some-Lacks s false o ei eo h = inl (enough-Lacks ports.in_available c.action_input s ei)
    some-Lacks s true false ei eo h = inr (enough-Lacks ports.out_available c.action_output s eo)
    some-Lacks s true true ei eo h = absurd (let e : false ≡ true = h in cc)

    -- A call of an action that returns was blocked, as a port has less than its count, and changed
    -- nothing; or it ran with enough tokens and room on all of its ports. Then it peeked at just the
    -- count of each inport, and gave these tokens to the body, or to the handler exactly if one of them
    -- was an exception. Either it fired: it committed the reads of all inports, put on each outport the
    -- tokens of its datum, as many as its count (one for a count of 0), and answers how many tokens it
    -- read and the sum of the counts of its outports. Or it did not fire: it took the reads back and
    -- wrote nothing. A fired action with an invalid production does not return.
    pub condition-Outcome :
        (s : S) (r : ActionResult) (s' : S)
        → condition ports c body handler s ≡ ok (r, s')
        → Outcome s r s'
    unfolding condition
    condition-Outcome s r s' h =
        let (i, ei, rest) = >>=-eq-ok (enough ports.in_available c.action_input s) _ h in
        let (o, eo, rest') = >>=-eq-ok (enough ports.out_available c.action_output s) _ rest in
        elim (if-cases (not i || not o) (ok (action_result false [], s))
          (perform ports c body handler s) rest') [
            | inl (lacks, done) ↦
                let k = ok-injective (action_result false [], s) (r, s') done in
                inl (record {
                  lacks = some-Lacks s i o ei eo lacks;
                  unchanged = sym (ap (λ p. p.1) k);
                  result = sym (ap (λ p. p.0) k);
                })
            | inr (free, done) ↦
                perform-Outcome s r s' (ei ∙ ap ok (ground (arith, free)))
                  (eo ∙ ap ok (ground (arith, free))) done
          ]
