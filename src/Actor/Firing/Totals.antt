-- ===== src/Actor/Firing/Totals.antt =====
-- calvin/actor/actor.py: when the loop `fire` returns, and that it does.
use exjobb_calvin.Prelude.{
  ℕ, zero, suc, ◌<◌, ◌≤◌, String, Bool, true, false, ◌≡◌, ◌≢◌, refl, sym, ap, ◌∙◌, Option, none,
  some, List, [], ◌∷◌, All, ◌⊎◌, inl, inr, ok, err, >>=-eq-ok, >>=-eq-err, ok-injective,
  out_of_fuel, name_error, Bool-cases, arith, subst,
}
use exjobb_calvin.Actor.Action.{ActionResult, action_result, merge}
use exjobb_calvin.Actor.Firing.{Action, goes_on, round, rounds, fire}

goes_on-some :
    (l : Option ActionResult) (r : ActionResult) (b : Bool)
    → l ≡ some r
    → r.did_fire ≡ b
    → goes_on l ≡ ok b
unfolding goes_on
goes_on-some l r b e h = ap goes_on e ∙ ap ok h

module _ {S : Type 0} (authorized : S → Bool) (fired : String → ActionResult → S → S) where
  -- One pass through all actions, in order, in which none fires.
  abbrev pub Quiet : List (Action S) → S → S → Type 0
  Quiet [] s s' = s ≡ s'
  Quiet (a ∷ actions) s s' =
      (r : ActionResult) × (s'' : S) × (a.run s ≡ ok (r, s''))
      × (r.did_fire ≡ false)
      × Quiet actions s'' s'

  -- A round either has an action that fired, or was quiet.
  round-Quiet :
      (actions : List (Action S)) (last : Option ActionResult) (total : ActionResult) (s : S)
      (l : Option ActionResult) (t : ActionResult) (s' : S)
      → round authorized fired actions last total s ≡ ok (l, t, s')
      → ((r : ActionResult) × (l ≡ some r) × (r.did_fire ≡ true)) ⊎ Quiet actions s s'
  unfolding round
  round-Quiet [] last total s l t s' h = inr (ap (λ p. p.2) (ok-injective _ _ h))
  round-Quiet (a ∷ actions) last total s l t s' h =
      let (p, e, rest) = >>=-eq-ok (a.run s) _ h in
      elim (Bool-cases p.0.did_fire) [
        | inl on ↦
            let done = ok-injective _ _ (rw on at rest) in inl (p.0, sym (ap (λ q. q.0) done), on)
        | inr off ↦
            elim (round-Quiet actions (some p.0) (merge total p.0) p.1 l t s' (rw off at rest)) [
              | inl found ↦ inl found
              | inr quiet ↦
                  let all : Quiet (a ∷ actions) s s' = (p.0, p.1, e, off, quiet) in inr all
            ]
      ]

  -- Why the loop returned in a state: the actor is not authorized in it, or it ends a quiet pass.
  abbrev pub Stopped : List (Action S) → S → Type 0
  Stopped actions s' = (authorized s' ≡ false) ⊎ ((s : S) × Quiet actions s s')

  rounds-Stopped :
      (fuel : ℕ) (actions : List (Action S)) (last : Option ActionResult) (total : ActionResult)
      (s : S) (t : ActionResult) (s' : S)
      → rounds authorized fired fuel actions last total s ≡ ok (t, s')
      → Stopped actions s'
  unfolding rounds
  rounds-Stopped zero actions last total s t s' h = cc
  rounds-Stopped (suc fuel) actions last total s t s' h = elim (Bool-cases (authorized s)) [
    | inr refused ↦
        let e : s ≡ s' = ap (λ p. p.1) (ok-injective _ _ (rw refused at h)) in
        inl (ap authorized (sym e) ∙ refused)
    | inl allowed ↦
        let (p, e, rest) =
          >>=-eq-ok (round authorized fired actions last total s) _ (rw allowed at h) in
        let (b, went, end) = >>=-eq-ok (goes_on p.0) _ rest in
        elim (Bool-cases b) [
          | inl on ↦ rounds-Stopped fuel actions p.0 p.1 p.2 t s' (rw on at end)
          | inr off ↦
              let k : p.2 ≡ s' = ap (λ q. q.1) (ok-injective _ _ (rw off at end)) in
              elim (round-Quiet actions last total s p.0 p.1 p.2 e) [
                | inl (r, l, on) ↦ absurd (
                    let both : ok true ≡ ok false =
                      sym (goes_on-some p.0 r true l on) ∙ (went ∙ ap ok off) in
                    cc)
                | inr quiet ↦ inr (s, subst (Quiet actions s) k quiet)
              ]
        ]
  ]

  -- When `fire` returns, the actor is not authorized in the state that is left, or the loop's last
  -- pass ran every action once, in order, up to that state, and none of them fired.
  pub fire-Stopped :
      (fuel : ℕ) (actions : List (Action S)) (s : S) (t : ActionResult) (s' : S)
      → fire authorized fired fuel actions s ≡ ok (t, s')
      → Stopped actions s'
  unfolding fire
  fire-Stopped fuel actions s t s' h =
      rounds-Stopped fuel actions none (action_result false []) s t s' h

  -- An action that fires lowers the measure, one that does not fire does not raise it, and none
  -- raises the error that stands for missing fuel.
  abbrev pub Descends : (S → ℕ) → Action S → Type 0
  Descends μ a =
      (s : S)
      → (a.run s ≢ err out_of_fuel)
        × ((r : ActionResult) (s' : S)
            → a.run s ≡ ok (r, s')
            → (r.did_fire ≡ true → μ (fired a.action_name r s') < μ s)
              × (r.did_fire ≡ false → μ s' ≤ μ s))

  goes_on-fuel : (l : Option ActionResult) → goes_on l ≢ err out_of_fuel
  unfolding goes_on
  goes_on-fuel none e = cc
  goes_on-fuel (some r) e = cc

  round-fuel :
      (μ : S → ℕ) (actions : List (Action S)) (last : Option ActionResult) (total : ActionResult)
      (s : S)
      → All (Descends μ) actions
      → round authorized fired actions last total s ≢ err out_of_fuel
  unfolding round
  round-fuel μ [] last total s all h = cc
  round-fuel μ (a ∷ actions) last total s all h = elim (>>=-eq-err (a.run s) _ h) [
    | inl e ↦ (all.0 s).0 e
    | inr (p, e, rest) ↦ elim (Bool-cases p.0.did_fire) [
      | inl on ↦ absurd (
          let k : ok (some p.0, merge total p.0, fired a.action_name p.0 p.1) ≡ err out_of_fuel =
            simp on at rest in
          cc)
      | inr off ↦ round-fuel μ actions (some p.0) (merge total p.0) p.1 all.1 (simp off at rest)
    ]
  ]

  -- A round that goes on because of an action of its own has lowered the measure.
  round-Descends :
      (μ : S → ℕ) (actions : List (Action S)) (last : Option ActionResult) (total : ActionResult)
      (s : S) (l : Option ActionResult) (t : ActionResult) (s' : S)
      → All (Descends μ) actions
      → round authorized fired actions last total s ≡ ok (l, t, s')
      → goes_on l ≡ ok true
      → (goes_on last ≡ ok true) ⊎ (μ s' < μ s)
  unfolding round
  round-Descends μ [] last total s l t s' all h on =
      inl (ap (λ p. goes_on p.0) (ok-injective _ _ h) ∙ on)
  round-Descends μ (a ∷ actions) last total s l t s' all h on =
      let (p, e, rest) = >>=-eq-ok (a.run s) _ h in
      let (lowers, keeps) = (all.0 s).1 p.0 p.1 e in
      elim (Bool-cases p.0.did_fire) [
        | inl fires ↦
            let k : fired a.action_name p.0 p.1 ≡ s' =
              ap (λ q. q.2) (ok-injective _ _ (rw fires at rest)) in
            inr (subst (λ z. μ z < μ s) k (lowers fires))
        | inr quiet ↦
            elim (round-Descends μ actions (some p.0) (merge total p.0) p.1 l t s' all.1
              (rw quiet at rest) on) [
                | inl same ↦ absurd (
                    let both : ok true ≡ ok false =
                      sym same ∙ goes_on-some (some p.0) p.0 false refl quiet in
                    cc)
                | inr less ↦ inr (let le : μ p.1 ≤ μ s = keeps quiet in omega arith)
              ]
      ]

  -- What the first action of a round is given as the last result plays no part.
  round-lowers :
      (μ : S → ℕ) (a : Action S) (actions : List (Action S)) (last : Option ActionResult)
      (total : ActionResult) (s : S) (l : Option ActionResult) (t : ActionResult) (s' : S)
      → All (Descends μ) (a ∷ actions)
      → round authorized fired (a ∷ actions) last total s ≡ ok (l, t, s')
      → goes_on l ≡ ok true
      → μ s' < μ s
  unfolding round goes_on
  round-lowers μ a actions last total s l t s' all h on =
      elim (round-Descends μ (a ∷ actions) none total s l t s' all h on) [
        | inl e ↦ cc
        | inr less ↦ less
      ]

  rounds-enough :
      (μ : S → ℕ) (a : Action S) (actions : List (Action S)) (fuel : ℕ) (last : Option ActionResult)
      (total : ActionResult) (s : S)
      → All (Descends μ) (a ∷ actions)
      → μ s < fuel
      → rounds authorized fired fuel (a ∷ actions) last total s ≢ err out_of_fuel
  unfolding rounds
  rounds-enough μ a actions zero last total s all lt h = absurd (omega arith)
  rounds-enough μ a actions (suc fuel) last total s all lt h = elim (Bool-cases (authorized s)) [
    | inr refused ↦ absurd (let k : ok (total, s) ≡ err out_of_fuel = rw refused at h in cc)
    | inl allowed ↦
        elim (>>=-eq-err (round authorized fired (a ∷ actions) last total s) _ (rw allowed at h)) [
          | inl e ↦ round-fuel μ (a ∷ actions) last total s all e
          | inr (p, e, rest) ↦ elim (>>=-eq-err (goes_on p.0) _ rest) [
            | inl f ↦ goes_on-fuel p.0 f
            | inr (b, went, end) ↦ elim (Bool-cases b) [
              | inl on ↦
                  let less : μ p.2 < μ s =
                    round-lowers μ a actions last total s p.0 p.1 p.2 all e (went ∙ ap ok on) in
                  rounds-enough μ a actions fuel p.0 p.1 p.2 all (omega arith) (rw on at end)
              | inr off ↦ absurd (let k : ok (p.1, p.2) ≡ err out_of_fuel = rw off at end in cc)
            ]
          ]
        ]
  ]

  -- When every action that fires lowers a measure of the state and no other action raises it, then
  -- fuel above the measure of the first state is enough for `fire`: the loop ends.
  pub fire-enough :
      (μ : S → ℕ) (fuel : ℕ) (actions : List (Action S)) (s : S)
      → All (Descends μ) actions
      → μ s < fuel
      → fire authorized fired fuel actions s ≢ err out_of_fuel
  unfolding fire rounds round goes_on
  fire-enough μ fuel (a ∷ actions) s all lt h =
      rounds-enough μ a actions fuel none (action_result false []) s all lt h
  fire-enough μ zero [] s all lt h = absurd (omega arith)
  fire-enough μ (suc fuel) [] s all lt h = elim (Bool-cases (authorized s)) [
    | inr refused ↦
        absurd (let k : ok (action_result false [], s) ≡ err out_of_fuel = rw refused at h in cc)
    | inl allowed ↦ absurd (let k : err name_error ≡ err out_of_fuel = rw allowed at h in cc)
  ]
