-- ===== src/Policy/Permits/Decisions.antt =====
-- Lists of decisions, as policy_decision_point.py collects them.
use exjobb_calvin.Prelude.{
  Bool, true, false, ◌||◌, ◌≡◌, ◌≢◌, refl, ap, List, [], ◌∷◌, ◌++◌, ◌⊎◌, inl, inr, Bool-cases,
  arith,
}
use exjobb_calvin.Token.Values.{Value}
use exjobb_calvin.Policy.Decision.{
  Decision, permit, deny, indeterminate, not_applicable, same_decision, Combining, permit_overrides,
  deny_overrides, other_combining, stops, holds_decision, all_same, permitted, conclude,
}

pub holds_decision-append :
    (d : Decision) (ds : List Decision) (e : Decision)
    → holds_decision d (ds ++ e ∷ []) ≡ (holds_decision d ds || same_decision e d)
unfolding holds_decision
holds_decision-append d [] e = ground arith
holds_decision-append d (x ∷ ds) e = ground (arith, holds_decision-append d ds e)

pub same_decision-eq : (d e : Decision) → same_decision d e ≡ true → d ≡ e
unfolding same_decision
same_decision-eq permit permit h = refl
same_decision-eq deny deny h = refl
same_decision-eq indeterminate indeterminate h = refl
same_decision-eq not_applicable not_applicable h = refl
same_decision-eq permit deny h = cc
same_decision-eq permit indeterminate h = cc
same_decision-eq permit not_applicable h = cc
same_decision-eq deny permit h = cc
same_decision-eq deny indeterminate h = cc
same_decision-eq deny not_applicable h = cc
same_decision-eq indeterminate permit h = cc
same_decision-eq indeterminate deny h = cc
same_decision-eq indeterminate not_applicable h = cc
same_decision-eq not_applicable permit h = cc
same_decision-eq not_applicable deny h = cc
same_decision-eq not_applicable indeterminate h = cc

-- With nothing denied and nothing indeterminate, what is not inapplicable is permitted.
pub permit_left :
    (ds : List Decision)
    → holds_decision indeterminate ds ≡ false
    → holds_decision deny ds ≡ false
    → all_same not_applicable ds ≡ false
    → holds_decision permit ds ≡ true
unfolding holds_decision all_same same_decision
permit_left [] i d a = cc
permit_left (permit ∷ ds) i d a = refl
permit_left (deny ∷ ds) i d a = cc
permit_left (indeterminate ∷ ds) i d a = cc
permit_left (not_applicable ∷ ds) i d a = permit_left ds i d a

pub nonempty-append : (xs ys : List Value) → xs ++ ys ≢ [] → (xs ≢ []) ⊎ (ys ≢ [])
nonempty-append [] ys h = inr h
nonempty-append (x ∷ xs) ys h = inl (λ e. cc)

-- What the loop has found so far: obligations come from a permit, and under deny_overrides
-- nothing has been denied.
pub record IsSoFar (c : Combining) (ds : List Decision) (os : List Value) : Type 0 where
  pub from_permit : os ≢ [] → holds_decision permit ds ≡ true
  pub none_denied : c ≡ deny_overrides → holds_decision deny ds ≡ false

pub permitted-permit :
    (c : Combining) (os o : List Value)
    → permitted c os ≡ (permit, o)
    → (c ≡ deny_overrides) ⊎ (os ≢ [])
unfolding permitted
permitted-permit deny_overrides os o h = inl refl
permitted-permit permit_overrides [] o h = cc
permitted-permit permit_overrides (x ∷ os) o h = inr (λ e. cc)
permitted-permit other_combining [] o h = cc
permitted-permit other_combining (x ∷ os) o h = inr (λ e. cc)

pub conclude-permit :
    (c : Combining) (ds : List Decision) (os o : List Value)
    → IsSoFar c ds os
    → conclude c ds os ≡ (permit, o)
    → holds_decision permit ds ≡ true
unfolding conclude
conclude-permit c ds os o far h = elim (Bool-cases (holds_decision indeterminate ds)) [
  | inl i ↦
      let e : (indeterminate, []) ≡ (permit, o) = rw i at h in
      absurd (let d : indeterminate ≡ permit = ap (λ a. a.0) e in cc)
  | inr i ↦ elim (Bool-cases (all_same not_applicable ds)) [
    | inl a ↦
        let e : (not_applicable, []) ≡ (permit, o) = rw (i, a) at h in
        absurd (let d : not_applicable ≡ permit = ap (λ a. a.0) e in cc)
    | inr a ↦
        let e : permitted c os ≡ (permit, o) = rw (i, a) at h in
        elim (permitted-permit c os o e) [
          | inl denying ↦ permit_left ds i (far.none_denied denying) a
          | inr some_left ↦ far.from_permit some_left
        ]
  ]
]

pub permit_counts : (d : Decision) → d ≡ permit → same_decision d permit ≡ true
unfolding same_decision
permit_counts permit e = refl
permit_counts deny e = cc
permit_counts indeterminate e = cc
permit_counts not_applicable e = cc

pub conclude_permit-settled :
    (c : Combining) (ds : List Decision) (os o : List Value)
    → conclude c ds os ≡ (permit, o)
    → holds_decision indeterminate ds ≡ false
unfolding conclude
conclude_permit-settled c ds os o h = elim (Bool-cases (holds_decision indeterminate ds)) [
  | inl i ↦
      let e : (indeterminate, []) ≡ (permit, o) = rw i at h in
      absurd (let d : indeterminate ≡ permit = ap (λ a. a.0) e in cc)
  | inr i ↦ i
]

pub or_left : (a b : Bool) → (a || b) ≡ false → (a ≡ false) × (b ≡ false)
or_left false b h = (refl, h)
or_left true b h = cc

pub same_decision-ne : (d e : Decision) → same_decision d e ≡ false → d ≢ e
unfolding same_decision
same_decision-ne d permit h p = absurd (let q = rw p at h in cc)
same_decision-ne d deny h p = absurd (let q = rw p at h in cc)
same_decision-ne d indeterminate h p = absurd (let q = rw p at h in cc)
same_decision-ne d not_applicable h p = absurd (let q = rw p at h in cc)

-- Under deny_overrides an answer lets the loop go on.
pub goes_on : (d : Decision) (o : List Value) → stops deny_overrides (d, o) ≡ false → d ≢ deny
unfolding stops
goes_on permit o h e = cc
goes_on indeterminate o h e = cc
goes_on not_applicable o h e = cc
goes_on deny o h e = cc

pub stopped : (d : Decision) (o : List Value) → stops deny_overrides (d, o) ≡ true → d ≢ permit
unfolding stops
stopped permit o h e = cc
stopped indeterminate o h e = cc
stopped not_applicable o h e = cc
stopped deny o h e = cc

pub or-cases : (a b : Bool) → (a || b) ≡ true → (a ≡ true) ⊎ (b ≡ true)
or-cases true b h = inl refl
or-cases false b h = inr h

pub or_right : (a : Bool) {b : Bool} → b ≡ true → (a || b) ≡ true
or_right a h = ground arith
