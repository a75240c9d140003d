-- ===== src/Policy/Permits/Granted.antt =====
-- policy_decision_point.py: what it takes for a rule, a policy and the decision point to permit.
use exjobb_calvin.Prelude.{
  String, Bool, true, ◌≡◌, ◌≢◌, refl, sym, ap, ◌∙◌, Option, none, some, List, [], ◌∷◌, ◌++◌, Any,
  Any-map, inl, inr, Result, ok, err, >>=-eq-ok, ok-injective, Bool-cases, Option-cases, none≢some,
  some-injective,
}
use exjobb_calvin.Token.Values.{Value}
use exjobb_calvin.Policy.Matching.{Attributes, applies}
use exjobb_calvin.Policy.Condition.{Condition, satisfied}
use exjobb_calvin.Policy.Decision.{
  Decision, permit, deny, indeterminate, not_applicable, Answer, Combining, permit_overrides,
  deny_overrides, other_combining, Rule, Policy, scan, conclude, permitted, stops, of_permit,
  of_any, caught, checked, rule_decision, decide_rule, policy_decision, decide_policy,
  combined_policy_decision, holds_decision, all_same,
}
use exjobb_calvin.Policy.Permits.Scans.{IsPermit, GathersPermits, scan-permit_source}

of_permit-gathers : (d : Decision) (o : List Value) → of_permit (d, o) ≢ [] → d ≡ permit
unfolding of_permit
of_permit-gathers permit o n = refl
of_permit-gathers deny o n = absurd (n refl)
of_permit-gathers indeterminate o n = absurd (n refl)
of_permit-gathers not_applicable o n = absurd (n refl)

permitted-obliges :
    (c : Combining) (os : List Value) (d : Decision) (o : List Value)
    → permitted c os ≡ (d, o)
    → o ≢ []
    → d ≡ permit
unfolding permitted
permitted-obliges deny_overrides os d o h n = sym (ap (λ a. a.0) h)
permitted-obliges permit_overrides [] d o h n = absurd (n (sym (ap (λ a. a.1) h)))
permitted-obliges permit_overrides (x ∷ os) d o h n = sym (ap (λ a. a.0) h)
permitted-obliges other_combining [] d o h n = absurd (n (sym (ap (λ a. a.1) h)))
permitted-obliges other_combining (x ∷ os) d o h n = sym (ap (λ a. a.0) h)

conclude-obliges :
    (c : Combining) (ds : List Decision) (os : List Value) (d : Decision) (o : List Value)
    → conclude c ds os ≡ (d, o)
    → o ≢ []
    → d ≡ permit
unfolding conclude
conclude-obliges c ds os d o h n = elim (Bool-cases (holds_decision indeterminate ds)) [
  | inl i ↦ let e : (indeterminate, []) ≡ (d, o) = rw i at h in absurd (n (sym (ap (λ a. a.1) e)))
  | inr i ↦ elim (Bool-cases (all_same not_applicable ds)) [
    | inl a ↦
        let e : (not_applicable, []) ≡ (d, o) = rw (i, a) at h in absurd (n (sym (ap (λ a. a.1) e)))
    | inr a ↦ permitted-obliges c os d o (rw (i, a) at h) n
  ]
]

-- Whatever the loop gathers, its answer has obligations only with a permit.
scan-obliges :
    {X : Type 0} (c : Combining) (decide : X → Result (Option Answer))
    (gather : Answer → List Value) (xs : List X) (ds : List Decision) (os : List Value)
    (d : Decision) (o : List Value)
    → scan c decide gather xs ds os ≡ ok (d, o)
    → o ≢ []
    → d ≡ permit
unfolding scan
scan-obliges c decide gather [] ds os d o h n = conclude-obliges c ds os d o (ok-injective _ _ h) n
scan-obliges c decide gather (x ∷ xs) ds os d o h n =
    let (r, e, rest) = >>=-eq-ok (decide x) _ h in
    elim (Option-cases r) [
      | inl skip ↦ scan-obliges c decide gather xs ds os d o (rw skip at rest) n
      | inr (a, found) ↦ elim (Bool-cases (stops c a)) [
        | inl end ↦
            let back : ok (a.0, []) ≡ ok (d, o) = rw (found, end) at rest in
            absurd (n (sym (ap (λ b. b.1) (ok-injective (a.0, []) (d, o) back))))
        | inr on ↦
            scan-obliges c decide gather xs (ds ++ a.0 ∷ []) (os ++ gather a) d o
              (rw (found, on) at rest) n
      ]
    ]

module _ (re_match : String → String → Bool) (leq : Value → Value → Bool) (pip : Attributes) where
  -- The condition of a rule holds, or there is none.
  abbrev pub Holds : Attributes → Option Condition → Type 0
  Holds request none = Unit
  Holds request (some c) = satisfied re_match leq pip request c ≡ ok true

  -- The rule's target matches, its effect is permit, and its condition holds.
  pub record Permits (request : Attributes) (rule : Rule) : Type 0 where
    pub target_applies : applies re_match pip request rule.target ≡ ok true
    pub permits : rule.effect ≡ permit
    pub condition_holds : Holds request rule.condition

  -- The policy's target matches, and one of its rules permits.
  pub record Grants (request : Attributes) (policy : Policy) : Type 0 where
    pub target_applies : applies re_match pip request policy.target ≡ ok true
    pub some_rule : Any (Permits request) policy.rules

  -- The policies can be read, and one of them grants the request.
  abbrev pub IsGranted : Result (List Policy) → Attributes → Type 0
  IsGranted get_policies request =
      (policies : List Policy) × (get_policies ≡ ok policies) × Any (Grants request) policies

  caught-ok : (r : Result Answer) (o : List Value) → caught r ≡ (permit, o) → r ≡ ok (permit, o)
  unfolding caught
  caught-ok (ok a) o h = ap ok h
  caught-ok (err e) o h = absurd (let d : indeterminate ≡ permit = ap (λ a. a.0) h in cc)

  checked-permit :
      (request : Attributes) (rule : Rule) (c : Condition) (o : List Value)
      → checked re_match leq pip request rule c ≡ ok (permit, o)
      → (rule.effect ≡ permit) × (satisfied re_match leq pip request c ≡ ok true)
  unfolding checked
  checked-permit request rule c o h =
      let (b, e, rest) = >>=-eq-ok (satisfied re_match leq pip request c) _ h in
      let a = ok-injective _ _ rest in
      elim (Bool-cases b) [
        | inl on ↦
            let k : (rule.effect, rule.obligations) ≡ (permit, o) = rw on at a in
            (ap (λ z. z.0) k, e ∙ ap ok on)
        | inr off ↦
            let k : (not_applicable, []) ≡ (permit, o) = rw off at a in
            absurd (let d : not_applicable ≡ permit = ap (λ z. z.0) k in cc)
      ]

  -- The decision of a rule by its condition, which the rule has as `k`.
  decided_by : Attributes → Rule → Option Condition → Answer
  decided_by request rule none = (rule.effect, rule.obligations)
  decided_by request rule (some c) = caught (checked re_match leq pip request rule c)

  rule_decision-eq :
      (request : Attributes) (rule : Rule)
      → rule_decision re_match leq pip request rule ≡ decided_by request rule rule.condition
  unfolding rule_decision decided_by
  rule_decision-eq request rule = elim (Option-cases rule.condition) [
    | inl n ↦ simp (n, rule_decision)
    | inr (c, s) ↦ simp (s, rule_decision)
  ]

  decided_by-permit :
      (request : Attributes) (rule : Rule) (k : Option Condition) (o : List Value)
      → decided_by request rule k ≡ (permit, o)
      → (rule.effect ≡ permit) × Holds request k
  unfolding decided_by
  decided_by-permit request rule none o h = (ap (λ z. z.0) h, tt)
  decided_by-permit request rule (some c) o h =
      let (p, q) = checked-permit request rule c o (caught-ok _ o h) in (p, q)

  rule_decision-permit :
      (request : Attributes) (rule : Rule) (o : List Value)
      → rule_decision re_match leq pip request rule ≡ (permit, o)
      → (rule.effect ≡ permit) × Holds request rule.condition
  rule_decision-permit request rule o h =
      decided_by-permit request rule rule.condition o (sym (rule_decision-eq request rule) ∙ h)

  decide_rule-permit :
      (request : Attributes) (rule : Rule)
      → IsPermit (decide_rule re_match leq pip request) rule
      → Permits request rule
  unfolding decide_rule
  decide_rule-permit request rule (o, h) =
      let (b, e, rest) = >>=-eq-ok (applies re_match pip request rule.target) _ h in
      let a = ok-injective _ _ rest in
      elim (Bool-cases b) [
        | inl on ↦
            let k : some (rule_decision re_match leq pip request rule) ≡ some (permit, o) =
              rw on at a in
            let (p, c) = rule_decision-permit request rule o (some-injective _ _ k) in
            record { target_applies = e ∙ ap ok on; permits = p; condition_holds = c }
        | inr off ↦ absurd (none≢some (rw off at a))
      ]

  decide_policy-answer :
      (request : Attributes) (policy : Policy) (a : Answer)
      → decide_policy re_match leq pip request policy ≡ ok (some a)
      → (applies re_match pip request policy.target ≡ ok true)
        × (policy_decision re_match leq pip request policy ≡ ok a)
  unfolding decide_policy
  decide_policy-answer request policy a h =
      let (b, e, rest) = >>=-eq-ok (applies re_match pip request policy.target) _ h in
      elim (Bool-cases b) [
        | inl on ↦
            let (c, d, done) =
              >>=-eq-ok (policy_decision re_match leq pip request policy) (λ x. ok (some x))
                (rw on at rest) in
            (e ∙ ap ok on, d ∙ ap ok (some-injective c a (ok-injective _ _ done)))
        | inr off ↦ absurd (none≢some (ok-injective _ _ (rw off at rest)))
      ]

  policy-Grants :
      (request : Attributes) (policy : Policy)
      → IsPermit (decide_policy re_match leq pip request) policy
      → Grants request policy
  unfolding policy_decision
  policy-Grants request policy (o, h) =
      let (target, decided) = decide_policy-answer request policy (permit, o) h in
      record {
        target_applies = target;
        some_rule = Any-map _ _ policy.rules (decide_rule-permit request) (
            scan-permit_source (decide_rule re_match leq pip request) of_permit
              (λ rule d os e n. of_permit-gathers d os n) policy.rule_combining policy.rules o
              decided);
      }

  policy-gathers :
      (request : Attributes) → GathersPermits (decide_policy re_match leq pip request) of_any
  unfolding policy_decision of_any
  policy-gathers request policy d o h n =
      let (target, decided) = decide_policy-answer request policy (d, o) h in
      scan-obliges policy.rule_combining (decide_rule re_match leq pip request) of_permit
        policy.rules [] [] d o decided n

  pub combined-IsGranted :
      (c : Combining) (get_policies : Result (List Policy)) (request : Attributes) (o : List Value)
      → combined_policy_decision re_match leq pip c get_policies request ≡ (permit, o)
      → IsGranted get_policies request
  unfolding combined_policy_decision
  combined-IsGranted c get_policies request o h =
      let (policies, e, rest) = >>=-eq-ok get_policies _ (caught-ok _ o h) in
      (
        policies,
        e,
        Any-map _ _ policies (policy-Grants request) (
            scan-permit_source (decide_policy re_match leq pip request) of_any
              (policy-gathers request) c policies o rest),
      )
