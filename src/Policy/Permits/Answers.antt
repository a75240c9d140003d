-- ===== src/Policy/Permits/Answers.antt =====
-- policy_decision_point.py: what a permit of `authorize` says of every requirement of the request,
-- and what a permit under deny_overrides says of the rules.
use exjobb_calvin.Prelude.{
  String, Bool, true, false, ◌&&◌, ◌≡◌, refl, sym, ap, ◌∙◌, subst, List, [], ◌∷◌, ◌++◌, All,
  All-weaken, ◌⊎◌, inl, inr, length, ltb, Result, ok, Bool-cases, arith,
}
use exjobb_calvin.Token.Values.{Value}
use exjobb_calvin.Policy.Matching.{Attributes}
use exjobb_calvin.Policy.Decision.{
  Decision, permit, indeterminate, same_decision, Answer, deny_overrides, Policy, of_permit,
  decide_rule, scan, policy_decision, combined_policy_decision, decision_of, respond, decide_each,
  append_some, agreed, requirements, requiring, Pdp, authorize, with_resource, all_same,
}
use exjobb_calvin.Policy.Permits.Decisions.{same_decision-eq}
use exjobb_calvin.Policy.Permits.Scans.{Passes, scan_deny_overrides-Passes}
use exjobb_calvin.Policy.Permits.Granted.{IsGranted, combined-IsGranted}

module _ (decide : Attributes → Answer) where
  -- The decision on a request is a permit.
  abbrev pub Permitted : Attributes → Type 0
  Permitted request = (o : List Value) × (decide request ≡ (permit, o))

  all_same-last :
      (d : Decision) (ds : List Decision) (e : Decision)
      → all_same d (ds ++ e ∷ []) ≡ (all_same d ds && same_decision e d)
  unfolding all_same
  all_same-last d [] e = ground arith
  all_same-last d (x ∷ ds) e = ground (arith, all_same-last d ds e)

  and-split : (a b : Bool) → (a && b) ≡ true → (a ≡ true) × (b ≡ true)
  and-split true b h = (refl, h)
  and-split false b h = cc

  decide_each-permit :
      (request : Attributes) (vs : List Value) (ds : List Decision) (all : List (List Value))
      → all_same permit (decide_each decide request vs ds all).0 ≡ true
      → (all_same permit ds ≡ true) × All (λ v. Permitted (requiring v request)) vs
  unfolding decide_each
  decide_each-permit request [] ds all h = (h, tt)
  decide_each-permit request (v ∷ vs) ds all h =
      let a : Answer = decide (requiring v request) in
      let (seen, rest) = decide_each-permit request vs (ds ++ a.0 ∷ []) (append_some a.1 all) h in
      let (before, now) = and-split _ _ (sym (all_same-last permit ds a.0) ∙ seen) in
      let here : Permitted (requiring v request) =
        (a.1, ap (λ d. (d, a.1)) (same_decision-eq a.0 permit now)) in
      let both : All (λ w. Permitted (requiring w request)) (v ∷ vs) = (here, rest) in
      (before, both)

  agreed-permit :
      (ds : List Decision) (all : List (List Value))
      → decision_of (agreed decide (ds, all)) ≡ permit
      → all_same permit ds ≡ true
  unfolding agreed decision_of
  agreed-permit [] all h = cc
  agreed-permit (d ∷ ds) all h = elim (Bool-cases (all_same d (d ∷ ds))) [
    | inl same ↦ let p : d ≡ permit = rw same at h in subst (λ e. all_same e (d ∷ ds) ≡ true) p same
    | inr other ↦ absurd (let p : indeterminate ≡ permit = rw other at h in cc)
  ]

  -- What a permitting response takes: each requirement by itself, or the request as it is.
  abbrev pub PermittedEach : Attributes → Type 0
  PermittedEach request =
      ((ltb 1 (length (requirements request)) ≡ true)
        × All (λ v. Permitted (requiring v request)) (requirements request))
      ⊎ Permitted request

  respond-permit :
      (request : Attributes) → decision_of (respond decide request) ≡ permit → PermittedEach request
  unfolding respond decision_of
  respond-permit request h = elim (Bool-cases (ltb 1 (length (requirements request)))) [
    | inl several ↦
        let all = decide_each decide request (requirements request) [] [] in
        let k : decision_of (agreed decide all) ≡ permit = rw several at h in
        let (_, each) =
          decide_each-permit request (requirements request) [] [] (agreed-permit all.0 all.1 k) in
        inl (several, each)
    | inr single ↦
        let a : Answer = decide request in
        let k : a.0 ≡ permit = rw single at h in inr (a.1, ap (λ d. (d, a.1)) k)
  ]

-- Each requirement granted by itself, or the request as it is.
abbrev pub GrantedEach :
    (String → String → Bool)
    → (Value → Value → Bool)
    → Attributes
    → Result (List Policy)
    → Attributes
    → Type 0
GrantedEach re_match leq pip get_policies request =
    ((ltb 1 (length (requirements request)) ≡ true)
      × All (λ v. IsGranted re_match leq pip get_policies (requiring v request))
          (requirements request))
    ⊎ IsGranted re_match leq pip get_policies request

-- When `authorize` permits a request, its policies could be read, and the request (or, when it has
-- more than one requirement, the request with each one of them alone) is granted by a policy whose
-- target matches, through a rule whose target matches, whose effect is permit and whose condition
-- holds. This is so for any regular expressions, any order, and any combining algorithm.
pub authorize-Granted :
    (re_match : String → String → Bool) (leq : Value → Value → Bool) (pip : Attributes)
    (get_policies : Result (List Policy)) (pdp : Pdp) (request : Attributes)
    → decision_of (authorize re_match leq pip get_policies pdp request) ≡ permit
    → GrantedEach re_match leq pip get_policies (with_resource pdp.registered_nodes request)
unfolding authorize
authorize-Granted re_match leq pip get_policies pdp request h =
    let decide = combined_policy_decision re_match leq pip pdp.policy_combining get_policies in
    let granted = λ (r : Attributes) (p : Permitted decide r).
      combined-IsGranted re_match leq pip pdp.policy_combining get_policies r p.0 p.1 in
    let full = with_resource pdp.registered_nodes request in
    elim (respond-permit decide full h) [
      | inl (several, each) ↦
          inl
            (several, All-weaken _ _ (requirements full) (λ v p. granted (requiring v full) p) each)
      | inr single ↦ inr (granted full single)
    ]

-- A policy that combines its rules by deny_overrides permits a request only if every one of its
-- rules either has a target that does not match, or decides neither deny nor indeterminate.
pub policy_decision-deny_overrides :
    (re_match : String → String → Bool) (leq : Value → Value → Bool) (pip request : Attributes)
    (policy : Policy) (o : List Value)
    → policy.rule_combining ≡ deny_overrides
    → policy_decision re_match leq pip request policy ≡ ok (permit, o)
    → All (Passes (decide_rule re_match leq pip request)) policy.rules
unfolding policy_decision
policy_decision-deny_overrides re_match leq pip request policy o denying h =
    let (_, all) =
      scan_deny_overrides-Passes (decide_rule re_match leq pip request) of_permit policy.rules [] []
        o
        (sym (
            ap (λ c. scan c (decide_rule re_match leq pip request) of_permit policy.rules [] [])
              denying)
          ∙ h) in
    all
