-- ===== src/Examples/Access.antt =====
-- Policies of calvin/utilities/authorization with one rule.
use exjobb_calvin.Prelude.{String, Bool, false, ◌≡◌, refl, none, some, [], ◌∷◌, str_eq, ok, All}
use exjobb_calvin.Token.Values.{Value, str, list, nil, cons}
use exjobb_calvin.Prelude.Dict.{lookup}
use exjobb_calvin.Policy.Matching.{
  Attributes, applies, target_matches, type_matches, attribute_value, find, value_matches, as_list,
  match_any, match_row, match_one, values,
}
use exjobb_calvin.Policy.Decision.{
  permit, deny_overrides, permit_overrides, Rule, Policy, Pdp, authorize, with_resource,
  decide_rule, decision_of, policy_decision, respond, combined_policy_decision, requirements,
  caught, scan, decide_policy, rule_decision, conclude, holds_decision, all_same, same_decision,
  permitted, stops, of_permit, of_any,
}
use exjobb_calvin.Policy.Permits.Scans.{Passes}
use exjobb_calvin.Policy.Permits.Answers.{
  GrantedEach, authorize-Granted, policy_decision-deny_overrides,
}

-- The patterns of the example are plain texts.
abbrev plain : String → String → Bool
plain r x = str_eq r x

abbrev no_order : Value → Value → Bool
no_order v w = false

-- "subject": {"user": ["user1"]}
abbrev user : Attributes
user = ("subject", ("user", list (cons (str "user1") nil)) ∷ []) ∷ []

abbrev rule : Rule
rule = record { target = some user; effect = permit; condition = none; obligations = [] }

abbrev policy : Policy
policy = record { target = none; rule_combining = deny_overrides; rules = rule ∷ [] }

abbrev pdp : Pdp
pdp = record { policy_combining = permit_overrides; registered_nodes = [] }

rule_permits : policy_decision plain no_order [] user policy ≡ ok (permit, [])
unfolding policy_decision scan decide_rule rule_decision applies target_matches type_matches
    attribute_value find lookup value_matches as_list match_any match_row match_one values conclude
    holds_decision all_same same_decision permitted stops of_permit
rule_permits = refl

policy_decision-deny_overrides_example :
    All (Passes (decide_rule plain no_order [] user)) (rule ∷ [])
policy_decision-deny_overrides_example =
    policy_decision-deny_overrides plain no_order [] user policy [] refl rule_permits

user_permitted : decision_of (authorize plain no_order [] (ok (policy ∷ [])) pdp user) ≡ permit
unfolding authorize respond with_resource requirements combined_policy_decision caught decide_policy
    policy_decision scan decide_rule rule_decision applies target_matches type_matches
    attribute_value find lookup value_matches as_list match_any match_row match_one values conclude
    holds_decision all_same same_decision permitted stops of_permit of_any decision_of
user_permitted = refl

authorize-Granted_example : GrantedEach plain no_order [] (ok (policy ∷ [])) (with_resource [] user)
authorize-Granted_example =
    authorize-Granted plain no_order [] (ok (policy ∷ [])) pdp user user_permitted
