-- ===== src/Policy/Decision.antt =====
-- policy_decision_point.py: the decisions of rules, policies and all policies, and the answer to a
-- request.
use exjobb_calvin.Prelude.{
  String, Bool, true, false, not, ◌&&◌, ◌||◌, Option, none, some, List, [], ◌∷◌, ◌++◌, length, ltb,
  if◌then◌else◌, Result, ok, err, ◌>>=◌,
}
use exjobb_calvin.Prelude.Dict.{Dict, lookup, insert}
use exjobb_calvin.Token.Values.{Value, str, list, nil, cons}
use exjobb_calvin.Policy.Matching.{Attributes, find, values, applies}
use exjobb_calvin.Policy.Condition.{Condition, satisfied}

pub data Decision : Type 0 where
  permit deny indeterminate not_applicable : Decision

unfoldable pub same_decision : Decision → Decision → Bool
same_decision permit permit = true
same_decision deny deny = true
same_decision indeterminate indeterminate = true
same_decision not_applicable not_applicable = true
same_decision _ _ = false

-- A decision with its obligations.
abbrev pub Answer : Type 0
Answer = Decision × List Value

pub data Combining : Type 0 where
  permit_overrides deny_overrides other_combining : Combining

pub record Rule : Type 0 where
  pub target : Option Attributes
  pub effect : Decision
  pub condition : Option Condition
  pub obligations : List Value

pub record Policy : Type 0 where
  pub target : Option Attributes
  pub rule_combining : Combining
  pub rules : List Rule

-- The early return of the loops over rules and policies.
unfoldable pub stops : Combining → Answer → Bool
stops permit_overrides (permit, []) = true
stops deny_overrides (deny, _) = true
stops _ _ = false

unfoldable pub holds_decision : Decision → List Decision → Bool
holds_decision d [] = false
holds_decision d (e ∷ es) = same_decision e d || holds_decision d es

-- all(x == d for x in decisions)
unfoldable pub all_same : Decision → List Decision → Bool
all_same d [] = true
all_same d (e ∷ es) = same_decision e d && all_same d es

-- What follows both loops.
unfoldable pub permitted : Combining → List Value → Answer
permitted deny_overrides os = (permit, os)
permitted _ [] = (deny, [])
permitted _ (o ∷ os) = (permit, o ∷ os)

unfoldable pub conclude : Combining → List Decision → List Value → Answer
conclude c ds os =
    if holds_decision indeterminate ds
    then (indeterminate, [])
    else if not (all_same not_applicable ds)
    then permitted c os
    else (not_applicable, [])

-- The loop over rules, and over policies: `decide` answers none where the target does not match,
-- and `gather` gives the obligations that are kept.
unfoldable pub scan :
    {X : Type 0}
    → Combining
    → (X → Result (Option Answer))
    → (Answer → List Value)
    → List X
    → List Decision
    → List Value
    → Result Answer
scan c decide gather [] ds os = ok (conclude c ds os)
scan c decide gather (x ∷ xs) ds os = do
  r ← decide x
  elim r [
    | none ↦ scan c decide gather xs ds os
    | some (d, o) ↦
        if stops c (d, o)
        then ok (d, [])
        else scan c decide gather xs (ds ++ d ∷ []) (os ++ gather (d, o))
  ]

-- "Obligations are only accepted if the decision is permit."
unfoldable pub of_permit : Answer → List Value
of_permit (permit, os) = os
of_permit _ = []

-- Of the policies all are taken.
unfoldable pub of_any : Answer → List Value
of_any (_, os) = os

-- except Exception: return ("indeterminate", [])
unfoldable pub caught : Result Answer → Answer
caught (ok a) = a
caught (err _) = (indeterminate, [])

module _ (re_match : String → String → Bool) (leq : Value → Value → Bool) (pip : Attributes) where
  unfoldable pub checked : Attributes → Rule → Condition → Result Answer
  checked request rule c = do
    b ← satisfied re_match leq pip request c
    ok (if b then (rule.effect, rule.obligations) else (not_applicable, []))

  unfoldable pub rule_decision : Attributes → Rule → Answer
  rule_decision request rule = elim rule.condition [
    | none ↦ (rule.effect, rule.obligations)
    | some c ↦ caught (checked request rule c)
  ]

  -- One round of the loop over the rules.
  unfoldable pub decide_rule : Attributes → Rule → Result (Option Answer)
  decide_rule request rule = do
    b ← applies re_match pip request rule.target
    ok (if b then some (rule_decision request rule) else none)

  unfoldable pub policy_decision : Attributes → Policy → Result Answer
  policy_decision request policy =
      scan policy.rule_combining (decide_rule request) of_permit policy.rules [] []

  unfoldable pub decide_policy : Attributes → Policy → Result (Option Answer)
  decide_policy request policy = do
    b ← applies re_match pip request policy.target
    if b then (do a ← policy_decision request policy; ok (some a)) else ok none

  -- `combined_policy_decision`, with the policies that the retrieval point reads from its files.
  unfoldable pub combined_policy_decision : Combining → Result (List Policy) → Attributes → Answer
  combined_policy_decision c get_policies request =
      caught (do policies ← get_policies; scan c (decide_policy request) of_any policies [] [])

-- What `authorize` answers: several requirements have a list of obligations each.
pub data Response : Type 0 where
  response : Decision → List Value → Response
  response_each : Decision → List (List Value) → Response

unfoldable pub decision_of : Response → Decision
decision_of (response d _) = d
decision_of (response_each d _) = d

-- The node's attributes in place of its id; none registered gives none.
unfoldable pub resource_of : Dict (Dict Value) → Value → Dict Value
resource_of nodes (str id) = elim (lookup id nodes) [ none ↦ [] | some attributes ↦ attributes ]
resource_of nodes _ = []

unfoldable pub with_resource : Dict (Dict Value) → Attributes → Attributes
with_resource nodes request = elim (find request "resource" "node_id") [
  | none ↦ request
  | some id ↦ insert "resource" (resource_of nodes id) request
]

-- request["action"]["requires"]: a list, as the format of a request has it.
unfoldable pub requirements : Attributes → List Value
requirements request = elim (find request "action" "requires") [
  | some (list vs) ↦ values vs
  | _ ↦ []
]

-- The request with this one requirement.
unfoldable pub requiring : Value → Attributes → Attributes
requiring v request = elim (lookup "action" request) [
  | none ↦ request
  | some action ↦ insert "action" (insert "requires" (list (cons v nil)) action) request
]

-- if policy_obligations: obligations.append(policy_obligations)
unfoldable pub append_some : List Value → List (List Value) → List (List Value)
append_some [] all = all
append_some (o ∷ os) all = all ++ (o ∷ os) ∷ []

module _ (decide : Attributes → Answer) where
  -- One request for each requirement.
  unfoldable pub decide_each :
      Attributes
      → List Value
      → List Decision
      → List (List Value)
      → List Decision × List (List Value)
  decide_each request [] ds all = (ds, all)
  decide_each request (v ∷ vs) ds all =
      let (d, os) = decide (requiring v request) in
      decide_each request vs (ds ++ d ∷ []) (append_some os all)

  -- "If the policy decisions for all requirements are the same, respond with that decision."
  unfoldable pub agreed : List Decision × List (List Value) → Response
  agreed ([], all) = response_each indeterminate []
  agreed (d ∷ ds, all) =
      if all_same d (d ∷ ds) then response_each d all else response_each indeterminate []

  unfoldable pub respond : Attributes → Response
  respond request =
      if ltb 1 (length (requirements request))
      then agreed (decide_each request (requirements request) [] [])
      else (let (d, os) = decide request in response d os)

-- The decision point: its nodes, and the combining algorithm of its configuration.
pub record Pdp : Type 0 where
  pub policy_combining : Combining
  pub registered_nodes : Dict (Dict Value)

unfoldable pub register_node : String → Dict Value → Pdp → Pdp
register_node id attributes pdp = record pdp {
  registered_nodes = insert id attributes pdp.registered_nodes;
}

unfoldable pub authorize :
    (re_match : String → String → Bool) (leq : Value → Value → Bool) (pip : Attributes)
    (get_policies : Result (List Policy))
    → Pdp
    → Attributes
    → Response
authorize re_match leq pip get_policies pdp request =
    respond (combined_policy_decision re_match leq pip pdp.policy_combining get_policies)
      (with_resource pdp.registered_nodes request)
