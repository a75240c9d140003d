-- ===== src/Policy/Condition.antt =====
-- policy_decision_point.py: the functions of a rule's condition.
use exjobb_calvin.Prelude.{
  String, Bool, true, false, not, ◌&&◌, ◌||◌, Option, none, some, List, [], ◌∷◌, if◌then◌else◌,
  str_eq, Result, ok, err, ◌>>=◌, type_error, index_error,
}
use exjobb_calvin.Token.Values.{truthy, Value, null, bool, str, list, dict, nil, cons}
use exjobb_calvin.Policy.Matching.{
  Attributes, attribute_value, values, keys, same, disjoint, match_any,
}

-- An argument: a value of the policy, or a text that starts with "attr", split at its colons.
pub data Argument : Type 0 where
  const : Value → Argument
  attr : List String → Argument

-- An argument of a condition may be a function of arguments. One that is nested deeper is a dict,
-- and so a value.
pub data Operand : Type 0 where
  argument : Argument → Operand
  function : (func : String) → List Argument → Operand

pub record Condition : Type 0 where
  pub func : String
  pub attributes : List Operand

-- "turning strings into single element lists"
unfoldable pub wrap : Value → Value
wrap (str s) = list (cons (str s) nil)
wrap v = v

-- all(args), and True in args
unfoldable pub all_truthy : List Value → Bool
all_truthy [] = true
all_truthy (v ∷ vs) = truthy v && all_truthy vs

unfoldable pub has_true : List Value → Bool
has_true [] = false
has_true (v ∷ vs) = same v (bool true) || has_true vs

-- args[0] and args[1]
unfoldable pub two : List Value → Result (Value × Value)
two [] = err index_error
two (a ∷ []) = err index_error
two (a ∷ b ∷ _) = ok (a, b)

-- The values that iterating over one gives. No text gets here: `wrap` has made it a list.
unfoldable pub iterate : Value → Result (List Value)
iterate (list vs) = ok (values vs)
iterate (dict fs) = ok (keys fs)
iterate _ = err type_error

-- not set(a).isdisjoint(b)
unfoldable pub share : Value → Value → Result Bool
share a b = do xs ← iterate a; ys ← iterate b; apart ← disjoint xs ys; ok (not apart)

module _ (re_match : String → String → Bool) (leq : Value → Value → Bool) where
  -- any([re.match(r+'$', x) for r in b for x in a]); none for a TypeError. Without a pattern in
  -- `b` nothing iterates over `a`.
  unfoldable pub any_match : Value → List Value → Option Bool
  any_match a [] = some false
  any_match a (r ∷ rs) = elim (iterate a) [ err _ ↦ none | ok xs ↦ match_any re_match (r ∷ rs) xs ]

  unfoldable pub equal : Value → Value → Result Bool
  equal a b = elim (iterate b) [
    | err _ ↦ share a b
    | ok rs ↦ elim (any_match a rs) [ none ↦ share a b | some m ↦ ok m ]
  ]

  -- The function of these arguments. An unknown one returns None.
  unfoldable pub apply : String → List Value → Result Value
  apply func args =
      if str_eq func "equal"
      then (do (a, b) ← two args; e ← equal a b; ok (bool e))
      else if str_eq func "not_equal"
      then (do (a, b) ← two args; e ← equal a b; ok (bool (not e)))
      else if str_eq func "and"
      then ok (bool (all_truthy args))
      else if str_eq func "or"
      then ok (bool (has_true args))
      else if str_eq func "less_than_or_equal"
      then (do (a, b) ← two args; ok (bool (leq a b)))
      else if str_eq func "greater_than_or_equal"
      then (do (a, b) ← two args; ok (bool (leq b a)))
      else ok null

  module _ (pip request : Attributes) where
    -- none for an attribute that is not found
    unfoldable pub resolve : Argument → Result (Option Value)
    resolve (const v) = ok (some (wrap v))
    resolve (attr (_ ∷ t ∷ a ∷ _)) = elim (attribute_value pip request t a) [
      | none ↦ ok none
      | some v ↦ ok (some (wrap v))
    ]
    resolve (attr _) = err index_error

    unfoldable pub resolve_all : List Argument → Result (Option (List Value))
    resolve_all [] = ok (some [])
    resolve_all (x ∷ xs) = do
      v ← resolve x
      let rest = resolve_all xs
      elim v [
        | none ↦ ok none
        | some v ↦ (do vs ← rest; elim vs [ none ↦ ok none | some vs ↦ ok (some (v ∷ vs)) ])
      ]

    -- `evaluate_function`: False when an attribute is not found.
    unfoldable pub evaluate_function : String → List Argument → Result Value
    evaluate_function func args = do
      vs ← resolve_all args
      elim vs [ none ↦ ok (bool false) | some vs ↦ apply func vs ]

    -- The loop of `rule_decision` that evaluates the nested functions.
    unfoldable pub operands : List Operand → Result (List Argument)
    operands [] = ok []
    operands (argument x ∷ xs) = do ys ← operands xs; ok (x ∷ ys)
    operands (function f args ∷ xs) = do
      v ← evaluate_function f args
      ys ← operands xs
      ok (const v ∷ ys)

    -- rule_satisfied
    unfoldable pub satisfied : Condition → Result Bool
    satisfied c = do args ← operands c.attributes; v ← evaluate_function c.func args; ok (truthy v)
