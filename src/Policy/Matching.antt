-- ===== src/Policy/Matching.antt =====
-- policy_decision_point.py: how a policy's target is matched against a request, with the attributes
-- that policy_information_point.py adds.
use exjobb_calvin.Prelude.{
  String, Bool, true, false, not, ◌&&◌, ◌||◌, Option, none, some, List, [], ◌∷◌, if◌then◌else◌,
  str_eq, Result, ok, err, ◌>>=◌, type_error, ◌==◌,
}
use exjobb_calvin.Prelude.Int.{ℤ, pos, negsuc}
use exjobb_calvin.Prelude.Dict.{Dict, lookup}
use exjobb_calvin.Token.Values.{
  Value, Values, Fields, null, bool, int, str, list, dict, nil, cons, end, field,
}

-- The attributes of a request, of a target and of the information point: by type and name.
abbrev pub Attributes : Type 0
Attributes = Dict (Dict Value)

-- attributes[attribute_type][attribute]; none for the KeyError of either.
unfoldable pub find : Attributes → String → String → Option Value
find attributes t a = elim (lookup t attributes) [ none ↦ none | some as' ↦ lookup a as' ]

-- `get_attribute_value` of the information point
unfoldable pub get_attribute_value : Attributes → String → String → Option Value
get_attribute_value pip t a = find pip t a

-- From the request, else from the information point.
unfoldable pub attribute_value : (pip request : Attributes) → String → String → Option Value
attribute_value pip request t a = elim (find request t a) [
  | none ↦ get_attribute_value pip t a
  | some v ↦ some v
]

unfoldable pub values : Values → List Value
values nil = []
values (cons v vs) = v ∷ values vs

unfoldable pub keys : Fields → List Value
keys end = []
keys (field k v fs) = str k ∷ keys fs

-- "turning single objects into a list"
unfoldable pub as_list : Value → List Value
as_list (list vs) = values vs
as_list v = v ∷ []

-- Python's equality of hashable values: True is 1, and False is 0.
unfoldable pub same_int : ℤ → ℤ → Bool
same_int (pos m) (pos n) = m == n
same_int (negsuc m) (negsuc n) = m == n
same_int _ _ = false

unfoldable pub as_int : Value → Option ℤ
as_int (bool true) = some (pos 1)
as_int (bool false) = some (pos 0)
as_int (int z) = some z
as_int _ = none

unfoldable pub same : Value → Value → Bool
same null null = true
same (str s) (str t) = str_eq s t
same v w = elim (as_int v) [
  | none ↦ false
  | some m ↦ elim (as_int w) [ none ↦ false | some n ↦ same_int m n ]
]

unfoldable pub hashable : Value → Bool
hashable (list _) = false
hashable (dict _) = false
hashable _ = true

unfoldable pub all_hashable : List Value → Bool
all_hashable [] = true
all_hashable (v ∷ vs) = hashable v && all_hashable vs

unfoldable pub among : Value → List Value → Bool
among v [] = false
among v (w ∷ ws) = same v w || among v ws

-- set.isdisjoint, which stops at the first value in common
unfoldable pub apart : List Value → List Value → Result Bool
apart set [] = ok true
apart set (v ∷ vs) =
    let rest = apart set vs in
    if not (hashable v) then err type_error else if among v set then ok false else rest

-- set(xs).isdisjoint(ys)
unfoldable pub disjoint : List Value → List Value → Result Bool
disjoint xs ys = if all_hashable xs then apart xs ys else err type_error

-- re.match(r + '$', x)
module _ (re_match : String → String → Bool) where
  -- none for the TypeError of a value that is not a string
  unfoldable pub match_one : Value → Value → Option Bool
  match_one (str r) (str x) = some (re_match r x)
  match_one _ _ = none

  -- the list of the matches of one pattern, and whether any is true
  unfoldable pub match_row : Value → List Value → Option Bool
  match_row r [] = some false
  match_row r (x ∷ xs) = elim (match_one r x) [
    | none ↦ none
    | some b ↦ elim (match_row r xs) [ none ↦ none | some c ↦ some (b || c) ]
  ]

  unfoldable pub match_any : (patterns values : List Value) → Option Bool
  match_any [] xs = some false
  match_any (r ∷ rs) xs = elim (match_row r xs) [
    | none ↦ none
    | some b ↦ elim (match_any rs xs) [ none ↦ none | some c ↦ some (b || c) ]
  ]

  -- One attribute of a target: by regular expressions, and by equality if a value is no string.
  unfoldable pub value_matches : (policy_value request_value : Value) → Result Bool
  value_matches p r = elim (match_any (as_list p) (as_list r)) [
    | some b ↦ ok b
    | none ↦ (do apart' ← disjoint (as_list r) (as_list p); ok (not apart'))
  ]

  module _ (pip request : Attributes) where
    unfoldable pub type_matches : String → Dict Value → Result Bool
    type_matches t [] = ok true
    type_matches t ((a, p) ∷ rest) = elim (attribute_value pip request t a) [
      | none ↦ ok false
      | some r ↦ (do b ← value_matches p r; if b then type_matches t rest else ok false)
    ]

    unfoldable pub target_matches : Attributes → Result Bool
    target_matches [] = ok true
    target_matches ((t, attributes) ∷ rest) = do
      b ← type_matches t attributes
      if b then target_matches rest else ok false

    -- "target" not in policy or target_matches(policy["target"], request)
    unfoldable pub applies : Option Attributes → Result Bool
    applies none = ok true
    applies (some target) = target_matches target
