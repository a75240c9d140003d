-- ===== src/Token/Values.antt =====
-- The values that a token may carry: those that the JSON coder can write, without floats.
use exjobb_calvin.Prelude.{
  zero, String, Bool, true, false, not, List, [], ◌∷◌, ◌==◌, str_eq, if◌then◌else◌,
}
use exjobb_calvin.Prelude.Int.{ℤ, pos}

mutual
  pub data Value : Type 0 where
    null : Value
    bool : Bool → Value
    int : ℤ → Value
    str : String → Value
    list : Values → Value
    dict : Fields → Value

  pub data Values : Type 0 where
    nil : Values
    cons : Value → Values → Values

  pub data Fields : Type 0 where
    end : Fields
    field : String → Value → Fields → Fields

-- d.get(k, default)
unfoldable pub get_or : String → Fields → Value → Value
get_or k end default = default
get_or k (field j v fs) default = if str_eq j k then v else get_or k fs default

-- bool(v)
unfoldable pub truthy : Value → Bool
truthy null = false
truthy (bool b) = b
truthy (int (pos zero)) = false
truthy (int _) = true
truthy (str s) = not (str_eq s "")
truthy (list nil) = false
truthy (list (cons _ _)) = true
truthy (dict end) = false
truthy (dict (field _ _ _)) = true

-- v == True, which the number 1 is too
unfoldable pub is_true : Value → Bool
is_true (bool b) = b
is_true (int (pos n)) = n == 1
is_true _ = false

-- A list of texts.
unfoldable pub texts : List String → Values
texts [] = nil
texts (s ∷ ss) = cons (str s) (texts ss)
