-- ===== src/Prelude/Dict.antt =====
-- Python's `dict` with string keys, as an association list.
-- An assignment to a present key keeps its place, as in the language's ordered dictionaries.
pub mod Least
pub mod Names
use Prim.Native.String.{String}
use mathlib.Core.Path.{◌≡◌, refl}
use mathlib.Core.Bool.{Bool, true, false, not, ◌&&◌, ◌||◌}
use mathlib.Core.Option.{Option, none, some}
use mathlib.Core.List.{List, [], ◌∷◌}
use native.Mathlib.Omega.{arith}
use text.Mathlib.Text.{◌==◌ as str_eq}
use text.Mathlib.TextEquality.{eq_iff}
use exjobb_calvin.Prelude.Tests.{if◌then◌else◌}
use exjobb_calvin.Prelude.Errors.{Result, ok, err, key_error}

abbrev pub Dict {ℓ} : Type ℓ → Type ℓ
Dict V = List (String × V)

module _ {ℓ} {V : Type ℓ} where
  -- d.get(k)
  unfoldable pub lookup : String → Dict V → Option V
  lookup k [] = none
  lookup k ((j, v) ∷ d) = if str_eq j k then some v else lookup k d

  -- d[k] = v
  unfoldable pub insert : String → V → Dict V → Dict V
  insert k v [] = (k, v) ∷ []
  insert k v ((j, w) ∷ d) = if str_eq j k then (j, v) ∷ d else (j, w) ∷ insert k v d

  -- d.pop(k, None)
  unfoldable pub remove : String → Dict V → Dict V
  remove k [] = []
  remove k ((j, w) ∷ d) = let rest = remove k d in if str_eq j k then rest else (j, w) ∷ rest

  -- k in d
  unfoldable pub has : String → Dict V → Bool
  unfolding lookup
  has k d = elim (lookup k d) [ none ↦ false | some _ ↦ true ]

  -- d[k], which raises KeyError
  unfoldable pub get : String → Dict V → Result V
  get k d = elim (lookup k d) [ none ↦ err key_error | some v ↦ ok v ]

  -- del d[k], which raises KeyError
  unfoldable pub del : String → Dict V → Result (Dict V)
  del k d = elim (lookup k d) [ none ↦ err key_error | some v ↦ ok (remove k d) ]

  pub lookup-insert :
      (k j : String) (v : V) (d : Dict V)
      → lookup j (insert k v d) ≡ (if str_eq k j then some v else lookup j d)
  unfolding lookup insert
  lookup-insert k j v [] = refl
  lookup-insert k j v ((i, w) ∷ d) =
      ground (arith, eq_iff k j, eq_iff i k, eq_iff i j, lookup-insert k j v d)

  pub lookup-remove :
      (k j : String) (d : Dict V)
      → lookup j (remove k d) ≡ (if str_eq k j then none else lookup j d)
  unfolding lookup remove
  lookup-remove k j [] = ground arith
  lookup-remove k j ((i, w) ∷ d) =
      ground (arith, lookup-remove k j d, eq_iff i k, eq_iff i j, eq_iff k j)

  pub has-insert :
      (k j : String) (v : V) (d : Dict V) → has j (insert k v d) ≡ (str_eq k j || has j d)
  unfolding has
  has-insert k j v d = ground (arith, lookup-insert k j v d)

  pub has-remove : (k j : String) (d : Dict V) → has j (remove k d) ≡ (not (str_eq k j) && has j d)
  unfolding has
  has-remove k j d = ground (arith, lookup-remove k j d)

  pub has-lookup : (k : String) (d : Dict V) → has k d ≡ true → (v : V) × (lookup k d ≡ some v)
  unfolding has
  has-lookup k d h = ground arith

  pub lookup-has : (k : String) (d : Dict V) (v : V) → lookup k d ≡ some v → has k d ≡ true
  unfolding has
  lookup-has k d v h = ground arith

  pub get-lookup : (k : String) (d : Dict V) (v : V) → lookup k d ≡ some v → get k d ≡ ok v
  unfolding get
  get-lookup k d v h = rw (h, get)

  pub del-lookup :
      (k : String) (d : Dict V) (v : V) → lookup k d ≡ some v → del k d ≡ ok (remove k d)
  unfolding del
  del-lookup k d v h = rw (h, del)

  -- Writing back what is there changes nothing.
  pub insert-lookup_self :
      (k : String) (d : Dict V) (v : V) → lookup k d ≡ some v → insert k v d ≡ d
  unfolding lookup insert
  insert-lookup_self k [] v h = cc
  insert-lookup_self k ((j, w) ∷ d) v h = ground (arith, insert-lookup_self k d v)

pub str_eq_refl : (s : String) → str_eq s s ≡ true
str_eq_refl s = (eq_iff s s).1 refl

pub lookup-insert_self {ℓ} :
    {V : Type ℓ} (k : String) (v : V) (d : Dict V) → lookup k (insert k v d) ≡ some v
lookup-insert_self k v d = simp (lookup-insert, str_eq_refl)

-- A dict with one key.
pub lookup-sole {ℓ} :
    {V : Type ℓ} (r s : String) (v : V)
    → lookup s ((r, v) ∷ []) ≡ (if str_eq r s then some v else none)
unfolding lookup
lookup-sole r s v = refl

pub lookup-sole_self {ℓ} : {V : Type ℓ} (r : String) (v : V) → lookup r ((r, v) ∷ []) ≡ some v
lookup-sole_self r v = rw lookup-sole (rw (str_eq_refl r))

pub insert-sole {ℓ} : {V : Type ℓ} (r : String) (v w : V) → insert r w ((r, v) ∷ []) ≡ (r, w) ∷ []
unfolding insert
insert-sole r v w = rw (str_eq_refl r)

pub ruleset dict_laws = (lookup-insert, lookup-remove, has-insert, has-remove, str_eq_refl)
