-- ===== src/Prelude/Dict/Names.antt =====
-- Python's `set` of strings, as a list: only membership is looked at.
use Prim.Native.String.{String}
use mathlib.Core.Path.{◌≡◌, refl}
use mathlib.Core.Bool.{Bool, false, not, ◌&&◌, ◌||◌}
use mathlib.Core.List.{List, [], ◌∷◌}
use native.Mathlib.Omega.{arith}
use text.Mathlib.Text.{◌==◌ as str_eq}
use text.Mathlib.TextEquality.{eq_iff}
use exjobb_calvin.Prelude.Tests.{if◌then◌else◌}

-- x in s
unfoldable pub contains : String → List String → Bool
contains x [] = false
contains x (y ∷ s) = str_eq y x || contains x s

-- s.add(x)
unfoldable pub add : String → List String → List String
add x s = if contains x s then s else x ∷ s

-- s.discard(x)
unfoldable pub discard : String → List String → List String
discard x [] = []
discard x (y ∷ s) = let rest = discard x s in if str_eq y x then rest else y ∷ rest

pub contains-add :
    (x y : String) (s : List String) → contains y (add x s) ≡ (str_eq x y || contains y s)
unfolding contains add
contains-add x y s = ground (arith, eq_iff x y)

pub contains-discard :
    (x y : String) (s : List String) → contains y (discard x s) ≡ (not (str_eq x y) && contains y s)
unfolding contains discard
contains-discard x y [] = ground arith
contains-discard x y (z ∷ s) =
    ground (arith, contains-discard x y s, eq_iff z x, eq_iff z y, eq_iff x y)

-- s |= set(xs)
unfoldable pub add_all : List String → List String → List String
add_all [] s = s
add_all (x ∷ xs) s = add_all xs (add x s)

-- s -= set(xs)
unfoldable pub discard_all : List String → List String → List String
discard_all [] s = s
discard_all (x ∷ xs) s = discard_all xs (discard x s)

pub contains-add_all :
    (y : String) (xs s : List String) → contains y (add_all xs s) ≡ (contains y xs || contains y s)
unfolding contains add_all
contains-add_all y [] s = refl
contains-add_all y (x ∷ xs) s = ground (arith, contains-add_all y xs (add x s), contains-add x y s)

pub contains-discard_all :
    (y : String) (xs s : List String)
    → contains y (discard_all xs s) ≡ (not (contains y xs) && contains y s)
unfolding contains discard_all
contains-discard_all y [] s = ground arith
contains-discard_all y (x ∷ xs) s =
    ground (arith, contains-discard_all y xs (discard x s), contains-discard x y s)

pub discard_all-nil : (xs : List String) → discard_all xs [] ≡ []
unfolding discard_all discard
discard_all-nil [] = refl
discard_all-nil (x ∷ xs) = discard_all-nil xs
