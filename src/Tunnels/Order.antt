-- ===== src/Tunnels/Order.antt =====
-- The order of texts, which calvin/runtime/north/calvin_proto.py uses on the ids of tunnels.
use Prim.Native.Nat.{Ordering, compare as compare_ℕ}
use Prim.Native.Char.{code}
use Prim.Native.String.{String, [], ◌∷◌, compare, then as earlier}
use Prim.Native.String.compare
use Prim.Native.Nat.compare as compare_ℕ
use text.Mathlib.TextEquality.{path_by_compare}
use exjobb_calvin.Prelude.{
  ℕ, Bool, true, false, zero, suc, ◌≡◌, refl, sym, ap, ◌∙◌, arith, if◌then◌else◌,
}

-- s < t
unfoldable pub str_lt : String → String → Bool
str_lt s t = elim (compare s t) [ Ordering.lt ↦ true | _ ↦ false ]

abbrev pub greater : String → String → String
greater s t = if str_lt s t then t else s

abbrev opposite : Ordering → Ordering
opposite Ordering.lt = Ordering.gt
opposite Ordering.eq = Ordering.eq
opposite Ordering.gt = Ordering.lt

opposite-then : (o r : Ordering) → opposite (earlier o r) ≡ earlier (opposite o) (opposite r)
opposite-then Ordering.lt r = refl
opposite-then Ordering.eq r = refl
opposite-then Ordering.gt r = refl

compare_nat-opposite : (m n : ℕ) → compare_ℕ n m ≡ opposite (compare_ℕ m n)
compare_nat-opposite zero zero = rw (compare_ℕ.zero-zero) refl
compare_nat-opposite zero (suc n) = rw (compare_ℕ.zero-suc, compare_ℕ.suc-zero) refl
compare_nat-opposite (suc m) zero = rw (compare_ℕ.zero-suc, compare_ℕ.suc-zero) refl
compare_nat-opposite (suc m) (suc n) =
    rw (compare_ℕ.suc-suc n m, compare_ℕ.suc-suc m n) (compare_nat-opposite m n)

compare-opposite : (s t : String) → compare t s ≡ opposite (compare s t)
compare-opposite [] [] = rw (compare.nil-nil) refl
compare-opposite [] (d ∷ t) = rw (compare.nil-cons, compare.cons-nil) refl
compare-opposite (c ∷ s) [] = rw (compare.nil-cons, compare.cons-nil) refl
compare-opposite (c ∷ s) (d ∷ t) =
    compare.cons-cons d c t s
    ∙ rw (compare_nat-opposite (code c) (code d), compare-opposite s t)
        (sym (opposite-then (compare_ℕ (code c) (code d)) (compare s t)))
    ∙ ap opposite (sym (compare.cons-cons c d s t))

greater_by :
    (s t : String) (o : Ordering)
    → compare s t ≡ o
    → compare t s ≡ opposite o
    → greater s t ≡ greater t s
unfolding str_lt
greater_by s t Ordering.lt e f = ground arith
greater_by s t Ordering.eq e f =
    ap (λ u. if str_lt s u then u else s) (sym (path_by_compare s t e))
    ∙ ap (λ u. if str_lt u s then s else u) (path_by_compare s t e)
greater_by s t Ordering.gt e f = ground arith

-- The greater of two texts does not depend on which is named first.
pub greater_comm : (s t : String) → greater s t ≡ greater t s
greater_comm s t = greater_by s t (compare s t) refl (compare-opposite s t)
