-- ===== src/Prelude/Dict/Least.antt =====
-- `min(d.values() or [0])` of a dict of numbers.
use Prim.Native.Nat.{ℕ, ◌≤◌, min}
use Prim.Native.String.{String}
use mathlib.Core.Path.{◌≡◌, refl}
use mathlib.Core.Option.{none, some}
use mathlib.Core.List.{[], ◌∷◌}
use mathlib.Core.Logic.{◌⊎◌, inl, inr, ◌≢◌}
use text.Mathlib.Text.{◌==◌ as str_eq}
use exjobb_calvin.Prelude.Tests.{Bool-cases}
use native.Mathlib.Omega.{arith}
use exjobb_calvin.Prelude.Dict.{Dict, lookup, insert, remove, str_eq_refl}

unfoldable pub least : Dict ℕ → ℕ
least [] = 0
least ((k, v) ∷ []) = v
least ((k, v) ∷ e ∷ d) = min v (least (e ∷ d))

pub least-le : (k : String) (d : Dict ℕ) (v : ℕ) → lookup k d ≡ some v → least d ≤ v
unfolding least lookup
least-le k [] v h = cc
least-le k ((j, w) ∷ []) v h = ground arith
least-le k ((j, w) ∷ e ∷ d) v h = ground (arith, least-le k (e ∷ d) v)

-- A bound of all values bounds the least.
pub least-le_of_all :
    (d : Dict ℕ) (m : ℕ) → ((k : String) (v : ℕ) → lookup k d ≡ some v → v ≤ m) → least d ≤ m
unfolding least lookup
least-le_of_all [] m h = omega arith
least-le_of_all ((k, v) ∷ []) m h = h k v (ground (arith, str_eq_refl k))
least-le_of_all ((k, v) ∷ e ∷ d) m h =
    let here : v ≤ m = h k v (ground (arith, str_eq_refl k)) in omega arith

-- Raising the value of a present key does not lower the least.
pub least-insert_ge :
    (k : String) (d : Dict ℕ) (v w : ℕ)
    → lookup k d ≡ some v
    → v ≤ w
    → least d ≤ least (insert k w d)
unfolding least lookup insert
least-insert_ge k [] v w h le = cc
least-insert_ge k ((j, u) ∷ []) v w h le = ground arith
least-insert_ge k ((j, u) ∷ (i, x) ∷ d) v w h le =
    ground (arith, least-insert_ge k ((i, x) ∷ d) v w)

-- A new key brings its value in.
pub least-insert_new :
    (k : String) (d : Dict ℕ) (v : ℕ) → lookup k d ≡ none → v ≤ least d → least (insert k v d) ≡ v
unfolding least lookup insert
least-insert_new k [] v h le = refl
least-insert_new k ((j, u) ∷ []) v h le = ground arith
least-insert_new k ((j, u) ∷ (i, x) ∷ d) v h le = ground (arith, least-insert_new k ((i, x) ∷ d) v)

-- Removing a key does not lower the least, if a key is left.
least_tail-le : (e : String × ℕ) (d : Dict ℕ) → (d ≡ []) ⊎ (least (e ∷ d) ≤ least d)
unfolding least
least_tail-le e [] = inl refl
least_tail-le e (x ∷ d) = inr (omega arith)

least-cons_le :
    (e : String × ℕ) (d d' : Dict ℕ) → least d ≤ least d' → d ≢ [] → least (e ∷ d) ≤ least (e ∷ d')
unfolding least
least-cons_le e [] d' h n = absurd (n refl)
least-cons_le e (x ∷ d) [] h n = omega arith
least-cons_le e (x ∷ d) (y ∷ d') h n = omega arith

least-cons_nil_le : (e : String × ℕ) (d : Dict ℕ) → least (e ∷ d) ≤ least (e ∷ [])
unfolding least
least-cons_nil_le e [] = omega arith
least-cons_nil_le e (x ∷ d) = omega arith

pub least-remove : (k : String) (d : Dict ℕ) → (remove k d ≡ []) ⊎ (least d ≤ least (remove k d))
unfolding remove
least-remove k [] = inl refl
least-remove k ((j, v) ∷ []) = ground arith
least-remove k ((j, v) ∷ e ∷ d) = elim (least-remove k (e ∷ d)) [
  | inl none_left ↦ elim (Bool-cases (str_eq j k)) [
    | inl same ↦ inl (rw (same, remove) none_left)
    | inr other ↦ inr (rw (other, remove) (rw none_left (least-cons_nil_le (j, v) (e ∷ d))))
  ]
  | inr up ↦ elim (Bool-cases (str_eq j k)) [
    | inl same ↦ elim (least_tail-le (j, v) (e ∷ d)) [
      | inl n ↦ cc
      | inr le ↦ inr (rw (same, remove) (omega arith))
    ]
    | inr other ↦
        inr (rw (other, remove) (least-cons_le (j, v) (e ∷ d) (remove k (e ∷ d)) up (λ n. cc)))
  ]
]
