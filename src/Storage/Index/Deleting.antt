-- ===== src/Storage/Index/Deleting.antt =====
-- calvin/runtime/north/storage.py: how often the removal of a node calls its callback.
use exjobb_calvin.Prelude.{
  ℕ, zero, suc, ◌+◌, Bool, true, false, List, [], ◌∷◌, ◌++◌, replicate, ◌≡◌, refl, arith,
}
use exjobb_calvin.Prelude.Int.{ℤ, pos}
use exjobb_calvin.Storage.Index.{delete_node_cb, delete_node_timeout_cb}

-- The removal from one index was answered, or the second of patience is over.
pub data Signal : Type 0 where
  answered : Signal
  timed_out : Signal

abbrev pub on_signal : Signal → ℤ → ℤ × Bool
on_signal answered counter = delete_node_cb counter
on_signal timed_out counter = delete_node_timeout_cb counter

abbrev pub count : Bool → ℕ
count true = 1
count false = 0

-- How often the callback is called.
unfoldable pub node_deleted : List Signal → ℤ → ℕ
node_deleted [] counter = 0
node_deleted (s ∷ ss) counter =
    count (on_signal s counter).1 + node_deleted ss (on_signal s counter).0

-- After the timeout nothing calls back if the counter is zero.
all_answered :
    (n : ℕ) → node_deleted (replicate (suc n) answered ++ timed_out ∷ []) (pos (suc n)) ≡ 1
unfolding node_deleted delete_node_cb delete_node_timeout_cb
all_answered zero = refl
all_answered (suc n) = omega (arith, all_answered n)

late_answers : (m : ℕ) → node_deleted (replicate (suc m) answered) (pos (suc m)) ≡ 1
unfolding node_deleted delete_node_cb
late_answers zero = refl
late_answers (suc m) = omega (arith, late_answers m)

early_answers :
    (n m k : ℕ)
    → k ≡ n + suc m
    → node_deleted (replicate n answered ++ timed_out ∷ replicate (suc m) answered) (pos k) ≡ 2
unfolding node_deleted delete_node_cb delete_node_timeout_cb
early_answers n m zero e = absurd (omega arith)
early_answers zero m (suc k) e =
    let km : k ≡ m = omega arith in rw km (omega (arith, late_answers m))
early_answers (suc n) m (suc zero) e = absurd (omega arith)
early_answers (suc n) m (suc (suc k)) e = omega (arith, early_answers n m (suc k) (omega arith))

-- When all answers of a node's indexes, of which there are some, come before the timeout, the
-- callback is called once. When some are missing then and come later, it is called twice.
pub node_deleted-count :
    (n m : ℕ)
    → (node_deleted (replicate (suc n) answered ++ timed_out ∷ []) (pos (suc n)) ≡ 1)
      × (node_deleted
            (replicate n answered ++ timed_out ∷ replicate (suc m) answered)
            (pos (n + suc m))
          ≡ 2)
unfolding node_deleted delete_node_cb delete_node_timeout_cb
node_deleted-count n m = (all_answered n, early_answers n m (n + suc m) refl)
