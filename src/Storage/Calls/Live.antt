-- ===== src/Storage/Calls/Live.antt =====
-- calvin/runtime/north/storage.py: what is held will be sent.
use exjobb_calvin.Prelude.{
  ℕ, suc, ◌+◌, ◌≤◌, ◌<◌, Bool, List, [], ◌∷◌, ◌++◌, ◌≡◌, true, false, not, ◌&&◌, ◌||◌, arith, ltb,
  is_some,
}
use exjobb_calvin.Prelude.Dict.{Dict}
use exjobb_calvin.Token.{Coder}
use exjobb_calvin.Token.Values.{Value}
use exjobb_calvin.Storage.{
  Changes, Storage, started_cb, start, stop, set_cb, set, get_cb, get, delete, is_empty, Event,
  asked, called, delayed, delayed_started, called_bare, storage_set, storage_append, storage_remove,
  storage_get, storage_get_concat, storage_start, storage_stop, delayed_timeout,
}
use exjobb_calvin.Storage.Sets.{
  flush_localdata, append, remove_items, get_concat_cb, get_concat, append_cb, remove_cb,
  flush_keys, flush_sets, flush_append, flush_remove,
}
use exjobb_calvin.Storage.Calls.{
  Call, start_call, started_call, stop_call, flush_call, set_call, get_call, delete_call,
  append_call, remove_call, get_concat_call, set_replied, append_replied, remove_replied,
  get_replied, get_concat_replied, step, steps,
}
use native.Mathlib.Nat.{zero-add}

-- The requests that the plugin has to answer for a flush to follow.
unfoldable pub writes : {C : Type 0} → List (Event C) → ℕ
writes [] = 0
writes (asked (storage_set _ _ _) ∷ es) = suc (writes es)
writes (asked (storage_append _ _ _) ∷ es) = suc (writes es)
writes (asked (storage_remove _ _ _) ∷ es) = suc (writes es)
writes (_ ∷ es) = writes es

-- Some key has something to be added to its set, or removed.
unfoldable pub any_changes : Dict Changes → Bool
any_changes [] = false
any_changes ((key, ch) ∷ d) = not (is_empty ch.added && is_empty ch.removed) || any_changes d

-- Something is held that the plugin has not confirmed.
abbrev pub holds : {C : Type 0} → Storage C → Bool
holds s = not (is_empty s.localstore) || any_changes s.localstore_sets

-- `replied` requests were answered. A started storage that holds something has a flush to come, or
-- a request whose answer is to come.
pub record IsLive {C : Type 0} (replied : ℕ) (s : Storage C) : Type 0 where
  pub counted : replied ≤ writes s.events
  pub live :
      s.started ≡ true
      → holds s ≡ true
      → (is_some s.flush_delayedcall || ltb replied (writes s.events)) ≡ true

-- The answers of writing requests.
unfoldable pub answers : {C : Type 0} → Call C → ℕ
answers (set_replied _ _ _ _ _) = 1
answers (append_replied _ _ _ _) = 1
answers (remove_replied _ _ _ _) = 1
answers _ = 0

module _ {C : Type 0} where
  writes-append : (xs ys : List (Event C)) → writes (xs ++ ys) ≡ writes xs + writes ys
  unfolding writes
  writes-append [] ys = omega arith
  writes-append (asked (storage_set _ _ _) ∷ es) ys = omega (arith, writes-append es ys)
  writes-append (asked (storage_append _ _ _) ∷ es) ys = omega (arith, writes-append es ys)
  writes-append (asked (storage_remove _ _ _) ∷ es) ys = omega (arith, writes-append es ys)
  writes-append (asked (storage_get _ _) ∷ es) ys = writes-append es ys
  writes-append (asked (storage_get_concat _ _) ∷ es) ys = writes-append es ys
  writes-append (asked (storage_start _) ∷ es) ys = writes-append es ys
  writes-append (asked (storage_stop _) ∷ es) ys = writes-append es ys
  writes-append (called _ _ _ ∷ es) ys = writes-append es ys
  writes-append (delayed _ _ _ ∷ es) ys = writes-append es ys
  writes-append (delayed_started _ _ ∷ es) ys = writes-append es ys
  writes-append (delayed_timeout _ ∷ es) ys = writes-append es ys
  writes-append (called_bare _ ∷ es) ys = writes-append es ys

writes-flush_keys :
    (E : Type 0) (c : Coder) (d : Dict Value)
    → is_empty d ≡ false
    → 0 < writes {C = E} (flush_keys c d)
unfolding writes flush_keys
writes-flush_keys E c [] h = cc
writes-flush_keys E c ((key, value) ∷ d) h = omega arith

writes-flush_sets :
    (E : Type 0) (c : Coder) (d : Dict Changes)
    → any_changes d ≡ true
    → 0 < writes {C = E} (flush_sets c d)
unfolding writes flush_sets any_changes flush_append flush_remove
writes-flush_sets E c [] h = cc
writes-flush_sets E c ((key, ch) ∷ d) h = grind (arith, writes-append, writes-flush_sets E c d)

-- The answers of all the calls, and those before.
unfoldable pub total : {C : Type 0} → List (Call C) → ℕ → ℕ
total [] r = r
total (call ∷ calls) r = total calls (answers call + r)

module _ {C : Type 0} (c : Coder) where
  flush-IsLive : (r : ℕ) (s : Storage C) → IsLive r s → IsLive r (flush_localdata c s)
  unfolding flush_localdata writes
  flush-IsLive r s l = ground (
    arith,
    writes-append (s.events ++ flush_keys c s.localstore) (flush_sets c s.localstore_sets),
    writes-append s.events (flush_keys c s.localstore),
    writes-flush_keys C c s.localstore,
    writes-flush_sets C c s.localstore_sets,
  )

  step-IsLive :
      (call : Call C) (r : ℕ) (s : Storage C)
      → answers call + r ≤ writes s.events
      → IsLive r s
      → IsLive (answers call + r) (step c call s)
  unfolding step answers writes start started_cb stop set get delete append remove_items get_concat
      set_cb append_cb remove_cb get_cb get_concat_cb any_changes
  step-IsLive (start_call raises cb) r s a l = grind (arith, writes-append)
  step-IsLive (started_call value cb) r s a l = grind (arith, writes-append)
  step-IsLive (stop_call cb) r s a l = grind (arith, writes-append)
  step-IsLive flush_call r s a l = rw zero-add (flush-IsLive r s l)
  step-IsLive (set_call prefix key value cb) r s a l = grind (arith, writes-append)
  step-IsLive (get_call raises prefix key cb) r s a l = grind (arith, writes-append)
  step-IsLive (delete_call prefix key cb) r s a l = grind (arith, writes-append)
  step-IsLive (append_call prefix key value cb) r s a l = grind (arith, writes-append)
  step-IsLive (remove_call prefix key value cb) r s a l = grind (arith, writes-append)
  step-IsLive (get_concat_call raises prefix key cb) r s a l = grind (arith, writes-append)
  step-IsLive (set_replied key value org_key org_value cb) r s a l = grind (arith, writes-append)
  step-IsLive (append_replied key value org_key cb) r s a l = grind (arith, writes-append)
  step-IsLive (remove_replied key value org_key cb) r s a l = grind (arith, writes-append)
  step-IsLive (get_replied value cb key) r s a l = grind (arith, writes-append)
  step-IsLive (get_concat_replied value cb key local) r s a l = grind (arith, writes-append)

  -- Every answer comes after a request that it can be the answer of.
  abbrev pub AnswersFollow : List (Call C) → ℕ → Storage C → Type 0
  AnswersFollow [] r s = Unit
  AnswersFollow (call ∷ calls) r s =
      (answers call + r ≤ writes s.events) × AnswersFollow calls (answers call + r) (step c call s)

  -- After any calls, of which the answers to writing requests come after as many such requests: if a
  -- started storage that holds something had a flush to come or a request without its answer, the
  -- same is so at the end.
  pub steps-IsLive :
      (calls : List (Call C)) (r : ℕ) (s : Storage C)
      → AnswersFollow calls r s
      → IsLive r s
      → IsLive (total calls r) (steps c calls s)
  unfolding steps total
  steps-IsLive [] r s a l = l
  steps-IsLive (call ∷ calls) r s a l =
      steps-IsLive calls (answers call + r) (step c call s) a.1 (step-IsLive call r s a.0 l)
