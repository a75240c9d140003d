-- ===== src/Storage/Calls/Bounds.antt =====
-- calvin/runtime/north/storage.py: how long the storage waits before it retries.
use exjobb_calvin.Prelude.{ℕ, ◌≤◌, ◌<◌, Option, none, some, List, [], ◌∷◌, arith}
use exjobb_calvin.Token.{Coder}
use exjobb_calvin.Storage.{Storage, started_cb, start, stop, set_cb, set, get_cb, get, delete}
use exjobb_calvin.Storage.Sets.{
  flush_localdata, append, remove_items, get_concat_cb, get_concat, append_cb, remove_cb,
}
use exjobb_calvin.Storage.Calls.{Call, step, steps}

abbrev pub DelayBound : Option ℕ → Type 0
DelayBound none = Unit {0}
DelayBound (some d) = d < 12000

-- The timeout, and the delay of the flush that is to come, if any.
pub record IsBounded {C : Type 0} (s : Storage C) : Type 0 where
  pub low : 2 ≤ s.flush_timeout
  pub high : s.flush_timeout < 12000
  pub delay : DelayBound s.flush_delayedcall

module _ {C : Type 0} (c : Coder) where
  step-IsBounded : (call : Call C) (s : Storage C) → IsBounded s → IsBounded (step c call s)
  unfolding step start started_cb stop flush_localdata set get delete append remove_items get_concat
      set_cb append_cb remove_cb get_cb get_concat_cb
  step-IsBounded call s b = ground arith

  -- Whatever is called, in any order: when the timeout lies between 0.2 and less than 1200 seconds
  -- and a flush that is to come is less than 1200 seconds away, both stay so.
  pub steps-IsBounded :
      (calls : List (Call C)) (s : Storage C) → IsBounded s → IsBounded (steps c calls s)
  unfolding steps
  steps-IsBounded [] s b = b
  steps-IsBounded (call ∷ calls) s b =
      steps-IsBounded calls (step c call s) (step-IsBounded call s b)
