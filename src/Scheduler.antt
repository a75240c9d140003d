-- ===== src/Scheduler.antt =====
-- calvin/runtime/north/scheduler.py: the loop that fires the enabled actors, and the calls that it
-- asks the event loop to make later. The event loop itself is code of a library.
pub mod Outstanding
use exjobb_calvin.Prelude.{
  ℕ, suc, String, Bool, true, false, not, ◌&&◌, ◌||◌, Option, none, some, List, [], ◌∷◌, ◌++◌, ltb,
  if◌then◌else◌, Result, ok, err, ◌==◌, is_some, str_eq, map,
}
use exjobb_calvin.Prelude.Dict.Names.{add}
use exjobb_calvin.Actor.Action.{ActionResult, action_result, merge}

-- What a delayed call runs.
pub data Job : Type 0 where
  -- loop_once(all_)
  loop_job : (all : Bool) → Job
  -- trigger_loop()
  trigger_job : Job
  stop_job : Job

-- A call that the event loop holds: its number, the delay it was given, and what it runs.
pub record Delayed : Type 0 where
  pub number : ℕ
  pub delay : ℕ
  pub job : Job

pub record Scheduler : Type 0 where
  pub idle : Bool
  pub done : Bool
  -- the numbers of the outstanding calls that the scheduler keeps
  pub next_loop : Option ℕ
  pub heartbeat_loop : Option ℕ
  -- a caller may give None for an actor's id
  pub trigger_set : List (Option String)
  pub heartbeat : ℕ
  -- the event loop
  pub calls : List Delayed
  pub next_number : ℕ

unfoldable pub init : Scheduler
init = record {
  idle = false;
  done = false;
  next_loop = none;
  heartbeat_loop = none;
  trigger_set = [];
  heartbeat = 1;
  calls = [];
  next_number = 0;
}

-- async.DelayedCall(delay, job), which answers the call's number.
unfoldable pub delayed_call : ℕ → Job → Scheduler → Scheduler
delayed_call delay job s = record s {
  calls = s.calls ++ record { number = s.next_number; delay = delay; job = job } ∷ [];
  next_number = suc s.next_number;
}

-- The calls without the one of this number.
unfoldable pub without : ℕ → List Delayed → List Delayed
without n [] = []
without n (c ∷ cs) = let rest = without n cs in if c.number == n then rest else c ∷ rest

-- call.cancel() for a call that may be kept
unfoldable pub cancel : Option ℕ → Scheduler → Scheduler
cancel none s = s
cancel (some n) s = record s { calls = without n s.calls }

unfoldable pub stop : Scheduler → Scheduler
stop s = record (if not s.done then delayed_call 0 stop_job s else s) { done = true }

unfoldable pub same_id : Option String → Option String → Bool
same_id none none = true
same_id (some x) (some y) = str_eq x y
same_id _ _ = false

unfoldable pub has_id : Option String → List (Option String) → Bool
has_id x [] = false
has_id x (y ∷ set) = same_id x y || has_id x set

-- set.update(ids)
unfoldable pub add_all : List (Option String) → List (Option String) → List (Option String)
unfolding has_id
add_all [] set = set
add_all (x ∷ xs) set = add_all xs (if has_id x set then set else set ++ x ∷ [])

unfoldable pub all_none : List (Option String) → Bool
all_none [] = true
all_none (none ∷ set) = all_none set
all_none (some _ ∷ set) = false

-- set == set([None])
unfoldable pub only_none : List (Option String) → Bool
unfolding all_none
only_none [] = false
only_none (x ∷ set) = all_none (x ∷ set)

-- The branch of `trigger_loop` without actor ids: the outstanding loop is replaced by one for all.
unfoldable pub trigger_all : Scheduler → Scheduler
trigger_all s = record (delayed_call 0 (loop_job true) (cancel s.next_loop s)) {
  next_loop = some s.next_number;
}

-- "if self._loop_once is None"
unfoldable pub keep_loop : Option ℕ → Scheduler → Scheduler
keep_loop (some _) s = s
keep_loop none s = record (delayed_call 0 (loop_job false) s) { next_loop = some s.next_number }

-- The branch with ids: "Dont run None jobs".
unfoldable pub trigger_some : List (Option String) → Scheduler → Scheduler
unfolding only_none
trigger_some ids s =
    let s' = record s { trigger_set = add_all ids s.trigger_set } in
    if only_none s'.trigger_set then s' else keep_loop s'.next_loop s'

unfoldable pub trigger_loop : ℕ → Option (List (Option String)) → Scheduler → Scheduler
trigger_loop delay ids s =
    if ltb 0 delay
    then delayed_call delay (loop_job true) s
    else elim ids [ none ↦ trigger_all s | some xs ↦ trigger_some xs s ]

-- The end of `loop_once`: again at once, or after a heartbeat.
unfoldable pub again : Bool → List String → Scheduler → Scheduler
again true ids s = trigger_loop 0 (some (map some ids)) s
again false ids s = record (delayed_call s.heartbeat trigger_job (cancel s.heartbeat_loop s)) {
  heartbeat_loop = some s.next_number;
}

-- What `loop_once` does once the actors are fired.
unfoldable pub after : Bool → List String → Scheduler → Scheduler
after activity ids s = again activity ids (record s { next_loop = none; trigger_set = [] })

-- The actors may trigger the loop while they fire, so that the scheduler goes with the world `W` of
-- actors and endpoints.
module _ {W : Type 0} (fire : String → Scheduler → W → Option ActionResult × Scheduler × W) where
  -- The loop of `fire_actors` over the ids of the enabled actors: an actor's exception is logged
  -- (none), and its id is left out.
  unfoldable pub fire_all :
      List String
      → ActionResult
      → List String
      → Scheduler
      → W
      → ActionResult × List String × Scheduler × W
  fire_all [] total ids s w = (total, ids, s, w)
  fire_all (a ∷ actors) total ids s w =
      let (r, s', w') = fire a s w in
      elim r [
        | none ↦ fire_all actors total ids s' w'
        | some r ↦ fire_all actors (merge total r) (add a ids) s' w'
      ]

  -- The ids given are ignored: every enabled actor is fired.
  unfoldable pub fire_actors :
      List String → Scheduler → W → ActionResult × List String × Scheduler × W
  fire_actors enabled s w =
      let (total, ids, s', w') = fire_all enabled (action_result false []) [] s w in
      (total, ids, record s' { idle = not total.did_fire }, w')

  -- `loop_once`. The monitor's loop runs first, and says whether it did something.
  unfoldable pub loop_once :
      (monitor_loop : Scheduler → W → Bool × Scheduler × W) (enabled_actors : W → List String)
      → Scheduler
      → W
      → Scheduler × W
  loop_once monitor_loop enabled_actors s w =
      let (activity, s', w') = monitor_loop s w in
      let (total, ids, s'', w'') = fire_actors (enabled_actors w') s' w' in
      (after (total.did_fire || activity) ids s'', w'')
