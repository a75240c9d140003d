-- ===== src/Metering.antt =====
-- calvin/runtime/north/metering.py: the log of the actions that actors fired, and what the users
-- of the log are given. Times are whole tenths of a second.
pub mod Consistent
pub mod Events
use exjobb_calvin.Prelude.{
  ℕ, ◌+◌, ◌-◌, ◌*◌, suc, String, Bool, true, false, not, ◌&&◌, Option, none, some, List, [], ◌∷◌,
  ◌++◌, map, ltb, leb, if◌then◌else◌, str_eq, Result, ok, err, ◌>>=◌, ◌>>◌, value_error, user_error,
}
use exjobb_calvin.Prelude.Dict.{Dict, lookup, insert, remove, has, get, del}
use exjobb_calvin.Prelude.Dict.Least.{least}
use exjobb_calvin.Actor.Action.{Specs}

-- A firing: its time and the action's name.
abbrev pub Firing : Type 0
Firing = ℕ × String

-- The ports of an action.
pub record Meta : Type 0 where
  pub inports : Specs
  pub outports : Specs

pub record Metering : Type 0 where
  pub timeout : ℕ
  pub aggregated_timeout : ℕ
  pub actors_log : Dict (List Firing)
  pub actors_meta : Dict (Dict Meta)
  pub actors_destroyed : Dict ℕ
  pub active : Bool
  -- the last access of each user
  pub users : Dict ℕ
  pub oldest : ℕ
  pub last_forget : ℕ
  pub next_forget_aggregated : ℕ
  pub actors_aggregated : Dict (Dict ℕ)
  -- the first and the last time of the aggregated data
  pub actors_aggregated_time : Dict (ℕ × ℕ)

unfoldable pub init : (timeout aggregated_timeout now : ℕ) → Metering
init timeout aggregated now = record {
  timeout = timeout;
  aggregated_timeout = aggregated;
  actors_log = [];
  actors_meta = [];
  actors_destroyed = [];
  active = false;
  users = [];
  oldest = now;
  last_forget = now;
  next_forget_aggregated = now;
  actors_aggregated = [];
  actors_aggregated_time = [];
}

-- [d for d in data if d[0] > t]
unfoldable pub newer : ℕ → List Firing → List Firing
newer t [] = []
newer t ((u, name) ∷ data') = let rest = newer t data' in if ltb t u then (u, name) ∷ rest else rest

unfoldable pub all_newer : ℕ → Dict (List Firing) → Dict (List Firing)
all_newer t [] = []
all_newer t ((k, data') ∷ log) = (k, newer t data') ∷ all_newer t log

-- t = min(users.values()), but not older than the timeout
unfoldable pub horizon : ℕ → Metering → ℕ
horizon current m =
    let t = least m.users in if ltb (t + m.timeout) current then current - m.timeout else t

-- `min` of no users raises ValueError.
unfoldable pub forget : ℕ → Metering → Result Metering
forget current m =
    if not m.active
    then ok (record m { last_forget = current; actors_log = []; oldest = current })
    else elim m.users [
      | [] ↦ err value_error
      | _ ∷ _ ↦ ok (record m {
        last_forget = current;
        oldest = horizon current m;
        actors_log = all_newer (horizon current m) m.actors_log;
      })
    ]

-- dt < et, where et = current - (timeout * 2) - aggregated_timeout
unfoldable pub is_over : (current : ℕ) → Metering → ℕ → Bool
is_over current m dt = ltb (dt + (m.timeout * 2 + m.aggregated_timeout)) current

-- The pops under `try`: when the times have no entry, the counts are not popped either.
unfoldable pub pop_aggregated : String → Metering → Metering
pop_aggregated k m =
    if has k m.actors_aggregated_time
    then record m {
      actors_aggregated_time = remove k m.actors_aggregated_time;
      actors_aggregated = remove k m.actors_aggregated;
    }
    else m

module _ (over : ℕ → Bool) where
  -- The loop of `forget_aggregated` over the destroyed actors.
  unfoldable pub pop_over : Dict ℕ → Metering → Result Metering
  pop_over [] m = ok m
  pop_over ((k, dt) ∷ destroyed) m =
      if over dt
      then (do
        rest ← del k m.actors_meta
        pop_over destroyed (pop_aggregated k (record m { actors_meta = rest })))
      else pop_over destroyed m

  -- {actor_id: dt for actor_id, dt in actors_destroyed if dt >= et}
  unfoldable pub not_over : Dict ℕ → Dict ℕ
  not_over [] = []
  not_over ((k, dt) ∷ destroyed) =
      let rest = not_over destroyed in if over dt then rest else (k, dt) ∷ rest

-- min(destroyed.values()) + aggregated_timeout + (timeout * 2), or the same from now.
unfoldable pub next_forget : ℕ → Dict ℕ → Metering → ℕ
next_forget current [] m = current + m.aggregated_timeout + m.timeout * 2
next_forget current (e ∷ d) m = least (e ∷ d) + m.aggregated_timeout + m.timeout * 2

unfoldable pub forget_aggregated : ℕ → Metering → Result Metering
forget_aggregated current m = do
  m' ← pop_over (is_over current m) m.actors_destroyed m
  let left = not_over (is_over current m) m.actors_destroyed
  ok (record m' { actors_destroyed = left; next_forget_aggregated = next_forget current left m })

-- {action: 0 for action in actors_meta[actor_id]}
unfoldable pub zeros : Dict Meta → Dict ℕ
zeros [] = []
zeros ((action, _) ∷ meta) = (action, 0) ∷ zeros meta

-- d.setdefault(k, default)
unfoldable pub set_default : {V : Type 0} → String → V → Dict V → Dict V
set_default k v d = if has k d then d else insert k v d

-- The aggregation in `fired`. The default needs the actor's meta information in any case.
unfoldable pub aggregate : ℕ → String → String → Metering → Result Metering
aggregate t actor_id action m = do
  meta ← get actor_id m.actors_meta
  let all = set_default actor_id (zeros meta) m.actors_aggregated
  counts ← get actor_id all
  n ← get action counts
  let times = set_default actor_id (t, t) m.actors_aggregated_time
  (since, _) ← get actor_id times
  ok (record m {
    actors_aggregated = insert actor_id (insert action (suc n) counts) all;
    actors_aggregated_time = insert actor_id (since, t) times;
  })

unfoldable pub fired_aggregated : ℕ → String → String → Metering → Result Metering
fired_aggregated t actor_id action m =
    if ltb 0 m.aggregated_timeout
    then (do
      m' ← aggregate t actor_id action m
      if leb m'.next_forget_aggregated t then forget_aggregated t m' else ok m')
    else ok m

-- The timed log. Old data is removed at most once a second.
unfoldable pub fired_timed : ℕ → String → String → Metering → Result Metering
fired_timed t actor_id action m =
    if m.active && ltb 0 m.timeout
    then (do
      data' ← get actor_id m.actors_log
      let m' : Metering = record m {
        actors_log = insert actor_id (data' ++ (t, action) ∷ []) m.actors_log;
      }
      if ltb (m'.oldest + m'.timeout) t && ltb (m'.last_forget + 10) t then forget t m' else ok m')
    else ok m

unfoldable pub fired : ℕ → String → String → Metering → Result Metering
fired t actor_id action m = do
  m' ← fired_aggregated t actor_id action m
  fired_timed t actor_id action m'

-- `register` of a given user id, or of a new one.
unfoldable pub register :
    (fresh : String) (now : ℕ) → Option String → Metering → Result (String × Metering)
register fresh now user_id m =
    let id : String = elim user_id [ none ↦ fresh | some u ↦ if str_eq u "" then fresh else u ] in
    if has id m.users
    then err user_error
    else ok (id, record m { users = insert id now m.users; active = true })

unfoldable pub is_empty : {V : Type 0} → Dict V → Bool
is_empty [] = true
is_empty (_ ∷ _) = false

unfoldable pub unregister : (now : ℕ) → String → Metering → Result Metering
unregister now id m =
    if has id m.users
    then forget now
        (record m { users = remove id m.users; active = not (is_empty (remove id m.users)) })
    else err user_error

unfoldable pub get_timed_meter :
    (now : ℕ) → String → Metering → Result (Dict (List Firing) × Metering)
get_timed_meter now id m = elim (lookup id m.users) [
  | none ↦ err user_error
  | some seen ↦ (do
    m' ← forget now (record m { users = insert id now m.users })
    ok (all_newer seen m.actors_log, m'))
]

unfoldable pub get_aggregated_meter : String → Metering → Result (Dict (Dict ℕ) × Dict (ℕ × ℕ))
get_aggregated_meter id m =
    if has id m.users then ok (m.actors_aggregated, m.actors_aggregated_time) else err user_error

-- A new actor, or one that migrates back.
unfoldable pub add_actor_info : String → Dict Meta → Metering → Metering
add_actor_info id actions m = record m {
  actors_meta = insert id actions m.actors_meta;
  actors_destroyed = remove id m.actors_destroyed;
  actors_log = set_default id [] m.actors_log;
}

unfoldable pub remove_actor_info : (now : ℕ) → String → Metering → Metering
remove_actor_info now id m =
    if has id m.actors_meta
    then record m {
      actors_destroyed = insert id now m.actors_destroyed;
      next_forget_aggregated =
          least (insert id now m.actors_destroyed) + m.aggregated_timeout + m.timeout * 2;
    }
    else m
