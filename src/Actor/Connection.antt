-- ===== src/Actor/Connection.antt =====
-- The connection of an actor's ports: `attach_endpoint`, `detach_endpoint` and `disconnect` of
-- calvin/actor/actorport.py with the owner's `did_connect` and `did_disconnect` of
-- calvin/actor/actor.py, in the order in which they call one another.
pub mod Enabled
pub mod Dropping
use exjobb_calvin.Prelude.{
  ℕ, ◌+◌, String, Bool, true, false, not, ◌&&◌, ◌||◌, Option, none, some, List, [], ◌∷◌, is_some,
  if◌then◌else◌, Result, ok, err, ◌>>=◌, ◌>>◌,
}
use exjobb_calvin.Prelude.Dict.{Dict, get, insert}
use exjobb_calvin.Port.{
  InPort, InEndpoint, OutPort, OutEndpoint, in_is_connected, out_is_connected, out_peer_id,
  drop_endpoint, drop_endpoints, add_endpoint, match_peer, remove_peer,
}
use exjobb_calvin.Actor.Fsm.{
  Fsm, Status, loaded, ready, pending, enabled, same_status, transition_to, verify_status,
}

pub record Actor : Type 0 where
  pub id : String
  pub fsm : Fsm
  pub inports : Dict InPort
  pub outports : Dict OutPort
  -- how often `scheduler_wakeup` was called
  pub wakeups : ℕ

-- "for p in self.inports.values(): if not p.is_connected(): return"
unfoldable pub all_in : Dict InPort → Bool
all_in [] = true
all_in ((_, p) ∷ ps) = in_is_connected p && all_in ps

unfoldable pub all_out : Dict OutPort → Bool
all_out [] = true
all_out ((_, p) ∷ ps) = out_is_connected p && all_out ps

-- "for p in self.inports.values(): if p.is_connected(): return"
unfoldable pub any_in : Dict InPort → Bool
any_in [] = false
any_in ((_, p) ∷ ps) = in_is_connected p || any_in ps

unfoldable pub any_out : Dict OutPort → Bool
any_out [] = false
any_out ((_, p) ∷ ps) = out_is_connected p || any_out ps

-- self.fsm.transition_to(status)
unfoldable pub enter : Status → Actor → Result Actor
enter s a = do fsm ← transition_to s a.fsm; ok (record a { fsm = fsm })

-- "if self.fsm.state() == from: self.fsm.transition_to(to)"
unfoldable pub move_from : Status → Status → Actor → Result Actor
move_from from to a = if same_status a.fsm.state from then enter to a else ok a

-- The end of `did_connect`: all ports are connected.
unfoldable pub wake : Actor → Result Actor
wake a = do a' ← enter enabled a; ok (record a' { wakeups = a'.wakeups + 1 })

unfoldable pub try_enable : Actor → Result Actor
try_enable a =
    if not (all_in a.inports) then ok a else if not (all_out a.outports) then ok a else wake a

unfoldable pub did_connect : Actor → Result Actor
did_connect a = do
  verify_status (ready ∷ pending ∷ []) false a.fsm
  a' ← move_from ready pending a
  try_enable a'

unfoldable pub try_ready : Actor → Result Actor
try_ready a = if any_in a.inports then ok a else if any_out a.outports then ok a else enter ready a

unfoldable pub did_disconnect : Actor → Result Actor
did_disconnect a = do
  verify_status (enabled ∷ pending ∷ []) false a.fsm
  a' ← move_from enabled pending a
  try_ready a'

-- `InPort.detach_endpoint`. Whether the given endpoint is the port's own is `same`: any other is
-- only warned of. The owner is called while the port still has its endpoint.
unfoldable pub detach_in : String → Bool → Actor → Result Actor
detach_in name same a = do
  port ← get name a.inports
  if same
      then (do
        a' ← did_disconnect a
        ok (record a' { inports = insert name (drop_endpoint port) a'.inports }))
      else ok a

-- "type(old_endpoint) is not endpoint.Endpoint", then `detach_endpoint(old_endpoint)`.
unfoldable pub attach_in : String → InEndpoint → Actor → Result Actor
attach_in name e a = do
  port ← get name a.inports
  a' ← (if in_is_connected port then detach_in name true a else ok a)
  did_connect (record a' { inports = insert name (record port { endpoint = e }) a'.inports })

unfoldable pub disconnect_in : String → Actor → Result Actor
disconnect_in name a = do
  port ← get name a.inports
  a' ← did_disconnect a
  ok (record a' { inports = insert name (drop_endpoint port) a'.inports })

-- `OutPort.detach_endpoint` of the first endpoint with this peer.
unfoldable pub detach_out : String → String → Actor → Result Actor
detach_out name peer_id a = do
  port ← get name a.outports
  if is_some (match_peer peer_id port.endpoints)
      then (do
        a' ← did_disconnect a
        ok (record a' {
          outports =
              insert name (record port { endpoints = remove_peer peer_id port.endpoints })
                a'.outports;
        }))
      else ok a

-- A second endpoint to one peer replaces the first.
unfoldable pub attach_out : String → OutEndpoint → Actor → Result Actor
attach_out name e a = do
  a' ← detach_out name (out_peer_id e) a
  port ← get name a'.outports
  did_connect (record a' { outports = insert name (add_endpoint e port) a'.outports })

unfoldable pub disconnect_out : String → Actor → Result Actor
disconnect_out name a = do
  a' ← did_disconnect a
  port ← get name a'.outports
  port' ← drop_endpoints port
  ok (record a' { outports = insert name port' a'.outports })

-- `setup_complete`, and the deprecated `enable` and `disable`.
unfoldable pub setup_complete : Actor → Result Actor
setup_complete a = do verify_status (loaded ∷ []) false a.fsm; enter ready a

unfoldable pub enable : Actor → Result Actor
enable a = do verify_status (enabled ∷ []) false a.fsm; enter enabled a

unfoldable pub disable : Actor → Result Actor
disable a = do verify_status (ready ∷ pending ∷ loaded ∷ []) false a.fsm; enter pending a
