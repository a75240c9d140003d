-- ===== src/PortManager.antt =====
-- calvin/runtime/north/portmanager.py: the manager that connects and disconnects ports, on one
-- runtime or through tunnels. The ports are those of the actors (Actor/Connection).
pub mod Connecting
pub mod Disconnecting
use exjobb_calvin.Prelude.{
  ℕ, String, Bool, true, false, not, ◌&&◌, ◌||◌, Option, none, some, List, [], ◌∷◌, ◌++◌, ltb, leb,
  is_some, if◌then◌else◌, str_eq, Result, ok, err, ◌>>=◌, exception_raised, key_error, type_error,
}
use exjobb_calvin.Prelude.Dict.{Dict, lookup, insert, remove, has, get, del}
use exjobb_calvin.Storage.{is_key}
use exjobb_calvin.Port.{Peer, in_is_connected_to, out_is_connected_to}
use exjobb_calvin.Actor.Connection.{Actor}

-- The codes of calvin/requests/calvinresponse.py that are used. True is OK, False INTERNAL_ERROR.
pub data Status : Type 0 where
  succeeded bad_request not_found gone internal_error gateway_timeout : Status

-- bool(status)
unfoldable pub is_ok : Status → Bool
is_ok succeeded = true
is_ok _ = false

-- What connect keeps in its state between the callbacks.
pub record ConnectState (C : Type 0) : Type 0 where
  pub callback : Option C
  pub actor_id : Option String
  pub port_name : Option String
  pub port_dir : Option String
  pub port_id : Option String
  pub peer_node_id : Option String
  pub peer_actor_id : Option String
  pub peer_port_name : Option String
  pub peer_port_dir : Option String
  pub peer_port_id : Option String
  pub retries : Option ℕ

pub data TunnelStatus : Type 0 where
  tunnel_pending tunnel_working tunnel_terminated : TunnelStatus

pub record Tunnel : Type 0 where
  pub id : String
  pub peer_node_id : String
  pub status : TunnelStatus

-- A port object: where the actors keep it.
pub record PortRef : Type 0 where
  pub id : String
  pub name : String
  pub owner : String
  pub is_in : Bool

-- What the manager asks of others, in order.
pub data Event (C : Type 0) : Type 0 where
  -- callback(status=…, **state)
  connect_answered : C → Status → ConnectState C → Event C
  -- callback(status=…, port_id=…), and what disconnect tells of an actor
  disconnect_answered : C → Status → (port_id : String) → Event C
  -- storage.get_port and storage.get_actor, with the callbacks _connect_by_peer_…
  ask_port : Option String → ConnectState C → Event C
  ask_actor : Option String → ConnectState C → Event C
  -- proto.port_connect, with the callback _connected_via_tunnel
  port_connect : ConnectState C → Event C
  -- proto.port_disconnect, with the callback _disconnected_port
  port_disconnect : (port_id : String) → Peer → Option C → Event C
  tunnel_new : (peer_node_id : String) → Event C
  -- storage.add_port
  add_port : (port_id : String) → Event C

pub record Manager (C : Type 0) : Type 0 where
  pub node_id : String
  pub tunnels : Dict Tunnel
  pub ports : Dict PortRef
  pub pending_tunnels : Dict (List (ConnectState C))
  pub disconnecting_ports : Dict (List Peer)
  -- node.am.actors
  pub actors : Dict Actor
  pub events : List (Event C)

-- isinstance(port, InPort if port_dir == "in" else OutPort)
unfoldable pub has_direction : String → PortRef → Bool
has_direction dir p = if str_eq dir "in" then p.is_in else not p.is_in

unfoldable pub find_port : (actor_id name dir : String) → Dict PortRef → Option PortRef
unfolding has_direction
find_port actor_id name dir [] = none
find_port actor_id name dir ((_, p) ∷ ps) =
    if str_eq p.name name && str_eq p.owner actor_id && has_direction dir p
    then some p
    else find_port actor_id name dir ps

-- Text arguments that are given and not empty.
unfoldable pub given : Option String → Option String
given none = none
given (some s) = if str_eq s "" then none else some s

unfoldable pub find_named : (actor_id name dir : Option String) → Dict PortRef → Option PortRef
unfolding find_port
find_named (some actor_id) (some name) (some dir) ports = find_port actor_id name dir ports
find_named _ _ _ ports = none

unfoldable pub in_connected_to : Option String → String → Actor → Result Bool
in_connected_to none name a = ok false
in_connected_to (some peer) name a = get name a.inports >>= λ p. ok (in_is_connected_to peer p)

unfoldable pub out_connected_to : Option String → String → Actor → Result Bool
out_connected_to none name a = ok false
out_connected_to (some peer) name a = get name a.outports >>= λ p. ok (out_is_connected_to peer p)

module _ {C : Type 0} where
  unfoldable pub emit : Event C → Manager C → Manager C
  emit e m = record m { events = m.events ++ e ∷ [] }

  -- None stands for the exception. The ports of shadow actors are not made here.
  unfoldable pub get_local_port :
      (actor_id port_name port_dir port_id : Option String) → Manager C → Option PortRef
  unfolding find_named given
  get_local_port actor_id port_name port_dir port_id m =
      let named = find_named (given actor_id) (given port_name) (given port_dir) m.ports in
      elim port_id [
        | none ↦ named
        | some id ↦
            if str_eq id ""
            then named
            else elim (lookup id m.ports) [ none ↦ named | some p ↦ some p ]
      ]

  -- The port, or the exception.
  unfoldable pub local_port :
      (actor_id port_name port_dir port_id : Option String) → Manager C → Result PortRef
  unfolding get_local_port
  local_port actor_id port_name port_dir port_id m =
      elim (get_local_port actor_id port_name port_dir port_id m) [
        | none ↦ err exception_raised
        | some p ↦ ok p
      ]

  -- port.is_connected_to(peer_id)
  unfoldable pub is_connected_to : Option String → PortRef → Manager C → Result Bool
  unfolding in_connected_to out_connected_to
  is_connected_to peer_id p m = do
    a ← get p.owner m.actors
    if p.is_in then in_connected_to peer_id p.name a else out_connected_to peer_id p.name a

  unfoldable pub tunnel_request_handles : Tunnel → Manager C → Manager C
  tunnel_request_handles t m = record m { tunnels = insert t.peer_node_id t m.tunnels }

  -- The ports of an actor, by their ids.
  unfoldable pub add_ports : List PortRef → Manager C → Manager C
  add_ports [] m = m
  add_ports (p ∷ ps) m = add_ports ps (record m { ports = insert p.id p m.ports })

  -- `pop` of a port that is not there raises KeyError.
  unfoldable pub remove_ports : List PortRef → Manager C → Result (Manager C)
  remove_ports [] m = ok m
  remove_ports (p ∷ ps) m = do left ← del p.id m.ports; remove_ports ps (record m { ports = left })
