-- ===== src/PortManager/Disconnecting.antt =====
-- calvin/runtime/north/portmanager.py: the disconnection of ports, and the answers of their peers.
pub mod Once
use exjobb_calvin.Prelude.{
  ℕ, String, Bool, true, false, not, ◌&&◌, ◌||◌, Option, none, some, List, [], ◌∷◌, ◌++◌, is_some,
  map, if◌then◌else◌, str_eq, Result, ok, err, ◌>>=◌, exception_raised, key_error,
}
use exjobb_calvin.Prelude.Dict.{Dict, lookup, insert, remove, has, get, del}
use exjobb_calvin.Port.{Peer, in_peer, get_peers, InPort, OutPort}
use exjobb_calvin.Actor.Connection.{Actor, disconnect_in, disconnect_out}
use exjobb_calvin.Storage.Index.{remove_first}
use mathlib.Core.Option
use exjobb_calvin.PortManager.{
  Status, succeeded, bad_request, not_found, internal_error, PortRef, Event, disconnect_answered,
  port_disconnect, Manager, given, emit, get_local_port, is_ok,
}
use exjobb_calvin.PortManager.Connecting.{attach}
use exjobb_calvin.Prelude.Dict.Names.{contains}

-- Equal optional texts.
abbrev pub same_text : Option String → Option String → Bool
same_text none none = true
same_text (some a) (some b) = str_eq a b
same_text _ _ = false

-- Equal pairs of a node and a port.
unfoldable pub same_peer : Peer → Peer → Bool
same_peer p q = same_text p.node q.node && same_text p.port q.port

-- peers.remove(peer), which does nothing where it would raise: the exception is dropped.
unfoldable pub remove_peer : Peer → List Peer → List Peer
remove_peer p [] = []
remove_peer p (q ∷ qs) = if same_peer q p then qs else q ∷ remove_peer p qs

-- pp[0] and pp[0] != 'local'
unfoldable pub is_remote : Peer → Bool
unfolding given
is_remote p = elim (given p.node) [ none ↦ false | some n ↦ not (str_eq n "local") ]

unfoldable pub remote_peers : List Peer → List Peer
unfolding is_remote
remote_peers [] = []
remote_peers (p ∷ ps) = let rest = remote_peers ps in if is_remote p then p ∷ rest else rest

unfoldable pub is_local : Peer → Bool
is_local p = elim p.node [ none ↦ false | some n ↦ str_eq n "local" ]

-- payload[k] if k in payload else None
abbrev pub flat : Option (Option String) → Option String
flat none = none
flat (some x) = x

abbrev pub is_empty_peers : List Peer → Bool
is_empty_peers [] = true
is_empty_peers (_ ∷ _) = false

abbrev pub status_of : Bool → Status
status_of true = succeeded
status_of false = internal_error

unfoldable pub in_ids : Dict InPort → List String
in_ids [] = []
in_ids ((_, p) ∷ ps) = p.id ∷ in_ids ps

unfoldable pub out_ids : Dict OutPort → List String
out_ids [] = []
out_ids ((_, p) ∷ ps) = p.id ∷ out_ids ps

module _ {C : Type 0} where
  -- if state['callback']: state['callback'](status=…, **state)
  unfoldable pub tell : Option C → Status → String → Manager C → Manager C
  unfolding emit
  tell none status port_id m = m
  tell (some c) status port_id m = emit (disconnect_answered c status port_id) m

  -- The peers of a port, before it is disconnected.
  unfoldable pub peers_of : PortRef → Manager C → Result (List Peer)
  peers_of p m = do
    a ← get p.owner m.actors
    if p.is_in
        then (do port ← get p.name a.inports; ok (in_peer port.endpoint ∷ []))
        else (do port ← get p.name a.outports; ok (get_peers port))

  -- port.disconnect(), which calls the owner
  unfoldable pub disconnect_port_object : PortRef → Manager C → Result (Manager C)
  unfolding attach
  disconnect_port_object p m =
      attach p (if p.is_in then disconnect_in p.name else disconnect_out p.name) m

  -- A request by the port's id alone, or by all that names a port; `none` is a missing key.
  unfoldable pub disconnection_request :
      (actor name dir peer : Option (Option String)) → Manager C → Result (Status × Manager C)
  unfolding get_local_port disconnect_port_object
  disconnection_request actor name dir peer m =
      if not (is_some peer || (is_some actor && is_some name && is_some dir))
      then ok (bad_request, m)
      else elim (get_local_port (flat actor) (flat name) (flat dir) (flat peer) m) [
        | none ↦ ok (not_found, m)
        | some port ↦ disconnect_port_object port m >>= λ m'. ok (succeeded, m')
      ]

  -- The loop over the local peers: whether all of them were disconnected.
  unfoldable pub disconnect_local : List Peer → Manager C → Result (Bool × Manager C)
  unfolding disconnection_request is_local is_ok
  disconnect_local [] m = ok (true, m)
  disconnect_local (p ∷ ps) m =
      if is_local p
      then (do
        (status, m') ← disconnection_request none none none (some p.port) m
        (rest, m'') ← disconnect_local ps m'
        ok (is_ok status && rest, m''))
      else disconnect_local ps m

  unfoldable pub ask_peers : (port_id : String) → List Peer → Option C → Manager C → Manager C
  unfolding emit
  ask_peers port_id [] cb m = m
  ask_peers port_id (p ∷ ps) cb m = ask_peers port_id ps cb (emit (port_disconnect port_id p cb) m)

  unfoldable pub disconnect_port : Option C → (port_id : String) → Manager C → Result (Manager C)
  unfolding get_local_port peers_of disconnect_port_object disconnect_local remote_peers ask_peers
      tell
  disconnect_port cb port_id m = elim (get_local_port none none none (some port_id) m) [
    | none ↦ if is_some cb then ok (tell cb not_found port_id m) else err exception_raised
    | some port ↦ (do
      peers ← peers_of port m
      m1 ← disconnect_port_object port m
      (fine, m2) ← disconnect_local peers m1
      let waiting = remote_peers peers
      let m3 =
          ask_peers port_id waiting cb
            (record m2 { disconnecting_ports = insert port_id waiting m2.disconnecting_ports })
      if is_empty_peers waiting || not fine
          then ok (
              tell cb (status_of fine) port_id
                (record m3 { disconnecting_ports = remove port_id m3.disconnecting_ports }))
          else ok m3)
  ]

  -- The peer is taken from the list of its port, if there is one.
  unfoldable pub peer_answered : Peer → (port_id : String) → Manager C → Manager C
  unfolding remove_peer
  peer_answered peer port_id m = elim (lookup port_id m.disconnecting_ports) [
    | none ↦ m
    | some peers ↦ record m {
      disconnecting_ports = insert port_id (remove_peer peer peers) m.disconnecting_ports;
    }
  ]

  -- `pop` raises KeyError for a port that was answered before.
  unfoldable pub peer_failed : Option C → (port_id : String) → Manager C → Result (Manager C)
  unfolding tell
  peer_failed cb port_id m = do
    left ← del port_id m.disconnecting_ports
    ok (tell cb internal_error port_id (record m { disconnecting_ports = left }))

  -- All peers of the port have answered.
  unfoldable pub peers_done : Option C → (port_id : String) → Manager C → Manager C
  unfolding tell
  peers_done cb port_id m = elim (lookup port_id m.disconnecting_ports) [
    | none ↦ m
    | some peers ↦
        if is_empty_peers peers
        then tell cb succeeded port_id
            (record m { disconnecting_ports = remove port_id m.disconnecting_ports })
        else m
  ]

  unfoldable pub disconnected_port :
      (reply : Status) (peer : Peer)
      → Option C
      → (port_id : String) → Manager C
      → Result (Manager C)
  unfolding peer_answered peer_failed peers_done is_ok
  disconnected_port reply peer cb port_id m = do
    let m1 = peer_answered peer port_id m
    m2 ← (if is_ok reply then ok m1 else peer_failed cb port_id m1)
    ok (peers_done cb port_id m2)

  -- if not status and port_ids: …, of the callbacks that the ports of an actor share
  unfoldable pub actor_failed :
      Status → Option C → (actor_id : String) → List String → List String × List (Event C)
  unfolding is_ok
  actor_failed status cb actor_id [] = ([], [])
  actor_failed status cb actor_id (p ∷ ps) = elim cb [
    | none ↦ (p ∷ ps, [])
    | some c ↦
        if is_ok status
        then (p ∷ ps, [])
        else ([], disconnect_answered c internal_error actor_id ∷ [])
  ]

  unfoldable pub actor_done : Option C → (actor_id : String) → List String → List (Event C)
  actor_done none actor_id ps = []
  actor_done (some c) actor_id [] = disconnect_answered c succeeded actor_id ∷ []
  actor_done (some c) actor_id (p ∷ ps) = []

  -- The ids of the ports that have not answered are shared, and changed.
  unfoldable pub disconnecting_actor_cb :
      (status : Status)
      → Option C
      → (actor_id port_id : String) → List String
      → List String × List (Event C)
  unfolding actor_failed actor_done remove_first
  disconnecting_actor_cb status cb actor_id port_id port_ids =
      let (ids, events) = actor_failed status cb actor_id port_ids in
      if contains port_id ids
      then (remove_first port_id ids, events ++ actor_done cb actor_id (remove_first port_id ids))
      else (ids, events)

  unfoldable pub disconnect_ports : Option C → List String → Manager C → Result (Manager C)
  unfolding disconnect_port
  disconnect_ports cb [] m = ok m
  disconnect_ports cb (p ∷ ps) m = do m' ← disconnect_port cb p m; disconnect_ports cb ps m'

  -- The answer that the port or the actor is not local.
  unfoldable pub not_local : Option C → String → Manager C → Result (Manager C)
  unfolding tell
  not_local cb id m = if is_some cb then ok (tell cb not_found id m) else err exception_raised

  -- `shared`: the callback of an actor's ports, _disconnecting_actor_cb with the caller's callback
  -- and the ids of the ports.
  unfoldable pub disconnect_actor :
      (shared : C → List String → C)
      → Option C
      → (actor_id : String) → Manager C
      → Result (Manager C)
  unfolding disconnect_ports in_ids out_ids not_local
  disconnect_actor shared cb actor_id m = elim (lookup actor_id m.actors) [
    | none ↦ not_local cb actor_id m
    | some a ↦
        (let ids = in_ids a.inports ++ out_ids a.outports in
          disconnect_ports (Option.map (λ c. shared c ids) cb) ids m)
  ]

  unfoldable pub disconnect_one :
      Option C → (actor_id name dir port_id : Option String) → Manager C → Result (Manager C)
  unfolding disconnect_ports get_local_port given not_local
  disconnect_one cb actor_id name dir port_id m = elim (given port_id) [
    | some id ↦ disconnect_ports cb (id ∷ []) m
    | none ↦ elim (get_local_port actor_id name dir port_id m) [
      | none ↦ not_local cb "" m
      | some p ↦ disconnect_ports cb (p.id ∷ []) m
    ]
  ]

  unfoldable pub disconnect :
      (shared : C → List String → C)
      → Option C
      → (actor_id name dir port_id : Option String) → Manager C
      → Result (Manager C)
  unfolding disconnect_actor disconnect_one given
  disconnect shared cb actor_id name dir port_id m =
      if is_some (given port_id) || is_some (given name) || is_some (given dir)
      then disconnect_one cb actor_id name dir port_id m
      else elim (given actor_id) [
        | none ↦ disconnect_one cb actor_id name dir port_id m
        | some id ↦ disconnect_actor shared cb id m
      ]
