-- ===== src/PortManager/Connecting.antt =====
-- calvin/runtime/north/portmanager.py: the chain of callbacks that connects two ports.
pub mod Retries
use exjobb_calvin.Prelude.{
  ℕ, suc, String, Bool, true, false, not, ◌&&◌, ◌||◌, Option, none, some, List, [], ◌∷◌, ◌++◌, ltb,
  is_some, if◌then◌else◌, str_eq, Result, ok, err, ◌>>=◌, exception_raised, key_error, type_error,
}
use exjobb_calvin.Prelude.Dict.{Dict, lookup, insert, remove, has, get}
use exjobb_calvin.Token.Values.{Value, null, str, dict, get_or, truthy}
use exjobb_calvin.Port.{local_in, tunnel_in, local_out, tunnel_out}
use exjobb_calvin.Actor.Connection.{Actor, attach_in, attach_out}
use exjobb_calvin.PortManager.{
  Status, succeeded, bad_request, not_found, gone, internal_error, gateway_timeout, ConnectState,
  Tunnel, tunnel_pending, tunnel_working, tunnel_terminated, PortRef, Event, connect_answered,
  ask_port, ask_actor, port_connect, tunnel_new, add_port, Manager, given, emit, get_local_port,
  local_port, is_connected_to, is_ok,
}

-- The reply to a request to connect: the code, and the port id that comes with it.
pub record Reply : Type 0 where
  pub status : Status
  pub port_id : Option String

-- `if x`, of a text that may be None
abbrev pub is_given : Option String → Bool
is_given x = is_some (given x)

-- `reply in [BAD_REQUEST, NOT_FOUND, GATEWAY_TIMEOUT]`
unfoldable pub is_refused : Status → Bool
is_refused bad_request = true
is_refused not_found = true
is_refused gateway_timeout = true
is_refused _ = false

unfoldable pub is_gone : Status → Bool
is_gone gone = true
is_gone _ = false

-- The node of a storage's answer, if it has one. A node id is a text.
unfoldable pub node_of : Value → Option String
unfolding get_or given
node_of (dict fs) = elim (get_or "node_id" fs null) [ str s ↦ given (some s) | _ ↦ none ]
node_of _ = none

module _ {C : Type 0} where
  -- if state['callback']: state['callback'](status=…, **state)
  unfoldable pub answer : Status → ConnectState C → Manager C → Manager C
  unfolding emit
  answer status state m = elim state.callback [
    | none ↦ m
    | some c ↦ emit (connect_answered c status state) m
  ]

  -- The same, or the exception if there is no callback.
  unfoldable pub answer_or_raise : Status → ConnectState C → Manager C → Result (Manager C)
  unfolding emit
  answer_or_raise status state m = elim state.callback [
    | none ↦ err exception_raised
    | some c ↦ ok (emit (connect_answered c status state) m)
  ]

  unfoldable pub own_port : ConnectState C → Manager C → Result PortRef
  unfolding local_port
  own_port state m = local_port state.actor_id state.port_name state.port_dir state.port_id m

  unfoldable pub peer_port : ConnectState C → Manager C → Result PortRef
  unfolding local_port
  peer_port state m =
      local_port state.peer_actor_id state.peer_port_name state.peer_port_dir state.peer_port_id m

  -- port.attach_endpoint(…), which calls the owner
  unfoldable pub attach : (p : PortRef) → (Actor → Result Actor) → Manager C → Result (Manager C)
  attach p change m = do
    a ← get p.owner m.actors
    a' ← change a
    ok (record m { actors = insert p.owner a' m.actors })

  unfoldable pub connect_via_local : (inport outport : PortRef) → Manager C → Result (Manager C)
  unfolding attach emit
  connect_via_local inport outport m = do
    m1 ← attach inport (attach_in inport.name (local_in outport.id true true)) m
    m2 ← attach outport (attach_out outport.name (local_out inport.id)) m1
    ok (emit (add_port outport.id) (emit (add_port inport.id) m2))

  -- A tunnel's endpoint of the port.
  unfoldable pub attach_tunnel :
      (p : PortRef) (peer_node_id peer_id : String) → Manager C → Result (Manager C)
  unfolding attach
  attach_tunnel p node peer m =
      attach p
        (if p.is_in
          then attach_in p.name (tunnel_in node peer)
          else attach_out p.name (tunnel_out node peer))
        m

  -- `if 'retries' not in state: state['retries'] = 0`
  unfoldable pub with_retries : ConnectState C → ConnectState C
  with_retries state = elim state.retries [
    | none ↦ record state { retries = some 0 }
    | some _ ↦ state
  ]

  -- self.tunnels[state['peer_node_id']]
  unfoldable pub tunnel_of : ConnectState C → Manager C → Result Tunnel
  tunnel_of state m = elim state.peer_node_id [ none ↦ err key_error | some n ↦ get n m.tunnels ]

  unfoldable pub connect_via_tunnel : Status → ConnectState C → Manager C → Result (Manager C)
  unfolding own_port is_connected_to answer tunnel_of with_retries emit is_ok
  connect_via_tunnel status state m = do
    port ← own_port state m
    connected ← is_connected_to state.peer_port_id port m
    if connected
        then ok (answer succeeded state m)
        else if not (is_ok status) && is_some state.callback
        then ok (answer internal_error state m)
        else (do tunnel ← tunnel_of state m; ok (emit (port_connect (with_retries state)) m))

  -- The state that asks for the port's node again.
  unfoldable pub looked_up : ℕ → ConnectState C → ConnectState C
  looked_up retries state = record state { peer_node_id = none; retries = some (suc retries) }

  -- The end of `_connected_via_tunnel`: the endpoint is set up.
  unfoldable pub set_up : Reply → ConnectState C → Manager C → Result (Manager C)
  unfolding tunnel_of attach_tunnel answer emit
  set_up reply state m = do
    tunnel ← tunnel_of state m
    port ← elim state.port_id [ none ↦ err key_error | some id ↦ get id m.ports ]
    peer ← elim reply.port_id [ none ↦ err type_error | some id ↦ ok id ]
    m' ← elim state.peer_node_id [
      | none ↦ err key_error
      | some node ↦ attach_tunnel port node peer m
    ]
    ok (emit (add_port port.id) (answer succeeded state m'))

  -- What follows if the reply refuses the connection. Without a callback and without retries the
  -- code goes on.
  unfoldable pub on_refused : Reply → ℕ → ConnectState C → Manager C → Result (Manager C)
  unfolding looked_up answer emit set_up
  on_refused reply retries state m =
      if ltb retries 2 && is_given state.peer_node_id
      then ok (emit (ask_port state.peer_port_id (looked_up retries state)) m)
      else if is_some state.callback
      then ok (answer not_found state m)
      else set_up reply state m

  unfoldable pub on_gone : ℕ → ConnectState C → Manager C → Result (Manager C)
  unfolding connect_via_tunnel answer
  on_gone retries state m =
      if ltb retries 3
      then connect_via_tunnel succeeded (record state { retries = some (suc retries) }) m
      else ok (answer internal_error state m)

  -- state['retries'], which is there once the request was sent
  unfoldable pub retries_of : ConnectState C → Result ℕ
  retries_of state = elim state.retries [ none ↦ err key_error | some r ↦ ok r ]

  unfoldable pub connected_via_tunnel : Reply → ConnectState C → Manager C → Result (Manager C)
  unfolding on_refused on_gone set_up is_refused is_gone retries_of
  connected_via_tunnel reply state m =
      if is_refused reply.status
      then (do r ← retries_of state; on_refused reply r state m)
      else if is_gone reply.status
      then (do r ← retries_of state; on_gone r state m)
      else set_up reply state m

  -- The tunnel to the peer, and the manager that has it: `proto` makes a new one.
  unfoldable pub tunnel_to :
      (proto : String → Tunnel) → (node : String) → Manager C → Tunnel × Manager C
  unfolding emit
  tunnel_to proto node m = elim (lookup node m.tunnels) [
    | some t ↦ (t, m)
    | none ↦ (
      proto node,
      emit (tunnel_new node) (record m { tunnels = insert node (proto node) m.tunnels }),
    )
  ]

  -- self.pending_tunnels[peer].append(…), of a list that is made if there is none
  unfoldable pub wait_for : (node : String) → ConnectState C → Manager C → Manager C
  wait_for node state m =
      let waiting : List (ConnectState C) = elim (lookup node m.pending_tunnels) [
        | none ↦ []
        | some ws ↦ ws
      ] in
      record m { pending_tunnels = insert node (waiting ++ state ∷ []) m.pending_tunnels }

  unfoldable pub on_tunnel :
      Tunnel → (node : String) → ConnectState C → Manager C → Result (Manager C)
  unfolding wait_for answer connect_via_tunnel
  on_tunnel t node state m = elim t.status [
    | tunnel_pending ↦ ok (wait_for node state m)
    | tunnel_terminated ↦ ok (answer internal_error state m)
    | tunnel_working ↦ connect_via_tunnel succeeded state m
  ]

  unfoldable pub connect_local : ConnectState C → Manager C → Result (Manager C)
  unfolding own_port peer_port connect_via_local answer
  connect_local state m = do
    port1 ← own_port state m
    port2 ← peer_port state m
    m' ← (if port1.is_in then connect_via_local port1 port2 m else connect_via_local port2 port1 m)
    ok (answer succeeded state m')

  module _ (proto : String → Tunnel) where
    -- `_connect`, where the peer's node is known
    unfoldable pub connect_to : (node : String) → ConnectState C → Manager C → Result (Manager C)
    unfolding connect_local tunnel_to on_tunnel
    connect_to node state m =
        if str_eq m.node_id node
        then connect_local state m
        else (let (t, m') = tunnel_to proto node m in on_tunnel t node state m')

    unfoldable pub with_node : (node : String) → ConnectState C → ConnectState C
    with_node node state = record state { peer_node_id = some node }

    -- `_connect_by_peer_port_id` and `_connect_by_peer_actor_id`
    unfoldable pub connect_by_peer : Value → ConnectState C → Manager C → Result (Manager C)
    unfolding node_of answer_or_raise connect_to with_node
    connect_by_peer value state m =
        if is_given state.peer_node_id
        then answer_or_raise bad_request state m
        else elim (node_of value) [
          | none ↦ answer_or_raise bad_request state m
          | some node ↦ connect_to node (with_node node state) m
        ]

    -- The first of the two tests for a local peer: by the actor.
    unfoldable pub local_by_actor : ConnectState C → Manager C → ConnectState C
    unfolding with_node
    local_by_actor state m =
        if is_given state.peer_node_id then state else elim state.peer_actor_id [
          | none ↦ state
          | some a ↦ if has a m.actors then with_node m.node_id state else state
        ]

    unfoldable pub local_by_port : ConnectState C → Manager C → ConnectState C
    unfolding with_node get_local_port
    local_by_port state m =
        if is_given state.peer_node_id || not (is_given state.peer_port_id)
        then state
        else elim (get_local_port none none none state.peer_port_id m) [
          | none ↦ state
          | some _ ↦ with_node m.node_id state
        ]

    -- The answer to an incomplete call is about the arguments of the call.
    unfoldable pub find_node : (call state : ConnectState C) → Manager C → Result (Manager C)
    unfolding answer_or_raise emit connect_to
    find_node call state m = elim (given state.peer_node_id) [
      | none ↦
          if is_given state.peer_port_id
          then ok (emit (ask_port state.peer_port_id state) m)
          else if is_given state.peer_actor_id && is_given state.peer_port_name
          then ok (emit (ask_actor state.peer_actor_id state) m)
          else answer_or_raise bad_request call m
      | some node ↦
          if (is_given state.peer_actor_id && is_given state.peer_port_name)
            || is_given state.peer_port_id
          then connect_to node state m
          else answer_or_raise bad_request call m
    ]

    unfoldable pub connect : ConnectState C → Manager C → Result (Manager C)
    unfolding get_local_port answer_or_raise local_by_actor local_by_port find_node
    connect call m =
        elim (get_local_port call.actor_id call.port_name call.port_dir call.port_id m) [
          | none ↦ answer_or_raise bad_request call m
          | some port ↦
              (let state = record call { port_id = some port.id } in
                find_node call (local_by_port (local_by_actor state m) m) m)
        ]

  -- The callbacks that waited for a tunnel. An exception of one is dropped.
  unfoldable pub resume : Status → List (ConnectState C) → Manager C → Manager C
  unfolding connect_via_tunnel
  resume status [] m = m
  resume status (w ∷ ws) m =
      resume status ws (elim (connect_via_tunnel status w m) [ ok m' ↦ m' | err _ ↦ m ])

  -- The waiting callbacks are run, and then forgotten.
  unfoldable pub resume_all : Status → (node : String) → Manager C → Manager C
  unfolding resume
  resume_all status node m = elim (lookup node m.pending_tunnels) [
    | none ↦ m
    | some ws ↦
        (let m' = resume status ws m in
          record m' { pending_tunnels = remove node m'.pending_tunnels })
  ]

  unfoldable pub tunnel_down : Tunnel → Manager C → Manager C
  unfolding resume_all
  tunnel_down t m =
      resume_all internal_error t.peer_node_id
        (record m { tunnels = remove t.peer_node_id m.tunnels })

  unfoldable pub tunnel_up : Tunnel → Manager C → Manager C
  unfolding resume_all
  tunnel_up t m = resume_all succeeded t.peer_node_id m

  -- self._get_local_port(payload['peer_actor_id'], …), where a missing key raises too
  unfoldable pub payload_port :
      (actor name dir peer : Option (Option String)) → Manager C → Option PortRef
  unfolding get_local_port
  payload_port (some actor) (some name) (some dir) (some peer) m =
      get_local_port actor name dir peer m
  payload_port _ _ _ _ m = none

  -- A peer's request to connect; `none` is a key that the payload lacks.
  unfoldable pub connection_request :
      (from_rt port_id : String) (tunnel_id : Option String)
      (actor name dir peer : Option (Option String))
      → Manager C
      → Result (Status × Manager C)
  unfolding payload_port attach_tunnel emit
  connection_request from_rt port_id tunnel_id actor name dir peer m =
      if not (is_some peer || (is_some actor && is_some name && is_some dir))
      then ok (bad_request, m)
      else elim (payload_port actor name dir peer m) [
        | none ↦ ok (not_found, m)
        | some port ↦ (do
          id ← elim tunnel_id [ none ↦ err exception_raised | some i ↦ ok i ]
          tunnel ← get from_rt m.tunnels
          if str_eq tunnel.id id
              then (do
                m' ← attach_tunnel port from_rt port_id m
                ok (succeeded, emit (add_port port.id) m'))
              else ok (gone, m))
      ]
