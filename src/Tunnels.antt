-- ===== src/Tunnels.antt =====
-- calvin/runtime/north/calvin_proto.py: the tunnels between two runtimes (class CalvinTunnel).
pub mod Order
pub mod Requests
pub mod Waiting
pub mod Smash
pub mod Asking
use exjobb_calvin.Prelude.{
  ℕ, suc, ◌+◌, ◌==◌, String, Bool, true, false, not, ◌&&◌, ◌||◌, Option, none, some, List, [], ◌∷◌,
  ◌++◌, if◌then◌else◌, str_eq, Result, ok, err, ◌>>=◌, exception_raised, key_error, type_error,
}
use exjobb_calvin.Prelude.Dict.{Dict, lookup, insert, remove, has, get, del}
use exjobb_calvin.Prelude.Dict.Names.{contains}
use exjobb_calvin.Tunnels.Order.{str_lt}

pub data Status : Type 0 where
  pending_tunnel working_tunnel terminated_tunnel : Status

unfoldable pub is_working : Status → Bool
is_working working_tunnel = true
is_working _ = false

-- The registered callbacks: of `up` and `down` also how they answer.
pub record Handlers : Type 0 where
  pub recv : Bool
  pub down : Option (Result Bool)
  pub up : Option (Result Bool)

pub record Tunnel : Type 0 where
  pub id : String
  pub peer_node_id : Option String
  pub tunnel_type : String
  pub policy : String
  pub status : Status
  pub handlers : Handlers

-- What leaves the runtime, and the callbacks that are called, in order. Tunnel objects are
-- named by their place in the store; `ack` is the object whose callback takes the reply.
pub data Event (V : Type 0) : Type 0 where
  tunnel_new_sent : (to tunnel_type tunnel_id policy : String) (ack : ℕ) → Event V
  tunnel_destroy_sent : (to tunnel_id : String) (ack : ℕ) → Event V
  tunnel_data_sent : (to tunnel_id : String) (value : V) → Event V
  reply_sent : (to msg_uuid : String) (status : Bool) (tunnel_id : Option String) → Event V
  link_requested : (to tunnel_type policy : String) (tunnel : ℕ) → Event V
  up_called down_called : (tunnel : ℕ) → Event V
  recv_called : (tunnel : ℕ) (value : V) → Event V

-- A message TUNNEL_NEW.
pub record Request : Type 0 where
  pub from_rt_uuid : String
  pub msg_uuid : String
  pub tunnel_type : String
  pub tunnel_id : String
  pub policy : String

pub record Proto (V : Type 0) : Type 0 where
  pub links : List String
  -- by peer and id
  pub tunnels : Dict (Dict ℕ)
  -- the tunnel objects, and how many were made
  pub objects : ℕ → Tunnel
  pub made : ℕ
  -- None stands for an exception of the handler; it may register callbacks before that.
  pub tunnel_handlers : Dict (Tunnel → Option Bool × Handlers)
  pub events : List (Event V)

abbrev no_handlers : Handlers
no_handlers = record { recv = false; down = none; up = none }

unfoldable pub tunnels_of : String → Dict (Dict ℕ) → Dict ℕ
tunnels_of peer ts = elim (lookup peer ts) [ none ↦ [] | some d ↦ d ]

module _ {V : Type 0} where
  unfoldable pub emit : Event V → Proto V → Proto V
  emit e s = record s { events = s.events ++ e ∷ [] }

  -- links[to].send(msg): without a link, KeyError
  unfoldable pub send_to : String → Event V → Proto V → Result (Proto V)
  unfolding emit
  send_to to e s = if contains to s.links then ok (emit e s) else err key_error

  -- The object is changed where it is, for all that refer to it.
  unfoldable pub set_object : ℕ → Tunnel → Proto V → Proto V
  set_object r t s = record s { objects = λ q. if q == r then t else s.objects q }

  -- Adds the tunnel to the dictionary, when its peer is known (and not the empty text).
  unfoldable pub enter : ℕ → Proto V → Proto V
  unfolding tunnels_of
  enter r s = elim ((s.objects r).peer_node_id) [
    | none ↦ s
    | some peer ↦ if str_eq peer "" then s else record s {
      tunnels = insert peer (insert ((s.objects r).id) r (tunnels_of peer s.tunnels)) s.tunnels;
    }
  ]

  -- CalvinTunnel(…) under an id that the other side gave, which is not empty, or a fresh one.
  unfoldable pub init :
      (peer : Option String) (tunnel_type policy id : String) → Status → Proto V → ℕ × Proto V
  unfolding set_object enter
  init peer tunnel_type policy id status s =
      let t : Tunnel = record {
        id = id;
        peer_node_id = peer;
        tunnel_type = tunnel_type;
        policy = policy;
        status = status;
        handlers = no_handlers;
      } in
      (s.made, enter s.made (record (set_object s.made t s) { made = s.made + 1 }))

  unfoldable pub late_link : String → ℕ → Proto V → Proto V
  unfolding set_object enter
  late_link peer r s = enter r (set_object r (record (s.objects r) { peer_node_id = some peer }) s)

  -- The peer's dictionary without the id.
  unfoldable pub pop_id : Option String → String → Proto V → Result (Proto V)
  pop_id none id s = err key_error
  pop_id (some peer) id s = do
    d ← get peer s.tunnels
    left ← del id d
    ok (record s { tunnels = insert peer left s.tunnels })

  unfoldable pub update_id : String → ℕ → Proto V → Result (Proto V)
  unfolding set_object pop_id
  update_id id r s = do
    let old = s.objects r
    popped ← pop_id old.peer_node_id old.id (set_object r (record old { id = id }) s)
    elim (old.peer_node_id) [
      | none ↦ err key_error
      | some peer ↦ do
        d ← get peer popped.tunnels
        ok (record popped { tunnels = insert peer (insert id r d) popped.tunnels })
    ]

  -- `if handler: handler()`
  unfoldable pub call : Option (Result Bool) → Event V → Proto V → Result (Proto V)
  unfolding emit
  call none e s = ok s
  call (some (ok _)) e s = ok (emit e s)
  call (some (err problem)) e s = err problem

  unfoldable pub set_status : Status → ℕ → Proto V → Proto V
  unfolding set_object
  set_status status r s = set_object r (record (s.objects r) { status = status }) s

  -- The part on the id: only an answer that is true has to have one.
  unfoldable pub take_id : Option String → ℕ → Proto V → Result (Proto V)
  unfolding update_id
  take_id none r s = err type_error
  take_id (some id) r s = if str_eq id ((s.objects r).id) then ok s else update_id id r s

  unfoldable pub setup_ack : Bool → Option String → ℕ → Proto V → Result (Proto V)
  unfolding take_id set_status call
  setup_ack true id r s = do
    named ← take_id id r s
    call ((named.objects r).handlers.up) (up_called r) (set_status working_tunnel r named)
  setup_ack false id r s =
      call ((s.objects r).handlers.down) (down_called r) (set_status terminated_tunnel r s)

  -- close(local_only=True)
  unfoldable pub close : ℕ → Proto V → Result (Proto V)
  unfolding set_status pop_id
  close r s =
      pop_id ((s.objects r).peer_node_id) ((s.objects r).id) (set_status terminated_tunnel r s)

  -- The failure to send is caught.
  unfoldable pub send : V → ℕ → Proto V → Proto V
  unfolding send_to
  send value r s = elim ((s.objects r).peer_node_id) [
    | none ↦ s
    | some peer ↦ elim (send_to peer (tunnel_data_sent peer ((s.objects r).id) value) s) [
      | ok s' ↦ s'
      | err _ ↦ s
    ]
  ]
