-- ===== src/Port.antt =====
-- calvin/actor/actorport.py: the ports of an actor, apart from the calls of their owner, which
-- Actor/Connection.antt makes in the source's order.
pub mod Serial
use exjobb_calvin.Prelude.{
  ℕ, ◌+◌, String, Bool, true, false, ◌&&◌, not, Option, none, some, List, [], ◌∷◌, ◌++◌, map,
  length, ltb, if◌then◌else◌, str_eq, Result, ok, err, fifo_full, ◌>>=◌,
}
use exjobb_calvin.Prelude.Dict.Names.{contains}
use exjobb_calvin.Token.{Token}
use exjobb_calvin.Fifo
use exjobb_calvin.Fifo.{Fifo, add_reader, commit_reads, write, available_slots}

-- What `get_peer` returns: the node ('local' for a local endpoint) and the port.
pub record Peer : Type 0 where
  pub node : Option String
  pub port : Option String

-- An inport's endpoint: the base class, which is not connected, or one of the two others.
pub data InEndpoint : Type 0 where
  unconnected : (former_peer_id : Option String) → InEndpoint
  local_in : (peer_port_id : String) (data_in_local_fifo fifo_mismatch : Bool) → InEndpoint
  tunnel_in : (peer_node_id peer_port_id : String) → InEndpoint

unfoldable pub in_connected : InEndpoint → Bool
in_connected (unconnected _) = false
in_connected (local_in _ _ _) = true
in_connected (tunnel_in _ _) = true

unfoldable pub in_peer : InEndpoint → Peer
in_peer (unconnected former) = record { node = none; port = former }
in_peer (local_in peer _ _) = record { node = some "local"; port = some peer }
in_peer (tunnel_in node peer) = record { node = some node; port = some peer }

-- An outport's endpoint. A tunnel's state of sending is that of Endpoint/TunnelOut.antt.
pub data OutEndpoint : Type 0 where
  local_out : (peer_id : String) → OutEndpoint
  tunnel_out : (peer_node_id peer_id : String) → OutEndpoint

-- Both classes answer True.
unfoldable pub out_connected : OutEndpoint → Bool
out_connected (local_out _) = true
out_connected (tunnel_out _ _) = true

abbrev pub out_peer_id : OutEndpoint → String
out_peer_id (local_out peer) = peer
out_peer_id (tunnel_out _ peer) = peer

unfoldable pub out_peer : OutEndpoint → Peer
out_peer (local_out peer) = record { node = some "local"; port = some peer }
out_peer (tunnel_out node peer) = record { node = some node; port = some peer }

pub record InPort : Type 0 where
  pub name : String
  pub id : String
  pub fifo : Fifo
  pub endpoint : InEndpoint

-- The size that `Port.__init__` gives by default.
abbrev pub fifo_size : ℕ
fifo_size = 5

unfoldable pub new_in : String → String → InPort
new_in name id = record {
  name = name;
  id = id;
  fifo = add_reader id (Fifo.init fifo_size);
  endpoint = unconnected none;
}

unfoldable pub in_is_connected : InPort → Bool
in_is_connected port = in_connected port.endpoint

-- get_peer()[1] == peer_id
unfoldable pub is_peer : String → Peer → Bool
is_peer peer_id peer = elim peer.port [ none ↦ false | some p ↦ str_eq p peer_id ]

unfoldable pub in_is_connected_to : String → InPort → Bool
in_is_connected_to peer_id port =
    in_connected port.endpoint && is_peer peer_id (in_peer port.endpoint)

-- The endpoint of a port that was disconnected: the former peer's port is remembered.
unfoldable pub drop_endpoint : InPort → InPort
drop_endpoint port = record port { endpoint = unconnected (in_peer port.endpoint).port }

pub record OutPort : Type 0 where
  pub name : String
  pub id : String
  pub fifo : Fifo
  pub fanout : ℕ
  pub endpoints : List OutEndpoint

unfoldable pub new_out : String → String → OutPort
new_out name id = record {
  name = name;
  id = id;
  fifo = Fifo.init fifo_size;
  fanout = 1;
  endpoints = [];
}

unfoldable pub all_connected : List OutEndpoint → Bool
all_connected [] = true
all_connected (e ∷ es) = out_connected e && all_connected es

unfoldable pub out_is_connected : OutPort → Bool
out_is_connected port =
    if ltb (length port.endpoints) port.fanout then false else all_connected port.endpoints

unfoldable pub any_peer : String → List OutEndpoint → Bool
any_peer peer_id [] = false
any_peer peer_id (e ∷ es) = if is_peer peer_id (out_peer e) then true else any_peer peer_id es

unfoldable pub out_is_connected_to : String → OutPort → Bool
out_is_connected_to peer_id port = any_peer peer_id port.endpoints

-- The first endpoint with this peer: `match[0]` of `attach_endpoint`.
unfoldable pub match_peer : String → List OutEndpoint → Option OutEndpoint
match_peer peer_id [] = none
match_peer peer_id (e ∷ es) =
    if str_eq (out_peer_id e) peer_id then some e else match_peer peer_id es

-- `self.endpoints.remove(old)`, where `old` is the first with its peer.
unfoldable pub remove_peer : String → List OutEndpoint → List OutEndpoint
remove_peer peer_id [] = []
remove_peer peer_id (e ∷ es) =
    if str_eq (out_peer_id e) peer_id then es else e ∷ remove_peer peer_id es

-- The last lines of `attach_endpoint` before the owner is called.
unfoldable pub add_endpoint : OutEndpoint → OutPort → OutPort
add_endpoint e port = record port {
  fifo = add_reader (out_peer_id e) port.fifo;
  endpoints = port.endpoints ++ e ∷ [];
}

-- The loop of `disconnect` over the former endpoints.
unfoldable pub rewind_all : List OutEndpoint → Fifo → Result Fifo
rewind_all [] f = ok f
rewind_all (e ∷ es) f = do f' ← commit_reads (out_peer_id e) false f; rewind_all es f'

unfoldable pub drop_endpoints : OutPort → Result OutPort
drop_endpoints port = do
  fifo ← rewind_all port.endpoints port.fifo
  ok (record port { fifo = fifo; endpoints = [] })

unfoldable pub write_token : Token → OutPort → Result OutPort
write_token data' port = do
  (written, fifo) ← write data' port.fifo
  if written then ok (record port { fifo = fifo }) else err fifo_full

unfoldable pub out_available_tokens : OutPort → Result ℕ
out_available_tokens port = available_slots port.fifo

unfoldable pub out_can_write : OutPort → Result Bool
out_can_write port = Fifo.can_write port.fifo

-- all - set(peers), as a list
unfoldable pub readers_without : List String → List String → List String
readers_without peers [] = []
readers_without peers (r ∷ rs) =
    let rest = readers_without peers rs in if contains r peers then rest else r ∷ rest

-- The peers, and behind them those readers of the ring that have no endpoint now.
unfoldable pub get_peers : OutPort → List Peer
get_peers port =
    let peers = map out_peer port.endpoints in
    if ltb (length port.endpoints) (length port.fifo.readers)
    then peers
      ++ map (λ r. record { node = none; port = some r })
          (readers_without (map out_peer_id port.endpoints) port.fifo.readers)
    else peers
