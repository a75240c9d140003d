-- ===== src/Examples/Managers.antt =====
-- The port manager of calvin/runtime/north/portmanager.py and the iterables of
-- calvin/utilities/dynops.py.
use exjobb_calvin.Prelude.{
  ℕ, ◌==◌, String, Bool, true, false, none, some, List, [], ◌∷◌, ◌++◌, ◌≡◌, refl, arith, ok,
}
use exjobb_calvin.Prelude.Dict.{lookup, get}
use exjobb_calvin.Dynops.{at_end}
use exjobb_calvin.Dynops.Growing
use exjobb_calvin.Dynops.Growing.{Growing}
use exjobb_calvin.Dynops.Seen.{fresh, is_fresh, member}
use exjobb_calvin.Dynops.Union
use exjobb_calvin.Dynops.Union.{any}
use exjobb_calvin.Dynops.Union.Delivers.{all_rest, all_ended}
use exjobb_calvin.Dynops.Gathered.{gather, gather-union}
use exjobb_calvin.PortManager.{
  Manager, ConnectState, Tunnel, tunnel_working, PortRef, succeeded, internal_error,
  connect_answered, disconnect_answered, is_connected_to, get_local_port, local_port,
  in_connected_to,
}
use exjobb_calvin.PortManager.Disconnecting.{remove_peer, same_peer, status_of}
use exjobb_calvin.PortManager.Disconnecting.Once.{Answers, all_ok, answer_all, answer_all-once}
use exjobb_calvin.PortManager.Connecting.{own_port, tunnel_of}
use exjobb_calvin.PortManager.Connecting.Retries.{
  CanAsk, tried, all_gone, with_events, requests, all_gone-requests,
}
use exjobb_calvin.Port.{Peer, new_in, in_is_connected_to, in_connected}
use exjobb_calvin.Actor.Connection.{Actor}
use exjobb_calvin.Actor.Fsm.{ready}

-- Two lists that share an element; the second may still grow.
abbrev ended_list : Growing ℕ
ended_list = record { list = 1 ∷ 2 ∷ []; is_final = true; index = 0; max_length = none }

abbrev open_list : Growing ℕ
open_list = record { list = 2 ∷ 3 ∷ []; is_final = false; index = 0; max_length = none }

abbrev never : Growing ℕ → Bool
never l = false

abbrev both_lists : List (Growing ℕ)
both_lists = ended_list ∷ open_list ∷ []

gather-union_example :
    (gather (Union.next ◌==◌ Growing.iter 0) 9 (Union.init never both_lists) ≡ (
      fresh ◌==◌ [] (all_rest Growing.iter both_lists),
      at_end (all_ended Growing.iter both_lists),
    ))
    × (is_fresh ◌==◌ [] (fresh ◌==◌ [] (all_rest Growing.iter both_lists)) ≡ true)
unfolding fresh any member Growing.iter Growing.rest
gather-union_example = gather-union ◌==◌ Growing.iter 0 never both_lists 9 refl (omega arith)

abbrev peer_of : String → Peer
peer_of port = record { node = some "n2"; port = some port }

abbrev waiting : Manager String
waiting = record {
  node_id = "n1";
  tunnels = [];
  ports = [];
  pending_tunnels = [];
  disconnecting_ports = ("p", peer_of "q" ∷ peer_of "r" ∷ []) ∷ [];
  actors = [];
  events = [];
}

abbrev two_replies : Answers
two_replies = (succeeded, peer_of "r") ∷ (succeeded, peer_of "q") ∷ []

answer_all-once_example :
    (answer_all "cb" "p" two_replies waiting).events
    ≡ [] ++ disconnect_answered "cb" (status_of (all_ok two_replies)) "p" ∷ []
unfolding lookup remove_peer same_peer
answer_all-once_example =
    answer_all-once "cb" "p" two_replies (peer_of "q" ∷ peer_of "r" ∷ []) waiting refl refl
      (refl, (refl, refl))

abbrev new_actor : Actor
new_actor = record {
  id = "a";
  fsm = record {
    state = ready;
    allow_invalid_transitions = true;
    disable_transition_checks = false;
    disable_state_checks = false;
    called = [];
  };
  inports = ("in", new_in "in" "p") ∷ [];
  outports = [];
  wakeups = 0;
}

abbrev port_ref : PortRef
port_ref = record { id = "p"; name = "in"; owner = "a"; is_in = true }

abbrev tunnel : Tunnel
tunnel = record { id = "t"; peer_node_id = "n2"; status = tunnel_working }

abbrev connecting : Manager String
connecting = record {
  node_id = "n1";
  tunnels = ("n2", tunnel) ∷ [];
  ports = ("p", port_ref) ∷ [];
  pending_tunnels = [];
  disconnecting_ports = [];
  actors = ("a", new_actor) ∷ [];
  events = [];
}

abbrev wanted : ConnectState String
wanted = record {
  callback = some "cb";
  actor_id = some "a";
  port_name = some "in";
  port_dir = some "in";
  port_id = some "p";
  peer_node_id = some "n2";
  peer_actor_id = none;
  peer_port_name = none;
  peer_port_dir = none;
  peer_port_id = some "q";
  retries = none;
}

connecting-CanAsk : CanAsk wanted connecting
unfolding own_port local_port get_local_port lookup is_connected_to get in_connected_to
    in_is_connected_to in_connected new_in tunnel_of
connecting-CanAsk = record {
  port = port_ref;
  found = refl;
  unconnected = refl;
  tunnel = tunnel;
  has_tunnel = refl;
}

all_gone-requests_example :
    all_gone 9 (tried 0 wanted) connecting
    ≡ ok (
        with_events
          (requests 0 3 wanted ++ connect_answered "cb" internal_error (tried 3 wanted) ∷ [])
          connecting)
all_gone-requests_example =
    all_gone-requests 3 0 9 wanted connecting "cb" refl (omega arith) connecting-CanAsk refl
