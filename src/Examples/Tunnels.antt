-- ===== src/Examples/Tunnels.antt =====
-- The tunnels of calvin/runtime/north/calvin_proto.py.
use exjobb_calvin.Prelude.{ℕ, String, true, none, some, List, [], ◌∷◌, ◌≡◌, refl, arith, eq_iff, ok}
use exjobb_calvin.Prelude.Dict.{lookup, lookup-sole, lookup-sole_self}
use exjobb_calvin.Prelude.Dict.Names.{contains}
use exjobb_calvin.Tunnels.Order.{greater}
use exjobb_calvin.Tunnels.{
  pending_tunnel, working_tunnel, Tunnel, tunnel_new_sent, Proto, tunnels_of,
}
use exjobb_calvin.Tunnels.Requests.{tunnel_new, get_tunnel, first_of_type}
use exjobb_calvin.Tunnels.Waiting.{At, returns}
use exjobb_calvin.Tunnels.Smash.{request, cross, cross-At}
use exjobb_calvin.Tunnels.Asking.{tunnel_new-once}

abbrev waiting : (peer id : String) → Tunnel
waiting peer id = record {
  id = id;
  peer_node_id = some peer;
  tunnel_type = "token";
  policy = "{}";
  status = pending_tunnel;
  handlers = record { recv = true; down = some (ok true); up = some (ok true) };
}

-- A runtime whose one tunnel waits for the answer of the peer.
abbrev asking : (peer id : String) → Proto ℕ
asking peer id = record {
  links = peer ∷ [];
  tunnels = (peer, (id, 0) ∷ []) ∷ [];
  objects = λ r. waiting peer id;
  made = 1;
  tunnel_handlers = [];
  events = tunnel_new_sent peer "token" id "{}" 0 ∷ [];
}

asking-At : (peer id : String) → At peer 0 id pending_tunnel (asking peer id)
unfolding contains returns
asking-At peer id = record {
  has_id = refl;
  has_peer = refl;
  has_status = refl;
  names = (id, 0) ∷ [];
  of_peer = lookup-sole_self {V = List (String × ℕ)} peer ((id, 0) ∷ []);
  named = lookup-sole_self {V = ℕ} id 0;
  alone = λ j e. ground (arith, eq_iff id j, lookup-sole {V = ℕ} id j 0);
  has_link = ground (arith, eq_iff peer peer);
  up_returns = refl;
}

found_a : get_tunnel "rt2" "token" (asking "rt2" "tunnel3") ≡ some 0
unfolding get_tunnel tunnels_of first_of_type lookup
found_a = refl

found_b : get_tunnel "rt1" "token" (asking "rt1" "tunnel7") ≡ some 0
unfolding get_tunnel tunnels_of first_of_type lookup
found_b = refl

cross-At_example :
    (a b : Proto ℕ) × (cross 0 0
        (request "rt2" "msg2" "token" "tunnel7" "{}")
        (request "rt1" "msg1" "token" "tunnel3" "{}")
        (asking "rt2" "tunnel3")
        (asking "rt1" "tunnel7")
      ≡ ok (a, b))
    × At "rt2" 0 (greater "tunnel3" "tunnel7") working_tunnel a
    × At "rt1" 0 (greater "tunnel3" "tunnel7") working_tunnel b
cross-At_example =
    cross-At "rt1" "rt2" 0 0 "tunnel3" "tunnel7" (asking "rt2" "tunnel3") (asking "rt1" "tunnel7")
      "msg1" "msg2" "token" "{}" "{}" (asking-At "rt2" "tunnel3") (asking-At "rt1" "tunnel7")
      found_a found_b

-- A runtime that is linked to another and has no tunnel.
abbrev linked_runtime : Proto ℕ
linked_runtime = record {
  links = "rt2" ∷ [];
  tunnels = [];
  objects = λ r. waiting "" "";
  made = 0;
  tunnel_handlers = [];
  events = [];
}

linked_runtime-link : contains "rt2" linked_runtime.links ≡ true
unfolding contains
linked_runtime-link = refl

linked_runtime-none : get_tunnel "rt2" "token" linked_runtime ≡ none
unfolding get_tunnel tunnels_of first_of_type lookup
linked_runtime-none = refl

tunnel_new-once_example :
    (s : Proto ℕ) × (tunnel_new "rt2" "token" "{}" "tunnel3" linked_runtime ≡ ok (0, s))
    × At "rt2" 0 "tunnel3" pending_tunnel s
    × (s.events ≡ tunnel_new_sent "rt2" "token" "tunnel3" "{}" 0 ∷ [])
    × ((policy id : String) → tunnel_new "rt2" "token" policy id s ≡ ok (0, s))
unfolding tunnels_of lookup
tunnel_new-once_example =
    tunnel_new-once "rt2" "token" "{}" "tunnel3" linked_runtime linked_runtime-link refl refl
      linked_runtime-none
