-- ===== src/Tunnels/Requests.antt =====
-- calvin/runtime/north/calvin_proto.py: the requests of CalvinProto for tunnels, and their handlers.
use exjobb_calvin.Prelude.{
  ℕ, String, Bool, true, false, Option, none, some, [], ◌∷◌, if◌then◌else◌, str_eq, Result, ok, err,
  ◌>>=◌, exception_raised,
}
use exjobb_calvin.Prelude.Dict.{Dict, lookup}
use exjobb_calvin.Prelude.Dict.Names.{contains}
use exjobb_calvin.Tunnels.Order.{str_lt}
use exjobb_calvin.Tunnels.{
  pending_tunnel, working_tunnel, is_working, Tunnel, tunnel_new_sent, tunnel_destroy_sent,
  reply_sent, link_requested, down_called, recv_called, Request, Proto, tunnels_of, emit, send_to,
  set_object, init, late_link, setup_ack, close,
}

unfoldable pub first_of_type : String → (ℕ → Tunnel) → Dict ℕ → Option ℕ
first_of_type tunnel_type objects [] = none
first_of_type tunnel_type objects ((_, r) ∷ d) =
    if str_eq ((objects r).tunnel_type) tunnel_type
    then some r
    else first_of_type tunnel_type objects d

module _ {V : Type 0} where
  unfoldable pub get_tunnel : (peer tunnel_type : String) → Proto V → Option ℕ
  unfolding tunnels_of first_of_type
  get_tunnel peer tunnel_type s = first_of_type tunnel_type s.objects (tunnels_of peer s.tunnels)

  unfoldable pub tunnel_new_msg :
      (r : ℕ) (to tunnel_type policy : String) → Proto V → Result (Proto V)
  unfolding send_to
  tunnel_new_msg r to tunnel_type policy s =
      send_to to (tunnel_new_sent to tunnel_type ((s.objects r).id) policy r) s

  -- `id` is the fresh id, if one is needed.
  unfoldable pub tunnel_new : (to tunnel_type policy id : String) → Proto V → Result (ℕ × Proto V)
  unfolding init get_tunnel tunnel_new_msg emit
  tunnel_new to tunnel_type policy id s =
      if contains to s.links
      then elim (get_tunnel to tunnel_type s) [
        | some r ↦ ok (r, s)
        | none ↦ do
          let made = init (some to) tunnel_type policy id pending_tunnel s
          asked ← tunnel_new_msg made.0 to tunnel_type policy made.1
          ok (made.0, asked)
      ]
      else (let made = init none tunnel_type policy id pending_tunnel s in
          ok (made.0, emit (link_requested to tunnel_type policy made.0) made.1))

  unfoldable pub tunnel_link_request_finished :
      (r : ℕ) (to tunnel_type policy : String) → Proto V → Result (Proto V)
  unfolding late_link tunnel_new_msg
  tunnel_link_request_finished r to tunnel_type policy s =
      if contains to s.links
      then tunnel_new_msg r to tunnel_type policy (late_link to r s)
      else err exception_raised

  -- The reply goes out first, then the end takes the id for acknowledged.
  unfoldable pub agree : String → ℕ → Request → Proto V → Result (Proto V)
  unfolding send_to setup_ack
  agree id r p s = do
    sent ← send_to p.from_rt_uuid (reply_sent p.from_rt_uuid p.msg_uuid true (some id)) s
    setup_ack true (some id) r sent

  -- A request for a tunnel that is there: the one with the lowest id loses.
  unfoldable pub smash : ℕ → Request → Proto V → Result (Proto V)
  unfolding agree
  smash r p s =
      let own = (s.objects r).id in
      if is_working ((s.objects r).status)
      then ok s
      else agree (if str_lt own p.tunnel_id then p.tunnel_id else own) r p s

  -- What the handler of the type says; no handler, or one that raises, is False.
  unfoldable pub ask_handler : ℕ → Request → Proto V → Bool × Proto V
  unfolding set_object
  ask_handler r p s = elim (lookup p.tunnel_type s.tunnel_handlers) [
    | none ↦ (false, s)
    | some handler ↦
        let answer = handler (s.objects r) in
        (
          (elim (answer.0) [ none ↦ false | some accepts ↦ accepts ]),
          set_object r (record (s.objects r) { handlers = answer.1 }) s,
        )
  ]

  -- With the tunnel of that peer and type, if there is one.
  unfoldable pub answer_new : Option ℕ → Request → Proto V → Result (Proto V)
  unfolding smash init ask_handler send_to close
  answer_new (some r) p s = smash r p s
  answer_new none p s = do
    let made = init (some p.from_rt_uuid) p.tunnel_type p.policy p.tunnel_id working_tunnel s
    let asked = ask_handler made.0 p made.1
    let id = (asked.1.objects made.0).id
    sent ← send_to p.from_rt_uuid (reply_sent p.from_rt_uuid p.msg_uuid asked.0 (some id)) asked.1
    if asked.0 then ok sent else close made.0 sent

  unfoldable pub tunnel_new_handler : Request → Proto V → Result (Proto V)
  unfolding get_tunnel answer_new
  tunnel_new_handler p s = answer_new (get_tunnel p.from_rt_uuid p.tunnel_type s) p s

  -- tunnels[peer][id], or the exception ERROR_UNKNOWN_TUNNEL
  unfoldable pub find_tunnel : (peer id : String) → Proto V → Result ℕ
  unfolding tunnels_of
  find_tunnel peer id s = elim (lookup id (tunnels_of peer s.tunnels)) [
    | none ↦ err exception_raised
    | some r ↦ ok r
  ]

  -- link_check(to); its exception is ERROR_UNKNOWN_RUNTIME to the caller
  unfoldable pub link_check : String → Proto V → Result (Proto V)
  link_check to s = if contains to s.links then ok s else err exception_raised

  unfoldable pub tunnel_destroy : (to id : String) → Proto V → Result (Proto V)
  unfolding link_check find_tunnel send_to
  tunnel_destroy to id s = do
    linked ← link_check to s
    r ← find_tunnel to id linked
    send_to to (tunnel_destroy_sent to ((linked.objects r).id) r) linked

  -- `down_handler()`, where a missing handler and an exception give False.
  unfoldable pub told_down : ℕ → Proto V → Bool × Proto V
  unfolding emit
  told_down r s = elim ((s.objects r).handlers.down) [
    | none ↦ (false, s)
    | some (ok answer) ↦ (answer, emit (down_called r) s)
    | some (err _) ↦ (false, emit (down_called r) s)
  ]

  -- The link that is checked is that of `to_rt_uuid`.
  unfoldable pub tunnel_destroy_handler :
      (to from msg_uuid id : String) → Proto V → Result (Proto V)
  unfolding link_check find_tunnel close told_down send_to
  tunnel_destroy_handler to from msg_uuid id s = do
    linked ← link_check to s
    r ← find_tunnel from id linked
    closed ← close r linked
    let told = told_down r closed
    send_to from (reply_sent from msg_uuid told.0 none) told.1

  -- An exception of the receiver, also that it is not registered, is caught.
  unfoldable pub tunnel_data_handler : (from id : String) → V → Proto V → Result (Proto V)
  unfolding find_tunnel emit
  tunnel_data_handler from id value s = do
    r ← find_tunnel from id s
    if (s.objects r).handlers.recv then ok (emit (recv_called r value) s) else ok s
