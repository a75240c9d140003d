-- ===== src/Tunnels/Smash.antt =====
-- calvin/runtime/north/calvin_proto.py: both runtimes ask for a tunnel at the same time.
use exjobb_calvin.Prelude.{
  ℕ, String, Bool, true, false, Option, none, some, List, [], ◌∷◌, ◌++◌, ◌≡◌, refl, ap, subst, ◌∙◌,
  Result, ok, ◌>>=◌,
}
use exjobb_calvin.Prelude.Dict.Names.{contains}
use exjobb_calvin.Tunnels.Order.{greater, greater_comm}
use exjobb_calvin.Tunnels.{
  pending_tunnel, working_tunnel, is_working, Event, reply_sent, Request, Proto, emit, send_to,
  setup_ack,
}
use exjobb_calvin.Tunnels.Requests.{agree, smash, get_tunnel, tunnel_new_handler, answer_new}
use exjobb_calvin.Tunnels.Waiting.{At, last_reply, emit-At, setup_ack-At}

abbrev pub request : (from_rt_uuid msg_uuid tunnel_type tunnel_id policy : String) → Request
request from msg_uuid tunnel_type tunnel_id policy = record {
  from_rt_uuid = from;
  msg_uuid = msg_uuid;
  tunnel_type = tunnel_type;
  tunnel_id = tunnel_id;
  policy = policy;
}

-- The other end gets it, or no answer at all.
unfoldable pub take_reply :
    {V : Type 0} → Option (Bool × Option String) → ℕ → Proto V → Result (Proto V)
unfolding setup_ack
take_reply none r s = setup_ack false none r s
take_reply (some (status, id)) r s = setup_ack status id r s

last_reply-reply :
    {V : Type 0}
    → (to msg_uuid id : String) (es : List (Event V))
    → last_reply (es ++ reply_sent to msg_uuid true (some id) ∷ []) ≡ some (true, some id)
unfolding last_reply
last_reply-reply to msg_uuid id [] = refl
last_reply-reply to msg_uuid id (e ∷ es) = rw (last_reply-reply to msg_uuid id es) refl

module _ {V : Type 0} (peer : String) (r : ℕ) where
  smash-agree :
      (id : String) (p : Request) (s : Proto V)
      → At peer r id pending_tunnel s
      → smash r p s ≡ agree (greater id p.tunnel_id) r p s
  unfolding smash is_working
  smash-agree id p s h =
      rw (h.has_status) (ap (λ i. agree (greater i p.tunnel_id) r p s) (h.has_id))

  agree-sent :
      (new msg_uuid tunnel_type other policy : String) (s : Proto V)
      → contains peer s.links ≡ true
      → agree new r (request peer msg_uuid tunnel_type other policy) s
        ≡ setup_ack true (some new) r (emit (reply_sent peer msg_uuid true (some new)) s)
  unfolding agree send_to
  agree-sent new msg_uuid tunnel_type other policy s linked = rw linked refl

  -- A request for a tunnel that waits for the answer to its own request.
  pub tunnel_new_handler-At :
      (id msg_uuid tunnel_type other policy : String) (s : Proto V)
      → At peer r id pending_tunnel s
      → get_tunnel peer tunnel_type s ≡ some r
      → (s' : Proto V) × (tunnel_new_handler (request peer msg_uuid tunnel_type other policy) s
          ≡ ok s')
        × At peer r (greater id other) working_tunnel s'
        × (last_reply s'.events ≡ some (true, some (greater id other)))
  unfolding tunnel_new_handler answer_new agree send_to emit
  tunnel_new_handler-At id msg_uuid tunnel_type other policy s h found =
      let new = greater id other in
      let reply : Event V = reply_sent peer msg_uuid true (some new) in
      let (s', e, at, kept) =
        setup_ack-At peer r new id pending_tunnel (emit reply s)
          (emit-At peer r id pending_tunnel reply s h) in
      (
        s',
        ap (λ o. answer_new o (request peer msg_uuid tunnel_type other policy) s) found
            ∙ smash-agree id (request peer msg_uuid tunnel_type other policy) s h
            ∙ (agree-sent new msg_uuid tunnel_type other policy s (h.has_link) ∙ e),
        at,
        kept ∙ last_reply-reply peer msg_uuid new (s.events),
      )

-- Both ends take the request of the other, then the answer to their own.
unfoldable pub cross :
    {V : Type 0}
    → (ra rb : ℕ) (to_a to_b : Request) → Proto V
    → Proto V
    → Result (Proto V × Proto V)
unfolding tunnel_new_handler take_reply
cross ra rb to_a to_b a b = do
  a1 ← tunnel_new_handler to_a a
  b1 ← tunnel_new_handler to_b b
  a2 ← take_reply (last_reply b1.events) ra a1
  b2 ← take_reply (last_reply a1.events) rb b1
  ok (a2, b2)

cross-run :
    {V : Type 0} (ra rb : ℕ) (p q : Request) (a b a1 b1 a2 b2 : Proto V)
    → tunnel_new_handler p a ≡ ok a1
    → tunnel_new_handler q b ≡ ok b1
    → take_reply (last_reply b1.events) ra a1 ≡ ok a2
    → take_reply (last_reply a1.events) rb b1 ≡ ok b2
    → cross ra rb p q a b ≡ ok (a2, b2)
unfolding cross
cross-run ra rb p q a b a1 b1 a2 b2 ea eb fa fb =
    ap
      (λ m. m >>= λ a1. tunnel_new_handler q b >>= λ b1.
        take_reply (last_reply b1.events) ra a1 >>= λ a2.
        take_reply (last_reply a1.events) rb b1 >>= λ b2. ok (a2, b2))
      ea
    ∙ ap
        (λ m. m >>= λ b1. take_reply (last_reply b1.events) ra a1 >>= λ a2.
          take_reply (last_reply a1.events) rb b1 >>= λ b2. ok (a2, b2))
        eb
    ∙ ap (λ m. m >>= λ a2. take_reply (last_reply a1.events) rb b1 >>= λ b2. ok (a2, b2)) fa
    ∙ ap (λ m. m >>= λ b2. ok (a2, b2)) fb

-- Two linked runtimes that each have a tunnel to the other waiting, under an id of its own, take
-- the request of the other and then the reply to their own without an exception, if the
-- callbacks for a tunnel that is up raise none; then both have their tunnel working under the
-- greater of the two ids, and no other id names it.
pub cross-At :
    {V : Type 0} (peer_a peer_b : String) (ra rb : ℕ) (x y : String) (a b : Proto V)
    (msg_a msg_b tunnel_type policy_a policy_b : String)
    → At peer_b ra x pending_tunnel a
    → At peer_a rb y pending_tunnel b
    → get_tunnel peer_b tunnel_type a ≡ some ra
    → get_tunnel peer_a tunnel_type b ≡ some rb
    → (a' b' : Proto V) × (cross ra rb
          (request peer_b msg_b tunnel_type y policy_b)
          (request peer_a msg_a tunnel_type x policy_a)
          a
          b
        ≡ ok (a', b'))
      × At peer_b ra (greater x y) working_tunnel a'
      × At peer_a rb (greater x y) working_tunnel b'
unfolding cross take_reply
cross-At peer_a peer_b ra rb x y a b msg_a msg_b tunnel_type policy_a policy_b at_a at_b found_a
      found_b =
    let (a1, ea, wa, la) =
      tunnel_new_handler-At peer_b ra x msg_b tunnel_type y policy_b a at_a found_a in
    let (b1, eb, wb, lb) =
      tunnel_new_handler-At peer_a rb y msg_a tunnel_type x policy_a b at_b found_b in
    let (a2, fa, va, _) = setup_ack-At peer_b ra (greater y x) (greater x y) working_tunnel a1 wa in
    let (b2, fb, vb, _) = setup_ack-At peer_a rb (greater x y) (greater y x) working_tunnel b1 wb in
    (
      a2,
      b2,
      cross-run ra rb (request peer_b msg_b tunnel_type y policy_b)
          (request peer_a msg_a tunnel_type x policy_a) a b a1 b1 a2 b2 ea eb
          (ap (λ m. take_reply m ra a1) lb ∙ fa) (ap (λ m. take_reply m rb b1) la ∙ fb),
      subst (λ i. At peer_b ra i working_tunnel a2) (greater_comm y x) va,
      vb,
    )
