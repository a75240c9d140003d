-- ===== src/Actor/Connection/Dropping.antt =====
-- Every connection operation keeps "enabled means connected", and none that drops a connection
-- brings the actor back to READY.
use exjobb_calvin.Prelude.{
  String, ◌≡◌, ◌≢◌, refl, sym, ◌∙◌, ap, subst, Bool, true, false, ◌⊎◌, List, [], ◌∷◌, ◌++◌,
  length-append, is_some, if◌then◌else◌, Bool-cases, Result, ok, ok-injective, ◌>>=◌, >>=-eq-ok,
  arith, inl, inr,
}
use exjobb_calvin.Prelude.Dict.{Dict, lookup, insert, get}
use exjobb_calvin.Port.{
  InPort, InEndpoint, OutPort, OutEndpoint, in_is_connected, out_is_connected, out_connected,
  all_connected, out_peer_id, drop_endpoints, add_endpoint, match_peer, local_out, tunnel_out,
}
use exjobb_calvin.Actor.Fsm.{Status, ready, pending, enabled, same_status}
use exjobb_calvin.Actor.Connection.{
  Actor, all_in, all_out, any_in, enter, did_disconnect, detach_in, attach_in, disconnect_in,
  detach_out, attach_out, disconnect_out, setup_complete, disable,
}
use exjobb_calvin.Actor.Connection.Enabled.{
  IsSound, did_disconnect-Called, did_disconnect-ne_enabled, did_connect-IsSound, all_out-insert,
  enter-Called, verify_status_logs,
}

all_in-get :
    (n : String) (d : Dict InPort) (p : InPort)
    → get n d ≡ ok p
    → all_in d ≡ true
    → in_is_connected p ≡ true
unfolding all_in get lookup
all_in-get n [] p e h = cc
all_in-get n ((j, q) ∷ d) p e h = ground (arith, all_in-get n d p)

any_in-get :
    (n : String) (d : Dict InPort) (p : InPort)
    → get n d ≡ ok p
    → in_is_connected p ≡ true
    → any_in d ≡ true
unfolding any_in get lookup
any_in-get n [] p e h = cc
any_in-get n ((j, q) ∷ d) p e h = ground (arith, any_in-get n d p)

all_out-get :
    (n : String) (d : Dict OutPort) (p : OutPort)
    → get n d ≡ ok p
    → all_out d ≡ true
    → out_is_connected p ≡ true
unfolding all_out get lookup
all_out-get n [] p e h = cc
all_out-get n ((j, q) ∷ d) p e h = ground (arith, all_out-get n d p)

out_connected-true : (e : OutEndpoint) → out_connected e ≡ true
unfolding out_connected
out_connected-true (local_out p) = refl
out_connected-true (tunnel_out n p) = refl

all_connected-true : (es : List OutEndpoint) → all_connected es ≡ true
unfolding all_connected
all_connected-true [] = refl
all_connected-true (e ∷ es) = rw (out_connected-true e) (all_connected-true es)

-- One endpoint more does not disconnect an outport.
add_endpoint-connected :
    (e : OutEndpoint) (p : OutPort)
    → out_is_connected p ≡ true
    → out_is_connected (add_endpoint e p) ≡ true
unfolding out_is_connected add_endpoint
add_endpoint-connected e p h = ground (
  arith,
  length-append p.endpoints (e ∷ []),
  all_connected-true (p.endpoints ++ e ∷ []),
  all_connected-true p.endpoints,
)

-- After `did_disconnect` the actor is not enabled, whatever happens to its ports then.
dropped-IsSound : (a b c : Actor) → did_disconnect a ≡ ok b → c.fsm.state ≡ b.fsm.state → IsSound c
dropped-IsSound a b c e same s = absurd (did_disconnect-ne_enabled a b e (sym same ∙ s))

detach_in-state :
    (name : String) (a a' : Actor)
    → detach_in name true a ≡ ok a'
    → (b : Actor) × (did_disconnect a ≡ ok b) × (a'.fsm.state ≡ b.fsm.state)
unfolding detach_in
detach_in-state name a a' e =
    let (port, _, rest) = >>=-eq-ok (get name a.inports) _ e in
    let (b, d, done) = >>=-eq-ok (did_disconnect a) _ rest in
    (b, d, ap (λ (c : Actor). c.fsm.state) (sym (ok-injective _ _ done)))

attach_in-IsSound :
    (name : String) (e : InEndpoint) (a a' : Actor)
    → IsSound a
    → attach_in name e a ≡ ok a'
    → IsSound a'
unfolding attach_in
attach_in-IsSound name e a a' sound h =
    let (port, found, rest) = >>=-eq-ok (get name a.inports) _ h in
    let (b, moved, done) =
      >>=-eq-ok (if in_is_connected port then detach_in name true a else ok a) _ rest in
    did_connect-IsSound
      (record b { inports = insert name (record port { endpoint = e }) b.inports }) a' done
      (elim (Bool-cases (in_is_connected port)) [
        | inl old ↦
            let (c, d, s) = detach_in-state name a b (simp old at moved) in
            λ on. absurd (did_disconnect-ne_enabled a c d (sym s ∙ on))
        | inr new ↦
            let same : a ≡ b = ok-injective a b (simp new at moved) in
            λ on.
              let all = sound (ap (λ (c : Actor). c.fsm.state) same ∙ on) in
              absurd (true_ne_false (sym (all_in-get name a.inports port found all.0) ∙ new))
      ])
  where
    true_ne_false : true ≡ false → ⊥
    true_ne_false e = cc

detach_out-cases :
    (name q : String) (a a' : Actor)
    → detach_out name q a ≡ ok a'
    → (a ≡ a') ⊎ ((b : Actor) × (did_disconnect a ≡ ok b) × (a'.fsm.state ≡ b.fsm.state))
unfolding detach_out
detach_out-cases name q a a' e =
    let (port, found, rest) = >>=-eq-ok (get name a.outports) _ e in
    elim (Bool-cases (is_some (match_peer q port.endpoints))) [
      | inr absent ↦ inl (ok-injective a a' (simp absent at rest))
      | inl old ↦
          let (b, d, done) = >>=-eq-ok (did_disconnect a) _ (simp old at rest) in
          inr (b, d, ap (λ (c : Actor). c.fsm.state) (sym (ok-injective _ _ done)))
    ]

attach_out-IsSound :
    (name : String) (e : OutEndpoint) (a a' : Actor)
    → IsSound a
    → attach_out name e a ≡ ok a'
    → IsSound a'
unfolding attach_out
attach_out-IsSound name e a a' sound h =
    let (b, moved, rest) = >>=-eq-ok (detach_out name (out_peer_id e) a) _ h in
    let (port, found, done) = >>=-eq-ok (get name b.outports) _ rest in
    did_connect-IsSound (record b { outports = insert name (add_endpoint e port) b.outports }) a'
      done
      (elim (detach_out-cases name (out_peer_id e) a b moved) [
        | inr (c, d, s) ↦ λ on. absurd (did_disconnect-ne_enabled a c d (sym s ∙ on))
        | inl same ↦ λ on.
            let all = subst IsSound same sound on in
            (
              all.0,
              all_out-insert name (add_endpoint e port) b.outports all.1
                  (add_endpoint-connected e port (all_out-get name b.outports port found all.1)),
            )
      ])

detach_in-other : (name : String) (a a' : Actor) → detach_in name false a ≡ ok a' → a ≡ a'
unfolding detach_in
detach_in-other name a a' e =
    let (port, found, rest) = >>=-eq-ok (get name a.inports) _ e in ok-injective a a' rest

detach_in-IsSound :
    (name : String) (same : Bool) (a a' : Actor)
    → IsSound a
    → detach_in name same a ≡ ok a'
    → IsSound a'
detach_in-IsSound name true a a' sound e =
    let (b, d, s) = detach_in-state name a a' e in dropped-IsSound a b a' d s
detach_in-IsSound name false a a' sound e = subst IsSound (detach_in-other name a a' e) sound

detach_out-IsSound :
    (name q : String) (a a' : Actor) → IsSound a → detach_out name q a ≡ ok a' → IsSound a'
detach_out-IsSound name q a a' sound e = elim (detach_out-cases name q a a' e) [
  | inl same ↦ subst IsSound same sound
  | inr (b, d, s) ↦ dropped-IsSound a b a' d s
]

disconnect_in-state :
    (name : String) (a a' : Actor)
    → disconnect_in name a ≡ ok a'
    → (port : InPort) × (get name a.inports ≡ ok port)
      × (b : Actor) × (did_disconnect a ≡ ok b)
      × (a'.fsm.state ≡ b.fsm.state)
unfolding disconnect_in
disconnect_in-state name a a' e =
    let (port, found, rest) = >>=-eq-ok (get name a.inports) _ e in
    let (b, d, done) = >>=-eq-ok (did_disconnect a) _ rest in
    (port, found, b, d, ap (λ (c : Actor). c.fsm.state) (sym (ok-injective _ _ done)))

disconnect_out-IsSound : (name : String) (a a' : Actor) → disconnect_out name a ≡ ok a' → IsSound a'
unfolding disconnect_out
disconnect_out-IsSound name a a' e =
    let (b, d, rest) = >>=-eq-ok (did_disconnect a) _ e in
    let (port, _, rest') = >>=-eq-ok (get name b.outports) _ rest in
    let (port', _, done) = >>=-eq-ok (drop_endpoints port) _ rest' in
    dropped-IsSound a b a' d (ap (λ (c : Actor). c.fsm.state) (sym (ok-injective _ _ done)))

entered-IsSound : (s : Status) (a a' : Actor) → s ≢ enabled → enter s a ≡ ok a' → IsSound a'
entered-IsSound s a a' other e on = absurd (other (sym (enter-Called s a a' e).state ∙ on))

-- The calls that change the connections or the status of an actor. `enable` is left out: it is
-- deprecated, and enables whatever is connected.
pub data Call : Type 0 where
  attach_in_call : String → InEndpoint → Call
  detach_in_call : String → Bool → Call
  disconnect_in_call : String → Call
  attach_out_call : String → OutEndpoint → Call
  detach_out_call : String → String → Call
  disconnect_out_call : String → Call
  setup_complete_call disable_call : Call

unfoldable pub call : Call → Actor → Result Actor
call (attach_in_call name e) = attach_in name e
call (detach_in_call name same) = detach_in name same
call (disconnect_in_call name) = disconnect_in name
call (attach_out_call name e) = attach_out name e
call (detach_out_call name q) = detach_out name q
call (disconnect_out_call name) = disconnect_out name
call setup_complete_call = setup_complete
call disable_call = disable

call-IsSound : (c : Call) (a a' : Actor) → IsSound a → call c a ≡ ok a' → IsSound a'
unfolding call setup_complete disable
call-IsSound (attach_in_call name e) a a' s h = attach_in-IsSound name e a a' s h
call-IsSound (detach_in_call name same) a a' s h = detach_in-IsSound name same a a' s h
call-IsSound (disconnect_in_call name) a a' s h =
    let (_, _, b, d, k) = disconnect_in-state name a a' h in dropped-IsSound a b a' d k
call-IsSound (attach_out_call name e) a a' s h = attach_out-IsSound name e a a' s h
call-IsSound (detach_out_call name q) a a' s h = detach_out-IsSound name q a a' s h
call-IsSound (disconnect_out_call name) a a' s h = disconnect_out-IsSound name a a' h
call-IsSound setup_complete_call a a' s h =
    entered-IsSound ready a a' (λ e. cc) (rw verify_status_logs at h)
call-IsSound disable_call a a' s h =
    entered-IsSound pending a a' (λ e. cc) (rw verify_status_logs at h)

unfoldable pub calls : List Call → Actor → Result Actor
calls [] a = ok a
calls (c ∷ cs) a = do a' ← call c a; calls cs a'

-- If an actor that is ENABLED has all its ports connected, this stays so:
-- after any calls that attach, detach or disconnect ports, complete the setup or disable, in any
-- order and with any flags of the status machine, an actor that is ENABLED has all its inports and
-- all its outports connected.
pub calls-IsSound : (cs : List Call) (a a' : Actor) → IsSound a → calls cs a ≡ ok a' → IsSound a'
unfolding calls
calls-IsSound [] a a' s h = subst IsSound (ok-injective a a' h) s
calls-IsSound (c ∷ cs) a a' s h =
    let (b, first, rest) = >>=-eq-ok (call c a) (calls cs) h in
    calls-IsSound cs b a' (call-IsSound c a b s first) rest

-- Disconnecting a connected inport of an enabled actor leaves it PENDING, also when it was the
-- last connection: the owner is told before the port drops its endpoint.
pub disconnect_in-pending :
    (name : String) (a a' : Actor) (port : InPort)
    → get name a.inports ≡ ok port
    → in_is_connected port ≡ true
    → a.fsm.state ≡ enabled
    → disconnect_in name a ≡ ok a'
    → a'.fsm.state ≡ pending
unfolding same_status
disconnect_in-pending name a a' port found connected on e =
    let (_, _, b, d, s) = disconnect_in-state name a a' e in
    let k = did_disconnect-Called a b d in
    ground (arith, s, k.state, any_in-get name a.inports port found connected, on)
