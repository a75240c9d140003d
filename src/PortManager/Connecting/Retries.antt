-- ===== src/PortManager/Connecting/Retries.antt =====
-- calvin/runtime/north/portmanager.py: a peer that does not know the tunnel is asked again, a few times.
use exjobb_calvin.Prelude.{
  ℕ, zero, suc, ◌+◌, ◌<◌, false, Option, none, some, List, [], ◌∷◌, ◌++◌, ◌≡◌, refl, arith, Result,
  ok, ◌>>=◌, ap, ◌∙◌, lt→ltb,
}
use exjobb_calvin.PortManager.{
  gone, internal_error, ConnectState, Tunnel, PortRef, Event, connect_answered, port_connect,
  Manager, emit, is_connected_to,
}
use exjobb_calvin.PortManager.Connecting.{
  answer, own_port, tunnel_of, with_retries, connect_via_tunnel, on_gone, connected_via_tunnel,
}
use mathlib.Core.List.{append_assoc}

-- The port is here, is not connected to the peer yet, and there is a tunnel to the peer.
pub record CanAsk {C : Type 0} (state : ConnectState C) (m : Manager C) : Type 0 where
  pub port : PortRef
  pub found : own_port state m ≡ ok port
  pub unconnected : is_connected_to state.peer_port_id port m ≡ ok false
  pub tunnel : Tunnel
  pub has_tunnel : tunnel_of state m ≡ ok tunnel

abbrev pub tried : {C : Type 0} → ℕ → ConnectState C → ConnectState C
tried n state = record state { retries = some n }

module _ {C : Type 0} where
  abbrev pub asked_by : Event C → Option (ConnectState C)
  asked_by (port_connect state) = some state
  asked_by _ = none

  -- The last request to connect that was made, if it is the last event.
  unfoldable pub last_asked : List (Event C) → Option (ConnectState C)
  last_asked [] = none
  last_asked (e ∷ []) = asked_by e
  last_asked (e ∷ f ∷ es) = last_asked (f ∷ es)

  -- The conversation ends with no request, or goes on with the state of the last.
  abbrev pub goes_on :
      Option (ConnectState C)
      → Manager C
      → (ConnectState C → Result (Manager C))
      → Result (Manager C)
  goes_on none m later = ok m
  goes_on (some state) m later = later state

  -- Every request is answered by GONE, as often as the fuel allows.
  unfoldable pub all_gone : (fuel : ℕ) → ConnectState C → Manager C → Result (Manager C)
  all_gone zero state m = ok m
  all_gone (suc fuel) state m = do
    m' ← connected_via_tunnel (record { status = gone; port_id = none }) state m
    goes_on (last_asked m'.events) m' (λ s. all_gone fuel s m')

  last_asked-append :
      (xs : List (Event C)) (e : Event C) → last_asked (xs ++ e ∷ []) ≡ last_asked (e ∷ [])
  unfolding last_asked
  last_asked-append [] e = refl
  last_asked-append (x ∷ []) e = refl
  last_asked-append (x ∷ y ∷ xs) e = last_asked-append (y ∷ xs) e

  CanAsk-emit :
      (state : ConnectState C) (m : Manager C) (e : Event C)
      → CanAsk state m
      → CanAsk state (emit e m)
  unfolding own_port tunnel_of is_connected_to emit
  CanAsk-emit state m e a = record {
    port = a.port;
    found = a.found;
    unconnected = a.unconnected;
    tunnel = a.tunnel;
    has_tunnel = a.has_tunnel;
  }

  ask_again :
      (r : ℕ) (state : ConnectState C) (m : Manager C)
      → r < 3
      → CanAsk state m
      → connected_via_tunnel (record { status = gone; port_id = none }) (tried r state) m
        ≡ ok (emit (port_connect (tried (suc r) state)) m)
  unfolding connected_via_tunnel on_gone connect_via_tunnel own_port tunnel_of with_retries
  ask_again r state m b a =
      rw (lt→ltb r 3 b) (rw (a.found) (rw (a.unconnected) (rw (a.has_tunnel) refl)))

  give_up :
      (state : ConnectState C) (m : Manager C) (cb : C)
      → state.callback ≡ some cb
      → connected_via_tunnel (record { status = gone; port_id = none }) (tried 3 state) m
        ≡ ok (emit (connect_answered cb internal_error (tried 3 state)) m)
  unfolding connected_via_tunnel on_gone answer
  give_up state m cb h = ground arith

  last_asked-emit : (e : Event C) (m : Manager C) → last_asked (emit e m).events ≡ asked_by e
  unfolding emit last_asked
  last_asked-emit e m = last_asked-append m.events e

  all_gone-end :
      (fuel : ℕ) (state : ConnectState C) (m m' : Manager C)
      → connected_via_tunnel (record { status = gone; port_id = none }) state m ≡ ok m'
      → last_asked m'.events ≡ none
      → all_gone (suc fuel) state m ≡ ok m'
  unfolding all_gone
  all_gone-end fuel state m m' e h =
      ap (λ r. r >>= λ n. goes_on (last_asked n.events) n (λ s. all_gone fuel s n)) e
      ∙ ap (λ o. goes_on o m' (λ s. all_gone fuel s m')) h

  all_gone-step :
      (fuel : ℕ) (state state' : ConnectState C) (m m' : Manager C)
      → connected_via_tunnel (record { status = gone; port_id = none }) state m ≡ ok m'
      → last_asked m'.events ≡ some state'
      → all_gone (suc fuel) state m ≡ all_gone fuel state' m'
  unfolding all_gone
  all_gone-step fuel state state' m m' e h =
      ap (λ r. r >>= λ n. goes_on (last_asked n.events) n (λ s. all_gone fuel s n)) e
      ∙ ap (λ o. goes_on o m' (λ s. all_gone fuel s m')) h

  -- More events.
  abbrev pub with_events : List (Event C) → Manager C → Manager C
  with_events es m = record m { events = m.events ++ es }

  emitted : (e : Event C) (m : Manager C) → ok (emit e m) ≡ ok (with_events (e ∷ []) m)
  unfolding emit
  emitted e m = refl

  with_events-emit :
      (e : Event C) (es : List (Event C)) (m : Manager C)
      → with_events es (emit e m) ≡ with_events (e ∷ es) m
  unfolding emit
  with_events-emit e es m =
      ap (λ es'. record m { events = es' }) (append_assoc m.events (e ∷ []) es)

  -- The requests of the tries after the one with this number.
  abbrev pub requests : (after count : ℕ) → ConnectState C → List (Event C)
  requests after zero state = []
  requests after (suc count) state =
      port_connect (tried (suc after) state) ∷ requests (suc after) count state

  -- When the port is here, is not connected and has a tunnel to its peer, and every request to
  -- connect is answered by GONE: after `r` tries the manager asks 3 - r more times, then tells the
  -- caller once that it failed, and stops; more answers than that are not waited for.
  pub all_gone-requests :
      (k r fuel : ℕ) (state : ConnectState C) (m : Manager C) (cb : C)
      → r + k ≡ 3
      → k < fuel
      → CanAsk state m
      → state.callback ≡ some cb
      → all_gone fuel (tried r state) m
        ≡ ok (
            with_events
              (requests r k state ++ connect_answered cb internal_error (tried 3 state) ∷ [])
              m)
  all_gone-requests k r zero state m cb e b a c = absurd (omega arith)
  all_gone-requests zero r (suc fuel) state m cb e b a c =
      let three : r ≡ 3 = omega arith in
      rw three (
        all_gone-end fuel (tried 3 state) m
          (emit (connect_answered cb internal_error (tried 3 state)) m) (give_up state m cb c)
          (last_asked-emit (connect_answered cb internal_error (tried 3 state)) m)
        ∙ emitted (connect_answered cb internal_error (tried 3 state)) m)
  all_gone-requests (suc k) r (suc fuel) state m cb e b a c =
      let asking = port_connect (tried (suc r) state) in
      all_gone-step fuel (tried r state) (tried (suc r) state) m (emit asking m)
        (ask_again r state m (omega arith) a) (last_asked-emit asking m)
      ∙ all_gone-requests k (suc r) fuel state (emit asking m) cb (omega arith) (omega arith)
          (CanAsk-emit state m asking a) c
      ∙ ap ok (
          with_events-emit asking
            (requests (suc r) k state ++ connect_answered cb internal_error (tried 3 state) ∷ []) m)
