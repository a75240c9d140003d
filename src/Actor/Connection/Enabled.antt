-- ===== src/Actor/Connection/Enabled.antt =====
-- An enabled actor has all its ports connected.
use exjobb_calvin.Prelude.{
  ◌+◌, String, ◌≡◌, ◌≢◌, refl, ◌∙◌, subst, ok-injective, true, false, ◌&&◌, ◌||◌, List, [], ◌∷◌,
  if◌then◌else◌, Bool-cases, ok, >>=-eq-ok, arith, inl, inr,
}
use exjobb_calvin.Prelude.Dict.{Dict, insert}
use exjobb_calvin.Port.{InPort, OutPort, in_is_connected, out_is_connected}
use exjobb_calvin.Actor.Fsm.{
  Fsm, Status, ready, pending, enabled, same_status, transition_to, verify_status,
}
use exjobb_calvin.Actor.Connection.{
  Actor, all_in, all_out, any_in, any_out, enter, wake, try_enable, try_ready, move_from,
  did_connect, did_disconnect,
}

abbrev pub AllConnected : Actor → Type 0
AllConnected a = (all_in a.inports ≡ true) × (all_out a.outports ≡ true)

abbrev pub IsSound : Actor → Type 0
IsSound a = a.fsm.state ≡ enabled → AllConnected a

all_in-insert :
    (n : String) (p : InPort) (d : Dict InPort)
    → all_in d ≡ true
    → in_is_connected p ≡ true
    → all_in (insert n p d) ≡ true
unfolding all_in insert
all_in-insert n p [] h c = ground (arith, c)
all_in-insert n p ((j, q) ∷ d) h c = ground (arith, all_in-insert n p d)

pub all_out-insert :
    (n : String) (p : OutPort) (d : Dict OutPort)
    → all_out d ≡ true
    → out_is_connected p ≡ true
    → all_out (insert n p d) ≡ true
unfolding all_out insert
all_out-insert n p [] h c = ground (arith, c)
all_out-insert n p ((j, q) ∷ d) h c = ground (arith, all_out-insert n p d)

-- What a transition that goes through leaves: the new state, whatever the flags.
pub transition_to_state : (s : Status) (f f' : Fsm) → transition_to s f ≡ ok f' → f'.state ≡ s
unfolding transition_to
transition_to_state s f f' e = ground arith

abbrev pub moved_state : Status → Status → Status → Status
moved_state from to s = if same_status s from then to else s

-- What a callback leaves, when it returns: the ports, and a status.
pub record Called (a a' : Actor) (s : Status) : Type 0 where
  pub inports : a'.inports ≡ a.inports
  pub outports : a'.outports ≡ a.outports
  pub state : a'.fsm.state ≡ s

pub enter-Called : (s : Status) (a a' : Actor) → enter s a ≡ ok a' → Called a a' s
unfolding enter
enter-Called s a a' e =
    let (fsm, t, done) = >>=-eq-ok (transition_to s a.fsm) (λ f. ok (record a { fsm = f })) e in
    let same : record a { fsm = fsm } ≡ a' = ok-injective _ a' done in
    subst (λ b. Called a b s) same
      (record { inports = refl; outports = refl; state = transition_to_state s a.fsm fsm t })

stay-Called : (a a' : Actor) → ok a ≡ ok a' → Called a a' a.fsm.state
stay-Called a a' e =
    subst (λ b. Called a b a.fsm.state) (ok-injective a a' e)
      (record { inports = refl; outports = refl; state = refl })

wake-Called : (a a' : Actor) → wake a ≡ ok a' → Called a a' enabled
unfolding wake
wake-Called a a' e =
    let (b, m, done) =
      >>=-eq-ok (enter enabled a) (λ c. ok (record c { wakeups = c.wakeups + 1 })) e in
    let k = enter-Called enabled a b m in
    subst (λ c. Called a c enabled) (ok-injective _ a' done)
      (record { inports = k.inports; outports = k.outports; state = k.state })

move_from-Called :
    (from to : Status) (a a' : Actor)
    → move_from from to a ≡ ok a'
    → Called a a' (moved_state from to a.fsm.state)
unfolding move_from
move_from-Called from to a a' e = elim (Bool-cases (same_status a.fsm.state from)) [
  | inl same ↦ simp same (enter-Called to a a' (simp same at e))
  | inr other ↦ simp other (stay-Called a a' (simp other at e))
]

try_enable-Called :
    (a a' : Actor)
    → try_enable a ≡ ok a'
    → Called a a' (if all_in a.inports && all_out a.outports then enabled else a.fsm.state)
unfolding try_enable
try_enable-Called a a' e = elim (Bool-cases (all_in a.inports)) [
  | inr open_in ↦ simp open_in (stay-Called a a' (simp open_in at e))
  | inl all ↦ elim (Bool-cases (all_out a.outports)) [
    | inr open_out ↦ simp (all, open_out) (stay-Called a a' (simp (all, open_out) at e))
    | inl both ↦ simp (all, both) (wake-Called a a' (simp (all, both) at e))
  ]
]

try_ready-Called :
    (a a' : Actor)
    → try_ready a ≡ ok a'
    → Called a a' (if any_in a.inports || any_out a.outports then a.fsm.state else ready)
unfolding try_ready
try_ready-Called a a' e = elim (Bool-cases (any_in a.inports)) [
  | inl some_in ↦ simp some_in (stay-Called a a' (simp some_in at e))
  | inr no_in ↦ elim (Bool-cases (any_out a.outports)) [
    | inl some_out ↦ simp (no_in, some_out) (stay-Called a a' (simp (no_in, some_out) at e))
    | inr neither ↦ simp (no_in, neither) (enter-Called ready a a' (simp (no_in, neither) at e))
  ]
]

Called-trans : (a b c : Actor) (s t u : Status) → Called a b s → Called b c t → t ≡ u → Called a c u
Called-trans a b c s t u h k e = record {
  inports = k.inports ∙ h.inports;
  outports = k.outports ∙ h.outports;
  state = k.state ∙ e;
}

pub verify_status_logs : (valid : List Status) (f : Fsm) → verify_status valid false f ≡ ok tt
unfolding verify_status
verify_status_logs valid f = ground arith

pub did_connect-Called :
    (a a' : Actor)
    → did_connect a ≡ ok a'
    → Called a a' (
        if all_in a.inports && all_out a.outports
        then enabled
        else moved_state ready pending a.fsm.state)
unfolding did_connect
did_connect-Called a a' e =
    let (b, m, rest) =
      >>=-eq-ok (move_from ready pending a) try_enable (rw verify_status_logs at e) in
    let h = move_from-Called ready pending a b m in
    Called-trans a b a' _ _ _ h (try_enable-Called b a' rest)
      (ground (arith, h.inports, h.outports, h.state))

pub did_disconnect-Called :
    (a a' : Actor)
    → did_disconnect a ≡ ok a'
    → Called a a' (
        if any_in a.inports || any_out a.outports
        then moved_state enabled pending a.fsm.state
        else ready)
unfolding did_disconnect
did_disconnect-Called a a' e =
    let (b, m, rest) =
      >>=-eq-ok (move_from enabled pending a) try_ready (rw verify_status_logs at e) in
    let h = move_from-Called enabled pending a b m in
    Called-trans a b a' _ _ _ h (try_ready-Called b a' rest)
      (ground (arith, h.inports, h.outports, h.state))

-- The call at a disconnect never leaves the actor enabled.
pub did_disconnect-ne_enabled : (a a' : Actor) → did_disconnect a ≡ ok a' → a'.fsm.state ≢ enabled
unfolding same_status
did_disconnect-ne_enabled a a' e s = ground (arith, (did_disconnect-Called a a' e).state)

pub did_connect-IsSound :
    (a a' : Actor) → did_connect a ≡ ok a' → (a.fsm.state ≡ enabled → AllConnected a) → IsSound a'
unfolding same_status
did_connect-IsSound a a' e h s =
    let k = did_connect-Called a a' e in ground (arith, k.state, k.inports, k.outports, h)
