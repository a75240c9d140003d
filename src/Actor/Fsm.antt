-- ===== src/Actor/Fsm.antt =====
-- `Actor.FSM`: the status of an actor, its transitions and their hooks.
use exjobb_calvin.Prelude.{
  Bool, true, false, ◌||◌, not, ◌&&◌, Option, none, some, List, [], ◌∷◌, ◌++◌, if◌then◌else◌,
  Result, ok, err, invalid_transition, invalid_status,
}

pub data Status : Type 0 where
  loaded ready pending enabled : Status

-- The hooks that a transition calls: methods of the actor's class.
pub data Hook : Type 0 where
  will_start will_stop : Hook

unfoldable pub same_status : Status → Status → Bool
same_status loaded loaded = true
same_status ready ready = true
same_status pending pending = true
same_status enabled enabled = true
same_status _ _ = false

unfoldable pub status_in : Status → List Status → Bool
status_in s [] = false
status_in s (t ∷ ts) = same_status s t || status_in s ts

-- VALID_TRANSITIONS
unfoldable pub valid_transitions : Status → List Status
valid_transitions loaded = ready ∷ []
valid_transitions ready = pending ∷ enabled ∷ []
valid_transitions pending = ready ∷ pending ∷ enabled ∷ []
valid_transitions enabled = ready ∷ pending ∷ []

unfoldable pub hook_of : Status → Status → Option Hook
hook_of pending enabled = some will_start
hook_of enabled pending = some will_stop
hook_of _ _ = none

pub record Fsm : Type 0 where
  pub state : Status
  pub allow_invalid_transitions : Bool
  pub disable_transition_checks : Bool
  pub disable_state_checks : Bool
  -- the hooks that were called, in order
  pub called : List Hook

unfoldable pub init : Bool → Bool → Bool → Fsm
init allow_invalid no_transition_checks no_state_checks = record {
  state = loaded;
  allow_invalid_transitions = allow_invalid;
  disable_transition_checks = no_transition_checks;
  disable_state_checks = no_state_checks;
  called = [];
}

abbrev hooked : List Hook → Option Hook → List Hook
hooked hs none = hs
hooked hs (some h) = hs ++ h ∷ []

-- An invalid transition that is allowed calls no hook.
unfoldable pub transition_to : Status → Fsm → Result Fsm
transition_to new fsm =
    if status_in new (valid_transitions fsm.state) || fsm.disable_transition_checks
    then ok (record fsm { state = new; called = hooked fsm.called (hook_of fsm.state new) })
    else if fsm.allow_invalid_transitions
    then ok (record fsm { state = new })
    else err invalid_transition

-- The decorator's test. Without `raise_`, as in every use in the class, it only logs.
unfoldable pub verify_status : List Status → Bool → Fsm → Result (Unit {0})
verify_status valid raise fsm =
    if not fsm.disable_state_checks && not (status_in fsm.state valid)
    then (if raise then err invalid_status else ok tt)
    else ok tt
