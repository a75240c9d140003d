-- ===== src/Examples/Runtime.antt =====
-- Actors, the scheduler, the metering, ports and callbacks of calvin/actor and calvin/runtime.
use exjobb_calvin.Prelude.{
  ℕ, zero, suc, ◌-◌, String, Bool, true, false, ◌&&◌, ◌≡◌, ◌≢◌, refl, none, some, [], ◌∷◌, ◌++◌,
  List, Result, ◌↔◌, ok, err, out_of_fuel, ok-injective, ap, ◌∙◌, str_eq, if◌then◌else◌, arith,
}
use exjobb_calvin.Prelude.Dict.{lookup, insert, get}
use exjobb_calvin.Prelude.Dict.Names.{contains}
use exjobb_calvin.Port.{
  InPort, local_in, new_in, new_out, in_is_connected, in_connected, drop_endpoint, in_peer,
}
use exjobb_calvin.Port.Serial.{set_out_state, out_state, set_out_state-out_state}
use exjobb_calvin.Actor.Action.{
  perform, arguments, peek_tokens, as_argument, react, finish, valid_production, lengths_match,
  items, settle, each, produce, outgoing, put_tokens, total, as_token, Data, many, raw,
  ActionResult, action_result, merge, Ports, Contract, condition, enough, exception_handler,
}
use exjobb_calvin.Token.{Token, token, is_exception}
use exjobb_calvin.Token.Values.{int, str}
use exjobb_calvin.Prelude.Int.{pos}
use exjobb_calvin.Actor.Action.Outcome.{Outcome, condition-Outcome}
use exjobb_calvin.Actor.Firing.{Action, fire, round, rounds, goes_on}
use exjobb_calvin.Actor.Firing.Totals.{Stopped, Descends, fire-Stopped, fire-enough}
use exjobb_calvin.Actor.Fsm.{
  Fsm, loaded, ready, enabled, pending, verify_status, same_status, transition_to, status_in,
  valid_transitions, hook_of, will_stop,
}
use exjobb_calvin.Actor.Connection.{
  Actor, setup_complete, disconnect_in, did_disconnect, move_from, try_ready, any_in, any_out,
  enter,
}
use exjobb_calvin.Actor.Connection.Enabled.{IsSound}
use exjobb_calvin.Actor.Connection.Dropping.{
  setup_complete_call, call, calls, calls-IsSound, disconnect_in-pending,
}
use exjobb_calvin.Actor.Members.{
  component_add, component_remove, component_remove-component_add, id_list, one_id,
  part_of_component, stays,
}
use exjobb_calvin.Scheduler
use exjobb_calvin.Scheduler.{Scheduler, trigger_loop}
use exjobb_calvin.Scheduler.Outstanding.{Triggered, trigger_loop-HasLoop, loops, kept}
use exjobb_calvin.Metering
use exjobb_calvin.Metering.{Metering}
use exjobb_calvin.Metering.Consistent.{IsConsistent}
use exjobb_calvin.Metering.Events.{added, removed, forgot, run, run-IsConsistent}
use exjobb_calvin.Callback.{
  Callbacks, is_valid, callbacks_of, callback_register, callback_unregister,
}
use exjobb_calvin.Callback.Registry.{holders, callback_register-lookup, callback_unregister-holders}

-- A state that counts the tokens left; every firing takes one.
abbrev countdown : Action ℕ
countdown = record {
  action_name = "tick";
  run = λ n. elim n [
    | zero ↦ ok (action_result false [], zero)
    | suc m ↦ ok (action_result true [], m)
  ];
}

abbrev always : ℕ → Bool
always n = true

abbrev unlogged : String → ActionResult → ℕ → ℕ
unlogged name r n = n

countdown-Descends : Descends always unlogged (λ n. n) countdown
unfolding action_result
countdown-Descends zero = (
  λ e. cc,
  λ r s' h.
      let e = ok-injective (action_result false [], 0) (r, s') h in
      (
        λ on. absurd (let d : false ≡ true = ap (λ p. p.0.did_fire) e ∙ on in cc),
        λ off. let k : 0 ≡ s' = ap (λ p. p.1) e in omega arith,
      ),
)
countdown-Descends (suc n) = (
  λ e. cc,
  λ r s' h.
      let e = ok-injective (action_result true [], n) (r, s') h in
      (
        λ on. let k : n ≡ s' = ap (λ p. p.1) e in omega arith,
        λ off. absurd (let d : true ≡ false = ap (λ p. p.0.did_fire) e ∙ off in cc),
      ),
)

fire-enough_example : fire always unlogged 3 (countdown ∷ []) 2 ≢ err out_of_fuel
fire-enough_example =
    fire-enough always unlogged (λ n. n) 3 (countdown ∷ []) 2 (countdown-Descends, tt) (omega arith)

ticks :
    fire always unlogged 3 (countdown ∷ []) 2
    ≡ ok (record { did_fire = true; tokens_consumed = 0; tokens_produced = 0; production = [] }, 0)
unfolding fire rounds round goes_on action_result merge
ticks = refl

fire-Stopped_example : Stopped always unlogged (countdown ∷ []) 0
fire-Stopped_example =
    fire-Stopped always unlogged 3 (countdown ∷ []) 2
      (record { did_fire = true; tokens_consumed = 0; tokens_produced = 0; production = [] }) 0
      ticks

-- Ports of which every inport has a token; the state is how many were peeked at and what was put.
abbrev full_ports : Ports (ℕ × List Token)
full_ports = record {
  in_available = λ p s. ok 1;
  out_available = λ p s. ok 2;
  peek = λ p s. ok (record { class = token; value = int (pos 7) }, (suc s.0, s.1));
  commit = λ p s. ok s;
  rewind = λ p s. ok (0, s.1);
  put = λ p t s. ok (s.0, s.1 ++ t ∷ []);
}

abbrev doubles : Contract
doubles = record { action_input = ("in", 1) ∷ []; action_output = ("out", 2) ∷ [] }

-- An action that sends two data for its one token.
abbrev doubling : List Data → ℕ × List Token → Result (ActionResult × (ℕ × List Token))
doubling args s =
    ok (action_result true (many (raw (int (pos 7)) ∷ raw (str "again") ∷ []) ∷ []), s)

abbrev doubled : ActionResult
doubled = record {
  did_fire = true;
  tokens_consumed = 1;
  tokens_produced = 2;
  production = many (raw (int (pos 7)) ∷ raw (str "again") ∷ []) ∷ [];
}

abbrev two_put : List Token
two_put =
    record { class = token; value = int (pos 7) }
    ∷ record { class = token; value = str "again" }
    ∷ []

fired : condition full_ports doubles doubling exception_handler (0, []) ≡ ok (doubled, (1, two_put))
unfolding condition enough perform arguments peek_tokens as_argument react is_exception finish
    valid_production action_result lengths_match items settle each produce outgoing put_tokens total
    as_token
fired = refl

condition-Outcome_example :
    Outcome full_ports doubles doubling exception_handler (0, []) doubled (1, two_put)
condition-Outcome_example =
    condition-Outcome full_ports doubles doubling exception_handler (0, []) doubled (1, two_put)
      fired

abbrev fsm : Fsm
fsm = record {
  state = loaded;
  allow_invalid_transitions = true;
  disable_transition_checks = false;
  disable_state_checks = false;
  called = [];
}

abbrev actor : Actor
actor = record { id = "a"; fsm = fsm; inports = []; outports = []; wakeups = 0 }

set_up :
    calls (setup_complete_call ∷ []) actor
    ≡ ok (record actor { fsm = record fsm { state = ready } })
unfolding calls call setup_complete verify_status enter transition_to status_in same_status
    valid_transitions hook_of
set_up = refl

actor-IsSound : IsSound actor
actor-IsSound h = cc

calls-IsSound_example : IsSound (record actor { fsm = record fsm { state = ready } })
calls-IsSound_example =
    calls-IsSound (setup_complete_call ∷ []) actor
      (record actor { fsm = record fsm { state = ready } }) actor-IsSound set_up

abbrev wired : InPort
wired = record (new_in "in" "p") { endpoint = local_in "q" true true }

abbrev running : Actor
running = record {
  id = "a";
  fsm = record fsm { state = enabled };
  inports = ("in", wired) ∷ [];
  outports = [];
  wakeups = 0;
}

abbrev stopped : Actor
stopped = record running {
  fsm = record fsm { state = pending; called = will_stop ∷ [] };
  inports = ("in", drop_endpoint wired) ∷ [];
}

disconnected : disconnect_in "in" running ≡ ok stopped
unfolding disconnect_in did_disconnect verify_status move_from try_ready any_in any_out enter
    transition_to status_in same_status valid_transitions hook_of get lookup insert in_is_connected
    in_connected drop_endpoint in_peer
disconnected = refl

disconnect_in-pending_example : stopped.fsm.state ≡ pending
unfolding get lookup in_is_connected in_connected
disconnect_in-pending_example =
    disconnect_in-pending "in" running stopped wired refl refl refl disconnected

set_out_state-out_state_example :
    set_out_state (out_state (new_out "out" "p")) (new_out "other" "q")
    ≡ ok (record (new_out "other" "q") {
      name = (new_out "out" "p").name;
      id = (new_out "out" "p").id;
      fifo = (new_out "out" "p").fifo;
      fanout = (new_out "out" "p").fanout;
    })
set_out_state-out_state_example = set_out_state-out_state (new_out "out" "p") (new_out "other" "q")

component_remove-component_add_example :
    ((y : String)
      → contains y (component_remove (one_id "a") (component_add (id_list ("a" ∷ "b" ∷ [])) []))
        ≡ stays y (id_list ("a" ∷ "b" ∷ [])) (one_id "a") [])
    × ((part_of_component "b"
            (component_remove (one_id "a") (component_add (id_list ("a" ∷ "b" ∷ [])) []))
          ≡ true)
        ↔ ((y : String) × (stays y (id_list ("a" ∷ "b" ∷ [])) (one_id "a") [] ≡ true)
            × (str_eq "b" y ≡ false)))
component_remove-component_add_example =
    component_remove-component_add "b" (id_list ("a" ∷ "b" ∷ [])) (one_id "a") []

trigger_loop-HasLoop_example :
    Triggered
      (some (some "a" ∷ []))
      Scheduler.init
      (trigger_loop 0 (some (some "a" ∷ [])) Scheduler.init)
unfolding Scheduler.init loops kept
trigger_loop-HasLoop_example = trigger_loop-HasLoop (some (some "a" ∷ [])) Scheduler.init refl

run-IsConsistent_example :
    (m : Metering) × (run
        (added "a" [] ∷ removed 5 "a" ∷ forgot 9000 ∷ [])
        (Metering.init 100 36000 0)
      ≡ ok m)
    × IsConsistent m
run-IsConsistent_example =
    run-IsConsistent 100 36000 0 (added "a" [] ∷ removed 5 "a" ∷ forgot 9000 ∷ [])

abbrev registry : Callbacks ℕ
registry = record { callbacks = ("up", ("c1", 1) ∷ []) ∷ []; valid_names = none }

callback_register-lookup_example :
    lookup "c2" (callbacks_of "up" (callback_register "up" "c2" 2 registry)) ≡ (
      if is_valid "up" registry && (str_eq "up" "up" && str_eq "c2" "c2")
      then some 2
      else lookup "c2" (callbacks_of "up" registry))
callback_register-lookup_example = callback_register-lookup "up" "c2" 2 registry "up" "c2"

callback_unregister-holders_example : holders "c1" (callback_unregister "c1" registry).callbacks ≡ (
    if str_eq "c1" "c1"
    then holders "c1" registry.callbacks - 1
    else holders "c1" registry.callbacks)
callback_unregister-holders_example = callback_unregister-holders "c1" "c1" registry
