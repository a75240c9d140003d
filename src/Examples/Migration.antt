-- ===== src/Examples/Migration.antt =====
-- The migration of an actor of calvin/actor/actor.py with one plain and one stateful attribute.
use exjobb_calvin.Prelude.{◌≡◌, refl, some, [], ◌∷◌, ok}
use exjobb_calvin.Prelude.Int.{pos}
use exjobb_calvin.Prelude.Dict.{lookup, insert, get}
use exjobb_calvin.Prelude.Dict.Names.{add, contains}
use exjobb_calvin.Token.Values.{Value, int}
use exjobb_calvin.Actor.Managed.{
  Attribute, plain, stateful, Managed, ActorState, state_of, managed_values, state, set_attribute,
  set_values, set_state, set_inports, set_outports, in_states, out_states, update_names,
}
use exjobb_calvin.Actor.Managed.Restoring.{set_state-state}

-- An object that is its state.
abbrev itself : Value → Value
itself v = v

abbrev replaced : Value → Value → Value
replaced v o = v

abbrev moving : Managed Value
moving = record {
  managed = "x" ∷ "y" ∷ [];
  attributes = ("x", plain (int (pos 7))) ∷ ("y", stateful (int (pos 8))) ∷ [];
  inports = [];
  outports = [];
  component_members = [];
}

abbrev fresh : Managed Value
fresh = record {
  managed = [];
  attributes = ("y", stateful (int (pos 0))) ∷ [];
  inports = [];
  outports = [];
  component_members = [];
}

abbrev taken : ActorState
taken = record {
  managed = "x" ∷ "y" ∷ [];
  inports = [];
  outports = [];
  component_members = [];
  values = ("y", int (pos 8)) ∷ ("x", int (pos 7)) ∷ [];
}

abbrev moved : Managed Value
moved = record {
  managed = "y" ∷ "x" ∷ [];
  attributes = ("y", stateful (int (pos 8))) ∷ ("x", plain (int (pos 7))) ∷ [];
  inports = [];
  outports = [];
  component_members = [];
}

moving_state : state itself moving ≡ ok taken
unfolding state managed_values state_of in_states out_states get lookup insert
moving_state = refl

fresh_moved : set_state replaced taken fresh ≡ ok moved
unfolding set_state set_values set_attribute set_inports set_outports update_names add contains get
    lookup insert
fresh_moved = refl

set_state-state_example :
    (x : Attribute Value) × (y : Attribute Value) × (lookup "y" moving.attributes ≡ some x)
    × (lookup "y" moved.attributes ≡ some y)
    × (state_of itself y ≡ state_of itself x)
unfolding contains
set_state-state_example =
    set_state-state itself replaced (λ v o. refl) moving fresh moved taken "y" moving_state
      fresh_moved refl
