-- ===== src/Actor/Managed.antt =====
-- calvin/actor/actor.py: `state` and `_set_state`, with which an actor migrates. An attribute may be
-- a foreign object with a state of its own, whose methods are parameters. An attribute that is named
-- like one of the other entries of the state (as inports) is not modelled.
pub mod Restoring
use exjobb_calvin.Prelude.{
  String, Bool, true, false, Option, none, some, List, [], ◌∷◌, Result, ok, err, ◌>>=◌,
}
use exjobb_calvin.Prelude.Dict.{Dict, lookup, insert, get}
use exjobb_calvin.Prelude.Dict.Names.{add}
use exjobb_calvin.Token.Values.{Value}
use exjobb_calvin.Port.{InPort, OutPort, new_in, new_out}
use exjobb_calvin.Port.Serial.{InState, OutState, in_state, set_in_state, out_state, set_out_state}

-- A managed attribute: a value, or an object that implements `state` and `set_state`.
pub data Attribute (O : Type 0) : Type 0 where
  plain : Value → Attribute O
  stateful : O → Attribute O

-- The part of an actor that migrates.
pub record Managed (O : Type 0) : Type 0 where
  pub managed : List String
  pub attributes : Dict (Attribute O)
  pub inports : Dict InPort
  pub outports : Dict OutPort
  pub component_members : List String

pub record ActorState : Type 0 where
  pub managed : List String
  pub inports : Dict InState
  pub outports : Dict OutState
  pub component_members : List String
  pub values : Dict Value

unfoldable pub in_states : Dict InPort → Dict InState
in_states [] = []
in_states ((k, p) ∷ ports) = (k, in_state p) ∷ in_states ports

unfoldable pub out_states : Dict OutPort → Dict OutState
out_states [] = []
out_states ((k, p) ∷ ports) = (k, out_state p) ∷ out_states ports

-- self.inports.setdefault(port, InPort(port, self))._set_state(...). The id that a new port gets is
-- replaced at once.
unfoldable pub set_inports : Dict InState → Dict InPort → Result (Dict InPort)
set_inports [] ports = ok ports
set_inports ((k, s) ∷ states) ports = do
  p ← set_in_state s (elim (lookup k ports) [ none ↦ new_in k "" | some p ↦ p ])
  set_inports states (insert k p ports)

unfoldable pub set_outports : Dict OutState → Dict OutPort → Result (Dict OutPort)
set_outports [] ports = ok ports
set_outports ((k, s) ∷ states) ports = do
  p ← set_out_state s (elim (lookup k ports) [ none ↦ new_out k "" | some p ↦ p ])
  set_outports states (insert k p ports)

unfoldable pub update_names : List String → List String → List String
update_names [] names = names
update_names (x ∷ xs) names = update_names xs (add x names)

module _ {O : Type 0} (get_state : O → Value) where
  unfoldable pub state_of : Attribute O → Value
  state_of (plain v) = v
  state_of (stateful o) = get_state o

  -- "for key in self._managed"
  unfoldable pub managed_values : List String → Dict (Attribute O) → Result (Dict Value)
  managed_values [] attributes = ok []
  managed_values (k ∷ ks) attributes = do
    x ← get k attributes
    rest ← managed_values ks attributes
    ok (insert k (state_of x) rest)

  unfoldable pub state : Managed O → Result ActorState
  state m = do
    vs ← managed_values m.managed m.attributes
    ok (record {
      managed = m.managed;
      inports = in_states m.inports;
      outports = out_states m.outports;
      component_members = m.component_members;
      values = vs;
    })

module _ {O : Type 0} (put_state : Value → O → O) where
  unfoldable pub set_attribute : Value → Option (Attribute O) → Attribute O
  set_attribute v none = plain v
  set_attribute v (some (plain _)) = plain v
  set_attribute v (some (stateful o)) = stateful (put_state v o)

  -- "for key in state['_managed']". The names are those of a set, so that no value is popped twice.
  unfoldable pub set_values :
      List String → Dict Value → Dict (Attribute O) → Result (Dict (Attribute O))
  set_values [] vs attributes = ok attributes
  set_values (k ∷ ks) vs attributes = do
    v ← get k vs
    set_values ks vs (insert k (set_attribute v (lookup k attributes)) attributes)

  unfoldable pub set_state : ActorState → Managed O → Result (Managed O)
  set_state s m = do
    attributes ← set_values s.managed s.values m.attributes
    inports ← set_inports s.inports m.inports
    outports ← set_outports s.outports m.outports
    ok (record {
      managed = update_names s.managed m.managed;
      attributes = attributes;
      inports = inports;
      outports = outports;
      component_members = s.component_members;
    })
