-- ===== src/Port/Serial.antt =====
-- calvin/actor/actorport.py: the state that a port is migrated with. The endpoints stay behind.
use exjobb_calvin.Prelude.{ℕ, String, ◌≡◌, refl, Result, ok, ◌>>=◌}
use exjobb_calvin.Fifo.Serial.{FifoState, state, set_state, set_state-state}
use exjobb_calvin.Port.{InPort, OutPort}

pub record InState : Type 0 where
  pub name : String
  pub id : String
  pub fifo : FifoState

pub record OutState : Type 0 where
  pub name : String
  pub id : String
  pub fifo : FifoState
  pub fanout : ℕ

unfoldable pub in_state : InPort → InState
in_state p = record { name = p.name; id = p.id; fifo = state p.fifo }

unfoldable pub set_in_state : InState → InPort → Result InPort
set_in_state s p = do
  fifo ← set_state s.fifo p.fifo
  ok (record p { name = s.name; id = s.id; fifo = fifo })

unfoldable pub out_state : OutPort → OutState
out_state p = record { name = p.name; id = p.id; fifo = state p.fifo; fanout = p.fanout }

unfoldable pub set_out_state : OutState → OutPort → Result OutPort
set_out_state s p = do
  fifo ← set_state s.fifo p.fifo
  ok (record p { name = s.name; id = s.id; fifo = fifo; fanout = s.fanout })

pub set_in_state-in_state :
    (p q : InPort)
    → set_in_state (in_state p) q ≡ ok (record q { name = p.name; id = p.id; fifo = p.fifo })
unfolding set_in_state in_state
set_in_state-in_state p q = rw (set_state-state p.fifo q.fifo) refl

-- An outport that is given the state of another takes its name, id, fan-out and its whole ring, every
-- token decoded to what it was, and keeps its own endpoints.
pub set_out_state-out_state :
    (p q : OutPort)
    → set_out_state (out_state p) q
      ≡ ok (record q { name = p.name; id = p.id; fifo = p.fifo; fanout = p.fanout })
unfolding set_out_state out_state
set_out_state-out_state p q = rw (set_state-state p.fifo q.fifo) refl
