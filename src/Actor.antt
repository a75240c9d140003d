-- ===== src/Actor.antt =====
-- calvin/actor/actor.py
pub mod Fsm
pub mod Connection
pub mod Action
pub mod Firing
pub mod Members
pub mod Managed
