-- ===== src/Examples.antt =====
-- Concrete rings, connections, policies and actors, on which the theorems about
-- calvin/runtime, calvin/actor and calvin/utilities are applied.
pub mod Rings
pub mod Endpoints
pub mod Runtime
pub mod Access
pub mod Migration
pub mod Storage
pub mod Tunnels
pub mod Managers
