-- ===== src/Endpoint.antt =====
-- calvin/runtime/south/endpoint.py: how a port reaches its peer. A local endpoint uses the ring of
-- the peer's port beside its own; a tunnel's two ends exchange TOKEN and TOKEN_REPLY messages.
-- `self.port.fifo` and `self.peer_port.fifo` are fields of an endpoint's state, which each method
-- returns anew. Calls of `tunnel.send` and `trigger_loop` are recorded in lists.
pub mod Messages
pub mod Local
pub mod TunnelIn
pub mod TunnelOut
pub mod Protocol
