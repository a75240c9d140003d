-- ===== src/Endpoint/TunnelIn.antt =====
-- `TunnelInEndpoint`: the receiving end of a tunnel.
pub mod Receiving
use exjobb_calvin.Prelude.{
  ℕ, ◌+◌, String, Bool, true, false, ◌&&◌, Option, none, some, is_some, ltb, ◌==◌, if◌then◌else◌,
  Result, ok, err, ◌>>=◌,
}
use exjobb_calvin.Prelude.Int.{ℤ}
use exjobb_calvin.Token.{Token, decode}
use exjobb_calvin.Fifo.{
  Fifo, can_write, write, read, commit_reads, rollback_reads, available_tokens,
}
use exjobb_calvin.Endpoint.Messages.{TokenMsg, Status, ack, nack, Reply}

pub record TunnelIn : Type 0 where
  -- self.port.id, self.port.fifo
  pub port_id : String
  pub fifo : Fifo
  pub peer_node_id : String
  pub peer_port_id : String
  -- how often `trigger_loop` was called
  pub triggers : ℕ

-- The reply that is sent, and the new state.
unfoldable pub reply_to : TokenMsg → Bool → Reply
reply_to m ok' = record {
  port_id = m.port_id;
  peer_port_id = m.peer_port_id;
  sequencenbr = m.sequencenbr;
  value = if ok' then ack else nack;
}

-- The branch that takes the token. The result of `fifo.write` is not looked at.
unfoldable pub accept : TokenMsg → TunnelIn → Result TunnelIn
accept m e = do
  token ← decode none m.token
  (written, fifo) ← write token e.fifo
  ok (record e { fifo = fifo; triggers = e.triggers + 1 })

unfoldable pub recv_token : TokenMsg → TunnelIn → Result (Reply × TunnelIn)
recv_token m e = do
  writable ← can_write e.fifo
  if writable && e.fifo.write_pos == m.sequencenbr
      then (do e' ← accept m e; ok (reply_to m true, e'))
      else ok (reply_to m (ltb m.sequencenbr e.fifo.write_pos), e)

unfoldable pub read_token : TunnelIn → Result (Option Token × TunnelIn)
read_token e = do
  (token, fifo) ← read e.port_id e.fifo
  fifo' ← commit_reads e.port_id (is_some token) fifo
  ok (token, record e { fifo = fifo' })

unfoldable pub peek_token : TunnelIn → Result (Option Token × TunnelIn)
peek_token e = do (token, fifo) ← read e.port_id e.fifo; ok (token, record e { fifo = fifo })

unfoldable pub peek_rewind : TunnelIn → Result TunnelIn
peek_rewind e = do fifo ← rollback_reads e.port_id e.fifo; ok (record e { fifo = fifo })

unfoldable pub commit_peek_as_read : TunnelIn → Result TunnelIn
commit_peek_as_read e = do fifo ← commit_reads e.port_id true e.fifo; ok (record e { fifo = fifo })

unfoldable pub available_tokens_tunnel : TunnelIn → Result ℤ
available_tokens_tunnel e = available_tokens e.port_id e.fifo

unfoldable pub set_peer_port_id : String → TunnelIn → TunnelIn
set_peer_port_id id e = record e { peer_port_id = id }
