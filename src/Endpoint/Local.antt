-- ===== src/Endpoint/Local.antt =====
-- `LocalInEndpoint`: an inport and the outport that it reads from are on one runtime. A port that
-- was moved may have tokens in its own ring, which are read first.
pub mod Fixing
pub mod Reading
use exjobb_calvin.Prelude.{
  ℕ, zero, suc, ◌+◌, String, Bool, true, false, not, ◌&&◌, Option, none, some, is_some, ltb,
  if◌then◌else◌, Result, ok, err, out_of_fuel, ◌>>=◌,
}
use exjobb_calvin.Prelude.Int.{ℤ, pos, ◌+ℤ◌}
use exjobb_calvin.Prelude.Dict.{get, insert}
use exjobb_calvin.Token.{Token}
use exjobb_calvin.Fifo.{Fifo, read, can_read, commit_reads, rollback_reads, available_tokens}

pub record LocalIn : Type 0 where
  -- self.port.id, self.port.fifo, self.peer_port.fifo
  pub port_id : String
  pub fifo : Fifo
  pub peer_fifo : Fifo
  pub data_in_local_fifo : Bool
  pub fifo_mismatch : Bool

-- The constructor's flags.
unfoldable pub init : String → Fifo → Fifo → LocalIn
init port_id fifo peer_fifo = record {
  port_id = port_id;
  fifo = fifo;
  peer_fifo = peer_fifo;
  data_in_local_fifo = true;
  fifo_mismatch = true;
}

-- The loop of `_fifo_mismatch_fix`, over the peer's ring: `upto` is the own write position.
unfoldable pub skip_duplicates : ℕ → String → ℕ → Fifo → Result Fifo
skip_duplicates zero r upto peer = err out_of_fuel
skip_duplicates (suc fuel) r upto peer = can_read r peer >>= λ readable. elim readable [
  | false ↦ ok peer
  | true ↦ get r peer.read_pos >>= λ committed. elim (ltb committed upto) [
    | false ↦ ok peer
    | true ↦ read r peer >>= λ taken.
        commit_reads r true taken.1 >>= λ peer'. skip_duplicates fuel r upto peer'
  ]
]

-- Each round moves the reader one token on, so the write position bounds the rounds.
unfoldable pub fifo_mismatch_fix : LocalIn → Result LocalIn
fifo_mismatch_fix e = do
  peer ← skip_duplicates (suc e.peer_fifo.write_pos) e.port_id e.fifo.write_pos e.peer_fifo
  ok (record e { peer_fifo = peer; fifo_mismatch = false })

-- "if self.fifo_mismatch: self._fifo_mismatch_fix()"
unfoldable pub fix_once : LocalIn → Result LocalIn
fix_once e = if e.fifo_mismatch then fifo_mismatch_fix e else ok e

unfoldable pub sync_local_fifos : LocalIn → Result LocalIn
sync_local_fifos e = do
  committed ← get e.port_id e.peer_fifo.read_pos
  let own = e.fifo
  ok (record e {
    fifo = record own {
      write_pos = committed;
      read_pos = insert e.port_id committed own.read_pos;
      tentative_read_pos = insert e.port_id committed own.tentative_read_pos;
    };
  })

-- The part of `read_token` that reads the peer's ring.
unfoldable pub read_peer : LocalIn → Result (Option Token × LocalIn)
read_peer e = do
  (token, peer) ← read e.port_id e.peer_fifo
  peer' ← commit_reads e.port_id (is_some token) peer
  e' ← sync_local_fifos (record e { peer_fifo = peer' })
  ok (token, e')

-- The rest of `read_token`, after the own ring was tried.
unfoldable pub read_own_or_peer : LocalIn → Option Token × Fifo → Result (Option Token × LocalIn)
read_own_or_peer e (some token, own) = do
  own' ← commit_reads e.port_id true own
  ok (some token, record e { fifo = own' })
read_own_or_peer e (none, own) = read_peer (record e { fifo = own; data_in_local_fifo = false })

unfoldable pub read_token : LocalIn → Result (Option Token × LocalIn)
read_token e = do
  e' ← fix_once e
  if e'.data_in_local_fifo then (read e'.port_id e'.fifo >>= read_own_or_peer e') else read_peer e'

unfoldable pub peek_peer : LocalIn → Result (Option Token × LocalIn)
peek_peer e = do
  (token, peer) ← read e.port_id e.peer_fifo
  ok (token, record e { peer_fifo = peer })

unfoldable pub peek_own_or_peer : LocalIn → Option Token × Fifo → Result (Option Token × LocalIn)
peek_own_or_peer e (some token, own) = ok (some token, record e { fifo = own })
peek_own_or_peer e (none, own) = peek_peer (record e { fifo = own })

unfoldable pub peek_token : LocalIn → Result (Option Token × LocalIn)
peek_token e = do
  e' ← fix_once e
  if e'.data_in_local_fifo then (read e'.port_id e'.fifo >>= peek_own_or_peer e') else peek_peer e'

unfoldable pub peek_rewind : LocalIn → Result LocalIn
peek_rewind e = do
  own ← (if e.data_in_local_fifo then rollback_reads e.port_id e.fifo else ok e.fifo)
  peer ← rollback_reads e.port_id e.peer_fifo
  ok (record e { fifo = own; peer_fifo = peer })

-- The end of `commit_peek_as_read`, on the peer's ring.
unfoldable pub commit_peer : LocalIn → Result LocalIn
commit_peer e = do
  peer ← commit_reads e.port_id true e.peer_fifo
  sync_local_fifos (record e { peer_fifo = peer })

unfoldable pub commit_peek_as_read : LocalIn → Result LocalIn
commit_peek_as_read e =
    if e.data_in_local_fifo
    then (do
      own ← commit_reads e.port_id true e.fifo
      more ← can_read e.port_id own
      if more
          then ok (record e { fifo = own })
          else commit_peer (record e { fifo = own; data_in_local_fifo = false }))
    else commit_peer e

-- A count of 0 in the own ring clears `data_in_local_fifo`.
unfoldable pub is_zero : ℤ → Bool
is_zero (pos zero) = true
is_zero _ = false

unfoldable pub available_tokens_local : LocalIn → Result (ℤ × LocalIn)
available_tokens_local e = do
  e' ← fix_once e
  own ← (if e'.data_in_local_fifo then available_tokens e'.port_id e'.fifo else ok (pos 0))
  peer ← available_tokens e'.port_id e'.peer_fifo
  ok (own +ℤ peer, record e' { data_in_local_fifo = e'.data_in_local_fifo && not (is_zero own) })
