-- ===== src/Endpoint/TunnelOut.antt =====
-- `TunnelOutEndpoint`: the sending end of a tunnel. Times are in tenths of a second, which the
-- back-off of 0.1, 0.2, 0.4, 0.8, 1.0 seconds counts exactly; `time.time()` is an argument.
pub mod Acks
pub mod Nacks
pub mod Sending
use exjobb_calvin.Prelude.{
  ℕ, zero, suc, ◌+◌, ◌-◌, ◌*◌, String, Bool, true, false, not, ◌&&◌, ◌||◌, Option, none, some, List,
  [], ◌∷◌, ◌++◌, length, ltb, leb, ◌==◌, min, if◌then◌else◌, Result, ok, err, attribute_error,
  out_of_fuel, ◌>>=◌,
}
use exjobb_calvin.Prelude.Dict.{get}
use exjobb_calvin.Token.{Token, encode}
use exjobb_calvin.Fifo.{Fifo, read, can_read, commit_one_read}
use exjobb_calvin.Endpoint.Messages.{TokenMsg, Status, ack, nack}

pub record TunnelOut : Type 0 where
  -- self.port.id, self.port.fifo
  pub port_id : String
  pub fifo : Fifo
  pub peer_id : String
  pub peer_node_id : String
  pub sequencenbrs_acked : List ℕ
  pub backoff : ℕ
  pub time_cont : ℕ
  pub bulk : Bool
  -- what was given to `tunnel.send`, and the delays given to `trigger_loop`, in order
  pub sent : List TokenMsg
  pub triggers : List ℕ

unfoldable pub init : String → Fifo → String → String → TunnelOut
init port_id fifo peer_node_id peer_port_id = record {
  port_id = port_id;
  fifo = fifo;
  peer_id = peer_port_id;
  peer_node_id = peer_node_id;
  sequencenbrs_acked = [];
  backoff = 0;
  time_cont = 0;
  bulk = true;
  sent = [];
  triggers = [];
}

-- any(n == k for n in acked)
unfoldable pub any_eq : ℕ → List ℕ → Bool
any_eq k [] = false
any_eq k (n ∷ ns) = n == k || any_eq k ns

-- acked.remove(k): the first occurrence
unfoldable pub remove_first : ℕ → List ℕ → List ℕ
remove_first k [] = []
remove_first k (n ∷ ns) = if n == k then ns else n ∷ remove_first k ns

-- The `while` loop of `_reply_ack`. `acked` is the read position from before the loop, which the
-- loop does not read again. Each round removes a number from the list.
unfoldable pub ack_loop : ℕ → ℕ → List ℕ → String → Fifo → Result (List ℕ × Fifo)
ack_loop zero acked ns r f = if any_eq acked ns then err out_of_fuel else ok (ns, f)
ack_loop (suc fuel) acked ns r f = elim (any_eq acked ns) [
  | false ↦ ok (ns, f)
  | true ↦ commit_one_read r true f >>= λ f'. ack_loop fuel acked (remove_first acked ns) r f'
]

unfoldable pub reply_ack : ℕ → TunnelOut → Result TunnelOut
reply_ack sequencenbr e = do
  sequencenbr_sent ← get e.peer_id e.fifo.tentative_read_pos
  sequencenbr_acked ← get e.peer_id e.fifo.read_pos
  let ns =
      if ltb sequencenbr sequencenbr_sent
      then e.sequencenbrs_acked ++ sequencenbr ∷ []
      else e.sequencenbrs_acked
  (ns', fifo) ← ack_loop (length ns) sequencenbr_acked ns e.peer_id e.fifo
  ok (record e {
    fifo = fifo;
    sequencenbrs_acked = ns';
    bulk = true;
    backoff = 0;
    triggers = e.triggers ++ 0 ∷ [];
  })

-- min(1.0, 0.1 if backoff < 0.1 else backoff * 2.0)
unfoldable pub next_backoff : ℕ → ℕ
next_backoff b = min 10 (if ltb b 1 then 1 else b * 2)

-- [n for n in acked if n < k]
unfoldable pub below : ℕ → List ℕ → List ℕ
below k [] = []
below k (n ∷ ns) = let rest = below k ns in if ltb n k then n ∷ rest else rest

-- "while tentative_read_pos > sequencenbr: commit_one_read(False)"
unfoldable pub nack_loop : ℕ → ℕ → String → Fifo → Result Fifo
nack_loop zero sequencenbr r f = err out_of_fuel
nack_loop (suc fuel) sequencenbr r f = get r f.tentative_read_pos >>= λ tentative.
    elim (ltb sequencenbr tentative) [
      | false ↦ ok f
      | true ↦ commit_one_read r false f >>= λ f'. nack_loop fuel sequencenbr r f'
    ]

-- The rewinding part of `_reply_nack`.
unfoldable pub rewind_to : ℕ → TunnelOut → Result TunnelOut
rewind_to sequencenbr e = do
  sequencenbr_sent ← get e.peer_id e.fifo.tentative_read_pos
  sequencenbr_acked ← get e.peer_id e.fifo.read_pos
  if ltb sequencenbr sequencenbr_sent && leb sequencenbr_acked sequencenbr
      then (do
        fifo ← nack_loop (suc sequencenbr_sent) sequencenbr e.peer_id e.fifo
        ok (record e { fifo = fifo; sequencenbrs_acked = below sequencenbr e.sequencenbrs_acked }))
      else ok e

unfoldable pub reply_nack : ℕ → ℕ → TunnelOut → Result TunnelOut
reply_nack curr_time sequencenbr e =
    let time_cont = if e.bulk then curr_time else e.time_cont in
    rewind_to sequencenbr (record e {
      time_cont = time_cont;
      triggers = if leb time_cont curr_time then e.triggers ++ 0 ∷ [] else e.triggers;
      bulk = false;
      backoff = next_backoff e.backoff;
    })

unfoldable pub reply : ℕ → ℕ → Status → TunnelOut → Result TunnelOut
reply now sequencenbr ack e = reply_ack sequencenbr e
reply now sequencenbr nack e = reply_nack now sequencenbr e

-- `token.encode()` of None raises.
unfoldable pub message : TunnelOut → ℕ → Option Token → Result TokenMsg
message e sequencenbr none = err attribute_error
message e sequencenbr (some token) = ok (record {
  token = encode none token;
  peer_port_id = e.peer_id;
  sequencenbr = sequencenbr;
  port_id = e.port_id;
})

unfoldable pub send_one_token : TunnelOut → Result TunnelOut
send_one_token e = do
  (token, fifo) ← read e.peer_id e.fifo
  tentative ← get e.peer_id fifo.tentative_read_pos
  m ← message e (tentative - 1) token
  ok (record e { fifo = fifo; sent = e.sent ++ m ∷ [] })

-- "while can_read: sent = True; send_one_token"
unfoldable pub send_all : ℕ → Bool → TunnelOut → Result (Bool × TunnelOut)
send_all zero sent e = err out_of_fuel
send_all (suc fuel) sent e = can_read e.peer_id e.fifo >>= λ readable. elim readable [
  | false ↦ ok (sent, e)
  | true ↦ send_one_token e >>= λ e'. send_all fuel true e'
]

-- `now` is read for the test, `later` after the token was sent.
unfoldable pub communicate : ℕ → ℕ → TunnelOut → Result (Bool × TunnelOut)
communicate now later e = if e.bulk then send_all (suc e.fifo.write_pos) false e else (do
  readable ← can_read e.peer_id e.fifo
  if not readable then ok (false, e) else (do
    tentative ← get e.peer_id e.fifo.tentative_read_pos
    committed ← get e.peer_id e.fifo.read_pos
    if tentative == committed && leb e.time_cont now
        then (do
          e' ← send_one_token e
          ok (
            true,
            record e' { time_cont = later + e'.backoff; triggers = e'.triggers ++ e'.backoff ∷ [] },
          ))
        else ok (false, e)))
