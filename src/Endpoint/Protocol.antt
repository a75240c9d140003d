-- ===== src/Endpoint/Protocol.antt =====
-- The two tunnel endpoints together, over a channel that may lose, repeat and reorder messages.
-- `written` records every token that the owner of the outport wrote; `consumed` and `peeked` those
-- that the owner of the inport got: for good, and by peeks that are neither committed nor taken back.
pub mod Handed
pub mod Sent
pub mod Delivery
use exjobb_calvin.Prelude.{
  ℕ, ◌+◌, String, ◌≡◌, Option, none, some, List, [], ◌∷◌, ◌++◌, get_elem?, length, Bool, true,
  false, if◌then◌else◌, Result, ok,
}
use exjobb_calvin.Token.{Token, decode}
use exjobb_calvin.Fifo.{Fifo, write, commit_reads}
use exjobb_calvin.Endpoint.Messages.{TokenMsg, Status, Reply}
use exjobb_calvin.Endpoint.TunnelOut
use exjobb_calvin.Endpoint.TunnelOut.{TunnelOut, reply, communicate}
use exjobb_calvin.Endpoint.TunnelIn.{
  TunnelIn, recv_token, read_token, peek_token, peek_rewind, commit_peek_as_read,
}
use exjobb_calvin.Endpoint.Protocol.Handed.{read_out, taken}

pub record Net : Type 0 where
  pub out : TunnelOut
  pub inn : TunnelIn
  pub written : List Token
  pub consumed : List Token
  pub peeked : List Token

-- One call on either side. The channel gives any message that was ever sent to the receiver, and
-- any answer at all to the sender.
pub data Step : Net → Net → Type 0 where
  -- the owner of the outport writes a token
  put :
      (n : Net) (x : Token) (f : Fifo)
      → write x n.out.fifo ≡ ok (true, f)
      → Step n (record n { out = record n.out { fifo = f }; written = n.written ++ x ∷ [] })
  send :
      (n : Net) (now later : ℕ) (b : Bool) (out : TunnelOut)
      → communicate now later n.out ≡ ok (b, out)
      → Step n (record n { out = out })
  answer :
      (n : Net) (now number : ℕ) (status : Status) (out : TunnelOut)
      → reply now number status n.out ≡ ok out
      → Step n (record n { out = out })
  deliver :
      (n : Net) (i : ℕ) (m : TokenMsg) (r : Reply) (inn : TunnelIn)
      → get_elem? n.out.sent i ≡ some m
      → recv_token m n.inn ≡ ok (r, inn)
      → Step n (record n { inn = inn })
  -- the owner of the inport reads a token, or peeks at it and commits the peeks or takes them back
  consume :
      (n : Net) (token : Option Token) (inn : TunnelIn)
      → read_token n.inn ≡ ok (token, inn)
      → Step n (record n { inn = inn; consumed = read_out n.consumed n.peeked token; peeked = [] })
  peek :
      (n : Net) (token : Option Token) (inn : TunnelIn)
      → peek_token n.inn ≡ ok (token, inn)
      → Step n (record n { inn = inn; peeked = n.peeked ++ taken token })
  commit :
      (n : Net) (inn : TunnelIn)
      → commit_peek_as_read n.inn ≡ ok inn
      → Step n (record n { inn = inn; consumed = n.consumed ++ n.peeked; peeked = [] })
  rewind :
      (n : Net) (inn : TunnelIn)
      → peek_rewind n.inn ≡ ok inn
      → Step n (record n { inn = inn; peeked = [] })
  -- the tunnel is lost: the outport rewinds to what was acknowledged and gets a new endpoint
  reconnect :
      (n : Net) (node : String) (f : Fifo)
      → commit_reads n.out.peer_id false n.out.fifo ≡ ok f
      → Step n (record n {
        out = record (TunnelOut.init n.out.port_id f node n.out.peer_id) { sent = n.out.sent };
      })

pub data Reach (n : Net) : Net → Type 0 where
  here : Reach n n
  next : {k m : Net} → Reach n k → Step k m → Reach n m
