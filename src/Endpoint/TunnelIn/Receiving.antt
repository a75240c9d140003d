-- ===== src/Endpoint/TunnelIn/Receiving.antt =====
-- What a TOKEN message does to the receiver's ring, and what is answered.
use exjobb_calvin.Prelude.{
  ℕ, ◌+◌, ◌≡◌, refl, List, [], ◌∷◌, ◌++◌, length, none, get_elem?, Bool, true, ◌&&◌, ◌||◌,
  Bool-cases, ltb, ltb→lt, ltb→le, ◌==◌, if◌then◌else◌, ok, arith, inl, inr,
}
use exjobb_calvin.Token.{Token, decode}
use exjobb_calvin.Fifo.WellFormed.{can_write-eq}
use exjobb_calvin.Fifo.Operations.{fits, written, write-eq}
use exjobb_calvin.Fifo.Cursor.{
  Cursor, Cursor-written, Cursor-read, cursor_read_end, Cursor-commit, Cursor-rollback,
}
use exjobb_calvin.Endpoint.Messages.{TokenMsg, ack, nack}
use exjobb_calvin.Endpoint.TunnelIn.{TunnelIn, accept, recv_token, reply_to, read_token}

-- The message has the next token, and there is room for it.
abbrev pub takes : TunnelIn → TokenMsg → List Token → Bool
takes e m h = fits e.fifo && length h == m.sequencenbr

pub record Receives (m : TokenMsg) (x : Token) (e : TunnelIn) (h : List Token) (p t : ℕ)
    : Type 0 where
  pub after : TunnelIn
  pub returned :
      recv_token m e ≡ ok (reply_to m (takes e m h || ltb m.sequencenbr (length h)), after)
  -- The answer has the message's ports and number, and ACK or NACK.
  pub answers :
      (b : Bool)
      → reply_to m b ≡ record {
        port_id = m.port_id;
        peer_port_id = m.peer_port_id;
        sequencenbr = m.sequencenbr;
        value = if b then ack else nack;
      }
  pub cursor : Cursor after.fifo e.port_id (if takes e m h then h ++ x ∷ [] else h) p t
  pub same : (after.port_id ≡ e.port_id)

module _ (m : TokenMsg) (x : Token) (e : TunnelIn) (h : List Token) (p t : ℕ)
    (c : Cursor e.fifo e.port_id h p t) (decoded : decode none m.token ≡ ok x) where
  accept-eq :
      fits e.fifo ≡ true
      → accept m e ≡ ok (record e { fifo = written x e.fifo; triggers = e.triggers + 1 })
  unfolding accept
  accept-eq room = rw (decoded, write-eq e.fifo c.well x) (rw room)

  -- At a receiving end whose ring is sound and holds the tokens taken so far, a message whose token
  -- decodes is taken exactly if its number is the number of tokens taken so far and the ring has
  -- room. It is acknowledged exactly if it was taken now or before; the ring changes only if it is
  -- taken. Nothing raises.
  pub recv_token-Receives : Receives m x e h p t
  unfolding recv_token reply_to
  recv_token-Receives =
      let w = c.holds.written_count in
      elim (Bool-cases (takes e m h)) [
        | inl take ↦ record {
          after = record e { fifo = written x e.fifo; triggers = e.triggers + 1 };
          returned =
              rw (can_write-eq e.fifo c.well)
                (ground (arith, w, take, accept-eq (ground (arith, take))));
          cursor = rw take (Cursor-written e.fifo e.port_id h p t c x (ground (arith, take)));
          answers = λ b. refl;
          same = refl;
        }
        | inr skip ↦ record {
          after = e;
          returned = rw (can_write-eq e.fifo c.well) (ground (arith, w, skip));
          cursor = rw skip c;
          answers = λ b. refl;
          same = refl;
        }
      ]

-- What the owner of the inport gets from a read, and where it stands then.
pub record ReadsTunnel (e : TunnelIn) (h : List Token) (p t : ℕ) : Type 0 where
  pub after : TunnelIn
  pub returned : read_token e ≡ ok (get_elem? h t, after)
  pub position : ℕ
  pub position_eq : position ≡ (if ltb t (length h) then t + 1 else p)
  pub cursor : Cursor after.fifo e.port_id h position position
  pub same : after.port_id ≡ e.port_id

-- With a sound ring that holds the received tokens, a read returns the next token that was received
-- and commits it; at the end of the received tokens it returns None, and takes back what was only peeked at. It does not raise.
pub read_token-ReadsTunnel :
    (e : TunnelIn) (h : List Token) (p t : ℕ) → Cursor e.fifo e.port_id h p t → ReadsTunnel e h p t
unfolding read_token
read_token-ReadsTunnel e h p t c = elim (Bool-cases (ltb t (length h))) [
  | inl more ↦
      let (x, g, r, there, c') = Cursor-read e.fifo e.port_id h p t c (ltb→lt _ _ more) in
      let (k, k_eq, c'') = Cursor-commit g e.port_id h p (t + 1) c' in
      record {
        after = record e { fifo = k };
        returned = rw r (rw (k_eq, there));
        position = t + 1;
        position_eq = rw more;
        cursor = c'';
        same = refl;
      }
  | inr end ↦
      let (r, past) = cursor_read_end e.fifo e.port_id h p t c (ltb→le _ _ end) in
      let (k, k_eq, c') = Cursor-rollback e.fifo e.port_id h p t c in
      record {
        after = record e { fifo = k };
        returned = rw r (rw (k_eq, past));
        position = p;
        position_eq = rw end;
        cursor = c';
        same = refl;
      }
]
