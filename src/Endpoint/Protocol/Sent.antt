-- ===== src/Endpoint/Protocol/Sent.antt =====
-- The sending end of a tunnel (calvin/runtime/south/endpoint.py) and the messages that it sent.
use exjobb_calvin.Prelude.{
  ℕ, zero, suc, ◌+◌, String, ◌≡◌, refl, ◌∙◌, ap, subst, List, [], ◌∷◌, ◌++◌, get_elem?,
  get_elem?-append_left, lt-length_of_some, All, All-append, Option, none, some, Bool, ok,
  ok_unique,
}
use exjobb_calvin.Token.{Token, decode}
use exjobb_calvin.Token.Coding.{decode-encode}
use exjobb_calvin.Fifo.Cursor.{Cursor, rename-Cursor}
use exjobb_calvin.Endpoint.Messages.{TokenMsg, Status, ack, nack}
use exjobb_calvin.Endpoint.TunnelOut.{TunnelOut, reply, communicate}
use exjobb_calvin.Endpoint.TunnelOut.Acks.{reply_ack-AckReply}
use exjobb_calvin.Endpoint.TunnelOut.Nacks.{reply_nack-NackReply}
use exjobb_calvin.Endpoint.TunnelOut.Sending.{msgs, msg, communicate-Communicates}

-- A message has the written token of its number.
abbrev pub IsTrue : List Token → TokenMsg → Type 0
IsTrue h m = (x : Token) × (decode none m.token ≡ ok x) × (get_elem? h m.sequencenbr ≡ some x)

msgs-IsTrue : (q r : String) (h : List Token) (t n : ℕ) → All (IsTrue h) (msgs q r h t n)
unfolding msgs
msgs-IsTrue q r h t zero = tt
msgs-IsTrue q r h t (suc n) = go (get_elem? h t) refl (msgs-IsTrue q r h (t + 1) n)
  where
    go :
        (o : Option Token)
        → get_elem? h t ≡ o
        → All (IsTrue h) (msgs q r h (t + 1) n)
        → All (IsTrue h) (elim o [ none ↦ [] | some x ↦ msg q r t x ∷ msgs q r h (t + 1) n ])
    go none e rest = tt
    go (some x) e rest = ((x, decode-encode none x tt, e), rest)

-- A longer history keeps the messages true.
pub IsTrue-append :
    (h : List Token) (x : Token) (m : TokenMsg) → IsTrue h m → IsTrue (h ++ x ∷ []) m
IsTrue-append h x m (y, d, e) =
    (y, d, get_elem?-append_left h (x ∷ []) m.sequencenbr (lt-length_of_some h m.sequencenbr e) ∙ e)

-- What one call leaves of the sender.
pub record KeepsOut (out : TunnelOut) (h : List Token) (after : TunnelOut) : Type 0 where
  pub committed : ℕ
  pub tentative : ℕ
  pub cursor : Cursor after.fifo after.peer_id h committed tentative
  pub messages : All (IsTrue h) out.sent → All (IsTrue h) after.sent

module _ (out : TunnelOut) (h : List Token) (p t : ℕ)
    (held : Cursor out.fifo out.peer_id h p t) where
  pub communicate-KeepsOut :
      (now later : ℕ) (b : Bool) (after : TunnelOut)
      → communicate now later out ≡ ok (b, after)
      → KeepsOut out h after
  communicate-KeepsOut now later b after e =
      let c = communicate-Communicates now later out h p t held in
      let same : c.after ≡ after =
        ap (λ (r : Bool × TunnelOut). r.1) (ok_unique _ _ c.returned e) in
      subst (KeepsOut out h) same (record {
        committed = p;
        tentative = _;
        cursor = rename-Cursor c.same.0 c.cursor;
        messages = λ old.
            rw c.sent
              (All-append (IsTrue h) out.sent _ old (msgs-IsTrue out.peer_id out.port_id h t _));
      })

  pub reply-KeepsOut :
      (now number : ℕ) (status : Status) (after : TunnelOut)
      → reply now number status out ≡ ok after
      → KeepsOut out h after
  unfolding reply
  reply-KeepsOut now number ack after e =
      let c = reply_ack-AckReply number out h p t held in
      subst (KeepsOut out h) (ok_unique _ _ c.returned e) (record {
        committed = _;
        tentative = t;
        cursor = rename-Cursor c.same.0 c.cursor;
        messages = λ old. rw c.same.2 old;
      })
  reply-KeepsOut now number nack after e =
      let c = reply_nack-NackReply now number out h p t held in
      subst (KeepsOut out h) (ok_unique _ _ c.returned e) (record {
        committed = p;
        tentative = _;
        cursor = rename-Cursor c.same.0 c.cursor;
        messages = λ old. rw c.same.2 old;
      })
