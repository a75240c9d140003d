-- ===== src/Endpoint/Protocol/Delivery.antt =====
-- Whatever the channel does, the receiver gets the sender's tokens, in order, each once.
use exjobb_calvin.Prelude.{
  ℕ, ◌<◌, String, ◌≡◌, sym, ◌∙◌, ap, subst, List, [], ◌∷◌, ◌++◌, length, get_elem?, get_elem?-some,
  get_elem?-append_left, lt-length_of_some, All, All-get_elem?, All-weaken, some, Bool, true, false,
  Bool-cases, if◌then◌else◌, ok, ok_unique, arith, inl, inr,
}
use mathlib.Core.Bool.{true≢false}
use exjobb_calvin.Token.{Token}
use exjobb_calvin.Fifo.{Fifo, write, commit_reads}
use exjobb_calvin.Fifo.Operations.{written, fits, write_room, write_full}
use exjobb_calvin.Fifo.Cursor.{Cursor, Cursor-written, Cursor-rollback, cursor_bounds}
use exjobb_calvin.Endpoint.Messages.{TokenMsg, Reply}
use exjobb_calvin.Endpoint.TunnelOut
use exjobb_calvin.Endpoint.TunnelOut.{TunnelOut, reply, communicate}
use exjobb_calvin.Endpoint.TunnelIn.{TunnelIn, recv_token}
use exjobb_calvin.Endpoint.TunnelIn.Receiving.{takes}
use exjobb_calvin.Endpoint.Protocol.Handed.{
  Handed, Agrees, Agrees-last, Handed-deliver, Handed-read, Handed-peek, Handed-commit,
  Handed-rewind, read_out, taken,
}
use exjobb_calvin.Endpoint.Protocol.{
  Net, Step, put, send, answer, deliver, consume, peek, commit, rewind, reconnect, Reach, here,
  next,
}
use exjobb_calvin.Endpoint.Protocol.Sent.{
  IsTrue, IsTrue-append, KeepsOut, communicate-KeepsOut, reply-KeepsOut,
}

pub record IsFaithful (n : Net) : Type 0 where
  pub committed : ℕ
  pub tentative : ℕ
  pub out_cursor : Cursor n.out.fifo n.out.peer_id n.written committed tentative
  pub messages : All (IsTrue n.written) n.out.sent
  -- what the receiver took
  pub received : List Token
  pub handed : Handed n.inn received n.consumed n.peeked
  pub prefix : Agrees received n.written

with_out :
    (n : Net) (after : TunnelOut)
    → KeepsOut n.out n.written after
    → IsFaithful n
    → IsFaithful (record n { out = after })
with_out n after k f = record {
  committed = k.committed;
  tentative = k.tentative;
  out_cursor = k.cursor;
  received = f.received;
  handed = f.handed;
  messages = k.messages f.messages;
  prefix = f.prefix;
}

module _ (n : Net) (f : IsFaithful n) where
  -- No more was received than was written.
  lt_written : (i : ℕ) → i < length f.received → i < length n.written
  lt_written i lt =
      let (x, e) = get_elem?-some f.received i lt in
      lt-length_of_some n.written i (sym (f.prefix i lt) ∙ e)

  put-IsFaithful :
      (x : Token) (g : Fifo)
      → write x n.out.fifo ≡ ok (true, g)
      → IsFaithful (record n { out = record n.out { fifo = g }; written = n.written ++ x ∷ [] })
  put-IsFaithful x g e =
      let w = f.out_cursor.well in
      elim (Bool-cases (fits n.out.fifo)) [
        | inr full ↦ absurd (
            true≢false
              (ap (λ (r : Bool × Fifo). r.0) (ok_unique _ _ e (write_full n.out.fifo w x full))))
        | inl room ↦
            let same : written x n.out.fifo ≡ g =
              ap (λ (r : Bool × Fifo). r.1) (ok_unique _ _ (write_room n.out.fifo w x room) e) in
            record {
              committed = f.committed;
              tentative = f.tentative;
              out_cursor =
                  subst (λ k. Cursor k n.out.peer_id (n.written ++ x ∷ []) f.committed f.tentative)
                    same
                    (Cursor-written n.out.fifo n.out.peer_id n.written f.committed f.tentative
                      f.out_cursor x room);
              received = f.received;
              handed = f.handed;
              messages =
                  All-weaken (IsTrue n.written) (IsTrue (n.written ++ x ∷ [])) n.out.sent
                    (IsTrue-append n.written x) f.messages;
              prefix = λ i lt.
                  f.prefix i lt
                  ∙ sym (get_elem?-append_left n.written (x ∷ []) i (lt_written i lt));
            }
      ]

  -- A taken token is the next one of the sender's history.
  received-prefix :
      (m : TokenMsg) (x : Token)
      → get_elem? n.written m.sequencenbr ≡ some x
      → Agrees (if takes n.inn m f.received then f.received ++ x ∷ [] else f.received) n.written
  received-prefix m x e = elim (Bool-cases (takes n.inn m f.received)) [
    | inl take ↦
        let number : m.sequencenbr ≡ length f.received = ground (arith, take) in
        rw take (
          Agrees-last f.received n.written x f.prefix
            (subst (λ k. get_elem? n.written k ≡ some x) number e))
    | inr skip ↦ rw skip f.prefix
  ]

  deliver-IsFaithful :
      (i : ℕ) (m : TokenMsg) (r : Reply) (inn : TunnelIn)
      → get_elem? n.out.sent i ≡ some m
      → recv_token m n.inn ≡ ok (r, inn)
      → IsFaithful (record n { inn = inn })
  deliver-IsFaithful i m r inn at e =
      let (x, decoded, there) = All-get_elem? (IsTrue n.written) n.out.sent i m f.messages at in
      record {
        committed = f.committed;
        tentative = f.tentative;
        out_cursor = f.out_cursor;
        messages = f.messages;
        received = if takes n.inn m f.received then f.received ++ x ∷ [] else f.received;
        handed = Handed-deliver n.inn f.received n.consumed n.peeked f.handed m x r inn decoded e;
        prefix = received-prefix m x there;
      }

  -- The owner of the inport changes only what was handed out.
  with_in :
      (inn : TunnelIn) (consumed peeked : List Token)
      → Handed inn f.received consumed peeked
      → IsFaithful (record n { inn = inn; consumed = consumed; peeked = peeked })
  with_in inn consumed peeked handed = record {
    committed = f.committed;
    tentative = f.tentative;
    out_cursor = f.out_cursor;
    messages = f.messages;
    received = f.received;
    handed = handed;
    prefix = f.prefix;
  }

  reconnect-IsFaithful :
      (node : String) (g : Fifo)
      → commit_reads n.out.peer_id false n.out.fifo ≡ ok g
      → IsFaithful (record n {
        out = record (TunnelOut.init n.out.port_id g node n.out.peer_id) { sent = n.out.sent };
      })
  unfolding TunnelOut.init
  reconnect-IsFaithful node g e =
      let (k, k_eq, c) =
        Cursor-rollback n.out.fifo n.out.peer_id n.written f.committed f.tentative f.out_cursor in
      record {
        committed = f.committed;
        tentative = f.committed;
        out_cursor =
            subst (λ q. Cursor q n.out.peer_id n.written f.committed f.committed)
              (ok_unique _ _ k_eq e) c;
        received = f.received;
        handed = f.handed;
        messages = f.messages;
        prefix = f.prefix;
      }

Step-IsFaithful : {n m : Net} → Step n m → IsFaithful n → IsFaithful m
Step-IsFaithful (put n x g e) f = put-IsFaithful n f x g e
Step-IsFaithful (send n now later b out e) f =
    with_out n out
      (communicate-KeepsOut n.out n.written f.committed f.tentative f.out_cursor now later b out e)
      f
Step-IsFaithful (answer n now number status out e) f =
    with_out n out
      (reply-KeepsOut n.out n.written f.committed f.tentative f.out_cursor now number status out e)
      f
Step-IsFaithful (deliver n i m r inn at e) f = deliver-IsFaithful n f i m r inn at e
Step-IsFaithful (consume n token inn e) f =
    with_in n f inn (read_out n.consumed n.peeked token) []
      (Handed-read n.inn f.received n.consumed n.peeked f.handed token inn e)
Step-IsFaithful (peek n token inn e) f =
    with_in n f inn n.consumed (n.peeked ++ taken token)
      (Handed-peek n.inn f.received n.consumed n.peeked f.handed token inn e)
Step-IsFaithful (commit n inn e) f =
    with_in n f inn (n.consumed ++ n.peeked) []
      (Handed-commit n.inn f.received n.consumed n.peeked f.handed inn e)
Step-IsFaithful (rewind n inn e) f =
    with_in n f inn n.consumed []
      (Handed-rewind n.inn f.received n.consumed n.peeked f.handed inn e)
Step-IsFaithful (reconnect n node g e) f = reconnect-IsFaithful n f node g e

Reach-IsFaithful : {n m : Net} → IsFaithful n → Reach n m → IsFaithful m
Reach-IsFaithful f here = f
Reach-IsFaithful f (next r s) = Step-IsFaithful s (Reach-IsFaithful f r)

-- From a faithful state (both rings are sound, every sent message has the written token of its
-- number, and the receiver holds, and handed out, the first of the written tokens), after any calls on
-- either side, over a channel that loses, repeats and reorders TOKEN messages, answers the sender in
-- any way and breaks at any time, the tokens that the owner of the inport got by reads and by peeks
-- not taken back are the first tokens that the owner of the outport wrote: none is lost in between,
-- doubled or out of order.
pub Reach-prefix :
    {n m : Net}
    → IsFaithful n
    → Reach n m
    → (i : ℕ) → i < length (m.consumed ++ m.peeked)
    → get_elem? (m.consumed ++ m.peeked) i ≡ get_elem? m.written i
Reach-prefix {m = m} f r i lt =
    let g = Reach-IsFaithful f r in
    let held = (cursor_bounds m.inn.fifo m.inn.port_id g.received _ _ g.handed.cursor).1 in
    g.handed.agrees i lt ∙ g.prefix i (omega arith)
