-- ===== src/Endpoint/TunnelOut/Sending.antt =====
-- Sending: the messages that `communicate` puts on the tunnel.
use exjobb_calvin.Prelude.{
  ℕ, zero, suc, ◌+◌, ◌-◌, ◌<◌, String, ◌≡◌, refl, ◌∙◌, subst, List, [], ◌∷◌, ◌++◌, length, Bool,
  true, false, ◌&&◌, ◌||◌, Bool-cases, ltb, leb, ◌==◌, ltb→lt, ltb→le, if◌then◌else◌, ok, arith,
  inl, inr, some, none, get_elem?,
}
use mathlib.Core.List.{append_assoc, append-nil}
use exjobb_calvin.Token.{Token, encode}
use exjobb_calvin.Fifo.{Fifo}
use exjobb_calvin.Fifo.Cursor.{
  Cursor, cursor_bounds, cursor_tentative, cursor_committed, cursor_can_read, Cursor-read,
}
use exjobb_calvin.Endpoint.Messages.{TokenMsg}
use exjobb_calvin.Endpoint.TunnelOut.{TunnelOut, message, send_one_token, send_all, communicate}

-- The message with the token of the history at a position: its number is the position.
abbrev pub msg : String → String → ℕ → Token → TokenMsg
msg peer_id port_id i x = record {
  token = encode none x;
  peer_port_id = peer_id;
  sequencenbr = i;
  port_id = port_id;
}

-- The messages for `n` tokens from position `t` on, in order.
unfoldable pub msgs : String → String → List Token → ℕ → ℕ → List TokenMsg
msgs peer_id port_id h t zero = []
msgs peer_id port_id h t (suc n) = elim (get_elem? h t) [
  | none ↦ []
  | some x ↦ msg peer_id port_id t x ∷ msgs peer_id port_id h (t + 1) n
]

msgs-some :
    (q r : String) (h : List Token) (t n : ℕ) (x : Token)
    → get_elem? h t ≡ some x
    → msgs q r h t (suc n) ≡ msg q r t x ∷ msgs q r h (t + 1) n
unfolding msgs
msgs-some q r h t n x e = rw (e, msgs)

msgs-none : (q r : String) (h : List Token) (t : ℕ) → msgs q r h t 0 ≡ []
unfolding msgs
msgs-none q r h t = refl

-- After sending `n` tokens only the ring's tentative position and the sent messages have changed.
pub record Sent (e : TunnelOut) (h : List Token) (p t n : ℕ) (after : TunnelOut) : Type 0 where
  pub fifo : Fifo
  pub cursor : Cursor fifo e.peer_id h p (t + n)
  pub after_eq : after ≡ record e { fifo = fifo; sent = e.sent ++ msgs e.peer_id e.port_id h t n }

pub record SendsOne (e : TunnelOut) (h : List Token) (p t : ℕ) (x : Token) : Type 0 where
  pub fifo : Fifo
  pub cursor : Cursor fifo e.peer_id h p (t + 1)
  pub returned :
      send_one_token e
      ≡ ok (record e { fifo = fifo; sent = e.sent ++ msg e.peer_id e.port_id t x ∷ [] })
  pub token : get_elem? h t ≡ some x

pub send_one_token-SendsOne :
    (e : TunnelOut) (h : List Token) (p t : ℕ)
    → Cursor e.fifo e.peer_id h p t
    → t < length h
    → (x : Token) × SendsOne e h p t x
unfolding send_one_token message
send_one_token-SendsOne e h p t c lt =
    let (x, g, r, there, c') = Cursor-read e.fifo e.peer_id h p t c lt in
    let back : t + 1 - 1 ≡ t = omega arith in
    (
      x,
      record {
        fifo = g;
        cursor = c';
        returned = rw r (rw (cursor_tentative g e.peer_id h p (t + 1) c') (rw back));
        token = there;
      },
    )

-- The loop of the bulk branch sends all that is left.
record SendsAll (fuel : ℕ) (b : Bool) (e : TunnelOut) (h : List Token) (p t : ℕ) : Type 0 where
  after : TunnelOut
  returned : send_all fuel b e ≡ ok (b || ltb t (length h), after)
  sends : Sent e h p t (length h - t) after

module _ (h : List Token) (p : ℕ) where
  send_all-stop :
      (fuel t : ℕ) (b : Bool) (e : TunnelOut)
      → Cursor e.fifo e.peer_id h p t
      → ltb t (length h) ≡ false
      → SendsAll (suc fuel) b e h p t
  unfolding send_all
  send_all-stop fuel t b e c end =
      let none_left : length h - t ≡ 0 = omega (arith, ltb→le _ _ end) in
      record {
        after = e;
        returned = rw (cursor_can_read e.fifo e.peer_id h p t c, end) (ground arith);
        sends = record {
          fifo = e.fifo;
          cursor = subst (λ x. Cursor e.fifo e.peer_id h p x) (omega arith) c;
          after_eq = rw (none_left, msgs-none) (rw append-nil);
        };
      }

  send_all-step :
      (fuel t : ℕ) (b : Bool) (e e' : TunnelOut)
      → Cursor e.fifo e.peer_id h p t
      → ltb t (length h) ≡ true
      → send_one_token e ≡ ok e'
      → send_all (suc fuel) b e ≡ send_all fuel true e'
  unfolding send_all
  send_all-step fuel t b e e' c more s = rw (cursor_can_read e.fifo e.peer_id h p t c, more) (rw s)

  send_all-SendsAll :
      (fuel t : ℕ) (b : Bool) (e : TunnelOut)
      → Cursor e.fifo e.peer_id h p t
      → length h - t < fuel
      → SendsAll fuel b e h p t
  send_all-SendsAll zero t b e c enough = absurd (omega arith)
  send_all-SendsAll (suc fuel) t b e c enough = elim (Bool-cases (ltb t (length h))) [
    | inr end ↦ send_all-stop fuel t b e c end
    | inl more ↦
        let (x, s) = send_one_token-SendsOne e h p t c (ltb→lt _ _ more) in
        let e' : TunnelOut = record e {
          fifo = s.fifo;
          sent = e.sent ++ msg e.peer_id e.port_id t x ∷ [];
        } in
        let rest =
          send_all-SendsAll fuel (t + 1) true e' s.cursor (omega (arith, ltb→lt _ _ more)) in
        let left : length h - t ≡ suc (length h - (t + 1)) = omega (arith, ltb→lt _ _ more) in
        let total : t + 1 + (length h - (t + 1)) ≡ t + (length h - t) =
          omega (arith, ltb→lt _ _ more) in
        record {
          after = rest.after;
          returned =
              send_all-step fuel t b e e' c more s.returned
              ∙ rest.returned
              ∙ rw more (ground arith);
          sends = record {
            fifo = rest.sends.fifo;
            cursor = subst (λ k. Cursor rest.sends.fifo e.peer_id h p k) total rest.sends.cursor;
            after_eq =
                rest.sends.after_eq
                ∙ rw (left, msgs-some e.peer_id e.port_id h t (length h - (t + 1)) x s.token)
                    (rw append_assoc);
          };
        }
  ]

-- How many tokens one call of `communicate` sends: all that are unsent at full speed; one, if the
-- last was answered and the pause is over, at slow speed.
abbrev pub quota : ℕ → TunnelOut → List Token → ℕ → ℕ → ℕ
quota now e h p t =
    if e.bulk
    then length h - t
    else if ltb t (length h) && t == p && leb e.time_cont now
    then 1
    else 0

pub record Communicates (now later : ℕ) (e : TunnelOut) (h : List Token) (p t : ℕ) : Type 0 where
  pub after : TunnelOut
  pub returned : communicate now later e ≡ ok (ltb 0 (quota now e h p t), after)
  pub cursor : Cursor after.fifo e.peer_id h p (t + quota now e h p t)
  pub sent : after.sent ≡ e.sent ++ msgs e.peer_id e.port_id h t (quota now e h p t)
  pub same : (after.peer_id ≡ e.peer_id) × (after.port_id ≡ e.port_id)

module _ (now later : ℕ) (e : TunnelOut) (h : List Token) (p t : ℕ)
    (c : Cursor e.fifo e.peer_id h p t) where
  communicate-bulk : e.bulk ≡ true → Communicates now later e h p t
  unfolding communicate
  communicate-bulk fast =
      let r =
        send_all-SendsAll h p (suc e.fifo.write_pos) t false e c
          (omega (arith, c.holds.written_count)) in
      let (_, high) = cursor_bounds e.fifo e.peer_id h p t c in
      record {
        after = r.after;
        returned = simp fast (r.returned ∙ ground arith);
        cursor = simp fast (rw r.sends.after_eq r.sends.cursor);
        sent = simp fast (rw r.sends.after_eq);
        same = rw r.sends.after_eq (refl, refl);
      }

  communicate-idle :
      e.bulk ≡ false
      → ltb t (length h) && t == p && leb e.time_cont now ≡ false
      → Communicates now later e h p t
  unfolding communicate
  communicate-idle slow idle = record {
    after = e;
    returned = simp slow (
        rw
          (
            cursor_can_read e.fifo e.peer_id h p t c,
            cursor_tentative e.fifo e.peer_id h p t c,
            cursor_committed e.fifo e.peer_id h p t c,
          )
          (ground (arith, idle)));
    cursor = simp (slow, idle) (subst (λ k. Cursor e.fifo e.peer_id h p k) (omega arith) c);
    sent = simp (slow, idle) (rw msgs-none (rw append-nil));
    same = (refl, refl);
  }

  communicate-one :
      e.bulk ≡ false
      → ltb t (length h) && t == p && leb e.time_cont now ≡ true
      → Communicates now later e h p t
  unfolding communicate
  communicate-one slow due =
      let more : ltb t (length h) ≡ true = ground (arith, due) in
      let (x, s) = send_one_token-SendsOne e h p t c (ltb→lt _ _ more) in
      record {
        after = record e {
          fifo = s.fifo;
          sent = e.sent ++ msg e.peer_id e.port_id t x ∷ [];
          time_cont = later + e.backoff;
          triggers = e.triggers ++ e.backoff ∷ [];
        };
        returned =
            simp (slow, due)
              (rw
                (
                  cursor_can_read e.fifo e.peer_id h p t c,
                  cursor_tentative e.fifo e.peer_id h p t c,
                  cursor_committed e.fifo e.peer_id h p t c,
                )
                (ground (arith, due, s.returned)));
        cursor = simp (slow, due) s.cursor;
        sent = simp (slow, due) (rw (msgs-some e.peer_id e.port_id h t 0 x s.token) (rw msgs-none));
        same = (refl, refl);
      }

-- With a sound ring that holds its history, `communicate` sends the next `quota` tokens of the history, each with its position as sequence
-- number, in order, and returns whether there were any; the committed position stays. The sending
-- loop ends, and nothing raises.
pub communicate-Communicates :
    (now later : ℕ) (e : TunnelOut) (h : List Token) (p t : ℕ)
    → Cursor e.fifo e.peer_id h p t
    → Communicates now later e h p t
communicate-Communicates now later e h p t c = elim (Bool-cases e.bulk) [
  | inl fast ↦ communicate-bulk now later e h p t c fast
  | inr slow ↦ elim (Bool-cases (ltb t (length h) && t == p && leb e.time_cont now)) [
    | inl due ↦ communicate-one now later e h p t c slow due
    | inr idle ↦ communicate-idle now later e h p t c slow idle
  ]
]
