-- ===== src/Endpoint/TunnelOut/Nacks.antt =====
-- What a NACK does to the sender's ring and to its speed.
use exjobb_calvin.Prelude.{
  ℕ, zero, suc, ◌-◌, ◌<◌, ◌≤◌, min, String, ◌≡◌, refl, ◌∙◌, subst, List, [], ◌∷◌, ◌++◌, Bool, false,
  ◌&&◌, Bool-cases, ltb, leb, ltb→lt, ltb→le, if◌then◌else◌, ok, arith, inl, inr,
}
use exjobb_calvin.Token.{Token}
use exjobb_calvin.Fifo.{Fifo, commit_one_read}
use exjobb_calvin.Fifo.Cursor.{Cursor, cursor_committed, cursor_tentative, Cursor-uncommit_one}
use exjobb_calvin.Endpoint.TunnelOut.{
  TunnelOut, below, nack_loop, rewind_to, next_backoff, reply_nack,
}

record Rewound (fuel n : ℕ) (r : String) (f : Fifo) (h : List Token) (p t : ℕ) : Type 0 where
  after : Fifo
  returned : nack_loop fuel n r f ≡ ok after
  cursor : Cursor after r h p (min n t)

module _ (n : ℕ) (r : String) (h : List Token) (p : ℕ) where
  nack_loop-stop :
      (fuel t : ℕ) (f : Fifo) → Cursor f r h p t → t ≤ n → Rewound (suc fuel) n r f h p t
  unfolding nack_loop
  nack_loop-stop fuel t f c le = record {
    after = f;
    returned = rw (cursor_tentative f r h p t c) (ground (arith, le));
    cursor = subst (λ x. Cursor f r h p x) (omega arith) c;
  }

  nack_loop-step :
      (fuel t : ℕ) (f g : Fifo)
      → Cursor f r h p t
      → n < t
      → commit_one_read r false f ≡ ok g
      → nack_loop (suc fuel) n r f ≡ nack_loop fuel n r g
  unfolding nack_loop
  nack_loop-step fuel t f g c lt e = rw (cursor_tentative f r h p t c) (ground (arith, lt, e))

  -- Down to the number, one token a round: the committed position is not passed.
  nack_loop-Rewound :
      (fuel t : ℕ) (f : Fifo) → Cursor f r h p t → p ≤ n → t < fuel → Rewound fuel n r f h p t
  nack_loop-Rewound zero t f c le enough = absurd (omega arith)
  nack_loop-Rewound (suc fuel) t f c le enough = elim (Bool-cases (ltb n t)) [
    | inr done ↦ nack_loop-stop fuel t f c (ltb→le _ _ done)
    | inl more ↦
        let lt = ltb→lt _ _ more in
        let (g, e, c') = Cursor-uncommit_one f r h p t c (omega arith) in
        let rest = nack_loop-Rewound fuel (t - 1) g c' le (omega arith) in
        record {
          after = rest.after;
          returned = nack_loop-step fuel t f g c lt e ∙ rest.returned;
          cursor = subst (λ x. Cursor rest.after r h p x) (omega arith) rest.cursor;
        }
  ]

-- A number of a token that was sent and is not committed.
abbrev pub is_open : ℕ → ℕ → ℕ → Bool
is_open n p t = ltb n t && leb p n

pub record NackReply (now n : ℕ) (e : TunnelOut) (h : List Token) (p t : ℕ) : Type 0 where
  pub after : TunnelOut
  pub returned : reply_nack now n e ≡ ok after
  pub cursor : Cursor after.fifo e.peer_id h p (if is_open n p t then n else t)
  pub acked :
      after.sequencenbrs_acked
      ≡ (if is_open n p t then below n e.sequencenbrs_acked else e.sequencenbrs_acked)
  -- One token at a time from now on, after a pause of 0.1 to 1.0 seconds.
  pub slow : after.bulk ≡ false
  pub pause : (1 ≤ after.backoff) × (after.backoff ≤ 10)
  pub longer : e.backoff ≤ 10 → e.backoff ≤ after.backoff
  pub same : (after.peer_id ≡ e.peer_id) × (after.port_id ≡ e.port_id) × (after.sent ≡ e.sent)

next_backoff_lem :
    (b : ℕ) → (1 ≤ next_backoff b) × (next_backoff b ≤ 10) × (b ≤ 10 → b ≤ next_backoff b)
unfolding next_backoff
next_backoff_lem b = ground arith

-- With a sound ring that holds its history, a NACK of a token that was sent and is not committed rewinds the tentative position to it and
-- forgets the later acknowledgements; any other NACK leaves the positions and the list. In both
-- cases the committed position stays, and sending becomes slow, with a pause of 0.1 to 1 seconds that
-- does not shrink if it was at most 1 second. The loop ends, and nothing raises.
pub reply_nack-NackReply :
    (now n : ℕ) (e : TunnelOut) (h : List Token) (p t : ℕ)
    → Cursor e.fifo e.peer_id h p t
    → NackReply now n e h p t
unfolding reply_nack rewind_to
reply_nack-NackReply now n e h p t c =
    let time_cont = if e.bulk then now else e.time_cont in
    let (at_least, at_most, grows) = next_backoff_lem e.backoff in
    let slowed : TunnelOut = record e {
      time_cont = time_cont;
      triggers = if leb time_cont now then e.triggers ++ 0 ∷ [] else e.triggers;
      bulk = false;
      backoff = next_backoff e.backoff;
    } in
    elim (Bool-cases (is_open n p t)) [
      | inr closed ↦ record {
        after = slowed;
        returned = rw (
          cursor_tentative e.fifo e.peer_id h p t c,
          cursor_committed e.fifo e.peer_id h p t c,
          closed,
        );
        cursor = rw closed c;
        acked = rw closed;
        slow = refl;
        pause = (at_least, at_most);
        longer = grows;
        same = (refl, refl, refl);
      }
      | inl opened ↦
          let rewound =
            nack_loop-Rewound n e.peer_id h p (suc t) t e.fifo c (ground arith) (omega arith) in
          record {
            after = record slowed {
              fifo = rewound.after;
              sequencenbrs_acked = below n e.sequencenbrs_acked;
            };
            returned =
                rw
                  (
                    cursor_tentative e.fifo e.peer_id h p t c,
                    cursor_committed e.fifo e.peer_id h p t c,
                    opened,
                  )
                  (rw rewound.returned);
            cursor =
                rw opened
                  (subst (λ x. Cursor rewound.after e.peer_id h p x) (ground arith) rewound.cursor);
            acked = rw opened;
            slow = refl;
            pause = (at_least, at_most);
            longer = grows;
            same = (refl, refl, refl);
          }
    ]
