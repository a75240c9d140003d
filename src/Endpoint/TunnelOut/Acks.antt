-- ===== src/Endpoint/TunnelOut/Acks.antt =====
-- What an ACK does to the sender's ring.
use exjobb_calvin.Prelude.{
  ℕ, zero, suc, ◌+◌, ◌≤◌, min, String, ◌≡◌, refl, ◌∙◌, subst, List, [], ◌∷◌, ◌++◌, length, true,
  false, Bool-cases, ltb, ltb→lt, ltb→le, ◌==◌, if◌then◌else◌, ok, arith, inl, inr,
}
use exjobb_calvin.Token.{Token}
use exjobb_calvin.Fifo.{Fifo, commit_one_read}
use exjobb_calvin.Fifo.Cursor.{
  Cursor, cursor_bounds, cursor_committed, cursor_tentative, Cursor-commit_one, cursor_commit_none,
}
use exjobb_calvin.Endpoint.TunnelOut.{TunnelOut, any_eq, remove_first, ack_loop, reply_ack}

-- How often a number stands in a list, and the list without it.
pub count : ℕ → List ℕ → ℕ
count k [] = 0
count k (n ∷ ns) = if n == k then count k ns + 1 else count k ns

pub without : ℕ → List ℕ → List ℕ
without k [] = []
without k (n ∷ ns) = let rest = without k ns in if n == k then rest else n ∷ rest

module _ (k : ℕ) where
  count-remove_first :
      (ns : List ℕ) → any_eq k ns ≡ true → count k (remove_first k ns) + 1 ≡ count k ns
  unfolding any_eq remove_first count
  count-remove_first [] h = cc
  count-remove_first (n ∷ ns) h = ground (arith, count-remove_first ns)

  length-remove_first :
      (ns : List ℕ) → any_eq k ns ≡ true → length (remove_first k ns) + 1 ≡ length ns
  unfolding any_eq remove_first
  length-remove_first [] h = cc
  length-remove_first (n ∷ ns) h = ground (arith, length-remove_first ns)

  without-remove_first : (ns : List ℕ) → without k (remove_first k ns) ≡ without k ns
  unfolding remove_first without
  without-remove_first [] = refl
  without-remove_first (n ∷ ns) = ground (arith, without-remove_first ns)

  count-none : (ns : List ℕ) → any_eq k ns ≡ false → count k ns ≡ 0
  unfolding any_eq count
  count-none [] h = refl
  count-none (n ∷ ns) h = ground (arith, count-none ns)

  without-none : (ns : List ℕ) → any_eq k ns ≡ false → without k ns ≡ ns
  unfolding any_eq without
  without-none [] h = refl
  without-none (n ∷ ns) h = ground (arith, without-none ns)

-- The loop commits as many tokens as the list has copies of the old read position, as far as
-- tokens were sent, and drops the copies.
record Acked (fuel k : ℕ) (ns : List ℕ) (r : String) (f : Fifo) (h : List Token) (p t : ℕ)
    : Type 0 where
  after : Fifo
  returned : ack_loop fuel k ns r f ≡ ok (without k ns, after)
  cursor : Cursor after r h (min t (p + count k ns)) t

module _ (r : String) (h : List Token) (k t : ℕ) where
  ack_loop-stop :
      (fuel : ℕ) (ns : List ℕ) (f : Fifo)
      → any_eq k ns ≡ false
      → ack_loop fuel k ns r f ≡ ok (ns, f)
  unfolding ack_loop
  ack_loop-stop zero ns f h = rw h
  ack_loop-stop (suc fuel) ns f h = rw (h, ack_loop)

  ack_loop-step :
      (fuel : ℕ) (ns : List ℕ) (f g : Fifo)
      → any_eq k ns ≡ true
      → commit_one_read r true f ≡ ok g
      → ack_loop (suc fuel) k ns r f ≡ ack_loop fuel k (remove_first k ns) r g
  unfolding ack_loop
  ack_loop-step fuel ns f g h e = rw (h, ack_loop) (rw e)

  -- One round, from what the commit did.
  Acked-step :
      (fuel : ℕ) (ns : List ℕ) (f g : Fifo) (p q : ℕ)
      → any_eq k ns ≡ true
      → commit_one_read r true f ≡ ok g
      → min t (q + count k (remove_first k ns)) ≡ min t (p + count k ns)
      → Acked fuel k (remove_first k ns) r g h q t
      → Acked (suc fuel) k ns r f h p t
  Acked-step fuel ns f g p q some e same rest = record {
    after = rest.after;
    returned =
        ack_loop-step fuel ns f g some e
        ∙ subst (λ ms. ack_loop fuel k (remove_first k ns) r g ≡ ok (ms, rest.after))
            (without-remove_first k ns) rest.returned;
    cursor = subst (λ x. Cursor rest.after r h x t) same rest.cursor;
  }

  Acked-stop :
      (fuel : ℕ) (ns : List ℕ) (f : Fifo) (p : ℕ)
      → any_eq k ns ≡ false
      → Cursor f r h p t
      → Acked fuel k ns r f h p t
  Acked-stop fuel ns f p none_left c =
      let b = cursor_bounds f r h p t c in
      let still : p ≡ min t (p + count k ns) = omega (arith, count-none k ns none_left) in
      record {
        after = f;
        returned = ack_loop-stop fuel ns f none_left ∙ rw (without-none k ns none_left);
        cursor = subst (λ x. Cursor f r h x t) still c;
      }

  ack_loop-Acked :
      (fuel : ℕ) (ns : List ℕ) (f : Fifo) (p : ℕ)
      → length ns ≤ fuel
      → Cursor f r h p t
      → Acked fuel k ns r f h p t
  ack_loop-Acked zero [] f p enough c = Acked-stop zero [] f p (unfold any_eq in refl) c
  ack_loop-Acked zero (n ∷ ns) f p enough c = absurd (omega arith)
  ack_loop-Acked (suc fuel) ns f p enough c = elim (Bool-cases (any_eq k ns)) [
    | inr none_left ↦ Acked-stop (suc fuel) ns f p none_left c
    | inl found ↦
        let shorter : length (remove_first k ns) ≤ fuel =
          omega (arith, length-remove_first k ns found) in
        let fewer = count-remove_first k ns found in
        elim (Bool-cases (ltb p t)) [
          | inl more ↦
              let (g, e, c') = Cursor-commit_one f r h p t c (ltb→lt _ _ more) in
              Acked-step fuel ns f g p (p + 1) found e (omega arith)
                (ack_loop-Acked fuel (remove_first k ns) g (p + 1) shorter c')
          | inr all ↦
              let le = ltb→le _ _ all in
              Acked-step fuel ns f f p p found (cursor_commit_none f r h p t c le true)
                (omega arith) (ack_loop-Acked fuel (remove_first k ns) f p shorter c)
        ]
  ]

-- The list after the number of an ACK is put in.
abbrev pub with_ack : ℕ → ℕ → List ℕ → List ℕ
with_ack n t ns = if ltb n t then ns ++ n ∷ [] else ns

-- What `reply_ack` leaves: its positions, its list, and the send speed.
pub record AckReply (n : ℕ) (e : TunnelOut) (h : List Token) (p t : ℕ) : Type 0 where
  pub after : TunnelOut
  pub returned : reply_ack n e ≡ ok after
  pub cursor :
      Cursor after.fifo e.peer_id h (min t (p + count p (with_ack n t e.sequencenbrs_acked))) t
  pub acked : after.sequencenbrs_acked ≡ without p (with_ack n t e.sequencenbrs_acked)
  pub speed : (after.bulk ≡ true) × (after.backoff ≡ 0)
  pub same : (after.peer_id ≡ e.peer_id) × (after.port_id ≡ e.port_id) × (after.sent ≡ e.sent)

-- With a sound ring that holds its history, an ACK commits as many of the sent tokens as the list of acknowledged numbers, with the new
-- number if that token was sent, has copies of the read position; the copies leave the list, and
-- all other numbers stay in it, also the next one. The loop ends, and nothing raises.
pub reply_ack-AckReply :
    (n : ℕ) (e : TunnelOut) (h : List Token) (p t : ℕ)
    → Cursor e.fifo e.peer_id h p t
    → AckReply n e h p t
unfolding reply_ack
reply_ack-AckReply n e h p t c =
    let ns = with_ack n t e.sequencenbrs_acked in
    let r = ack_loop-Acked e.peer_id h p t (length ns) ns e.fifo p (omega arith) c in
    record {
      after = record e {
        fifo = r.after;
        sequencenbrs_acked = without p ns;
        bulk = true;
        backoff = 0;
        triggers = e.triggers ++ 0 ∷ [];
      };
      returned =
          rw (cursor_tentative e.fifo e.peer_id h p t c, cursor_committed e.fifo e.peer_id h p t c)
            (rw r.returned);
      cursor = r.cursor;
      acked = refl;
      speed = (refl, refl);
      same = (refl, refl, refl);
    }
