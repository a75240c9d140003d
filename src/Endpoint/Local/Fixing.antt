-- ===== src/Endpoint/Local/Fixing.antt =====
-- The repair of the positions after a reconnect skips exactly the tokens that the own ring has.
use exjobb_calvin.Prelude.{
  ℕ, zero, suc, ◌+◌, ◌-◌, ◌<◌, min, String, ◌≡◌, ◌∙◌, subst, List, Option, get_elem?,
  get_elem?-some, ltb, ltb→lt, true, false, Bool-cases, if◌then◌else◌, ok, arith, inl, inr,
}
use exjobb_calvin.Prelude.Dict.{get, get-lookup}
use exjobb_calvin.Token.{Token}
use exjobb_calvin.Fifo.{Fifo, read, can_read, commit_reads}
use exjobb_calvin.Fifo.WellFormed.{IsWellFormed, HasReader}
use exjobb_calvin.Fifo.Operations.{can_read-eq}
use exjobb_calvin.Fifo.History.{Holds}
use exjobb_calvin.Fifo.Consume.{Moved, Moved-refl, Moved-trans, consume}
use exjobb_calvin.Endpoint.Local.{LocalIn, skip_duplicates, fifo_mismatch_fix}

-- Where the skipping ends: at the own write position, or at the end of the peer's tokens.
abbrev pub skip_to : ℕ → ℕ → ℕ → ℕ
skip_to p upto w = if ltb p upto then min upto w else p

record Skips (fuel : ℕ) (r : String) (upto : ℕ) (peer : Fifo) (q : ℕ) : Type 0 where
  after : Fifo
  returned : skip_duplicates fuel r upto peer ≡ ok after
  moved : Moved peer r q after

module _ (fuel : ℕ) (r : String) (upto : ℕ) (peer : Fifo) where
  skip-end : can_read r peer ≡ ok false → skip_duplicates (suc fuel) r upto peer ≡ ok peer
  unfolding skip_duplicates
  skip-end e = rw e

  skip-enough :
      (p : ℕ)
      → can_read r peer ≡ ok true
      → get r peer.read_pos ≡ ok p
      → ltb p upto ≡ false
      → skip_duplicates (suc fuel) r upto peer ≡ ok peer
  unfolding skip_duplicates
  skip-enough p e g done = rw (e, g) (ground (arith, done))

  skip-one :
      (p : ℕ) (taken : Option Token × Fifo) (next : Fifo)
      → can_read r peer ≡ ok true
      → get r peer.read_pos ≡ ok p
      → ltb p upto ≡ true
      → read r peer ≡ ok taken
      → commit_reads r true taken.1 ≡ ok next
      → skip_duplicates (suc fuel) r upto peer ≡ skip_duplicates fuel r upto next
  unfolding skip_duplicates
  skip-one p taken next e g behind t c = rw (e, g) (ground (arith, behind, t, c))

-- One more token skipped in front of the others.
Skips-one :
    (fuel : ℕ) (r : String) (upto : ℕ) (peer next : Fifo) (p : ℕ)
    → skip_duplicates (suc fuel) r upto peer ≡ skip_duplicates fuel r upto next
    → p < peer.write_pos
    → p < upto
    → Moved peer r (p + 1) next
    → Skips fuel r upto next (skip_to (p + 1) upto next.write_pos)
    → Skips (suc fuel) r upto peer (skip_to p upto peer.write_pos)
Skips-one fuel r upto peer next p e more behind one rest = record {
  after = rest.after;
  returned = e ∙ rest.returned;
  moved =
      subst (λ q. Moved peer r q rest.after) (rw one.write_pos (ground arith))
        (Moved-trans peer next rest.after r (p + 1) _ one rest.moved);
}

module _ (r : String) (upto : ℕ) (h : List Token) where
  skip_duplicates-Skips :
      (fuel : ℕ) (peer : Fifo) (p : ℕ)
      → IsWellFormed peer
      → Holds peer h
      → HasReader peer r p p
      → peer.write_pos - p < fuel
      → Skips fuel r upto peer (skip_to p upto peer.write_pos)
  skip_duplicates-Skips zero peer p w holds at enough = absurd (omega arith)
  skip_duplicates-Skips (suc fuel) peer p w holds at enough =
      let readable = can_read-eq peer w r p p at in
      let committed = get-lookup r peer.read_pos p at.committed in
      let below = (w.ordered r p p at.committed at.tentative).1 in
      elim (Bool-cases (ltb p peer.write_pos)) [
        | inr end ↦ record {
          after = peer;
          returned = skip-end fuel r upto peer (rw end at readable);
          moved = subst (λ q. Moved peer r q peer) (ground arith) (Moved-refl peer r p w at);
        }
        | inl more ↦ elim (Bool-cases (ltb p upto)) [
          | inr done ↦ record {
            after = peer;
            returned = skip-enough fuel r upto peer p (rw more at readable) committed done;
            moved = rw done (Moved-refl peer r p w at);
          }
          | inl behind ↦
              let c = consume peer w h holds r p at in
              let one : Moved peer r (p + 1) c.after = rw more at c.moved in
              let lt = ltb→lt _ _ more in
              let (x, there) = get_elem?-some h p (omega (arith, holds.written_count)) in
              Skips-one fuel r upto peer c.after p
                (skip-one fuel r upto peer p (get_elem? h p, c.mid) c.after (rw more at readable)
                  committed behind c.read_ok (rw there at c.commit_ok))
                lt (ltb→lt _ _ behind) one
                (skip_duplicates-Skips fuel c.after (p + 1) one.well (one.holds h holds) one.at
                  (omega (arith, one.write_pos)))
        ]
      ]

-- The fix, for an endpoint whose reader has nothing tentative in the peer's ring: it returns,
-- and moves only the peer's reader, over exactly the tokens below the own write position.
pub record Fixed (e : LocalIn) (q : ℕ) : Type 0 where
  pub peer : Fifo
  pub returned : fifo_mismatch_fix e ≡ ok (record e { peer_fifo = peer; fifo_mismatch = false })
  pub moved : Moved e.peer_fifo e.port_id q peer

-- When the peer's ring is sound, holds its history, and has the port as a reader with nothing
-- tentative, `_fifo_mismatch_fix` ends without an exception and moves that reader, past the tokens that
-- the own ring already has, to the own write position, but not past the written tokens nor back; the
-- flag is cleared, and the rest of the endpoint is as it was.
pub fifo_mismatch_fix-Fixed :
    (e : LocalIn) (h : List Token) (p : ℕ)
    → IsWellFormed e.peer_fifo
    → Holds e.peer_fifo h
    → HasReader e.peer_fifo e.port_id p p
    → Fixed e (skip_to p e.fifo.write_pos e.peer_fifo.write_pos)
unfolding fifo_mismatch_fix
fifo_mismatch_fix-Fixed e h p w holds at =
    let s =
      skip_duplicates-Skips e.port_id e.fifo.write_pos h (suc e.peer_fifo.write_pos) e.peer_fifo p w
        holds at (omega arith) in
    record { peer = s.after; returned = rw s.returned; moved = s.moved }
