-- ===== src/Fifo/Cursor.antt =====
-- One reader of a sound ring with a known history, through the single operations.
use exjobb_calvin.Prelude.{
  ℕ, ◌+◌, ◌-◌, ◌<◌, ◌≤◌, String, ◌≡◌, ◌∙◌, sym, subst, none, some, List, ◌∷◌, [], ◌++◌, length,
  get_elem?, get_elem?-some, get_elem?-none, Bool, true, false, ltb, lt→ltb, ltb→lt, le→ltb, ok,
  arith,
}
use exjobb_calvin.Prelude.Dict.{get, get-lookup, lookup-insert_self}
use exjobb_calvin.Token.{Token}
use exjobb_calvin.Fifo.{Fifo, read, can_read, commit_reads, commit_one_read}
use exjobb_calvin.Fifo.WellFormed.{
  IsWellFormed, HasReader, committed-IsWellFormed, tentative-IsWellFormed, written-IsWellFormed,
}
use exjobb_calvin.Fifo.Operations.{
  written, fits, move_tentative, move_committed, can_read-eq, commit_reads-eq, commit_one_read-eq,
}
use exjobb_calvin.Fifo.History.{
  Holds, Holds-written, Holds-move_tentative, Holds-move_committed, read-eq-history,
}

pub record Cursor (f : Fifo) (r : String) (h : List Token) (p t : ℕ) : Type 0 where
  pub well : IsWellFormed f
  pub holds : Holds f h
  pub at : HasReader f r p t

module _ (f : Fifo) (r : String) (h : List Token) (p t : ℕ) (c : Cursor f r h p t) where
  pub cursor_bounds : (p ≤ t) × (t ≤ length h)
  cursor_bounds =
      let b = c.well.ordered r p t c.at.committed c.at.tentative in
      (b.0, omega (arith, c.holds.written_count))

  pub cursor_committed : get r f.read_pos ≡ ok p
  cursor_committed = get-lookup r f.read_pos p c.at.committed

  pub cursor_tentative : get r f.tentative_read_pos ≡ ok t
  cursor_tentative = get-lookup r f.tentative_read_pos t c.at.tentative

  pub cursor_can_read : can_read r f ≡ ok (ltb t (length h))
  cursor_can_read = can_read-eq f c.well r p t c.at ∙ rw c.holds.written_count

  moved_tentative-Cursor :
      (t' : ℕ) → p ≤ t' → t' ≤ length h → Cursor (move_tentative r t' f) r h p t'
  moved_tentative-Cursor t' low high = record {
    well = tentative-IsWellFormed f c.well r p t t' c.at low (omega (arith, c.holds.written_count));
    holds = Holds-move_tentative f c.well h c.holds r t';
    at = record {
      committed = c.at.committed;
      tentative = lookup-insert_self r t' f.tentative_read_pos;
    };
  }

  moved_committed-Cursor : (p' : ℕ) → p ≤ p' → p' ≤ t → Cursor (move_committed r p' f) r h p' t
  moved_committed-Cursor p' low high = record {
    well = committed-IsWellFormed f c.well r p t p' c.at low high;
    holds = Holds-move_committed f c.well h c.holds r p t c.at p' low;
    at = record { committed = lookup-insert_self r p' f.read_pos; tentative = c.at.tentative };
  }

  pub Cursor-read :
      t < length h
      → (x : Token) × (g : Fifo) × (read r f ≡ ok (some x, g))
        × (get_elem? h t ≡ some x)
        × Cursor g r h p (t + 1)
  Cursor-read lt =
      let (x, there) = get_elem?-some h t lt in
      let e : ltb t f.write_pos ≡ true = lt→ltb _ _ (omega (arith, c.holds.written_count)) in
      (
        x,
        move_tentative r (t + 1) f,
        read-eq-history f c.well h c.holds r p t c.at ∙ rw (e, there),
        there,
        moved_tentative-Cursor (t + 1) (omega (arith, cursor_bounds)) (omega arith),
      )

  pub cursor_read_end : length h ≤ t → (read r f ≡ ok (none, f)) × (get_elem? h t ≡ none)
  cursor_read_end le =
      let e : ltb t f.write_pos ≡ false = le→ltb _ _ (omega (arith, c.holds.written_count)) in
      let past = get_elem?-none h t le in
      (read-eq-history f c.well h c.holds r p t c.at ∙ rw (e, past), past)

  pub Cursor-commit_one :
      p < t → (g : Fifo) × (commit_one_read r true f ≡ ok g) × Cursor g r h (p + 1) t
  Cursor-commit_one lt = (
    move_committed r (p + 1) f,
    commit_one_read-eq f c.well r p t c.at true ∙ rw (lt→ltb p t lt),
    moved_committed-Cursor (p + 1) (omega arith) (omega arith),
  )

  pub cursor_commit_none : t ≤ p → (commit : Bool) → commit_one_read r commit f ≡ ok f
  cursor_commit_none le commit = commit_one_read-eq f c.well r p t c.at commit ∙ rw (le→ltb p t le)

  pub Cursor-uncommit_one :
      p < t → (g : Fifo) × (commit_one_read r false f ≡ ok g) × Cursor g r h p (t - 1)
  Cursor-uncommit_one lt = (
    move_tentative r (t - 1) f,
    commit_one_read-eq f c.well r p t c.at false ∙ rw (lt→ltb p t lt),
    moved_tentative-Cursor (t - 1) (omega arith) (omega (arith, cursor_bounds)),
  )

  pub Cursor-commit : (g : Fifo) × (commit_reads r true f ≡ ok g) × Cursor g r h t t
  Cursor-commit = (
    move_committed r t f,
    commit_reads-eq f c.well r p t c.at true,
    moved_committed-Cursor t cursor_bounds.0 (omega arith),
  )

  pub Cursor-rollback : (g : Fifo) × (commit_reads r false f ≡ ok g) × Cursor g r h p p
  Cursor-rollback = (
    move_tentative r p f,
    commit_reads-eq f c.well r p t c.at false,
    moved_tentative-Cursor p (omega arith) (omega (arith, cursor_bounds)),
  )

  pub Cursor-written : (x : Token) → fits f ≡ true → Cursor (written x f) r (h ++ x ∷ []) p t
  Cursor-written x room = record {
    well = written-IsWellFormed f c.well x (ltb→lt _ _ room);
    holds = Holds-written f c.well h c.holds x;
    at = record { committed = c.at.committed; tentative = c.at.tentative };
  }

pub rename-Cursor :
    {f : Fifo} {r q : String} {h : List Token} {p t : ℕ}
    → q ≡ r
    → Cursor f r h p t
    → Cursor f q h p t
rename-Cursor {f} {h = h} {p = p} {t = t} e c = subst (λ k. Cursor f k h p t) (sym e) c
