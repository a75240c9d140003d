-- ===== src/Fifo/Consume.antt =====
-- A read that is committed at once, by a reader with no other read open.
use exjobb_calvin.Prelude.{
  ℕ, ◌+◌, ◌<◌, ◌≤◌, String, ◌≡◌, refl, ◌∙◌, none, some, List, [], ◌∷◌, ap, get_elem?,
  get_elem?-none, get_elem?-some, true, false, Bool-cases, is_some, ltb, ltb→lt, ltb→le,
  if◌then◌else◌, ok, arith, inl, inr,
}
use exjobb_calvin.Prelude.Dict.{Dict, insert-sole, lookup-sole_self, lookup, lookup-insert_self}
use exjobb_calvin.Token.{Token}
use exjobb_calvin.Fifo.{Fifo, read, commit_reads}
use exjobb_calvin.Fifo.WellFormed.{
  IsWellFormed, HasReader, committed-IsWellFormed, tentative-IsWellFormed,
}
use exjobb_calvin.Fifo.Operations.{move_tentative, move_committed, commit_reads-eq}
use exjobb_calvin.Fifo.History.{Holds, Holds-move_tentative, Holds-move_committed, read-eq-history}

-- `g` is `f` with the reader `r` at `q`, with nothing tentative, and what else counts unchanged.
pub record Moved (f : Fifo) (r : String) (q : ℕ) (g : Fifo) : Type 0 where
  pub well : IsWellFormed g
  pub at : HasReader g r q q
  pub write_pos : g.write_pos ≡ f.write_pos
  pub holds : (h : List Token) → Holds f h → Holds g h
  pub sole : (v : ℕ) → f.read_pos ≡ (r, v) ∷ [] → g.read_pos ≡ (r, q) ∷ []

sole_value : (r : String) (v p : ℕ) (d : Dict ℕ) → d ≡ (r, v) ∷ [] → lookup r d ≡ some p → v ≡ p
sole_value r v p d e h = cc (lookup-sole_self r v)

pub Moved-refl :
    (f : Fifo) (r : String) (p : ℕ) → IsWellFormed f → HasReader f r p p → Moved f r p f
Moved-refl f r p w at = record {
  well = w;
  at = at;
  write_pos = refl;
  holds = λ h k. k;
  sole = λ v e. e ∙ ap (λ x. (r, x) ∷ []) (sole_value r v p f.read_pos e at.committed);
}

pub Moved-trans :
    (f g k : Fifo) (r : String) (q s : ℕ) → Moved f r q g → Moved g r s k → Moved f r s k
Moved-trans f g k r q s a b = record {
  well = b.well;
  at = b.at;
  write_pos = b.write_pos ∙ a.write_pos;
  holds = λ h x. b.holds h (a.holds h x);
  sole = λ v e. b.sole q (a.sole v e);
}

abbrev pub next_pos : ℕ → Fifo → ℕ
next_pos p f = if ltb p f.write_pos then p + 1 else p

pub next_pos-le : (p : ℕ) (f : Fifo) → p ≤ f.write_pos → next_pos p f ≤ f.write_pos
next_pos-le p f h = ground arith

pub le-next_pos : (p : ℕ) (f : Fifo) → p ≤ next_pos p f
le-next_pos p f = ground arith

-- The two calls, and what they leave.
pub record Consumes (f : Fifo) (h : List Token) (r : String) (p : ℕ) : Type 0 where
  pub mid : Fifo
  pub after : Fifo
  pub read_ok : read r f ≡ ok (get_elem? h p, mid)
  pub commit_ok : commit_reads r (is_some (get_elem? h p)) mid ≡ ok after
  pub moved : Moved f r (next_pos p f) after

module _ (f : Fifo) (w : IsWellFormed f) (h : List Token) (holds : Holds f h) (r : String) (p : ℕ)
    (at : HasReader f r p p) where
  mid_reader : (t : ℕ) → HasReader (move_tentative r t f) r p t
  mid_reader t = record {
    committed = at.committed;
    tentative = lookup-insert_self r t f.tentative_read_pos;
  }

  advance-Moved :
      p < f.write_pos → Moved f r (p + 1) (move_committed r (p + 1) (move_tentative r (p + 1) f))
  advance-Moved lt =
      let mid = move_tentative r (p + 1) f in
      let wm = tentative-IsWellFormed f w r p p (p + 1) at (omega arith) (omega arith) in
      record {
        well =
            committed-IsWellFormed mid wm r p (p + 1) (p + 1) (mid_reader (p + 1)) (omega arith)
              (omega arith);
        at = record {
          committed = lookup-insert_self r (p + 1) f.read_pos;
          tentative = lookup-insert_self r (p + 1) f.tentative_read_pos;
        };
        sole = λ v e. rw e (insert-sole r v (p + 1));
        write_pos = refl;
        holds = λ k x.
            Holds-move_committed mid wm k (Holds-move_tentative f w k x r (p + 1)) r p (p + 1)
              (mid_reader (p + 1)) (p + 1) (omega arith);
      }

  stay-Moved : Moved f r p (move_tentative r p f)
  stay-Moved = record {
    well =
        tentative-IsWellFormed f w r p p p at (omega arith)
          (w.ordered r p p at.committed at.tentative).1;
    at = mid_reader p;
    write_pos = refl;
    holds = λ k x. Holds-move_tentative f w k x r p;
    sole = λ v e. e ∙ ap (λ x. (r, x) ∷ []) (sole_value r v p f.read_pos e at.committed);
  }

  pub consume : Consumes f h r p
  consume = elim (Bool-cases (ltb p f.write_pos)) [
    | inl lt ↦
        let (x, there) = get_elem?-some h p (omega (arith, holds.written_count, ltb→lt _ _ lt)) in
        let wm =
          tentative-IsWellFormed f w r p p (p + 1) at (omega arith)
            (omega (arith, ltb→lt _ _ lt)) in
        record {
          mid = move_tentative r (p + 1) f;
          after = move_committed r (p + 1) (move_tentative r (p + 1) f);
          read_ok = read-eq-history f w h holds r p p at ∙ rw lt;
          commit_ok = rw (there) (
              commit_reads-eq (move_tentative r (p + 1) f) wm r p (p + 1) (mid_reader (p + 1))
                true);
          moved = rw lt (advance-Moved (ltb→lt _ _ lt));
        }
    | inr ge ↦
        let past : get_elem? h p ≡ none =
          get_elem?-none h p (omega (arith, holds.written_count, ltb→le _ _ ge)) in
        record {
          mid = f;
          after = move_tentative r p f;
          read_ok = read-eq-history f w h holds r p p at ∙ rw ge;
          commit_ok = rw past (commit_reads-eq f w r p p at false);
          moved = rw ge stay-Moved;
        }
  ]
