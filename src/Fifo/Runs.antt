-- ===== src/Fifo/Runs.antt =====
-- Any sequence of operations on the ring against a stream that never forgets a token.
use exjobb_calvin.Prelude.{
  ℕ, ◌+◌, ◌-◌, ◌<◌, String, ◌≡◌, refl, ap, subst, List, [], ◌∷◌, length, Bool, true, false,
  Bool-cases, ltb, ltb→lt, ok, arith, inl, inr,
}
use exjobb_calvin.Prelude.Dict.{get-lookup}
use exjobb_calvin.Token.{Token}
use exjobb_calvin.Fifo.{Fifo}
use exjobb_calvin.Fifo.WellFormed.{
  IsWellFormed, HasReader, reader_of_known, committed-IsWellFormed, tentative-IsWellFormed,
  written-IsWellFormed,
}
use exjobb_calvin.Fifo.Operations.{
  written, move_tentative, move_committed, fits, write-eq, commit_reads-eq, commit_one_read-eq,
}
use exjobb_calvin.Fifo.History.{
  Holds, Holds-written, Holds-move_tentative, Holds-move_committed, read-eq-history,
}
use exjobb_calvin.Fifo.Streams.{
  Op, write_op, read_op, commit_op, commit_one_op, step, run, Stream, position, spec_step, spec_run,
  stream, Refines, Knows, KnowsAll,
}

-- One call returned as the specification says, and the ring still refines its stream.
record Simulates (op : Op) (f : Fifo) (h : List Token) : Type 0 where
  after : Fifo
  returned : step op f ≡ ok ((spec_step op (stream f h)).0, after)
  well : IsWellFormed after
  holds : Holds after (spec_step op (stream f h)).1.history
  same : stream after (spec_step op (stream f h)).1.history ≡ (spec_step op (stream f h)).1
  readers : after.readers ≡ f.readers

module _ (f : Fifo) (w : IsWellFormed f) (h : List Token) (holds : Holds f h) where
  write-Simulates : (x : Token) → Simulates (write_op x) f h
  unfolding step
  write-Simulates x =
      let e : length h ≡ f.write_pos = holds.written_count in
      elim (Bool-cases (fits f)) [
        | inl room ↦ record {
          after = written x f;
          returned = rw (write-eq f w x, e, room);
          well = written-IsWellFormed f w x (ltb→lt _ _ room);
          holds = rw (e, room) (Holds-written f w h holds x);
          same = rw (e, room);
          readers = refl;
        }
        | inr full ↦ record {
          after = f;
          returned = rw (write-eq f w x, e, full);
          well = w;
          holds = rw (e, full) holds;
          same = rw (e, full);
          readers = refl;
        }
      ]

  module _ (r : String) (p t : ℕ) (at : HasReader f r p t) where
    committed_position : position r f.read_pos ≡ p
    committed_position = rw (get-lookup r f.read_pos p at.committed, position)

    tentative_position : position r f.tentative_read_pos ≡ t
    tentative_position = rw (get-lookup r f.tentative_read_pos t at.tentative, position)

    read-Simulates : Simulates (read_op r) f h
    unfolding step
    read-Simulates =
        let e : length h ≡ f.write_pos = holds.written_count in
        let b = w.ordered r p t at.committed at.tentative in
        elim (Bool-cases (ltb t f.write_pos)) [
          | inl more ↦ record {
            after = move_tentative r (t + 1) f;
            returned = rw (read-eq-history f w h holds r p t at, tentative_position, more);
            well =
                tentative-IsWellFormed f w r p t (t + 1) at (omega arith)
                  (omega (arith, ltb→lt _ _ more));
            holds = rw (tentative_position, e, more) (Holds-move_tentative f w h holds r (t + 1));
            same = rw (tentative_position, e, more);
            readers = refl;
          }
          | inr end ↦ record {
            after = f;
            returned = rw (read-eq-history f w h holds r p t at, tentative_position, end);
            well = w;
            holds = rw (tentative_position, e, end) holds;
            same = rw (tentative_position, e, end);
            readers = refl;
          }
        ]

    commit-Simulates : (c : Bool) → Simulates (commit_op r c) f h
    unfolding step
    commit-Simulates true =
        let b = w.ordered r p t at.committed at.tentative in
        record {
          after = move_committed r t f;
          returned = rw (commit_reads-eq f w r p t at true);
          well = committed-IsWellFormed f w r p t t at b.0 (omega arith);
          holds = Holds-move_committed f w h holds r p t at t b.0;
          same = rw tentative_position;
          readers = refl;
        }
    commit-Simulates false =
        let b = w.ordered r p t at.committed at.tentative in
        record {
          after = move_tentative r p f;
          returned = rw (commit_reads-eq f w r p t at false);
          well = tentative-IsWellFormed f w r p t p at (omega arith) (omega arith);
          holds = Holds-move_tentative f w h holds r p;
          same = rw committed_position;
          readers = refl;
        }

    commit_one-Simulates : (c : Bool) → Simulates (commit_one_op r c) f h
    unfolding step
    commit_one-Simulates c =
        let b = w.ordered r p t at.committed at.tentative in
        elim (Bool-cases (ltb p t)) [
          | inl more ↦ go c more
          | inr end ↦ record {
            after = f;
            returned = rw (commit_one_read-eq f w r p t at c, end);
            well = w;
            holds = rw (committed_position, tentative_position, end) holds;
            same = rw (committed_position, tentative_position, end);
            readers = refl;
          }
        ]
      where
        go : (c : Bool) → ltb p t ≡ true → Simulates (commit_one_op r c) f h
        go true more =
            let lt : p < t = ltb→lt _ _ more in
            record {
              after = move_committed r (p + 1) f;
              returned = rw (commit_one_read-eq f w r p t at true, more);
              well = committed-IsWellFormed f w r p t (p + 1) at (omega arith) (omega arith);
              holds =
                  rw (committed_position, tentative_position, more)
                    (Holds-move_committed f w h holds r p t at (p + 1) (omega arith));
              same = rw (committed_position, tentative_position, more);
              readers = refl;
            }
        go false more =
            let lt : p < t = ltb→lt _ _ more in
            let b = w.ordered r p t at.committed at.tentative in
            record {
              after = move_tentative r (t - 1) f;
              returned = rw (commit_one_read-eq f w r p t at false, more);
              well = tentative-IsWellFormed f w r p t (t - 1) at (omega arith) (omega arith);
              holds =
                  rw (committed_position, tentative_position, more)
                    (Holds-move_tentative f w h holds r (t - 1));
              same = rw (committed_position, tentative_position, more);
              readers = refl;
            }

  step-Simulates : (op : Op) → Knows f op → Simulates op f h
  step-Simulates (write_op x) k = write-Simulates x
  step-Simulates (read_op r) k = let (p, t, at) = reader_of_known f r w k in read-Simulates r p t at
  step-Simulates (commit_op r c) k =
      let (p, t, at) = reader_of_known f r w k in commit-Simulates r p t at c
  step-Simulates (commit_one_op r c) k =
      let (p, t, at) = reader_of_known f r w k in commit_one-Simulates r p t at c

-- The known readers stay known.
Knows-readers : (f g : Fifo) (op : Op) → g.readers ≡ f.readers → Knows f op → Knows g op
Knows-readers f g (write_op x) e k = k
Knows-readers f g (read_op r) e k = rw e k
Knows-readers f g (commit_op r c) e k = rw e k
Knows-readers f g (commit_one_op r c) e k = rw e k

KnowsAll-readers :
    (f g : Fifo) (ops : List Op) → g.readers ≡ f.readers → KnowsAll f ops → KnowsAll g ops
KnowsAll-readers f g [] e k = tt
KnowsAll-readers f g (op ∷ ops) e k = (Knows-readers f g op e k.0, KnowsAll-readers f g ops e k.1)

-- What `run-Refines` states of a run: it returns, with the results of the stream, and its ring
-- refines the stream that is left.
pub record RunRefines (ops : List Op) (f : Fifo) (s : Stream) : Type 0 where
  pub after : Fifo
  pub returned : run ops f ≡ ok ((spec_run ops s).0, after)
  pub refines : Refines after (spec_run ops s).1

-- A ring that refines a stream runs any calls of its known readers, in any order, without an
-- exception; every call returns what the stream returns, so that each reader gets the written
-- tokens in order, each once unless it is rolled back; and the ring left refines the stream left.
pub run-Refines :
    (ops : List Op) (f : Fifo) (s : Stream) → Refines f s → KnowsAll f ops → RunRefines ops f s
unfolding run spec_run
run-Refines [] f s rel k = record { after = f; returned = refl; refines = rel }
run-Refines (op ∷ ops) f s rel k =
    let sim = step-Simulates f rel.well s.history rel.holds op k.0 in
    let s' = (spec_step op s).1 in
    let same' : spec_step op (stream f s.history) ≡ spec_step op s = ap (spec_step op) rel.same in
    let rest =
      run-Refines ops sim.after (spec_step op (stream f s.history)).1
        (record { well = sim.well; holds = sim.holds; same = sim.same })
        (KnowsAll-readers f sim.after ops sim.readers k.1) in
    subst (RunRefines (op ∷ ops) f) rel.same (record {
      after = rest.after;
      returned = rw (sim.returned, rest.returned);
      refines = rest.refines;
    })
