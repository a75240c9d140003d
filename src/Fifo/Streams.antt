-- ===== src/Fifo/Streams.antt =====
-- The specification of the ring of calvin/runtime/north/fifo.py: a stream that never forgets a token.
use exjobb_calvin.Prelude.{
  ℕ, ◌+◌, ◌-◌, String, ◌≡◌, Option, List, [], ◌∷◌, ◌++◌, length, get_elem?, Bool, true, false, ltb,
  if◌then◌else◌, Result, ok, err, ◌>>=◌,
}
use exjobb_calvin.Prelude.Dict.{Dict, insert, get}
use exjobb_calvin.Prelude.Dict.Least.{least}
use exjobb_calvin.Prelude.Dict.Names.{contains}
use exjobb_calvin.Token.{Token}
use exjobb_calvin.Fifo.{Fifo, write, read, commit_reads, commit_one_read}
use exjobb_calvin.Fifo.WellFormed.{IsWellFormed}
use exjobb_calvin.Fifo.History.{Holds}

-- The calls that the ports and endpoints make. A rollback is `commit_reads` with `false`.
pub data Op : Type 0 where
  write_op : Token → Op
  read_op : String → Op
  commit_op : String → Bool → Op
  commit_one_op : String → Bool → Op

-- What a call returns.
pub data Out : Type 0 where
  accepted : Bool → Out
  got : Option Token → Out
  nothing : Out

unfoldable pub step : Op → Fifo → Result (Out × Fifo)
step (write_op x) f = do (b, f') ← write x f; ok (accepted b, f')
step (read_op r) f = do (t, f') ← read r f; ok (got t, f')
step (commit_op r c) f = do f' ← commit_reads r c f; ok (nothing, f')
step (commit_one_op r c) f = do f' ← commit_one_read r c f; ok (nothing, f')

unfoldable pub run : List Op → Fifo → Result (List Out × Fifo)
run [] f = ok ([], f)
run (op ∷ ops) f = do (out, f') ← step op f; (outs, f'') ← run ops f'; ok (out ∷ outs, f'')

-- The specification: every token ever written, and the positions of the readers in it.
pub record Stream : Type 0 where
  pub history : List Token
  pub bound : ℕ
  pub committed : Dict ℕ
  pub tentative : Dict ℕ

abbrev pub position : String → Dict ℕ → ℕ
position r d = elim (get r d) [ ok p ↦ p | err _ ↦ 0 ]

abbrev pub spec_step : Op → Stream → Out × Stream
spec_step (write_op x) s =
    if ltb (length s.history + 1) (least s.committed + s.bound)
    then (accepted true, record s { history = s.history ++ x ∷ [] })
    else (accepted false, s)
spec_step (read_op r) s =
    let t = position r s.tentative in
    (
      got (get_elem? s.history t),
      if ltb t (length s.history) then record s { tentative = insert r (t + 1) s.tentative } else s,
    )
spec_step (commit_op r true) s =
    (nothing, record s { committed = insert r (position r s.tentative) s.committed })
spec_step (commit_op r false) s =
    (nothing, record s { tentative = insert r (position r s.committed) s.tentative })
spec_step (commit_one_op r c) s =
    let p = position r s.committed in
    let t = position r s.tentative in
    (
      nothing,
      if ltb p t
          then (if c
              then record s { committed = insert r (p + 1) s.committed }
              else record s { tentative = insert r (t - 1) s.tentative })
          else s,
    )

unfoldable pub spec_run : List Op → Stream → List Out × Stream
spec_run [] s = ([], s)
spec_run (op ∷ ops) s =
    let (out, s') = spec_step op s in let (outs, s'') = spec_run ops s' in (out ∷ outs, s'')

-- The stream that a ring with this history stands for.
abbrev pub stream : Fifo → List Token → Stream
stream f h = record {
  history = h;
  bound = f.size;
  committed = f.read_pos;
  tentative = f.tentative_read_pos;
}

-- A ring that a stream describes.
pub record Refines (f : Fifo) (s : Stream) : Type 0 where
  pub well : IsWellFormed f
  pub holds : Holds f s.history
  pub same : stream f s.history ≡ s

-- The readers that a call names are known.
abbrev pub Knows : Fifo → Op → Type 0
Knows f (write_op _) = Unit
Knows f (read_op r) = contains r f.readers ≡ true
Knows f (commit_op r _) = contains r f.readers ≡ true
Knows f (commit_one_op r _) = contains r f.readers ≡ true

abbrev pub KnowsAll : Fifo → List Op → Type 0
KnowsAll f [] = Unit
KnowsAll f (op ∷ ops) = Knows f op × KnowsAll f ops
