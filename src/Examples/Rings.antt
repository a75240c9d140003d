-- ===== src/Examples/Rings.antt =====
-- Rings of calvin/runtime/north/fifo.py with one reader, and their tokens.
use exjobb_calvin.Prelude.{
  ◌+◌, ◌<◌, true, false, ◌≡◌, refl, some, err, value_error, List, [], ◌∷◌, get_elem?, inr, ok,
  arith, ltb, if◌then◌else◌, ◌↔◌, ◌-◌,
}
use exjobb_calvin.Prelude.Int.{pos}
use exjobb_calvin.Prelude.Dict.{lookup, has}
use exjobb_calvin.Prelude.Dict.Least.{least}
use exjobb_calvin.Prelude.Dict.Names.{contains}
use exjobb_calvin.Token.{Coder, Token, token, exception_token, encode, decode}
use exjobb_calvin.Token.Values.{int, str, list, nil, cons}
use exjobb_calvin.Token.Coding.{decode-encode}
use exjobb_calvin.Fifo.{
  Fifo, can_write, available_slots, add_reader, remove_reader, read, last_readpos,
}
use exjobb_calvin.Fifo.WellFormed.{IsWellFormed, HasReader, can_write-eq, available_slots-eq}
use exjobb_calvin.Fifo.Operations.{written, move_tentative}
use exjobb_calvin.Fifo.History.{Holds, read-eq-history}
use exjobb_calvin.Fifo.Cursor.{Cursor, Cursor-written}
use exjobb_calvin.Fifo.Membership.{add_reader-IsWellFormed, remove_reader-IsWellFormed}
use exjobb_calvin.Fifo.Streams.{Op, write_op, read_op, commit_op, stream, KnowsAll}
use exjobb_calvin.Fifo.Runs.{RunRefines, run-Refines}

abbrev pub zero_token : Token
zero_token = record { class = token; value = int (pos 0) }

abbrev pub seven_token : Token
seven_token = record { class = token; value = int (pos 7) }

-- Three slots, nothing written, one reader at the start.
abbrev pub ring : Fifo
ring = record {
  fifo = zero_token ∷ zero_token ∷ zero_token ∷ [];
  size = 3;
  readers = "in" ∷ [];
  write_pos = 0;
  read_pos = ("in", 0) ∷ [];
  tentative_read_pos = ("in", 0) ∷ [];
}

pub ring-IsWellFormed : IsWellFormed ring
unfolding lookup has contains least
ring-IsWellFormed = record {
  positive = omega arith;
  slots = refl;
  window = omega arith;
  ordered = λ r p t hp ht. ground arith;
  same_keys = λ r. refl;
  known = λ r. ground arith;
}

pub ring-HasReader : HasReader ring "in" 0 0
unfolding lookup
ring-HasReader = record { committed = refl; tentative = refl }

pub ring-Holds : Holds ring []
ring-Holds = record { written_count = refl; kept = λ i _ h. absurd (omega arith) }

pub ring-Cursor : Cursor ring "in" [] 0 0
ring-Cursor = record { well = ring-IsWellFormed; holds = ring-Holds; at = ring-HasReader }

-- The same ring after one token was written.
pub full-Cursor : Cursor (written seven_token ring) "in" (seven_token ∷ []) 0 0
unfolding least
full-Cursor = Cursor-written ring "in" [] 0 0 ring-Cursor seven_token refl

abbrev ops : List Op
ops = write_op seven_token ∷ read_op "in" ∷ commit_op "in" true ∷ []

ops_known : KnowsAll ring ops
unfolding contains
ops_known =
    let last : KnowsAll ring (commit_op "in" true ∷ []) = (refl, tt) in
    let two : KnowsAll ring (read_op "in" ∷ commit_op "in" true ∷ []) = (refl, last) in (tt, two)

run-Refines_example : RunRefines ops ring (stream ring [])
run-Refines_example =
    run-Refines ops ring (stream ring [])
      (record { well = ring-IsWellFormed; holds = ring-Holds; same = refl }) ops_known

read-eq-history_example :
    read "in" (written seven_token ring)
    ≡ ok (
      get_elem? (seven_token ∷ []) 0,
      if ltb 0 (written seven_token ring).write_pos
          then move_tentative "in" 1 (written seven_token ring)
          else written seven_token ring,
    )
read-eq-history_example =
    read-eq-history (written seven_token ring) full-Cursor.well (seven_token ∷ []) full-Cursor.holds
      "in" 0 0 full-Cursor.at

can_write-eq_example : can_write ring ≡ ok (ltb 1 (last_readpos ring + 3))
can_write-eq_example = can_write-eq ring ring-IsWellFormed

available_slots-eq_example : available_slots ring ≡ ok (3 - (0 - last_readpos ring) - 1)
available_slots-eq_example = available_slots-eq ring ring-IsWellFormed

add_reader-IsWellFormed_example : IsWellFormed (add_reader "other" ring) ↔ (0 < 3)
unfolding contains
add_reader-IsWellFormed_example = add_reader-IsWellFormed ring ring-IsWellFormed "other" refl

remove_reader-IsWellFormed_example :
    (f' : Fifo) × (remove_reader "in" ring ≡ ok f')
    × IsWellFormed f'
    × (contains "in" f'.readers ≡ false)
remove_reader-IsWellFormed_example =
    remove_reader-IsWellFormed ring ring-IsWellFormed "in" 0 0 ring-HasReader (inr (omega arith))

-- A coder that puts each value in a list, and takes nothing else.
abbrev boxing_coder : Coder
boxing_coder = record {
  encode = λ v. list (cons v nil);
  decode = λ w. elim w [ list (cons v nil) ↦ ok v | _ ↦ err value_error ];
}

decode-encode_example :
    decode
      (some boxing_coder)
      (encode (some boxing_coder) (record { class = exception_token; value = str "x" }))
    ≡ ok (record { class = exception_token; value = str "x" })
decode-encode_example =
    decode-encode (some boxing_coder) (record { class = exception_token; value = str "x" })
      (λ v. refl)
