-- ===== src/Fifo/Operations.antt =====
-- What each operation of the ring does for a reader that it knows: none raises, and each keeps
-- the invariant.
use exjobb_calvin.Prelude.{
  ℕ, ◌+◌, ◌-◌, ◌%◌, ◌<◌, String, ◌≡◌, ◌∙◌, Bool, true, false, none, some, length, get_elem?-some,
  ltb, if◌then◌else◌, ok, ◌>>=◌, set, arith,
}
use exjobb_calvin.Prelude.Int.{pos, sub_ℕ-pos}
use exjobb_calvin.Prelude.Dict.{insert, get-lookup}
use exjobb_calvin.Token.{Token}
use exjobb_calvin.Fifo.{
  Fifo, last_readpos, write, slot, take_one, read, can_read, require_reader, available_tokens,
  commit_reads, rollback_reads, commit_one_read,
}
use exjobb_calvin.Fifo.WellFormed.{IsWellFormed, HasReader, known_of_reader, can_write-eq}

-- The state after a write that finds room.
abbrev pub written : Token → Fifo → Fifo
written x f = record f { fifo = set f.fifo (f.write_pos % f.size) x; write_pos = f.write_pos + 1 }

abbrev pub move_tentative : String → ℕ → Fifo → Fifo
move_tentative r t f = record f { tentative_read_pos = insert r t f.tentative_read_pos }

abbrev pub move_committed : String → ℕ → Fifo → Fifo
move_committed r p f = record f { read_pos = insert r p f.read_pos }

-- Room for one more token.
abbrev pub fits : Fifo → Bool
fits f = ltb (f.write_pos + 1) (last_readpos f + f.size)

module _ (f : Fifo) (w : IsWellFormed f) where
  pub write-eq : (x : Token) → write x f ≡ ok (if fits f then (true, written x f) else (false, f))
  unfolding write
  write-eq x = rw (can_write-eq f w)

  pub write_room : (x : Token) → fits f ≡ true → write x f ≡ ok (true, written x f)
  write_room x room = write-eq x ∙ rw room

  pub write_full : (x : Token) → fits f ≡ false → write x f ≡ ok (false, f)
  write_full x full = write-eq x ∙ rw full

  pub slot-total : (i : ℕ) → (x : Token) × (slot i f ≡ ok x)
  unfolding slot
  slot-total i =
      let below : i % f.size < length f.fifo = omega (arith, w.positive, w.slots) in
      let (x, e) = get_elem?-some f.fifo (i % f.size) below in (x, ground (arith, e, w.positive))

  module _ (r : String) (p t : ℕ) (h : HasReader f r p t) where
    require_reader-eq : require_reader r f ≡ ok tt
    unfolding require_reader
    require_reader-eq = rw (known_of_reader f r p t w h)

    pub available_tokens-eq : available_tokens r f ≡ ok (pos (f.write_pos - t))
    unfolding available_tokens
    available_tokens-eq =
        rw (require_reader-eq, get-lookup r f.tentative_read_pos t h.tentative)
          (rw (sub_ℕ-pos f.write_pos t (w.ordered r p t h.committed h.tentative).1))

    pub can_read-eq : can_read r f ≡ ok (ltb t f.write_pos)
    unfolding can_read
    can_read-eq =
        rw (require_reader-eq, get-lookup r f.tentative_read_pos t h.tentative)
          (ground (arith, w.ordered r p t h.committed h.tentative))

    pub read-eq : read r f ≡ (
        if ltb t f.write_pos
        then (slot t f >>= λ x. ok (some x, move_tentative r (t + 1) f))
        else ok (none, f))
    unfolding read take_one
    read-eq =
        rw (require_reader-eq, can_read-eq) (rw (get-lookup r f.tentative_read_pos t h.tentative))

    pub commit_reads-eq :
        (commit : Bool)
        → commit_reads r commit f
          ≡ ok (if commit then move_committed r t f else move_tentative r p f)
    unfolding commit_reads
    commit_reads-eq true = rw (get-lookup r f.tentative_read_pos t h.tentative)
    commit_reads-eq false = rw (get-lookup r f.read_pos p h.committed)

    pub rollback_reads-eq : rollback_reads r f ≡ ok (move_tentative r p f)
    unfolding rollback_reads
    rollback_reads-eq = commit_reads-eq false

    pub commit_one_read-eq :
        (commit : Bool)
        → commit_one_read r commit f
          ≡ ok (
              if ltb p t
              then (if commit then move_committed r (p + 1) f else move_tentative r (t - 1) f)
              else f)
    unfolding commit_one_read
    commit_one_read-eq commit =
        rw (get-lookup r f.tentative_read_pos t h.tentative, get-lookup r f.read_pos p h.committed)
