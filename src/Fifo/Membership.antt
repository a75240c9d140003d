-- ===== src/Fifo/Membership.antt =====
-- Readers that come and go. A new reader starts at position 0 wherever the writer stands.
use exjobb_calvin.Prelude.{
  ℕ, ◌<◌, String, ◌≡◌, ◌≢◌, [], ◌↔◌, refl, false, none, eq_iff, ◌⊎◌, inl, inr, ok, arith,
}
use exjobb_calvin.Prelude.Dict.{
  Dict, lookup, remove, has, lookup-insert, lookup-remove, has-insert, has-remove, del-lookup,
}
use exjobb_calvin.Prelude.Dict.Least.{least-insert_new, least-remove}
use exjobb_calvin.Prelude.Dict.Names.{contains, discard, contains-add, contains-discard}
use exjobb_calvin.Fifo.{Fifo, last_readpos, add_reader, remove_reader}
use exjobb_calvin.Fifo.WellFormed.{IsWellFormed, HasReader}

not_has-lookup {ℓ} : {V : Type ℓ} (k : String) (d : Dict V) → has k d ≡ false → lookup k d ≡ none
unfolding has
not_has-lookup k d h = ground arith

module _ (f : Fifo) (w : IsWellFormed f) (r : String) (new : contains r f.readers ≡ false) where
  last_readpos-add_reader : last_readpos (add_reader r f) ≡ 0
  unfolding add_reader
  last_readpos-add_reader = rw new (
      least-insert_new r f.read_pos 0 (not_has-lookup r f.read_pos (ground (arith, w.known r)))
        (omega arith))

  add_reader_ring : ((add_reader r f).write_pos ≡ f.write_pos) × ((add_reader r f).size ≡ f.size)
  unfolding add_reader
  add_reader_ring = rw new (refl, refl)

  added-IsWellFormed : f.write_pos < f.size → IsWellFormed (add_reader r f)
  unfolding add_reader
  added-IsWellFormed room = rw new (record {
    positive = w.positive;
    slots = w.slots;
    window =
        rw
          (least-insert_new r f.read_pos 0 (not_has-lookup r f.read_pos (ground (arith, w.known r)))
            (omega arith))
          (omega arith);
    ordered = λ s p t hp ht. ground (
      arith,
      lookup-insert r s 0 f.read_pos,
      lookup-insert r s 0 f.tentative_read_pos,
      w.ordered s p t,
    );
    same_keys = λ s.
        ground (
          arith,
          w.same_keys s,
          has-insert r s 0 f.read_pos,
          has-insert r s 0 f.tentative_read_pos,
        );
    known = λ s. ground (arith, w.known s, has-insert r s 0 f.read_pos, contains-add r s f.readers);
  })

  -- A reader that is not known and joins a sound ring leaves it sound exactly when fewer tokens than the ring has
  -- slots were ever written.
  pub add_reader-IsWellFormed : IsWellFormed (add_reader r f) ↔ (f.write_pos < f.size)
  add_reader-IsWellFormed =
      ((λ v. omega (arith, v.window, add_reader_ring, last_readpos-add_reader)), added-IsWellFormed)

module _ (f : Fifo) (w : IsWellFormed f) (r : String) (p t : ℕ) (h : HasReader f r p t) where
  abbrev removed : Fifo
  removed = record f {
    read_pos = remove r f.read_pos;
    tentative_read_pos = remove r f.tentative_read_pos;
    readers = discard r f.readers;
  }

  remove_reader-eq : remove_reader r f ≡ ok removed
  unfolding remove_reader
  remove_reader-eq =
      rw (del-lookup r f.read_pos p h.committed, remove_reader)
        (rw (del-lookup r f.tentative_read_pos t h.tentative))

  removed-IsWellFormed : (remove r f.read_pos ≢ []) ⊎ (f.write_pos < f.size) → IsWellFormed removed
  removed-IsWellFormed some_left = record {
    positive = w.positive;
    slots = w.slots;
    window = elim some_left [
      | inl left ↦ elim (least-remove r f.read_pos) [
        | inl gone ↦ absurd (left gone)
        | inr up ↦ omega (arith, w.window)
      ]
      | inr early ↦ omega arith
    ];
    ordered = λ s q u hq hu. ground (
      arith,
      lookup-remove r s f.read_pos,
      lookup-remove r s f.tentative_read_pos,
      w.ordered s q u,
    );
    same_keys = λ s.
        ground
          (arith, w.same_keys s, has-remove r s f.read_pos, has-remove r s f.tentative_read_pos);
    known =
        λ s. ground (arith, w.known s, has-remove r s f.read_pos, contains-discard r s f.readers);
  }

  -- A known reader is removed from a sound ring without an exception, and the ring stays sound without
  -- it, if another reader is left or fewer tokens than slots were written.
  pub remove_reader-IsWellFormed :
      (remove r f.read_pos ≢ []) ⊎ (f.write_pos < f.size)
      → (f' : Fifo) × (remove_reader r f ≡ ok f')
        × IsWellFormed f'
        × (contains r f'.readers ≡ false)
  remove_reader-IsWellFormed left = (
    removed,
    remove_reader-eq,
    removed-IsWellFormed left,
    ground (arith, contains-discard r r f.readers, eq_iff r r),
  )
