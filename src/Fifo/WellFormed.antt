-- ===== src/Fifo/WellFormed.antt =====
-- The invariant of the ring, and that each operation of a known reader keeps it.
use exjobb_calvin.Prelude.{
  ℕ, ◌+◌, ◌-◌, ◌%◌, ◌<◌, ◌≤◌, String, ◌≡◌, refl, true, inl, inr, some, length, set, length-set,
  length-replicate, ltb, Bool-cases, eq_iff, ok, ◌∙◌, arith,
}
use exjobb_calvin.Prelude.Dict.{
  lookup, insert, has, lookup-insert, has-insert, has-lookup, lookup-has,
}
use exjobb_calvin.Prelude.Dict.Least.{least, least-le_of_all, least-insert_ge}
use exjobb_calvin.Prelude.Dict.Names.{contains}
use exjobb_calvin.Token.{Token}
use exjobb_calvin.Fifo.{Fifo, init, last_readpos, can_write, available_slots, sub_mod}
use exjobb_calvin.Fifo.Modular.{slots-ne, slots-eq}

pub record IsWellFormed (f : Fifo) : Type 0 where
  -- The ring has its slots.
  pub positive : 0 < f.size
  pub slots : length f.fifo ≡ f.size
  -- The tokens not yet committed by all fit in the ring, with one slot left free.
  pub window : f.write_pos < last_readpos f + f.size
  -- Each reader has a committed position, at most its tentative one, at most the writer's.
  pub ordered :
      (r : String) (p t : ℕ)
      → lookup r f.read_pos ≡ some p
      → lookup r f.tentative_read_pos ≡ some t
      → (p ≤ t) × (t ≤ f.write_pos)
  pub same_keys : (r : String) → has r f.tentative_read_pos ≡ has r f.read_pos
  pub known : (r : String) → contains r f.readers ≡ has r f.read_pos

-- A reader of the ring with its two positions.
pub record HasReader (f : Fifo) (r : String) (p t : ℕ) : Type 0 where
  pub committed : lookup r f.read_pos ≡ some p
  pub tentative : lookup r f.tentative_read_pos ≡ some t

pub reader_of_known :
    (f : Fifo) (r : String)
    → IsWellFormed f
    → contains r f.readers ≡ true
    → (p : ℕ) × (t : ℕ) × HasReader f r p t
reader_of_known f r w k =
    let here : has r f.read_pos ≡ true = cc (w.known r) in
    let there : has r f.tentative_read_pos ≡ true = cc (w.same_keys r) in
    let (p, hp) = has-lookup r f.read_pos here in
    let (t, ht) = has-lookup r f.tentative_read_pos there in
    (p, t, record { committed = hp; tentative = ht })

pub known_of_reader :
    (f : Fifo) (r : String) (p t : ℕ)
    → IsWellFormed f
    → HasReader f r p t
    → contains r f.readers ≡ true
known_of_reader f r p t w h = cc (w.known r, lookup-has r f.read_pos p h.committed)

pub last_readpos-le : (f : Fifo) → IsWellFormed f → last_readpos f ≤ f.write_pos
last_readpos-le f w = least-le_of_all f.read_pos f.write_pos λ r p hp.
    let (p', t, h) = reader_of_known f r w (cc (w.known r, lookup-has r f.read_pos p hp)) in
    let b = w.ordered r p t hp h.tentative in omega arith

init-IsWellFormed : (n : ℕ) → 0 < n → IsWellFormed (init n)
unfolding init lookup has contains least
init-IsWellFormed n h = record {
  positive = h;
  slots = length-replicate n _;
  window = omega arith;
  ordered = λ r p t e _. cc;
  same_keys = λ r. refl;
  known = λ r. refl;
}

module _ (f : Fifo) (w : IsWellFormed f) where
  -- On a sound ring the modular test of `can_write` is true exactly if one more token fits: the next
  -- write position is below the smallest committed position plus the size.
  pub can_write-eq : can_write f ≡ ok (ltb (f.write_pos + 1) (last_readpos f + f.size))
  unfolding can_write
  can_write-eq =
      let last = last_readpos f in
      elim (Bool-cases (ltb (f.write_pos + 1) (last + f.size))) [
        | inl fits ↦
            ground (arith, w.positive, last_readpos-le f w, slots-ne last (f.write_pos + 1) f.size)
        | inr full ↦
            ground
              (arith, w.positive, w.window, last_readpos-le f w, slots-eq last f.size w.positive)
      ]

  sub_mod-eq : sub_mod f.write_pos (last_readpos f) f.size ≡ f.write_pos - last_readpos f
  unfolding sub_mod
  sub_mod-eq = grind (arith, w.positive, w.window, last_readpos-le f w)

  -- On a sound ring `available_slots` is the size less the tokens that some reader has not committed,
  -- less the slot that stays free.
  pub available_slots-eq : available_slots f ≡ ok (f.size - (f.write_pos - last_readpos f) - 1)
  unfolding available_slots
  available_slots-eq = rw sub_mod-eq (ground (arith, w.positive))

  -- Moving one reader's committed position forward, up to its tentative one.
  pub committed-IsWellFormed :
      (r : String) (p t p' : ℕ)
      → HasReader f r p t
      → p ≤ p'
      → p' ≤ t
      → IsWellFormed (record f { read_pos = insert r p' f.read_pos })
  committed-IsWellFormed r p t p' h up below = record {
    positive = w.positive;
    slots = w.slots;
    window = omega (arith, w.window, least-insert_ge r f.read_pos p p' h.committed up);
    ordered = λ s q u hq hu. ground (
      arith,
      lookup-insert r s p' f.read_pos,
      eq_iff r s,
      w.ordered r p t h.committed h.tentative,
      h.tentative,
      w.ordered s q u,
    );
    same_keys = λ s. ground (
      arith,
      w.same_keys s,
      has-insert r s p' f.read_pos,
      eq_iff r s,
      lookup-has r f.read_pos p h.committed,
    );
    known = λ s. ground (
      arith,
      w.known s,
      has-insert r s p' f.read_pos,
      eq_iff r s,
      lookup-has r f.read_pos p h.committed,
    );
  }

  -- Moving one reader's tentative position between its committed one and the writer's.
  pub tentative-IsWellFormed :
      (r : String) (p t t' : ℕ)
      → HasReader f r p t
      → p ≤ t'
      → t' ≤ f.write_pos
      → IsWellFormed (record f { tentative_read_pos = insert r t' f.tentative_read_pos })
  tentative-IsWellFormed r p t t' h up below = record {
    positive = w.positive;
    slots = w.slots;
    window = w.window;
    ordered = λ s q u hq hu. ground (
      arith,
      lookup-insert r s t' f.tentative_read_pos,
      eq_iff r s,
      h.committed,
      w.ordered s q u,
    );
    same_keys = λ s. ground (
      arith,
      w.same_keys s,
      has-insert r s t' f.tentative_read_pos,
      eq_iff r s,
      lookup-has r f.tentative_read_pos t h.tentative,
    );
    known = w.known;
  }

  -- One more token, where it fits.
  pub written-IsWellFormed :
      (x : Token)
      → f.write_pos + 1 < last_readpos f + f.size
      → IsWellFormed
          (record f { fifo = set f.fifo (f.write_pos % f.size) x; write_pos = f.write_pos + 1 })
  written-IsWellFormed x fits = record {
    positive = w.positive;
    slots = length-set f.fifo (f.write_pos % f.size) x ∙ w.slots;
    window = fits;
    ordered = λ s q u hq hu. let b = w.ordered s q u hq hu in (b.0, omega arith);
    same_keys = w.same_keys;
    known = w.known;
  }
