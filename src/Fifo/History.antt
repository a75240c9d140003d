-- ===== src/Fifo/History.antt =====
-- The ring against the list of all tokens that were ever written to it.
use exjobb_calvin.Prelude.{
  ℕ, ◌+◌, ◌%◌, ◌<◌, ◌≤◌, String, ◌≡◌, refl, sym, ◌∙◌, none, some, List, [], ◌∷◌, ◌++◌, length,
  length-append, get_elem?, get_elem?-some, get_elem?-none, get_elem?-set_self, get_elem?-set_ne,
  get_elem?-append_last, get_elem?-append_left, Bool-cases, ltb, ltb→lt, ltb→le, if◌then◌else◌, ok,
  arith, inl, inr,
}
use native.Mathlib.Decide.{ℕ_discrete}
use exjobb_calvin.Prelude.Dict.Least.{least-le, least-insert_ge}
use exjobb_calvin.Token.{Token}
use exjobb_calvin.Fifo.{Fifo, init, last_readpos, slot, read}
use exjobb_calvin.Fifo.Modular.{slots-ne}
use exjobb_calvin.Fifo.WellFormed.{IsWellFormed, HasReader}
use exjobb_calvin.Fifo.Operations.{written, move_tentative, move_committed, read-eq}

-- `history` is what was written, and the ring still has all of it that is not committed by all.
pub record Holds (f : Fifo) (history : List Token) : Type 0 where
  pub written_count : length history ≡ f.write_pos
  pub kept :
      (i : ℕ)
      → last_readpos f ≤ i
      → i < f.write_pos
      → get_elem? f.fifo (i % f.size) ≡ get_elem? history i

pub Holds-init : (n : ℕ) → Holds (init n) []
unfolding init
Holds-init n = record { written_count = refl; kept = λ i _ h. absurd (omega arith) }

module _ (f : Fifo) (w : IsWellFormed f) (history : List Token) (holds : Holds f history) where
  -- A write keeps every older token that is still needed: it goes to another slot.
  written-kept :
      (x : Token) (i : ℕ)
      → last_readpos f ≤ i
      → i < f.write_pos + 1
      → get_elem? (written x f).fifo (i % f.size) ≡ get_elem? (history ++ x ∷ []) i
  written-kept x i low high = elim (ℕ_discrete i f.write_pos) [
    | yes e ↦
        let here : f.write_pos % f.size < length f.fifo = omega (arith, w.positive, w.slots) in
        rw e (
          get_elem?-set_self f.fifo (f.write_pos % f.size) x here
          ∙ sym (get_elem?-append_last history x)
          ∙ rw holds.written_count refl)
    | no e ↦
        let before : i < f.write_pos = omega arith in
        get_elem?-set_ne f.fifo x
          (λ same. slots-ne i f.write_pos f.size before (omega (arith, w.window)) (sym same))
        ∙ holds.kept i low before
        ∙ sym (get_elem?-append_left history (x ∷ []) i (omega (arith, holds.written_count)))
  ]

  pub Holds-written : (x : Token) → Holds (written x f) (history ++ x ∷ [])
  Holds-written x = record {
    written_count = omega (arith, length-append history (x ∷ []), holds.written_count);
    kept = written-kept x;
  }

  pub Holds-move_tentative : (r : String) (t : ℕ) → Holds (move_tentative r t f) history
  Holds-move_tentative r t = record { written_count = holds.written_count; kept = holds.kept }

  module _ (r : String) (p t : ℕ) (h : HasReader f r p t) where
    pub Holds-move_committed : (p' : ℕ) → p ≤ p' → Holds (move_committed r p' f) history
    Holds-move_committed p' up = record {
      written_count = holds.written_count;
      kept = λ i low high.
          holds.kept i (omega (arith, least-insert_ge r f.read_pos p p' h.committed up)) high;
    }

    slot-eq-history :
        t < f.write_pos → (x : Token) × (slot t f ≡ ok x) × (get_elem? history t ≡ some x)
    unfolding slot
    slot-eq-history lt =
        let low : last_readpos f ≤ t =
          omega
            (arith, least-le r f.read_pos p h.committed, w.ordered r p t h.committed h.tentative) in
        let (x, e) = get_elem?-some history t (omega (arith, holds.written_count)) in
        (x, ground (arith, holds.kept t low lt, e, w.positive), e)

    -- On a sound ring that holds its history, `read` by a known reader returns the token of the history at
    -- its tentative position and moves that position on by one; at the end of the history it returns
    -- None and changes nothing.
    pub read-eq-history :
        read r f
        ≡ ok (get_elem? history t, if ltb t f.write_pos then move_tentative r (t + 1) f else f)
    read-eq-history = elim (Bool-cases (ltb t f.write_pos)) [
      | inl lt ↦
          let (x, e, there) = slot-eq-history (ltb→lt _ _ lt) in
          read-eq f w r p t h ∙ rw (lt, e, there)
      | inr ge ↦
          let past : get_elem? history t ≡ none =
            get_elem?-none history t (omega (arith, holds.written_count, ltb→le _ _ ge)) in
          read-eq f w r p t h ∙ rw (ge, past)
    ]
