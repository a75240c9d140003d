-- ===== src/Dynops/Growing.antt =====
-- calvin/utilities/dynops.py: the class List, which grows by append and extend until it is final.
use exjobb_calvin.Prelude.{
  ℕ, zero, suc, ◌-◌, Bool, true, false, ◌||◌, Option, none, some, List, [], ◌∷◌, ◌++◌, ◌≡◌, refl,
  length, get_elem?, take, if◌then◌else◌, leb, arith, inl, inr, ◌<◌, ◌≤◌, ◌⊎◌,
}
use exjobb_calvin.Dynops.{Outcome, element, stop, More, AtEnd, Iter, at_end}

pub record Growing (A : Type 0) : Type 0 where
  pub list : List A
  pub is_final : Bool
  pub index : ℕ
  -- none: float("inf")
  pub max_length : Option ℕ

-- n >= max_length
abbrev pub reaches : ℕ → Option ℕ → Bool
reaches n none = false
reaches n (some max) = leb max n

-- One element further, the list is over or not as it was before.
reaches-next :
    (f : Bool) (i n : ℕ) (m : Option ℕ)
    → i < n
    → reaches i m ≡ false
    → (f || reaches (suc i) m || reaches n m) ≡ (f || reaches i m || reaches n m)
reaches-next f i n none h b = refl
reaches-next f i n (some m) h b = ground arith

module _ {A : Type 0} where
  unfoldable pub init : List A → Growing A
  init elems = record { list = elems; is_final = false; index = 0; max_length = none }

  -- The changes answer whether the iterables above are triggered.
  unfoldable pub extend : List A → Growing A → Growing A × Bool
  extend elems l = if l.is_final then (l, false) else (record l { list = l.list ++ elems }, true)

  unfoldable pub append : A → Growing A → Growing A × Bool
  append elem l = if l.is_final then (l, false) else (record l { list = l.list ++ elem ∷ [] }, true)

  unfoldable pub final : Growing A → Growing A × Bool
  final l = if l.is_final then (l, false) else (record l { is_final = true }, true)

  unfoldable pub auto_final : ℕ → Growing A → Growing A × Bool
  unfolding final
  auto_final max l =
      let l' = record l { max_length = some max } in
      if reaches l.index (some max) then final l' else (l', false)

  unfoldable pub op : Growing A → Outcome A × Growing A
  op l =
      if reaches l.index l.max_length
      then (stop, record l { is_final = true })
      else elim (get_elem? l.list l.index) [
        | some e ↦ (element e, record l { index = suc l.index })
        | none ↦ (at_end l.is_final, l)
      ]

  abbrev pub drop : ℕ → List A → List A
  drop zero xs = xs
  drop (suc n) [] = []
  drop (suc n) (x ∷ xs) = drop n xs

  -- What is to come, without what lies beyond the maximal length.
  abbrev pub bounded : Option ℕ → ℕ → List A → List A
  bounded none i xs = xs
  bounded (some max) i xs = take (max - i) xs

  unfoldable pub rest : Growing A → List A
  rest l = bounded l.max_length l.index (drop l.index l.list)

  unfoldable pub ended : Growing A → Bool
  ended l = l.is_final || reaches l.index l.max_length || reaches (length l.list) l.max_length

  drop-cons :
      (i : ℕ) (xs : List A) (a : A) (r : List A)
      → drop i xs ≡ a ∷ r
      → (get_elem? xs i ≡ some a) × (drop (suc i) xs ≡ r) × (i < length xs)
  drop-cons i [] a r h = absurd (drop-nil_cons i a r h)
    where
      drop-nil_cons : (i : ℕ) (a : A) (r : List A) → drop i [] ≡ a ∷ r → ⊥
      drop-nil_cons zero a r h = cc
      drop-nil_cons (suc i) a r h = cc
  drop-cons zero (x ∷ xs) a r h = (cc, cc, omega arith)
  drop-cons (suc i) (x ∷ xs) a r h =
      let later = drop-cons i xs a r h in (later.0, later.1, omega (arith, later.2))

  drop-end : (i : ℕ) (xs : List A) → drop i xs ≡ [] → (get_elem? xs i ≡ none) × (length xs ≤ i)
  drop-end i [] h = (refl, omega arith)
  drop-end zero (x ∷ xs) h = absurd (cc)
  drop-end (suc i) (x ∷ xs) h = let later = drop-end i xs h in (later.0, omega (arith, later.1))

  -- The first of a bounded list is the first of the list, and lies below the bound.
  bounded-cons :
      (m : Option ℕ) (i : ℕ) (xs : List A) (a : A) (r : List A)
      → bounded m i xs ≡ a ∷ r
      → (reaches i m ≡ false) × (q : List A) × (xs ≡ a ∷ q) × (bounded m (suc i) q ≡ r)
  bounded-cons none i xs a r h = (refl, r, h, refl)
  bounded-cons (some m) i xs a r h = go (m - i) refl xs h
    where
      go :
          (n : ℕ)
          → m - i ≡ n
          → (xs : List A) → take n xs ≡ a ∷ r
          → (leb m i ≡ false) × (q : List A) × (xs ≡ a ∷ q) × (take (m - suc i) q ≡ r)
      go zero e xs h = absurd (cc)
      go (suc n) e [] h = absurd (cc)
      go (suc n) e (x ∷ xs) h =
          (ground arith, xs, cc, (let k : m - suc i ≡ n = omega arith in rw k (cc)))

  bounded-end :
      (m : Option ℕ) (i : ℕ) (xs : List A)
      → bounded m i xs ≡ []
      → (reaches i m ≡ true) ⊎ ((reaches i m ≡ false) × (xs ≡ []))
  bounded-end none i xs h = inr (refl, h)
  bounded-end (some m) i xs h = go (m - i) refl xs h
    where
      go :
          (n : ℕ)
          → m - i ≡ n
          → (xs : List A) → take n xs ≡ []
          → (leb m i ≡ true) ⊎ ((leb m i ≡ false) × (xs ≡ []))
      go zero e xs h = inl (ground arith)
      go (suc n) e [] h = inr (ground arith, refl)
      go (suc n) e (x ∷ xs) h = absurd (cc)

  pub op-More : (l : Growing A) (a : A) (r : List A) → rest l ≡ a ∷ r → More op rest ended l a r
  unfolding op rest ended
  op-More l a r h =
      let (below, q, dropped, bounded_rest) =
        bounded-cons l.max_length l.index (drop l.index l.list) a r h in
      let (there, dropped', inside) = drop-cons l.index l.list a q dropped in
      record {
        after = record l { index = suc l.index };
        gives = rw (below, there) refl;
        rest_after = rw dropped' bounded_rest;
        ended_after = reaches-next l.is_final l.index (length l.list) l.max_length inside below;
      }

  pub op-AtEnd : (l : Growing A) → rest l ≡ [] → AtEnd op rest ended l
  unfolding op rest ended
  op-AtEnd l h = elim (bounded-end l.max_length l.index (drop l.index l.list) h) [
    | inl over ↦ record {
      after = record l { is_final = true };
      gives = ground arith;
      rest_after = h;
      ended_after = ground arith;
    }
    | inr (below, nothing) ↦
        let (missing, outside) = drop-end l.index l.list nothing in
        record { after = l; gives = ground arith; rest_after = h; ended_after = refl }
  ]

  -- The list is an iterable.
  unfoldable pub iter : Iter A (Growing A)
  iter = record { next = op; rest = rest; ended = ended; more = op-More; at_the_end = op-AtEnd }
