-- ===== src/Metering/Consistent.antt =====
-- calvin/runtime/north/metering.py: the destroyed actors all have meta information, so that
-- forgetting them raises no KeyError.
use exjobb_calvin.Prelude.{
  ℕ, String, Bool, true, false, not, ◌||◌, ◌≡◌, refl, ap, ◌∙◌, subst, [], ◌∷◌, str_eq, eq_iff,
  Bool-cases, inl, inr, ok, arith,
}
use exjobb_calvin.Prelude.Dict.{
  Dict, lookup, remove, has, del-lookup, has-lookup, has-remove, str_eq_refl,
}
use exjobb_calvin.Metering.{
  Metering, pop_aggregated, pop_over, not_over, is_over, forget_aggregated, next_forget,
}

-- No key twice, as in every dict.
unfoldable pub IsUnique {ℓ} : {V : Type ℓ} → Dict V → Type 0
IsUnique [] = Unit
IsUnique ((k, v) ∷ d) = (has k d ≡ false) × IsUnique d

pub record IsConsistent (m : Metering) : Type 0 where
  pub known : (k : String) → has k m.actors_destroyed ≡ true → has k m.actors_meta ≡ true
  pub unique : IsUnique m.actors_destroyed

has-cons {ℓ} :
    {V : Type ℓ} (k j : String) (v : V) (d : Dict V) → has k ((j, v) ∷ d) ≡ (str_eq j k || has k d)
unfolding has lookup
has-cons k j v d = ground arith

meta-pop_aggregated : (k : String) (m : Metering) → (pop_aggregated k m).actors_meta ≡ m.actors_meta
unfolding pop_aggregated
meta-pop_aggregated k m = elim (Bool-cases (has k m.actors_aggregated_time)) [
  | inl h ↦ simp h
  | inr h ↦ simp h
]

has_cons-tail {ℓ} :
    {V : Type ℓ} (k j : String) (v : V) (d : Dict V) → has k d ≡ true → has k ((j, v) ∷ d) ≡ true
has_cons-tail k j v d h = ground (arith, has-cons k j v d)

-- A key that is there is not the one that is not.
differs {ℓ} :
    {V : Type ℓ} (j k : String) (d : Dict V) → has j d ≡ false → has k d ≡ true → str_eq j k ≡ false
differs j k d absent present = elim (Bool-cases (str_eq j k)) [
  | inl same ↦
      let e : j ≡ k = (eq_iff j k).0 same in
      let a : has k d ≡ false = subst (λ z. has z d ≡ false) e absent in absurd (ground arith)
  | inr other ↦ other
]

or_right : (a : Bool) {b : Bool} → b ≡ true → (a || b) ≡ true
or_right a h = ground arith

module _ (over : ℕ → Bool) where
  not_over-present : (k : String) (d : Dict ℕ) → has k (not_over over d) ≡ true → has k d ≡ true
  unfolding not_over
  not_over-present k [] h = h
  not_over-present k ((j, dt) ∷ d) h =
      ground (arith, has-cons k j dt d, has-cons k j dt (not_over over d), not_over-present k d)

  not_over-absent : (k : String) (d : Dict ℕ) → has k d ≡ false → has k (not_over over d) ≡ false
  unfolding not_over
  not_over-absent k [] h = h
  not_over-absent k ((j, dt) ∷ d) h =
      ground (arith, has-cons k j dt d, has-cons k j dt (not_over over d), not_over-absent k d)

  not_over-IsUnique : (d : Dict ℕ) → IsUnique d → IsUnique (not_over over d)
  unfolding not_over IsUnique
  not_over-IsUnique [] h = tt
  not_over-IsUnique ((j, dt) ∷ d) h = elim (Bool-cases (over dt)) [
    | inl gone ↦ rw gone (not_over-IsUnique d h.1)
    | inr stays ↦ rw stays (not_over-absent j d h.0, not_over-IsUnique d h.1)
  ]

  -- The key is not popped: it is no destroyed actor's, or that actor's time is not over.
  stays : String → Dict ℕ → Bool
  stays k d = not (has k d) || has k (not_over over d)

  stays-popped :
      (k j : String) (dt : ℕ) (d : Dict ℕ)
      → over dt ≡ true
      → has j d ≡ false
      → stays k ((j, dt) ∷ d) ≡ true
      → (str_eq j k ≡ false) × (stays k d ≡ true)
  unfolding stays not_over
  stays-popped k j dt d gone new h = elim (Bool-cases (str_eq j k)) [
    | inl same ↦
        let e : j ≡ k = (eq_iff j k).0 same in
        let a : has k (not_over over d) ≡ false =
          not_over-absent k d (subst (λ z. has z d ≡ false) e new) in
        absurd (ground (arith, has-cons k j dt d))
    | inr other ↦ (other, ground (arith, has-cons k j dt d))
  ]

  stays-kept :
      (k j : String) (dt : ℕ) (d : Dict ℕ)
      → over dt ≡ false
      → has j d ≡ false
      → stays k ((j, dt) ∷ d) ≡ true
      → stays k d ≡ true
  unfolding stays not_over
  stays-kept k j dt d kept new h = elim (Bool-cases (str_eq j k)) [
    | inl same ↦
        let e : j ≡ k = (eq_iff j k).0 same in
        let a : has k d ≡ false = subst (λ z. has z d ≡ false) e new in ground arith
    | inr other ↦ ground (arith, has-cons k j dt d, has-cons k j dt (not_over over d))
  ]

  -- The pops succeed, and take from the meta information none of the keys that stay.
  pop_over-ok :
      (d : Dict ℕ) (m : Metering)
      → IsUnique d
      → ((k : String) → has k d ≡ true → has k m.actors_meta ≡ true)
      → (m' : Metering) × (pop_over over d m ≡ ok m')
        × ((k : String)
            → has k m.actors_meta ≡ true
            → stays k d ≡ true
            → has k m'.actors_meta ≡ true)
  unfolding pop_over IsUnique
  pop_over-ok [] m u known = (m, refl, λ k h _. h)
  pop_over-ok ((j, dt) ∷ d) m u known = elim (Bool-cases (over dt)) [
    | inl gone ↦
        let (meta, found) =
          has-lookup j m.actors_meta (known j (rw has-cons (rw str_eq_refl refl))) in
        let m₁ : Metering = pop_aggregated j (record m { actors_meta = remove j m.actors_meta }) in
        let left : (k : String)
            → str_eq j k ≡ false
            → has k m.actors_meta ≡ true
            → has k m₁.actors_meta ≡ true =
          λ k other h.
            ap (has k) (meta-pop_aggregated j (record m { actors_meta = remove j m.actors_meta }))
            ∙ (has-remove j k m.actors_meta ∙ rw other h) in
        let (m', r, keeps) =
          pop_over-ok d m₁ u.1
            (λ k h. left k (differs j k d u.0 h) (known k (has_cons-tail k j dt d h))) in
        (
          m',
          rw gone (rw (del-lookup j m.actors_meta meta found) r),
          λ k h s.
              let (other, later) = stays-popped k j dt d gone u.0 s in
              keeps k (left k other h) later,
        )
    | inr kept ↦
        let (m', r, keeps) = pop_over-ok d m u.1 (λ k h. known k (has_cons-tail k j dt d h)) in
        (m', rw kept r, λ k h s. keeps k h (stays-kept k j dt d kept u.0 s))
  ]

-- Forgetting aggregated data of consistent metering always succeeds, and leaves it consistent.
pub forget_aggregated-IsConsistent :
    (t : ℕ) (m : Metering)
    → IsConsistent m
    → (m' : Metering) × (forget_aggregated t m ≡ ok m') × IsConsistent m'
unfolding forget_aggregated stays
forget_aggregated-IsConsistent t m c =
    let over = is_over t m in
    let left = not_over over m.actors_destroyed in
    let (m', r, keeps) = pop_over-ok over m.actors_destroyed m c.unique c.known in
    (
      record m' { actors_destroyed = left; next_forget_aggregated = next_forget t left m },
      rw r refl,
      record {
        known = λ k h.
            keeps k (c.known k (not_over-present over k m.actors_destroyed h)) (or_right _ h);
        unique = not_over-IsUnique over m.actors_destroyed c.unique;
      },
    )
