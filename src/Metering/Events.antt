-- ===== src/Metering/Events.antt =====
-- calvin/runtime/north/metering.py: actors that come and go, and the forgetting of their data.
use exjobb_calvin.Prelude.{
  ℕ, String, false, ◌≡◌, refl, ◌∙◌, List, [], ◌∷◌, str_eq, eq_iff, Bool-cases, inl, inr, Result, ok,
  ◌>>=◌, arith,
}
use exjobb_calvin.Prelude.Dict.{Dict, lookup, insert, remove, has, has-insert, has-remove}
use exjobb_calvin.Metering.{
  Meta, Metering, init, forget_aggregated, add_actor_info, remove_actor_info,
}
use exjobb_calvin.Metering.Consistent.{IsUnique, IsConsistent, forget_aggregated-IsConsistent}

IsUnique-insert {ℓ} :
    {V : Type ℓ} (k : String) (v : V) (d : Dict V) → IsUnique d → IsUnique (insert k v d)
unfolding insert IsUnique has lookup
IsUnique-insert k v [] u = (refl, tt)
IsUnique-insert k v ((j, w) ∷ d) u = elim (Bool-cases (str_eq j k)) [
  | inl same ↦ rw same u
  | inr other ↦
      let new : has j (insert k v d) ≡ false =
        has-insert k j v d ∙ ground (arith, eq_iff j k, eq_iff k j, u.0) in
      rw other (new, IsUnique-insert k v d u.1)
]

IsUnique-remove {ℓ} : {V : Type ℓ} (k : String) (d : Dict V) → IsUnique d → IsUnique (remove k d)
unfolding remove IsUnique
IsUnique-remove k [] u = tt
IsUnique-remove k ((j, w) ∷ d) u = elim (Bool-cases (str_eq j k)) [
  | inl same ↦ rw same (IsUnique-remove k d u.1)
  | inr other ↦
      let new : has j (remove k d) ≡ false =
        has-remove k j d ∙ ground (arith, eq_iff j k, eq_iff k j, u.0) in
      rw other (new, IsUnique-remove k d u.1)
]

add_actor_info-IsConsistent :
    (k : String) (actions : Dict Meta) (m : Metering)
    → IsConsistent m
    → IsConsistent (add_actor_info k actions m)
unfolding add_actor_info
add_actor_info-IsConsistent k actions m c = record {
  known = λ j h.
      let k' = c.known j in
      ground
        (arith, has-insert k j actions m.actors_meta, has-remove k j m.actors_destroyed, k', h);
  unique = IsUnique-remove k m.actors_destroyed c.unique;
}

remove_actor_info-IsConsistent :
    (t : ℕ) (k : String) (m : Metering) → IsConsistent m → IsConsistent (remove_actor_info t k m)
unfolding remove_actor_info
remove_actor_info-IsConsistent t k m c = elim (Bool-cases (has k m.actors_meta)) [
  | inr absent ↦ simp absent c
  | inl present ↦ simp present (record {
    known = λ j h.
        let k' = c.known j in
        ground (arith, has-insert k j t m.actors_destroyed, eq_iff k j, k', h);
    unique = IsUnique-insert k t m.actors_destroyed c.unique;
  })
]

-- An actor that starts or migrates in, one that is destroyed, and the forgetting of old data.
pub data Event : Type 0 where
  added : String → Dict Meta → Event
  removed : (t : ℕ) → String → Event
  forgot : (t : ℕ) → Event

unfoldable pub step : Event → Metering → Result Metering
step (added k actions) m = ok (add_actor_info k actions m)
step (removed t k) m = ok (remove_actor_info t k m)
step (forgot t) m = forget_aggregated t m

unfoldable pub run : List Event → Metering → Result Metering
run [] m = ok m
run (e ∷ es) m = do m' ← step e m; run es m'

step-IsConsistent :
    (e : Event) (m : Metering)
    → IsConsistent m
    → (m' : Metering) × (step e m ≡ ok m') × IsConsistent m'
unfolding step
step-IsConsistent (added k actions) m c =
    (add_actor_info k actions m, refl, add_actor_info-IsConsistent k actions m c)
step-IsConsistent (removed t k) m c =
    (remove_actor_info t k m, refl, remove_actor_info-IsConsistent t k m c)
step-IsConsistent (forgot t) m c = forget_aggregated-IsConsistent t m c

run-ok :
    (es : List Event) (m : Metering)
    → IsConsistent m
    → (m' : Metering) × (run es m ≡ ok m') × IsConsistent m'
unfolding run
run-ok [] m c = (m, refl, c)
run-ok (e ∷ es) m c =
    let (m₁, s, c₁) = step-IsConsistent e m c in
    let (m', r, c') = run-ok es m₁ c₁ in (m', rw s r, c')

-- From the start no sequence of arrivals, removals and forgettings raises, at any times: it ends,
-- no actor is twice among the destroyed ones, and each of these has meta information.
pub run-IsConsistent :
    (timeout aggregated now : ℕ) (es : List Event)
    → (m : Metering) × (run es (init timeout aggregated now) ≡ ok m) × IsConsistent m
unfolding init IsUnique has lookup
run-IsConsistent timeout aggregated now es =
    run-ok es (init timeout aggregated now) (record { known = λ k h. cc; unique = tt })
