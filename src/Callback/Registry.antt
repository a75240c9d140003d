-- ===== src/Callback/Registry.antt =====
-- calvin/utilities/calvin_callback.py: which callbacks a registry holds.
use exjobb_calvin.Prelude.{
  ℕ, suc, ◌-◌, String, true, false, ◌&&◌, ◌≡◌, refl, ap, ◌∙◌, some, [], ◌∷◌, str_eq, eq_iff,
  if◌then◌else◌, Bool-cases, inl, inr, arith,
}
use exjobb_calvin.Prelude.Dict.{
  Dict, lookup, insert, remove, has, lookup-insert, has-remove, str_eq_refl,
}
use exjobb_calvin.Callback.{
  Callbacks, is_valid, callbacks_of, callback_register, callback_unregister, unregister, keep,
}

module _ {C : Type 0} where
  -- Under a valid name the new callback is found by its id; every other callback of every name is
  -- found as before, and under a name that is not valid nothing changes.
  pub callback_register-lookup :
      (name id : String) (cb : C) (c : Callbacks C) (other k : String)
      → lookup k (callbacks_of other (callback_register name id cb c)) ≡ (
          if is_valid name c && (str_eq name other && str_eq id k)
          then some cb
          else lookup k (callbacks_of other c))
  unfolding callbacks_of callback_register
  callback_register-lookup name id cb c other k = ground (
    arith,
    eq_iff name other,
    lookup-insert name other (insert id cb (callbacks_of name c)) c.callbacks,
    lookup-insert id k cb (callbacks_of name c),
  )

  -- In how many names' callbacks an id is.
  unfoldable pub holders : String → Dict (Dict C) → ℕ
  holders id [] = 0
  holders id ((_, v) ∷ d) = let n = holders id d in if has id v then suc n else n

  holders-keep :
      (id name : String) (v : Dict C) (d : Dict (Dict C))
      → has id v ≡ false
      → holders id (keep name v d) ≡ holders id d
  unfolding holders keep
  holders-keep id name [] d h = refl
  holders-keep id name (cb ∷ v) d h = rw h refl

  holders-keep_present :
      (id name : String) (v : Dict C) (d : Dict (Dict C))
      → has id v ≡ true
      → holders id (keep name v d) ≡ suc (holders id d)
  unfolding holders keep has lookup
  holders-keep_present id name [] d h = cc
  holders-keep_present id name (cb ∷ v) d h = rw h refl

  unregister-holders :
      (id : String) (d : Dict (Dict C)) → holders id (unregister id d) ≡ holders id d - 1
  unfolding holders unregister
  unregister-holders id [] = refl
  unregister-holders id ((k, v) ∷ d) = elim (Bool-cases (has id v)) [
    | inl found ↦
        let gone : has id (remove id v) ≡ false = has-remove id id v ∙ rw (str_eq_refl id) refl in
        rw found (holders-keep id k (remove id v) d gone ∙ (omega arith))
    | inr other ↦ simp other (unregister-holders id d)
  ]

  has-keep :
      (id k name : String) (v : Dict C) (d : Dict (Dict C))
      → str_eq id k ≡ false
      → holders k (keep name (remove id v) d) ≡ (if has k v then suc (holders k d) else holders k d)
  has-keep id k name v d other =
      let same : has k (remove id v) ≡ has k v = has-remove id k v ∙ rw other refl in
      elim (Bool-cases (has k v)) [
        | inl yes' ↦ rw yes' (holders-keep_present k name (remove id v) d (same ∙ yes'))
        | inr no' ↦ rw no' (holders-keep k name (remove id v) d (same ∙ no'))
      ]

  unregister-holders-other :
      (id k : String) (d : Dict (Dict C))
      → str_eq id k ≡ false
      → holders k (unregister id d) ≡ holders k d
  unfolding holders unregister
  unregister-holders-other id k [] other = refl
  unregister-holders-other id k ((name, v) ∷ d) other = elim (Bool-cases (has id v)) [
    | inl found ↦ rw found (has-keep id k name v d other)
    | inr absent ↦ elim (Bool-cases (has k v)) [
      | inl here ↦ simp (absent, here) (ap suc (unregister-holders-other id k d other))
      | inr away ↦ simp (absent, away) (unregister-holders-other id k d other)
    ]
  ]

  -- Unregistering an id takes it from one of the names that have it, if there are any, and leaves
  -- every other id under as many names as before.
  pub callback_unregister-holders :
      (id k : String) (c : Callbacks C)
      → holders k (callback_unregister id c).callbacks
        ≡ (if str_eq id k then holders k c.callbacks - 1 else holders k c.callbacks)
  unfolding callback_unregister
  callback_unregister-holders id k c = elim (Bool-cases (str_eq id k)) [
    | inl same ↦
        let e : id ≡ k = (eq_iff id k).0 same in
        rw same
          (ap (λ j. holders k (unregister j c.callbacks)) e ∙ unregister-holders k c.callbacks)
    | inr other ↦ rw other (unregister-holders-other id k c.callbacks other)
  ]
