-- ===== src/Actor/Managed/Restoring.antt =====
-- calvin/actor/actor.py: what an actor that took over a state has of it.
use exjobb_calvin.Prelude.{
  String, true, false, ◌≡◌, refl, sym, ap, ◌∙◌, subst, Option, none, some, List, [], ◌∷◌, str_eq,
  eq_iff, ok, >>=-eq-ok, ok-injective, Bool-cases, some-injective, inl, inr, arith,
}
use exjobb_calvin.Prelude.Dict.{Dict, lookup, insert, get, lookup-insert}
use exjobb_calvin.Prelude.Dict.Names.{contains}
use exjobb_calvin.Token.Values.{Value}
use exjobb_calvin.Actor.Managed.{
  Attribute, plain, stateful, Managed, ActorState, state_of, managed_values, state, set_attribute,
  set_values, set_state, set_inports, set_outports,
}

get-some {ℓ} : {V : Type ℓ} (k : String) (d : Dict V) (v : V) → get k d ≡ ok v → lookup k d ≡ some v
unfolding get
get-some k d v h = ground arith

module _ {O : Type 0} (get_state : O → Value) (put_state : Value → O → O) where
  managed_values-lookup :
      (ks : List String) (attributes : Dict (Attribute O)) (vs : Dict Value) (k : String)
      → managed_values get_state ks attributes ≡ ok vs
      → contains k ks ≡ true
      → (x : Attribute O) × (lookup k attributes ≡ some x)
        × (lookup k vs ≡ some (state_of get_state x))
  unfolding managed_values contains
  managed_values-lookup [] attributes vs k h c = cc
  managed_values-lookup (j ∷ ks) attributes vs k h c =
      let (x, e, rest) = >>=-eq-ok (get j attributes) _ h in
      let (ws, e', done) = >>=-eq-ok (managed_values get_state ks attributes) _ rest in
      let here =
        ap (lookup k) (sym (ok-injective _ _ done)) ∙ lookup-insert j k (state_of get_state x) ws in
      elim (Bool-cases (str_eq j k)) [
        | inl same ↦
            let eq : j ≡ k = (eq_iff j k).0 same in
            (
              x,
              subst (λ z. lookup z attributes ≡ some x) eq (get-some j attributes x e),
              here ∙ rw same refl,
            )
        | inr other ↦
            let (y, found, value) = managed_values-lookup ks attributes ws k e' (rw other at c) in
            (y, found, here ∙ rw other value)
      ]

  set_values-other :
      (ks : List String) (vs : Dict Value) (attributes after : Dict (Attribute O)) (k : String)
      → set_values put_state ks vs attributes ≡ ok after
      → contains k ks ≡ false
      → lookup k after ≡ lookup k attributes
  unfolding set_values contains
  set_values-other [] vs attributes after k h c = ap (lookup k) (sym (ok-injective _ _ h))
  set_values-other (j ∷ ks) vs attributes after k h c =
      let (v, e, rest) = >>=-eq-ok (get j vs) _ h in
      elim (Bool-cases (str_eq j k)) [
        | inl same ↦ absurd (let d : true ≡ false = rw same at c in cc)
        | inr other ↦
            set_values-other ks vs _ after k rest (rw other at c)
            ∙ (lookup-insert j k (set_attribute put_state v (lookup j attributes)) attributes
                ∙ rw other refl)
      ]

  module _ (lossless : (v : Value) (o : O) → get_state (put_state v o) ≡ v) where
    set_attribute-state_of :
        (v : Value) (x : Option (Attribute O))
        → state_of get_state (set_attribute put_state v x) ≡ v
    unfolding state_of set_attribute
    set_attribute-state_of v none = refl
    set_attribute-state_of v (some (plain w)) = refl
    set_attribute-state_of v (some (stateful o)) = lossless v o

    set_values-lookup :
        (ks : List String) (vs : Dict Value) (attributes after : Dict (Attribute O)) (k : String)
        (w : Value)
        → set_values put_state ks vs attributes ≡ ok after
        → contains k ks ≡ true
        → lookup k vs ≡ some w
        → (x : Attribute O) × (lookup k after ≡ some x) × (state_of get_state x ≡ w)
    unfolding set_values contains
    set_values-lookup [] vs attributes after k w h c l = cc
    set_values-lookup (j ∷ ks) vs attributes after k w h c l =
        let (v, e, rest) = >>=-eq-ok (get j vs) _ h in
        let x = set_attribute put_state v (lookup j attributes) in
        elim (Bool-cases (contains k ks)) [
          | inl later ↦ set_values-lookup ks vs (insert j x attributes) after k w rest later l
          | inr last ↦ elim (Bool-cases (str_eq j k)) [
            | inr other ↦ absurd (let d : false ≡ true = rw (other, last) at c in cc)
            | inl same ↦
                let eq : j ≡ k = (eq_iff j k).0 same in
                let found : lookup k vs ≡ some v =
                  subst (λ z. lookup z vs ≡ some v) eq (get-some j vs v e) in
                let value : v ≡ w = some-injective v w (sym found ∙ l) in
                (
                  x,
                  set_values-other ks vs (insert j x attributes) after k rest last
                      ∙ (lookup-insert j k x attributes ∙ rw same refl),
                  set_attribute-state_of v (lookup j attributes) ∙ value,
                )
          ]
        ]

    -- When an actor takes over the state of another, and a foreign object's state is what was set,
    -- every managed attribute of the other is there, and its state is the one it had there.
    pub set_state-state :
        (a b after : Managed O) (s : ActorState) (k : String)
        → state get_state a ≡ ok s
        → set_state put_state s b ≡ ok after
        → contains k a.managed ≡ true
        → (x : Attribute O) × (y : Attribute O) × (lookup k a.attributes ≡ some x)
          × (lookup k after.attributes ≡ some y)
          × (state_of get_state y ≡ state_of get_state x)
    unfolding state set_state
    set_state-state a b after s k taken given c =
        let (vs, e, built) = >>=-eq-ok (managed_values get_state a.managed a.attributes) _ taken in
        let (x, there, value) = managed_values-lookup a.managed a.attributes vs k e c in
        let is = ok-injective _ _ built in
        let (attributes, e', rest) =
          >>=-eq-ok (set_values put_state s.managed s.values b.attributes) _ given in
        let (ins, _, rest') = >>=-eq-ok (set_inports s.inports b.inports) _ rest in
        let (outs, _, done) = >>=-eq-ok (set_outports s.outports b.outports) _ rest' in
        let (y, found, same) =
          set_values-lookup s.managed s.values b.attributes attributes k (state_of get_state x) e'
            (subst (λ (z : ActorState). contains k z.managed ≡ true) is c)
            (subst (λ (z : ActorState). lookup k z.values ≡ some (state_of get_state x)) is
              value) in
        (
          x,
          y,
          there,
          ap (λ (z : Managed O). lookup k z.attributes) (sym (ok-injective _ _ done)) ∙ found,
          same,
        )
