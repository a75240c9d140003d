-- ===== src/Policy/Permits/Scans.antt =====
-- The loop of policy_decision_point.py over rules, and over policies.
use exjobb_calvin.Prelude.{
  true, false, ◌≡◌, ◌≢◌, refl, sym, ap, ◌∙◌, Option, none, some, List, [], ◌∷◌, ◌++◌, All, Any, ◌⊎◌,
  inl, inr, if◌then◌else◌, Result, ok, >>=-eq-ok, ok-injective, Bool-cases, Option-cases,
}
use exjobb_calvin.Token.Values.{Value}
use exjobb_calvin.Policy.Decision.{
  Decision, permit, deny, indeterminate, not_applicable, same_decision, Answer, Combining,
  permit_overrides, deny_overrides, other_combining, stops, holds_decision, scan,
}
use exjobb_calvin.Policy.Permits.Decisions.{
  holds_decision-append, same_decision-eq, nonempty-append, IsSoFar, conclude-permit, permit_counts,
  conclude_permit-settled, or_left, same_decision-ne, goes_on, stopped, or-cases, or_right,
}

module _ {X : Type 0} (decide : X → Result (Option Answer)) where
  -- The answer for one element is a permit.
  abbrev pub IsPermit : X → Type 0
  IsPermit x = (o : List Value) × (decide x ≡ ok (some (permit, o)))

  -- An element whose target does not match, or whose decision neither denies nor is indeterminate.
  abbrev pub Passes : X → Type 0
  Passes x =
      (decide x ≡ ok none)
      ⊎ ((d : Decision) × (o : List Value) × (decide x ≡ ok (some (d, o)))
          × (d ≢ deny)
          × (d ≢ indeterminate))

  module _ (gather : Answer → List Value) where
    -- Only permits have obligations that are gathered.
    abbrev pub GathersPermits : Type 0
    GathersPermits =
        (x : X) (d : Decision) (o : List Value)
        → decide x ≡ ok (some (d, o))
        → gather (d, o) ≢ []
        → d ≡ permit

    -- Nothing that lets the loop go on denies under deny_overrides.
    goes_on-deny :
        (c : Combining) (d : Decision) (o : List Value)
        → stops c (d, o) ≡ false
        → c ≡ deny_overrides
        → same_decision d deny ≡ false
    unfolding stops same_decision
    goes_on-deny deny_overrides deny o h e = cc
    goes_on-deny c permit o h e = refl
    goes_on-deny c indeterminate o h e = refl
    goes_on-deny c not_applicable o h e = refl
    goes_on-deny permit_overrides deny o h e = cc
    goes_on-deny other_combining deny o h e = cc

    next-IsSoFar :
        (c : Combining) (x : X) (d : Decision) (o : List Value) (ds : List Decision)
        (os : List Value)
        → GathersPermits
        → decide x ≡ ok (some (d, o))
        → stops c (d, o) ≡ false
        → IsSoFar c ds os
        → IsSoFar c (ds ++ d ∷ []) (os ++ gather (d, o))
    next-IsSoFar c x d o ds os gathers e on far = record {
      from_permit = λ n. rw holds_decision-append (elim (nonempty-append os (gather (d, o)) n) [
        | inl before ↦ rw (far.from_permit before) refl
        | inr now ↦ or_right (holds_decision permit ds) (permit_counts d (gathers x d o e now))
      ]);
      none_denied = λ denying.
          rw holds_decision-append
            (rw (far.none_denied denying, goes_on-deny c d o on denying) refl);
    }

    -- One round for an element that is decided.
    scan-decided :
        (c : Combining) (x : X) (xs : List X) (ds : List Decision) (os : List Value) (d : Decision)
        (o : List Value)
        → decide x ≡ ok (some (d, o))
        → scan c decide gather (x ∷ xs) ds os ≡ (
            if stops c (d, o)
            then ok (d, [])
            else scan c decide gather xs (ds ++ d ∷ []) (os ++ gather (d, o)))
    unfolding scan
    scan-decided c x xs ds os d o e = rw e refl

    scan-skipped :
        (c : Combining) (x : X) (xs : List X) (ds : List Decision) (os : List Value)
        → decide x ≡ ok none
        → scan c decide gather (x ∷ xs) ds os ≡ scan c decide gather xs ds os
    unfolding scan
    scan-skipped c x xs ds os e = rw e refl

    scan-failed :
        (c : Combining) (x : X) (xs : List X) (ds : List Decision) (os : List Value) (a : Answer)
        → scan c decide gather (x ∷ xs) ds os ≡ ok a
        → (r : Option Answer) × (decide x ≡ ok r)
    unfolding scan
    scan-failed c x xs ds os a h = let (r, e, rest) = >>=-eq-ok (decide x) _ h in (r, e)

    -- An element's permit that ends the loop, or what is known when the loop goes on.
    decided :
        (c : Combining) (x : X) (xs : List X) (d : Decision) (o o' : List Value)
        (ds : List Decision)
        → decide x ≡ ok (some (d, o))
        → ((stops c (d, o) ≡ true) × (d ≡ permit))
          ⊎ ((holds_decision permit (ds ++ d ∷ []) ≡ true) ⊎ Any IsPermit xs)
        → (holds_decision permit ds ≡ true) ⊎ Any IsPermit (x ∷ xs)
    decided c x xs d o o' ds e (inl (_, p)) = inr (inl (o, e ∙ ap (λ q. ok (some (q, o))) p))
    decided c x xs d o o' ds e (inr (inr later)) = inr (inr later)
    decided c x xs d o o' ds e (inr (inl held)) =
        elim (or-cases (holds_decision permit ds) _
          (sym (holds_decision-append permit ds d) ∙ held)) [
            | inl before ↦ inl before
            | inr now ↦
                inr (inl (o, e ∙ ap (λ q. ok (some (q, o))) (same_decision-eq d permit now)))
          ]

    -- A permit is that of an element, or was found before.
    scan-permit :
        GathersPermits
        → (c : Combining) (xs : List X) (ds : List Decision) (os o : List Value) → IsSoFar c ds os
        → scan c decide gather xs ds os ≡ ok (permit, o)
        → (holds_decision permit ds ≡ true) ⊎ Any IsPermit xs
    unfolding scan
    scan-permit gathers c [] ds os o far h =
        inl (conclude-permit c ds os o far (ok-injective _ _ h))
    scan-permit gathers c (x ∷ xs) ds os o far h =
        let (r, e) = scan-failed c x xs ds os (permit, o) h in
        elim (Option-cases r) [
          | inl skip ↦
              elim (scan-permit gathers c xs ds os o far
                (sym (scan-skipped c x xs ds os (e ∙ ap ok skip)) ∙ h)) [
                  | inl before ↦ inl before
                  | inr later ↦ inr (inr later)
                ]
          | inr (a, found) ↦
              let known : decide x ≡ ok (some (a.0, a.1)) = e ∙ ap ok found in
              decided c x xs a.0 a.1 o ds known (elim (Bool-cases (stops c a)) [
                | inl end ↦
                    let back = sym (scan-decided c x xs ds os a.0 a.1 known) ∙ h in
                    inl (end, ap (λ b. b.0) (ok-injective (a.0, []) (permit, o) (rw end at back)))
                | inr on ↦
                    let back = sym (scan-decided c x xs ds os a.0 a.1 known) ∙ h in
                    inr (
                      scan-permit gathers c xs (ds ++ a.0 ∷ []) (os ++ gather a) o
                        (next-IsSoFar c x a.0 a.1 ds os gathers known on far) (rw on at back))
              ])
        ]

    pub scan-permit_source :
        GathersPermits
        → (c : Combining) (xs : List X) (o : List Value)
        → scan c decide gather xs [] [] ≡ ok (permit, o)
        → Any IsPermit xs
    unfolding holds_decision
    scan-permit_source gathers c xs o h =
        elim (scan-permit gathers c xs [] [] o
          (record { from_permit = λ n. absurd (n refl); none_denied = λ _. refl }) h) [
            | inl before ↦ cc
            | inr later ↦ later
          ]

    -- Under deny_overrides a permit needs every element to pass.
    pub scan_deny_overrides-Passes :
        (xs : List X) (ds : List Decision) (os o : List Value)
        → scan deny_overrides decide gather xs ds os ≡ ok (permit, o)
        → (holds_decision indeterminate ds ≡ false) × All Passes xs
    unfolding scan
    scan_deny_overrides-Passes [] ds os o h =
        (conclude_permit-settled deny_overrides ds os o (ok-injective _ _ h), tt)
    scan_deny_overrides-Passes (x ∷ xs) ds os o h =
        let (r, e) = scan-failed deny_overrides x xs ds os (permit, o) h in
        elim (Option-cases r) [
          | inl skip ↦
              let none_found = e ∙ ap ok skip in
              let (held, rest) =
                scan_deny_overrides-Passes xs ds os o
                  (sym (scan-skipped deny_overrides x xs ds os none_found) ∙ h) in
              (held, (inl none_found, rest))
          | inr (a, found) ↦
              let known : decide x ≡ ok (some (a.0, a.1)) = e ∙ ap ok found in
              let back = sym (scan-decided deny_overrides x xs ds os a.0 a.1 known) ∙ h in
              elim (Bool-cases (stops deny_overrides a)) [
                | inl end ↦ absurd (
                    stopped a.0 a.1 end
                      (ap (λ b. b.0) (ok-injective (a.0, []) (permit, o) (rw end at back))))
                | inr on ↦
                    let (held, rest) =
                      scan_deny_overrides-Passes xs (ds ++ a.0 ∷ []) (os ++ gather a) o
                        (rw on at back) in
                    let (before, now) =
                      or_left _ _ (sym (holds_decision-append indeterminate ds a.0) ∙ held) in
                    let here : Passes x = inr (
                      a.0,
                      a.1,
                      known,
                      goes_on a.0 a.1 on,
                      same_decision-ne a.0 indeterminate now,
                    ) in
                    let all : All Passes (x ∷ xs) = (here, rest) in (before, all)
              ]
        ]
