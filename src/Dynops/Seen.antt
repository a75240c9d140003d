-- ===== src/Dynops/Seen.antt =====
-- calvin/utilities/dynops.py: the elements of a list that were not seen before, which the set
-- operations give.
use exjobb_calvin.Prelude.{
  Bool, true, false, not, ◌&&◌, ◌||◌, List, [], ◌∷◌, ◌++◌, ◌≡◌, refl, Bool-cases, inl, inr, ap, ◌∙◌,
}
use mathlib.Core.List.{append_assoc, append-nil}

module _ {A : Type 0} (eq : A → A → Bool) where
  -- a in seen
  unfoldable pub member : A → List A → Bool
  member a [] = false
  member a (x ∷ xs) = eq x a || member a xs

  -- The elements that are neither among `seen` nor came before.
  unfoldable pub fresh : (seen xs : List A) → List A
  fresh seen [] = []
  fresh seen (x ∷ xs) = elim (member x seen) [
    | true ↦ fresh seen xs
    | false ↦ x ∷ fresh (seen ++ x ∷ []) xs
  ]

  pub fresh-nil : (seen : List A) → fresh seen [] ≡ []
  unfolding fresh
  fresh-nil seen = refl

  pub fresh-seen :
      (seen : List A) (x : A) (xs : List A)
      → member x seen ≡ true
      → fresh seen (x ∷ xs) ≡ fresh seen xs
  unfolding fresh
  fresh-seen seen x xs h = rw (h, fresh) refl

  pub fresh-new :
      (seen : List A) (x : A) (xs : List A)
      → member x seen ≡ false
      → fresh seen (x ∷ xs) ≡ x ∷ fresh (seen ++ x ∷ []) xs
  unfolding fresh
  fresh-new seen x xs h = rw (h, fresh) refl

  -- No element twice, and none of those that were seen.
  unfoldable pub is_fresh : (seen xs : List A) → Bool
  is_fresh seen [] = true
  is_fresh seen (x ∷ xs) = not (member x seen) && is_fresh (seen ++ x ∷ []) xs

  pub fresh-is_fresh : (seen xs : List A) → is_fresh seen (fresh seen xs) ≡ true
  unfolding is_fresh fresh
  fresh-is_fresh seen [] = refl
  fresh-is_fresh seen (x ∷ xs) = elim (Bool-cases (member x seen)) [
    | inl h ↦ rw (fresh-seen seen x xs h) (fresh-is_fresh seen xs)
    | inr h ↦ rw (fresh-new seen x xs h) (rw h (fresh-is_fresh (seen ++ x ∷ []) xs))
  ]

  pub fresh-append :
      (seen xs ys : List A)
      → fresh seen (xs ++ ys) ≡ fresh seen xs ++ fresh (seen ++ fresh seen xs) ys
  unfolding fresh
  fresh-append seen [] ys = rw append-nil refl
  fresh-append seen (x ∷ xs) ys = elim (Bool-cases (member x seen)) [
    | inl h ↦
        rw (fresh-seen seen x xs h) (rw (fresh-seen seen x (xs ++ ys) h) (fresh-append seen xs ys))
    | inr h ↦ rw (fresh-new seen x xs h) (
        rw (fresh-new seen x (xs ++ ys) h) (
          ap (λ zs. x ∷ zs)
            (fresh-append (seen ++ x ∷ []) xs ys
              ∙ ap (λ zs. fresh (seen ++ x ∷ []) xs ++ fresh zs ys)
                  (append_assoc seen (x ∷ []) (fresh (seen ++ x ∷ []) xs)))))
  ]
