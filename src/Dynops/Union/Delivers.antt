-- ===== src/Dynops/Union/Delivers.antt =====
-- calvin/utilities/dynops.py: what the loops of a union do.
use exjobb_calvin.Prelude.{
  ℕ, zero, suc, ◌<◌, Bool, true, false, not, ◌||◌, ◌&&◌, List, [], ◌∷◌, ◌++◌, length, ◌≡◌, refl,
  arith, ap, ◌∙◌, Bool-cases, inl, inr, ◌⊎◌, subst,
}
use exjobb_calvin.Dynops.{Outcome, element, at_end, Iter}
use exjobb_calvin.Dynops.Seen.{member, fresh, fresh-seen, fresh-new, fresh-append, fresh-nil}
use exjobb_calvin.Dynops.Union.{on_draw, draw, on_drawn, scan}
use mathlib.Core.List.{append_assoc, append-nil}

pub List-cases : {A : Type 0} (xs : List A) → (xs ≡ []) ⊎ ((a : A) × (r : List A) × (xs ≡ a ∷ r))
List-cases [] = inl refl
List-cases (a ∷ r) = inr (a, r, refl)

module _ {A S : Type 0} (it : Iter A S) where
  abbrev pub all_rest : List S → List A
  all_rest [] = []
  all_rest (v ∷ vs) = it.rest v ++ all_rest vs

  abbrev pub all_ended : List S → Bool
  all_ended [] = true
  all_ended (v ∷ vs) = it.ended v && all_ended vs

module _ {A S : Type 0} (eq : A → A → Bool) (it : Iter A S) where
  -- What the loop over one iterable does, by the new elements that the iterable still gives: at
  -- their end it ends as the iterable does, and else it gives the first and leaves the others.
  abbrev Drawn : ℕ → (seen : List A) → S → (new : List A) → Type 0
  Drawn fuel seen v [] =
      (v' : S) × (draw eq it fuel seen v ≡ (at_end (it.ended v), v'))
      × (it.rest v' ≡ [])
      × (it.ended v' ≡ it.ended v)
  Drawn fuel seen v (a ∷ new) =
      (v' : S) × (draw eq it fuel seen v ≡ (element a, v'))
      × (fresh eq (seen ++ a ∷ []) (it.rest v') ≡ new)
      × (it.ended v' ≡ it.ended v)

  on_draw-at_end :
      (seen : List A) (e : Bool) (v : S) (again : Outcome A × S)
      → on_draw eq it seen (at_end e) v again ≡ (at_end e, v)
  unfolding on_draw
  on_draw-at_end seen true v again = refl
  on_draw-at_end seen false v again = refl

  -- An element that was given before is skipped.
  Drawn-skip :
      (fuel : ℕ) (seen : List A) (v v' : S) (new : List A)
      → draw eq it (suc fuel) seen v ≡ draw eq it fuel seen v'
      → it.ended v' ≡ it.ended v
      → Drawn fuel seen v' new
      → Drawn (suc fuel) seen v new
  Drawn-skip fuel seen v v' [] same ended (w, d, r, e) =
      (w, same ∙ d ∙ ap (λ b. (at_end b, w)) ended, r, e ∙ ended)
  Drawn-skip fuel seen v v' (a ∷ new) same ended (w, d, r, e) = (w, same ∙ d, r, e ∙ ended)

  draw-Drawn :
      (fuel : ℕ) (seen : List A) (v : S)
      → length (it.rest v) < fuel
      → Drawn fuel seen v (fresh eq seen (it.rest v))
  unfolding draw on_draw
  draw-Drawn zero seen v b = absurd (omega arith)
  draw-Drawn (suc fuel) seen v b = elim (List-cases (it.rest v)) [
    | inl nothing ↦
        let e = it.at_the_end v nothing in
        rw (nothing, fresh-nil eq seen)
          (
            e.after,
            rw e.gives (on_draw-at_end seen (it.ended v) e.after _),
            e.rest_after,
            e.ended_after,
          )
    | inr (x, xs, something) ↦
        let m = it.more v x xs something in
        rw something (elim (Bool-cases (member eq x seen)) [
          | inl old ↦ rw (fresh-seen eq seen x xs old) (
              Drawn-skip fuel seen v m.after _ (rw m.gives (rw (old) refl)) m.ended_after (
                subst (λ zs. Drawn fuel seen m.after (fresh eq seen zs)) m.rest_after
                  (draw-Drawn fuel seen m.after
                    (omega (arith, ap length m.rest_after, ap length something)))))
          | inr new ↦ rw (fresh-new eq seen x xs new) (
            m.after,
            rw m.gives (rw new refl),
            ap (fresh eq (seen ++ x ∷ [])) m.rest_after,
            m.ended_after,
          )
        ])
  ]

  -- The same of the loop over the iterables.
  abbrev pub Scanned : (paused : Bool) (seen : List A) → List S → (new : List A) → Type 0
  Scanned paused seen vs [] =
      (vs' : List S) × (scan eq it paused seen vs ≡ (at_end (not paused && all_ended it vs), vs'))
      × (all_rest it vs' ≡ [])
      × (all_ended it vs' ≡ all_ended it vs)
  Scanned paused seen vs (a ∷ new) =
      (vs' : List S) × (scan eq it paused seen vs ≡ (element a, vs'))
      × (fresh eq (seen ++ a ∷ []) (all_rest it vs') ≡ new)
      × (all_ended it vs' ≡ all_ended it vs)

  on_drawn-at_end :
      (e : Bool) (v : S) (vs : List S) (others : Bool → Outcome A × List S)
      → on_drawn eq it (at_end e, v) vs others ≡ ((others (not e)).0, v ∷ (others (not e)).1)
  unfolding on_drawn
  on_drawn-at_end true v vs others = refl
  on_drawn-at_end false v vs others = refl

  scan-end :
      (paused : Bool) (seen : List A) (v v' : S) (vs : List S)
      → draw eq it (suc (length (it.rest v))) seen v ≡ (at_end (it.ended v), v')
      → scan eq it paused seen (v ∷ vs) ≡ (
        (scan eq it (paused || not (it.ended v)) seen vs).0,
        v' ∷ (scan eq it (paused || not (it.ended v)) seen vs).1,
      )
  unfolding scan
  scan-end paused seen v v' vs d =
      rw d (on_drawn-at_end (it.ended v) v' vs (λ p. scan eq it (paused || p) seen vs))

  -- The first iterable has nothing new: the others decide.
  Scanned-cons :
      (paused : Bool) (seen : List A) (v : S) (vs : List S) (new : List A)
      → Drawn (suc (length (it.rest v))) seen v []
      → Scanned (paused || not (it.ended v)) seen vs new
      → Scanned paused seen (v ∷ vs) new
  Scanned-cons paused seen v vs [] (v', d, r, e) (vs', s, rs, es) = (
    v' ∷ vs',
    scan-end paused seen v v' vs d
        ∙ rw s (ap (λ b. (at_end b, v' ∷ vs')) (not_paused paused (it.ended v) (all_ended it vs))),
    rw (r, rs) refl,
    rw (e, es) refl,
  )
    where
      not_paused : (p e a : Bool) → (not (p || not e) && a) ≡ (not p && (e && a))
      not_paused p e a = ground arith
  Scanned-cons paused seen v vs (a ∷ new) (v', d, r, e) (vs', s, rs, es) =
      (v' ∷ vs', scan-end paused seen v v' vs d ∙ rw s refl, rw r rs, rw (e, es) refl)

  fresh-skip :
      (seen xs ys : List A) → fresh eq seen xs ≡ [] → fresh eq seen (xs ++ ys) ≡ fresh eq seen ys
  fresh-skip seen xs ys h =
      fresh-append eq seen xs ys ∙ rw h (ap (λ zs. fresh eq zs ys) (append-nil seen))

  scan-nil :
      (paused : Bool) (seen : List A)
      → scan eq it paused seen [] ≡ (at_end (not paused && true), [])
  unfolding scan
  scan-nil true seen = refl
  scan-nil false seen = refl

  -- The first iterable has something new.
  Scanned-first :
      (paused : Bool) (seen : List A) (v : S) (vs : List S) (a : A) (new : List A)
      → Drawn (suc (length (it.rest v))) seen v (a ∷ new)
      → Scanned paused seen (v ∷ vs) (a ∷ (new ++ fresh eq (seen ++ a ∷ new) (all_rest it vs)))
  unfolding scan on_drawn
  Scanned-first paused seen v vs a new (v', d, r, e) = (
    v' ∷ vs,
    rw d refl,
    fresh-append eq (seen ++ a ∷ []) (it.rest v') (all_rest it vs)
        ∙ rw r (ap (λ zs. new ++ fresh eq zs (all_rest it vs)) (append_assoc seen (a ∷ []) new)),
    rw e refl,
  )

  pub scan-Scanned :
      (paused : Bool) (seen : List A) (vs : List S)
      → Scanned paused seen vs (fresh eq seen (all_rest it vs))
  scan-Scanned paused seen [] = rw (fresh-nil eq seen) ([], scan-nil paused seen, refl, refl)
  scan-Scanned paused seen (v ∷ vs) =
      let d = draw-Drawn (suc (length (it.rest v))) seen v (omega arith) in
      elim (List-cases (fresh eq seen (it.rest v))) [
        | inl old ↦ rw (fresh-skip seen (it.rest v) (all_rest it vs) old) (
            Scanned-cons paused seen v vs _ (subst (Drawn (suc (length (it.rest v))) seen v) old d)
              (scan-Scanned (paused || not (it.ended v)) seen vs))
        | inr (a, new, e) ↦
            rw (fresh-append eq seen (it.rest v) (all_rest it vs), e)
              (Scanned-first paused seen v vs a new
                (subst (Drawn (suc (length (it.rest v))) seen v) e d))
      ]
