-- ===== src/Dynops/Gathered.antt =====
-- calvin/utilities/dynops.py: a loop over an iterable, as its users write it.
use exjobb_calvin.Prelude.{
  ℕ, zero, suc, ◌<◌, Bool, true, false, List, [], ◌∷◌, ◌≡◌, refl, length, arith, ap, ◌∙◌, inl, inr,
}
use exjobb_calvin.Dynops.{Outcome, element, no_fuel, at_end, Iter}
use exjobb_calvin.Dynops.Seen.{fresh, is_fresh, fresh-is_fresh}
use exjobb_calvin.Dynops.Union
use exjobb_calvin.Dynops.Union.{Union, any}
use exjobb_calvin.Dynops.Union.Delivers.{all_rest, all_ended, List-cases}
use exjobb_calvin.Dynops.Union.Iterable.{rest, ended, iter}

abbrev pub collected : {A : Type 0} → Outcome A → List A × Outcome A → List A × Outcome A
collected (element a) later = (a ∷ later.0, later.1)
collected o later = ([], o)

-- for e in it: the elements, and the exception that ends the loop.
unfoldable pub gather : {A S : Type 0} → (S → Outcome A × S) → (fuel : ℕ) → S → List A × Outcome A
gather next zero s = ([], no_fuel)
gather next (suc fuel) s = let later = gather next fuel (next s).1 in collected (next s).0 later

collected-at_end :
    {A : Type 0} (e : Bool) (later : List A × Outcome A)
    → collected (at_end e) later ≡ ([], at_end e)
collected-at_end true later = refl
collected-at_end false later = refl

module _ {A S : Type 0} (it : Iter A S) where
  -- An iterable gives what it still has, and then ends as it is to end.
  pub gather-rest :
      (fuel : ℕ) (s : S)
      → length (it.rest s) < fuel
      → gather it.next fuel s ≡ (it.rest s, at_end (it.ended s))
  unfolding gather
  gather-rest zero s b = absurd (omega arith)
  gather-rest (suc fuel) s b = elim (List-cases (it.rest s)) [
    | inl nothing ↦
        let e = it.at_the_end s nothing in
        rw (nothing) (rw e.gives (collected-at_end (it.ended s) _))
    | inr (a, r, something) ↦
        let m = it.more s a r something in
        let later =
          gather-rest fuel m.after (omega (arith, ap length m.rest_after, ap length something)) in
        rw something (rw m.gives (rw later (rw (m.rest_after, m.ended_after) refl)))
  ]

module _ {A S : Type 0} (eq : A → A → Bool) (it : Iter A S) (inf : A) where
  -- A union of iterables of which none is infinite, read in a loop: it gives the elements that the
  -- iterables have, in their order, each exactly once, and then ends, with StopIteration if all
  -- iterables have ended and with a pause otherwise.
  pub gather-union :
      (is_infinite : S → Bool) (iters : List S) (fuel : ℕ)
      → any is_infinite iters ≡ false
      → length (fresh eq [] (all_rest it iters)) < fuel
      → (gather (Union.next eq it inf) fuel (Union.init is_infinite iters)
          ≡ (fresh eq [] (all_rest it iters), at_end (all_ended it iters)))
        × (is_fresh eq [] (fresh eq [] (all_rest it iters)) ≡ true)
  unfolding Union.init rest ended iter
  gather-union is_infinite iters fuel f b = (
    gather-rest (iter eq it inf) fuel (Union.init is_infinite iters) (rw f b) ∙ rw f refl,
    fresh-is_fresh eq [] (all_rest it iters),
  )
