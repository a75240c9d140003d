-- ===== src/Dynops/Union/Iterable.antt =====
-- calvin/utilities/dynops.py: a union of iterables is an iterable, which gives each element once.
use exjobb_calvin.Prelude.{
  Bool, true, false, ◌||◌, List, [], ◌∷◌, ◌++◌, if◌then◌else◌, ◌≡◌, refl, arith, ap, ◌∙◌, sym,
  Bool-cases, inl, inr, subst,
}
use exjobb_calvin.Dynops.{at_end, Iter, More, AtEnd}
use exjobb_calvin.Dynops.Seen.{fresh, fresh-nil}
use exjobb_calvin.Dynops.Union.{Union, add_given, now_final, op, next}
use exjobb_calvin.Dynops.Union.Delivers.{all_rest, all_ended, Scanned, scan-Scanned}

module _ {A S : Type 0} (eq : A → A → Bool) (it : Iter A S) where
  -- What a union still gives: an infinite one InfiniteElement once, another one the elements of all
  -- iterables, in their order, each once and none that was given before.
  unfoldable pub rest : A → Union A S → List A
  rest inf u =
      if u.flags.infinite_set
      then (if u.flags.infinite_sent then [] else inf ∷ [])
      else fresh eq u.set (all_rest it u.iters)

  unfoldable pub ended : Union A S → Bool
  ended u = u.flags.infinite_set || all_ended it u.iters

  module _ (inf : A) where
    next-finite : (u : Union A S) → u.flags.infinite_set ≡ false → next eq it inf u ≡ op eq it u
    unfolding next
    next-finite u f = rw f refl

    op-More :
        (u : Union A S) (a : A) (r : List A)
        → u.flags.infinite_set ≡ false
        → Scanned eq it false u.set u.iters (a ∷ r)
        → More (next eq it inf) (rest inf) ended u a r
    unfolding op add_given now_final rest ended
    op-More u a r f (vs, s, new, e) = record {
      after = record u { iters = vs; set = u.set ++ a ∷ [] };
      gives = next-finite u f ∙ rw s refl;
      rest_after = rw f new;
      ended_after = ap (λ b. u.flags.infinite_set || b) e;
    }

    add_given-at_end : (e : Bool) (seen : List A) → add_given eq it (at_end e) seen ≡ seen
    unfolding add_given
    add_given-at_end true seen = refl
    add_given-at_end false seen = refl

    op-AtEnd :
        (u : Union A S)
        → u.flags.infinite_set ≡ false
        → Scanned eq it false u.set u.iters []
        → AtEnd (next eq it inf) (rest inf) ended u
    unfolding op rest ended
    op-AtEnd u f (vs, s, none_left, e) = record {
      after = record u {
        iters = vs;
        is_final = now_final eq it (at_end (all_ended it u.iters)) u.is_final;
      };
      gives = next-finite u f ∙ rw (s, add_given-at_end) (rw f refl);
      rest_after = rw (f, none_left) (fresh-nil eq u.set);
      ended_after = ap (λ b. u.flags.infinite_set || b) e;
    }

    pub next-More :
        (u : Union A S) (a : A) (r : List A)
        → rest inf u ≡ a ∷ r
        → More (next eq it inf) (rest inf) ended u a r
    unfolding rest next ended
    next-More u a r h = elim (Bool-cases u.flags.infinite_set) [
      | inl i ↦ elim (Bool-cases u.flags.infinite_sent) [
        | inl sent ↦ absurd (let e : [] ≡ a ∷ r = sym (rw (i, sent) refl) ∙ h in cc)
        | inr unsent ↦ record {
          after = record u { flags = record { infinite_set = true; infinite_sent = true } };
          gives = ground arith;
          rest_after = ground arith;
          ended_after = ground arith;
        }
      ]
      | inr f ↦ op-More u a r f (
          subst (Scanned eq it false u.set u.iters) (sym (rw f refl) ∙ h)
            (scan-Scanned eq it false u.set u.iters))
    ]

    pub next-AtEnd : (u : Union A S) → rest inf u ≡ [] → AtEnd (next eq it inf) (rest inf) ended u
    unfolding rest next ended
    next-AtEnd u h = elim (Bool-cases u.flags.infinite_set) [
      | inl i ↦ elim (Bool-cases u.flags.infinite_sent) [
        | inl sent ↦ record { after = u; gives = ground arith; rest_after = h; ended_after = refl }
        | inr unsent ↦ absurd (let e : inf ∷ [] ≡ [] = sym (rw (i, unsent) refl) ∙ h in cc)
      ]
      | inr f ↦ op-AtEnd u f (
          subst (Scanned eq it false u.set u.iters) (sym (rw f refl) ∙ h)
            (scan-Scanned eq it false u.set u.iters))
    ]

    -- A union is an iterable like those that it unites.
    unfoldable pub iter : Iter A (Union A S)
    unfolding next
    iter = record {
      next = next eq it inf;
      rest = rest inf;
      ended = ended;
      more = next-More;
      at_the_end = next-AtEnd;
    }
