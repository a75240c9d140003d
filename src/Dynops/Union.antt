-- ===== src/Dynops/Union.antt =====
-- calvin/utilities/dynops.py: the class Union.
pub mod Delivers
pub mod Iterable
use exjobb_calvin.Prelude.{
  ℕ, zero, suc, Bool, true, false, ◌||◌, ◌&&◌, List, [], ◌∷◌, ◌++◌, if◌then◌else◌, length,
}
use exjobb_calvin.Dynops.{Outcome, element, pause, stop, no_fuel, at_end, Iter, Flags, dynops_next}
use exjobb_calvin.Dynops.Seen.{member, fresh}

pub record Union (A S : Type 0) : Type 0 where
  pub iters : List S
  -- the elements that were given
  pub set : List A
  pub is_final : Bool
  pub flags : Flags

unfoldable pub any : {S : Type 0} → (S → Bool) → List S → Bool
any p [] = false
any p (s ∷ ss) = p s || any p ss

-- An infinite iterable makes the union infinite, which is final from the start.
unfoldable pub init : {A S : Type 0} → (is_infinite : S → Bool) → List S → Union A S
unfolding any
init is_infinite iters = record {
  iters = iters;
  set = [];
  is_final = any is_infinite iters;
  flags = record { infinite_set = any is_infinite iters; infinite_sent = false };
}

module _ {A S : Type 0} (eq : A → A → Bool) (it : Iter A S) where
  -- What follows on one answer of an iterable: `again` is the loop from there.
  unfoldable pub on_draw : List A → Outcome A → S → (again : Outcome A × S) → Outcome A × S
  on_draw seen (element a) v again = if member eq a seen then again else (element a, v)
  on_draw seen o v again = (o, v)

  -- The loop over one iterable, until an element that was not given before. The fuel is what the
  -- iterable can give, and one more.
  unfoldable pub draw : ℕ → List A → S → Outcome A × S
  unfolding on_draw
  draw zero seen v = (no_fuel, v)
  draw (suc fuel) seen v =
      let again = draw fuel seen (it.next v).1 in on_draw seen (it.next v).0 (it.next v).1 again

  -- What follows on the answer of one iterable: `others` are the answer and the iterables after the
  -- loop over the others, which pauses if this one does.
  unfoldable pub on_drawn :
      Outcome A × S → List S → (others : Bool → Outcome A × List S) → Outcome A × List S
  on_drawn (element a, v) vs others = (element a, v ∷ vs)
  on_drawn (no_fuel, v) vs others = (no_fuel, v ∷ vs)
  on_drawn (pause, v) vs others = let later = others true in (later.0, v ∷ later.1)
  on_drawn (stop, v) vs others = let later = others false in (later.0, v ∷ later.1)

  -- The loop over the iterables.
  unfoldable pub scan : (paused : Bool) → List A → List S → Outcome A × List S
  unfolding draw on_drawn
  scan paused seen [] = (if paused then pause else stop, [])
  scan paused seen (v ∷ vs) =
      on_drawn (draw (suc (length (it.rest v))) seen v) vs (λ p. scan (paused || p) seen vs)

  unfoldable pub add_given : Outcome A → List A → List A
  add_given (element a) seen = seen ++ a ∷ []
  add_given o seen = seen

  -- self.final = True, when StopIteration is raised
  unfoldable pub now_final : Outcome A → Bool → Bool
  now_final stop f = true
  now_final o f = f

  unfoldable pub op : Union A S → Outcome A × Union A S
  unfolding scan add_given now_final
  op u =
      let (o, iters) = scan false u.set u.iters in
      (o, record u { iters = iters; set = add_given o u.set; is_final = now_final o u.is_final })

  -- `inf`: the class InfiniteElement, as an element
  unfoldable pub next : A → Union A S → Outcome A × Union A S
  unfolding dynops_next op
  next inf u = dynops_next inf (λ x. x.flags) (λ f x. record x { flags = f }) op u
