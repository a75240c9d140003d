-- ===== src/Dynops.antt =====
-- calvin/utilities/dynops.py: iterables whose elements arrive over time. `next` gives an element,
-- or raises StopIteration at the end, or PauseIteration while more may come.
pub mod Growing
pub mod Seen
pub mod Union
pub mod Gathered
use exjobb_calvin.Prelude.{ℕ, Bool, true, false, List, [], ◌∷◌, ◌≡◌, if◌then◌else◌}

pub data Outcome (A : Type 0) : Type 0 where
  element : A → Outcome A
  -- PauseIteration, StopIteration
  pause : Outcome A
  stop : Outcome A
  -- A loop of the model ran out of its fuel. The laws of `Iter` exclude it.
  no_fuel : Outcome A

-- What the end of an iterable is: StopIteration, or a pause.
abbrev pub at_end : {A : Type 0} → Bool → Outcome A
at_end true = stop
at_end false = pause

pub record More {A S : Type 0} (next : S → Outcome A × S) (rest : S → List A) (ended : S → Bool)
    (s : S) (a : A) (r : List A) : Type 0 where
  pub after : S
  pub gives : next s ≡ (element a, after)
  pub rest_after : rest after ≡ r
  pub ended_after : ended after ≡ ended s

pub record AtEnd {A S : Type 0} (next : S → Outcome A × S) (rest : S → List A) (ended : S → Bool)
    (s : S) : Type 0 where
  pub after : S
  pub gives : next s ≡ (at_end (ended s), after)
  pub rest_after : rest after ≡ []
  pub ended_after : ended after ≡ ended s

-- An iterable: what it still gives with what it has got so far, and whether nothing more can come.
pub record Iter (A S : Type 0) : Type 0 where
  pub next : S → Outcome A × S
  pub rest : S → List A
  pub ended : S → Bool
  pub more : (s : S) (a : A) (r : List A) → rest s ≡ a ∷ r → More next rest ended s a r
  pub at_the_end : (s : S) → rest s ≡ [] → AtEnd next rest ended s

-- What `DynOps.next` keeps: whether the iterable is infinite, and whether it has said so.
pub record Flags : Type 0 where
  pub infinite_set : Bool
  pub infinite_sent : Bool

-- DynOps.next: an infinite iterable gives `InfiniteElement` once, and ends. The others call `op`.
unfoldable pub dynops_next :
    {A S : Type 0}
    → (inf : A) → (flags : S → Flags) → (set_flags : Flags → S → S) → (op : S → Outcome A × S) → S
    → Outcome A × S
dynops_next inf flags set_flags op s =
    if (flags s).infinite_set
    then (if (flags s).infinite_sent
        then (stop, s)
        else (element inf, set_flags (record { infinite_set = true; infinite_sent = true }) s))
    else op s

-- Infinite: `op` only raises StopIteration.
unfoldable pub infinite_next : {A : Type 0} → A → Flags → Outcome A × Flags
unfolding dynops_next
infinite_next inf flags = dynops_next inf (λ f. f) (λ f _. f) (λ f. (stop, f)) flags
