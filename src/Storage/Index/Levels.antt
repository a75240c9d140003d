-- ===== src/Storage/Index/Levels.antt =====
-- calvin/runtime/north/storage.py: the keys of an index's levels differ, so that each of them is
-- answered for itself.
use exjobb_calvin.Prelude.{
  ℕ, zero, suc, ◌+◌, ◌≤◌, ◌<◌, String, true, false, some, List, [], ◌∷◌, ◌++◌, ◌≡◌, refl, arith,
  length, take, str_append, str_eq, eq_iff, All, ap, ◌∙◌, sym, Bool-cases, inl, inr,
}
use exjobb_calvin.Prelude.Dict.Names.{contains}
use exjobb_calvin.Token.{Coder}
use exjobb_calvin.Token.Values.{bool, truthy}
use exjobb_calvin.Storage.{Storage, Event, called, call_back}
use exjobb_calvin.Storage.Sets.{append}
use exjobb_calvin.Storage.Index.{
  IndexPath, path_text, levels, join, level_strings, rooted, index_strings, append_levels,
  add_index,
}
use exjobb_calvin.Storage.Index.Once.{
  distinct, covered, Answers, answered_keys, keys_before_failure, index_all, index_all-once,
  CalledOnce,
}
use Prim.Native.String.{len}
use text.Mathlib.TextPositions.{len-append}
use mathlib.Core.List.{append-nil, append_assoc}

len-join-take :
    (l : ℕ) (items : List String)
    → suc l < length items
    → len (join (take (suc l) items)) < len (join (take (suc (suc l)) items))
unfolding join
len-join-take l [] h = absurd (omega arith)
len-join-take l (x ∷ []) h = absurd (omega arith)
len-join-take zero (x ∷ y ∷ ys) h = omega (arith, len-append x (str_append "/" y), len-append "/" y)
len-join-take (suc l) (x ∷ y ∷ ys) h = omega (
  arith,
  len-append x (str_append "/" (join (y ∷ take l ys))),
  len-append "/" (join (y ∷ take l ys)),
  len-append x (str_append "/" (join (y ∷ take (suc l) ys))),
  len-append "/" (join (y ∷ take (suc l) ys)),
  len-join-take l (y ∷ ys) (omega arith),
)

contains-longer :
    (x : String) (xs : List String) → All (λ s. len x < len s) xs → contains x xs ≡ false
unfolding contains
contains-longer x [] a = refl
contains-longer x (y ∷ ys) a = elim (Bool-cases (str_eq y x)) [
  | inl e ↦ absurd (let same : y ≡ x = (eq_iff y x).0 e in omega (arith, ap len same, a.0))
  | inr ne ↦ rw ne (contains-longer x ys a.1)
]

-- The levels from one on are longer than what is no longer than it.
level_strings-longer :
    (n first count : ℕ) (items : List String)
    → n < len (str_append "/" (join (take (suc first) items)))
    → suc first + count ≤ suc (length items)
    → All (λ s. n < len s) (level_strings (suc first) count items)
unfolding level_strings
level_strings-longer n first zero items h b = tt
level_strings-longer n first (suc zero) items h b = (h, tt)
level_strings-longer n first (suc (suc count)) items h b = (
  h,
  level_strings-longer n (suc first) (suc count) items
      (omega (
        arith,
        len-join-take first items (omega arith),
        len-append "/" (join (take (suc first) items)),
        len-append "/" (join (take (suc (suc first)) items)),
      ))
      (omega arith),
)

level_strings-distinct :
    (first count : ℕ) (items : List String)
    → suc first + count ≤ suc (length items)
    → distinct (level_strings (suc first) count items) ≡ true
unfolding level_strings distinct contains
level_strings-distinct first zero items b = refl
level_strings-distinct first (suc zero) items b = refl
level_strings-distinct first (suc (suc count)) items b =
    let x = str_append "/" (join (take (suc first) items)) in
    let longer : All (λ s. len x < len s) (level_strings (suc (suc first)) (suc count) items) =
      level_strings-longer (len x) (suc first) (suc count) items
        (omega (
          arith,
          len-join-take first items (omega arith),
          len-append "/" (join (take (suc first) items)),
          len-append "/" (join (take (suc (suc first)) items)),
        ))
        (omega arith) in
    rw (contains-longer x _ longer)
      (level_strings-distinct (suc first) (suc count) items (omega arith))

-- The first level is the root.
rooted-distinct :
    (n : ℕ) (items : List String)
    → (i : String) × (is : List String) × (level_strings 1
          (length (rooted n items))
          (rooted n items)
        ≡ i ∷ is)
      × (distinct (i ∷ is) ≡ true)
unfolding rooted level_strings
rooted-distinct n items = (
  _,
  _,
  refl,
  level_strings-distinct zero (length (rooted n items)) (rooted n items) (omega arith),
)

index_strings-distinct :
    (split : String → List String) (index : IndexPath) (n : ℕ)
    → (i : String) × (is : List String) × (index_strings split index n ≡ i ∷ is)
      × (distinct (i ∷ is) ≡ true)
unfolding index_strings
index_strings-distinct split (path_text t) n = rooted-distinct n (split t)
index_strings-distinct split (levels xs) n = rooted-distinct n xs

-- A positive answer for each key.
abbrev pub confirmed : List String → Answers
confirmed [] = []
confirmed (i ∷ is) = (i, bool true) ∷ confirmed is

-- The calls of the callback with these answers.
abbrev pub calls_of : {C : Type 0} → C → Answers → List (Event C)
calls_of cb [] = []
calls_of cb ((key, value) ∷ answers) = called cb (some key) value ∷ calls_of cb answers

covered-cons :
    (k : String) (ks is : List String) → covered ks is ≡ true → covered (k ∷ ks) is ≡ true
unfolding covered contains
covered-cons k ks [] h = refl
covered-cons k ks (i ∷ is) h = ground (arith, covered-cons k ks is)

covered-confirmed : (is : List String) → covered (answered_keys (confirmed is)) is ≡ true
unfolding covered contains
covered-confirmed [] = refl
covered-confirmed (i ∷ is) =
    ground
      (arith, eq_iff i i, covered-cons i (answered_keys (confirmed is)) is, covered-confirmed is)

confirmed-before_failure :
    (is : List String) → keys_before_failure (confirmed is) ≡ answered_keys (confirmed is)
unfolding truthy
confirmed-before_failure [] = refl
confirmed-before_failure (i ∷ is) = ap (λ ks. i ∷ ks) (confirmed-before_failure is)

all_confirmed :
    {C : Type 0} (cb : C) (i : String) (is : List String)
    → distinct (i ∷ is) ≡ true
    → CalledOnce cb true (index_all (confirmed (i ∷ is)) cb (i ∷ is))
all_confirmed cb i is d =
    let once = index_all-once cb (confirmed (i ∷ is)) i is d (covered-confirmed (i ∷ is)) in
    let verdict : covered (keys_before_failure (confirmed (i ∷ is))) (i ∷ is) ≡ true =
      ap (λ ks. covered ks (i ∷ is)) (confirmed-before_failure (i ∷ is))
      ∙ covered-confirmed (i ∷ is) in
    (once.0, once.1 ∙ ap (λ b. called cb (some once.0) (bool b) ∷ []) verdict)

module _ {C : Type 0} (c : Coder) where
  append-events :
      (i : String) (value : List String) (cb : C) (s : Storage C)
      → s.started ≡ false
      → ((append c "index-" i value (some cb) s).events
          ≡ s.events ++ called cb (some i) (bool true) ∷ [])
        × ((append c "index-" i value (some cb) s).started ≡ false)
  unfolding append call_back
  append-events i value cb s h = ground arith

  append_levels-events :
      (is : List String) (value : String) (cb : C) (s : Storage C)
      → s.started ≡ false
      → (append_levels c is value (some cb) s).events ≡ s.events ++ calls_of cb (confirmed is)
  unfolding append_levels
  append_levels-events [] value cb s h = sym (append-nil s.events)
  append_levels-events (i ∷ is) value cb s h =
      let one = append-events i (value ∷ []) cb s h in
      append_levels-events is value cb (append c "index-" i (value ∷ []) (some cb) s) one.1
      ∙ ap (λ es. es ++ calls_of cb (confirmed is)) one.0
      ∙ append_assoc s.events (called cb (some i) (bool true) ∷ []) (calls_of cb (confirmed is))

  -- Adding to an index, given as a text or by its levels, while the storage has not started: the
  -- keys of the levels differ, each of them is confirmed at once, in order, and these confirmations
  -- make the shared callback call the caller's callback exactly once, with True.
  pub add_index-once :
      (split : String → List String) (index : IndexPath) (value : String) (n : ℕ) (cb org_cb : C)
      (s : Storage C)
      → s.started ≡ false
      → (distinct (index_strings split index n) ≡ true)
        × ((add_index c split index value n (some cb) s).events
            ≡ s.events ++ calls_of cb (confirmed (index_strings split index n)))
        × CalledOnce org_cb true (
            index_all
              (confirmed (index_strings split index n))
              org_cb
              (index_strings split index n))
  unfolding add_index
  add_index-once split index value n cb org_cb s h =
      let (i, is, e, d) = index_strings-distinct split index n in
      (
        rw e d,
        append_levels-events (index_strings split index n) value cb s h,
        rw e (all_confirmed org_cb i is d),
      )
