-- ===== src/Scheduler/Outstanding.antt =====
-- calvin/runtime/north/scheduler.py: the outstanding calls of `loop_once`.
use exjobb_calvin.Prelude.{
  ℕ, String, Bool, true, false, ◌&&◌, ◌≡◌, refl, ap, ◌∙◌, Option, none, some, List, [], ◌∷◌, ◌++◌,
  ◌==◌, if◌then◌else◌, arith, not, sym, ◌⊎◌, inl, inr, Bool-cases,
}
use exjobb_calvin.Scheduler.{
  Job, loop_job, trigger_job, stop_job, Delayed, Scheduler, delayed_call, without, cancel,
  trigger_all, trigger_some, keep_loop, trigger_loop, add_all, has_id, same_id, all_none, only_none,
}

unfoldable pub runs_loop : Job → Bool
runs_loop (loop_job _) = true
runs_loop trigger_job = false
runs_loop stop_job = false

-- A call of `loop_once` that waits for no delay.
unfoldable pub is_loop : Delayed → Bool
is_loop c = (c.delay == 0) && runs_loop c.job

-- Their numbers.
unfoldable pub loops : List Delayed → List ℕ
loops [] = []
loops (c ∷ cs) = let rest = loops cs in if is_loop c then c.number ∷ rest else rest

unfoldable pub kept : Option ℕ → List ℕ
kept none = []
kept (some n) = n ∷ []

-- The outstanding loop is the one that the scheduler keeps, if there is any.
abbrev pub IsSingle : Scheduler → Type 0
IsSingle s = loops s.calls ≡ kept s.next_loop

drop_number : ℕ → List ℕ → List ℕ
drop_number n [] = []
drop_number n (m ∷ ms) = let rest = drop_number n ms in if m == n then rest else m ∷ rest

loops-without : (n : ℕ) (cs : List Delayed) → loops (without n cs) ≡ drop_number n (loops cs)
unfolding loops without drop_number
loops-without n [] = refl
loops-without n (c ∷ cs) = ground (arith, loops-without n cs)

loops-append :
    (cs : List Delayed) (c : Delayed)
    → loops (cs ++ c ∷ []) ≡ loops cs ++ (if is_loop c then c.number ∷ [] else [])
unfolding loops
loops-append [] c = ground arith
loops-append (d ∷ cs) c = ground (arith, loops-append cs c)

drop_number-sole : (n : ℕ) → drop_number n (n ∷ []) ≡ []
unfolding drop_number
drop_number-sole n = ground arith

loops-cancel :
    (k : Option ℕ) (s : Scheduler) → loops s.calls ≡ kept k → loops (cancel k s).calls ≡ []
unfolding cancel kept
loops-cancel none s h = h
loops-cancel (some n) s h = loops-without n s.calls ∙ (ap (drop_number n) h ∙ drop_number-sole n)

loops-delayed_call :
    (d : ℕ) (job : Job) (s : Scheduler)
    → loops (delayed_call d job s).calls
      ≡ loops s.calls ++ (if (d == 0) && runs_loop job then s.next_number ∷ [] else [])
unfolding delayed_call is_loop
loops-delayed_call d job s = loops-append s.calls _

next_number-cancel : (k : Option ℕ) (s : Scheduler) → (cancel k s).next_number ≡ s.next_number
unfolding cancel
next_number-cancel none s = refl
next_number-cancel (some n) s = refl

-- Exactly one loop is outstanding, and the scheduler keeps it.
abbrev pub HasLoop : Scheduler → Type 0
HasLoop s = (n : ℕ) × (s.next_loop ≡ some n) × (loops s.calls ≡ n ∷ [])

trigger_all-HasLoop : (s : Scheduler) → IsSingle s → HasLoop (trigger_all s)
unfolding trigger_all runs_loop
trigger_all-HasLoop s h =
    let s' = cancel s.next_loop s in
    let added = loops-delayed_call 0 (loop_job true) s' in
    let e = ap (λ ns. ns ++ s'.next_number ∷ []) (loops-cancel s.next_loop s h) in
    (s.next_number, refl, added ∙ (e ∙ ap (λ n. n ∷ []) (next_number-cancel s.next_loop s)))

keep_loop-HasLoop :
    (k : Option ℕ) (s : Scheduler)
    → s.next_loop ≡ k
    → loops s.calls ≡ kept k
    → HasLoop (keep_loop k s)
unfolding keep_loop runs_loop kept
keep_loop-HasLoop (some n) s e h = (n, e, h)
keep_loop-HasLoop none s e h = (
  s.next_number,
  refl,
  loops-delayed_call 0 (loop_job false) s ∙ ap (λ ns. ns ++ s.next_number ∷ []) h,
)

all_none-append :
    (xs ys : List (Option String)) → all_none (xs ++ ys) ≡ (all_none xs && all_none ys)
unfolding all_none
all_none-append [] ys = refl
all_none-append (none ∷ xs) ys = all_none-append xs ys
all_none-append (some x ∷ xs) ys = refl

-- A name that a set of Nones has is None.
has_id-all_none :
    (x : String) (set : List (Option String)) → has_id (some x) set ≡ true → all_none set ≡ false
unfolding has_id same_id all_none
has_id-all_none x [] h = cc
has_id-all_none x (none ∷ set) h = has_id-all_none x set h
has_id-all_none x (some y ∷ set) h = refl

all_none-add_all :
    (xs set : List (Option String)) → all_none (add_all xs set) ≡ (all_none xs && all_none set)
unfolding add_all all_none
all_none-add_all [] set = refl
all_none-add_all (none ∷ xs) set =
    all_none-add_all xs (if has_id none set then set else set ++ none ∷ [])
    ∙ ground (arith, all_none-append set (none ∷ []))
all_none-add_all (some x ∷ xs) set =
    all_none-add_all xs (if has_id (some x) set then set else set ++ some x ∷ [])
    ∙ ground (arith, all_none-append set (some x ∷ []), has_id-all_none x set)

abbrev pub is_empty : List (Option String) → Bool
is_empty [] = true
is_empty (x ∷ xs) = false

is_empty-append : (xs : List (Option String)) (x : Option String) → is_empty (xs ++ x ∷ []) ≡ false
is_empty-append [] x = refl
is_empty-append (y ∷ xs) x = refl

is_empty-has_id :
    (x : Option String) (set : List (Option String)) → has_id x set ≡ true → is_empty set ≡ false
unfolding has_id
is_empty-has_id x [] h = cc
is_empty-has_id x (y ∷ set) h = refl

is_empty-add_all :
    (xs set : List (Option String)) → is_empty (add_all xs set) ≡ (is_empty xs && is_empty set)
unfolding add_all
is_empty-add_all [] set = refl
is_empty-add_all (x ∷ xs) set =
    is_empty-add_all xs (if has_id x set then set else set ++ x ∷ [])
    ∙ ground (arith, is_empty-append set x, is_empty-has_id x set)

-- The ids given and those that wait are all None, and there are some.
unfoldable pub names_none : Option (List (Option String)) → List (Option String) → Bool
names_none none set = false
names_none (some xs) set = all_none (xs ++ set) && not (is_empty (xs ++ set))

is_empty-both : (xs ys : List (Option String)) → is_empty (xs ++ ys) ≡ (is_empty xs && is_empty ys)
is_empty-both [] ys = refl
is_empty-both (x ∷ xs) ys = refl

only_none-all : (set : List (Option String)) → only_none set ≡ (all_none set && not (is_empty set))
unfolding only_none
only_none-all [] = ground arith
only_none-all (x ∷ set) = ground arith

only_none-eq :
    (xs set : List (Option String)) → only_none (add_all xs set) ≡ names_none (some xs) set
unfolding names_none
only_none-eq xs set = ground (
  arith,
  only_none-all (add_all xs set),
  all_none-add_all xs set,
  is_empty-add_all xs set,
  all_none-append xs set,
  is_empty-both xs set,
)

-- Nothing is to run, and no call comes or goes; or exactly one loop is outstanding.
abbrev pub Triggered : Option (List (Option String)) → Scheduler → Scheduler → Type 0
Triggered ids s s' =
    ((names_none ids s.trigger_set ≡ true) × (s'.calls ≡ s.calls) × (s'.next_loop ≡ s.next_loop))
    ⊎ ((names_none ids s.trigger_set ≡ false) × HasLoop s')

trigger_some-Triggered :
    (ids : List (Option String)) (s : Scheduler)
    → IsSingle s
    → Triggered (some ids) s (trigger_some ids s)
unfolding trigger_some
trigger_some-Triggered ids s h =
    let s' = record s { trigger_set = add_all ids s.trigger_set } in
    elim (Bool-cases (only_none (add_all ids s.trigger_set))) [
      | inl quiet ↦ inl (sym (only_none-eq ids s.trigger_set) ∙ quiet, rw quiet refl, rw quiet refl)
      | inr busy ↦ inr (
        sym (only_none-eq ids s.trigger_set) ∙ busy,
        rw busy (keep_loop-HasLoop s.next_loop s' refl h),
      )
    ]

-- When the only outstanding call of `loop_once` without a delay is the one that the scheduler keeps,
-- or none is outstanding and none is kept, then `trigger_loop` without a delay, for given actors or
-- for all, leaves exactly one outstanding, which the scheduler keeps; but when ids are given, and
-- those and the ids that wait are some and all None, it leaves the calls as they are.
pub trigger_loop-HasLoop :
    (ids : Option (List (Option String))) (s : Scheduler)
    → IsSingle s
    → Triggered ids s (trigger_loop 0 ids s)
unfolding trigger_loop names_none
trigger_loop-HasLoop none s h = inr (refl, trigger_all-HasLoop s h)
trigger_loop-HasLoop (some xs) s h = trigger_some-Triggered xs s h
