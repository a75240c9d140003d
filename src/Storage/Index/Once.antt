-- ===== src/Storage/Index/Once.antt =====
-- calvin/runtime/north/storage.py: the answers of all levels of an index become one answer.
use exjobb_calvin.Prelude.{
  String, Bool, true, false, not, ◌&&◌, some, List, [], ◌∷◌, ◌++◌, ◌≡◌, refl, arith, if◌then◌else◌,
  str_eq, eq_iff, Bool-cases, inl, inr, ◌∙◌, sym,
}
use exjobb_calvin.Prelude.Dict.Names.{contains}
use exjobb_calvin.Token.Values.{Value, bool, truthy}
use exjobb_calvin.Storage.{Event, called}
use exjobb_calvin.Storage.Index.{index_cb, index_failed, index_done, remove_first}

-- The answers: the level's key, and the value.
abbrev pub Answers : Type 0
Answers = List (String × Value)

-- What the answers, in their order, make the shared callback do.
unfoldable pub index_all : {C : Type 0} → Answers → C → List String → List (Event C)
index_all [] org_cb items = []
index_all ((key, value) ∷ answers) org_cb items =
    let (items', events) = index_cb key value org_cb items in
    events ++ index_all answers org_cb items'

-- No text twice.
unfoldable pub distinct : List String → Bool
distinct [] = true
distinct (x ∷ xs) = not (contains x xs) && distinct xs

-- Every item is among the keys.
unfoldable pub covered : (keys items : List String) → Bool
covered keys [] = true
covered keys (x ∷ xs) = contains x keys && covered keys xs

abbrev pub answered_keys : Answers → List String
answered_keys [] = []
answered_keys ((key, value) ∷ answers) = key ∷ answered_keys answers

-- The keys that were answered before the first failure.
abbrev pub keys_before_failure : Answers → List String
keys_before_failure [] = []
keys_before_failure ((key, value) ∷ answers) =
    if truthy value then key ∷ keys_before_failure answers else []

remove_first-absent :
    (k : String) (xs : List String) → contains k xs ≡ false → remove_first k xs ≡ xs
unfolding contains remove_first
remove_first-absent k [] h = refl
remove_first-absent k (x ∷ xs) h = ground (arith, remove_first-absent k xs)

contains-remove_first :
    (k y : String) (xs : List String)
    → distinct xs ≡ true
    → contains y (remove_first k xs) ≡ (not (str_eq k y) && contains y xs)
unfolding contains remove_first distinct
contains-remove_first k y [] d = ground arith
contains-remove_first k y (x ∷ xs) d =
    ground (arith, contains-remove_first k y xs, eq_iff x k, eq_iff x y, eq_iff k y)

distinct-remove_first :
    (k : String) (xs : List String) → distinct xs ≡ true → distinct (remove_first k xs) ≡ true
unfolding remove_first distinct
distinct-remove_first k [] d = refl
distinct-remove_first k (x ∷ xs) d =
    ground (arith, distinct-remove_first k xs, contains-remove_first k x xs)

covered-absent :
    (k : String) (ks xs : List String) → contains k xs ≡ false → covered (k ∷ ks) xs ≡ covered ks xs
unfolding contains covered
covered-absent k ks [] h = refl
covered-absent k ks (x ∷ xs) h = ground (arith, covered-absent k ks xs, eq_iff k x, eq_iff x k)

covered-remove_first :
    (k : String) (ks xs : List String)
    → distinct xs ≡ true
    → covered (k ∷ ks) xs ≡ covered ks (remove_first k xs)
unfolding contains covered remove_first distinct
covered-remove_first k ks [] d = refl
covered-remove_first k ks (x ∷ xs) d =
    ground (arith, covered-remove_first k ks xs, covered-absent k ks xs, eq_iff k x, eq_iff x k)

covered-nil : (x : String) (xs : List String) → covered [] (x ∷ xs) ≡ false
unfolding covered contains
covered-nil x xs = refl

module _ {C : Type 0} (cb : C) where
  index_all-nil : (answers : Answers) → index_all answers cb [] ≡ []
  unfolding index_all index_cb contains
  index_all-nil [] = refl
  index_all-nil ((key, value) ∷ answers) = index_all-nil answers

  -- One call of the callback, with this verdict.
  abbrev pub CalledOnce : Bool → List (Event C) → Type 0
  CalledOnce verdict events = (key : String) × (events ≡ called cb (some key) (bool verdict) ∷ [])

  index_all-failed :
      (key : String) (value : Value) (answers : Answers) (i : String) (is : List String)
      → truthy value ≡ false
      → index_all ((key, value) ∷ answers) cb (i ∷ is) ≡ called cb (some key) (bool false) ∷ []
  unfolding index_all index_cb contains
  index_all-failed key value answers i is f = rw (f, index_failed) (rw index_all-nil refl)

  index_all-other :
      (key : String) (value : Value) (answers : Answers) (i : String) (is : List String)
      → truthy value ≡ true
      → contains key (i ∷ is) ≡ false
      → index_all ((key, value) ∷ answers) cb (i ∷ is) ≡ index_all answers cb (i ∷ is)
  unfolding index_all index_cb
  index_all-other key value answers i is t h = ground arith

  index_all-one :
      (key : String) (value : Value) (answers : Answers) (i : String) (is : List String)
      → truthy value ≡ true
      → contains key (i ∷ is) ≡ true
      → index_all ((key, value) ∷ answers) cb (i ∷ is)
        ≡ index_done key cb (remove_first key (i ∷ is))
          ++ index_all answers cb (remove_first key (i ∷ is))
  unfolding index_all index_cb
  index_all-one key value answers i is t h = ground arith

  -- What is to be shown of the answers, for any levels that are missing.
  abbrev Completes : Answers → Type 0
  Completes answers =
      (i : String) (is : List String)
      → distinct (i ∷ is) ≡ true
      → covered (answered_keys answers) (i ∷ is) ≡ true
      → CalledOnce (covered (keys_before_failure answers) (i ∷ is)) (index_all answers cb (i ∷ is))

  one_answer :
      (key : String) (answers : Answers) (rest : List String)
      → Completes answers
      → distinct rest ≡ true
      → covered (answered_keys answers) rest ≡ true
      → CalledOnce
          (covered (keys_before_failure answers) rest)
          (index_done key cb rest ++ index_all answers cb rest)
  unfolding index_done covered
  one_answer key answers [] later d c = (key, rw index_all-nil refl)
  one_answer key answers (j ∷ js) later d c = later j js d c

  -- When the levels of an index are distinct and each is answered at least once, in any order and
  -- with any values, the callback of the index is called exactly once: with True if every level has
  -- an answer before the first failure, and with False otherwise.
  pub index_all-once :
      (answers : Answers) (i : String) (is : List String)
      → distinct (i ∷ is) ≡ true
      → covered (answered_keys answers) (i ∷ is) ≡ true
      → CalledOnce (covered (keys_before_failure answers) (i ∷ is)) (index_all answers cb (i ∷ is))
  index_all-once [] i is d c = absurd (let e : false ≡ true = sym (covered-nil i is) ∙ c in cc)
  index_all-once ((key, value) ∷ answers) i is d c = elim (Bool-cases (truthy value)) [
    | inl t ↦ elim (Bool-cases (contains key (i ∷ is))) [
      | inl h ↦ rw (index_all-one key value answers i is t h) (
          rw t (
            rw (covered-remove_first key _ (i ∷ is) d) (
              one_answer key answers _ (index_all-once answers) (distinct-remove_first key _ d)
                (rw (← covered-remove_first key _ (i ∷ is) d) c))))
      | inr h ↦ rw (index_all-other key value answers i is t h) (
          rw t (
            rw (covered-absent key _ (i ∷ is) h)
              (index_all-once answers i is d (rw (← covered-absent key _ (i ∷ is) h) c))))
    ]
    | inr f ↦ (key, rw (index_all-failed key value answers i is f) (rw (f, covered-nil i is) refl))
  ]
