-- ===== src/Storage/Sets/Delta.antt =====
-- calvin/runtime/north/storage.py: the held changes of a set as a function of the set.
use exjobb_calvin.Prelude.{
  String, Bool, Option, none, some, List, [], ◌∷◌, ◌≡◌, true, false, arith, str_append, str_eq,
  eq_iff, if◌then◌else◌, not, ◌&&◌, ◌||◌, refl, ◌∙◌, ap,
}
use exjobb_calvin.Prelude.Dict.{lookup, lookup-insert}
use exjobb_calvin.Prelude.Dict.Names.{contains, contains-add_all, contains-discard_all}
use exjobb_calvin.Token.{Coder}
use exjobb_calvin.Storage.{Changes, Storage}
use exjobb_calvin.Storage.Sets.{append, remove_items, appended, dropped}
use exjobb_calvin.Storage.Sets.Changed.{append-sets, remove_items-sets}
use mathlib.Core.Path.{fun_ext}

-- Whether a text is in the set of a key after the two requests that a flush makes for it, if it is
-- now or is not: what is to be added, then what is to be removed, or the other way round.
abbrev pub changed : (removes_last : Bool) → Option Changes → String → Bool → Bool
changed removes_last none x old = old
changed true (some ch) x old = not (contains x ch.removed) && (contains x ch.added || old)
changed false (some ch) x old = contains x ch.added || not (contains x ch.removed) && old

-- The sets of all keys, by their members.
abbrev pub Sets : Type 0
Sets = (key x : String) → Bool

-- What the sets in the storage become when everything that is held has reached it, with the
-- requests of each key in this order. A flush asks for the removal last.
abbrev pub view : {C : Type 0} → (removes_last : Bool) → Sets → Storage C → Sets
view removes_last stored s key x =
    changed removes_last (lookup key s.localstore_sets) x (stored key x)

pub data Update (C : Type 0) : Type 0 where
  appending : (prefix key : String) → List String → Option C → Update C
  removing : (prefix key : String) → List String → Option C → Update C

-- The update of the held changes.
abbrev pub update : {C : Type 0} → Coder → Update C → Storage C → Storage C
update c (appending prefix key value cb) s = append c prefix key value cb s
update c (removing prefix key value cb) s = remove_items c prefix key value cb s

-- The update of the sets themselves.
abbrev pub promised : {C : Type 0} → Update C → Sets → Sets
promised (appending prefix key value cb) sets j x =
    if str_eq (str_append prefix key) j then contains x value || sets j x else sets j x
promised (removing prefix key value cb) sets j x =
    if str_eq (str_append prefix key) j then not (contains x value) && sets j x else sets j x

unfoldable pub updates : {C : Type 0} → Coder → List (Update C) → Storage C → Storage C
updates c [] s = s
updates c (u ∷ us) s = updates c us (update c u s)

unfoldable pub all_promised : {C : Type 0} → List (Update C) → Sets → Sets
all_promised [] sets = sets
all_promised (u ∷ us) sets = all_promised us (promised u sets)

changed-appended :
    (removes_last : Bool) (value : List String) (o : Option Changes) (x : String) (old : Bool)
    → changed removes_last (some (appended value o)) x old
      ≡ (contains x value || changed removes_last o x old)
unfolding appended contains
changed-appended true value none x old = ground (arith, contains-add_all x value [])
changed-appended false value none x old = ground (arith, contains-add_all x value [])
changed-appended true value (some ch) x old =
    ground (arith, contains-add_all x value ch.added, contains-discard_all x value ch.removed)
changed-appended false value (some ch) x old =
    ground (arith, contains-add_all x value ch.added, contains-discard_all x value ch.removed)

changed-dropped :
    (removes_last : Bool) (value : List String) (o : Option Changes) (x : String) (old : Bool)
    → changed removes_last (some (dropped value o)) x old
      ≡ (not (contains x value) && changed removes_last o x old)
unfolding dropped contains
changed-dropped true value none x old = ground (arith, contains-add_all x value [])
changed-dropped false value none x old = ground (arith, contains-add_all x value [])
changed-dropped true value (some ch) x old =
    ground (arith, contains-add_all x value ch.removed, contains-discard_all x value ch.added)
changed-dropped false value (some ch) x old =
    ground (arith, contains-add_all x value ch.removed, contains-discard_all x value ch.added)

module _ {C : Type 0} (removes_last : Bool) (c : Coder) (stored : Sets) where
  view-update :
      (u : Update C) (s : Storage C) (j x : String)
      → view removes_last stored (update c u s) j x ≡ promised u (view removes_last stored s) j x
  view-update (appending prefix key value cb) s j x = rw append-sets (
      ground (
        arith,
        lookup-insert (str_append prefix key) j
            (appended value (lookup (str_append prefix key) s.localstore_sets)) s.localstore_sets,
        changed-appended removes_last value (lookup j s.localstore_sets) x (stored j x),
        eq_iff (str_append prefix key) j,
      ))
  view-update (removing prefix key value cb) s j x = rw remove_items-sets (
      ground (
        arith,
        lookup-insert (str_append prefix key) j
            (dropped value (lookup (str_append prefix key) s.localstore_sets)) s.localstore_sets,
        changed-dropped removes_last value (lookup j s.localstore_sets) x (stored j x),
        eq_iff (str_append prefix key) j,
      ))

  -- After any appends to sets and removals from them, started or not: what is held turns the sets
  -- that are stored into those that the same updates make of what was there before, for every key,
  -- whichever of the two requests for a key comes last.
  pub updates-view :
      (us : List (Update C)) (s : Storage C)
      → view removes_last stored (updates c us s) ≡ all_promised us (view removes_last stored s)
  unfolding updates all_promised
  updates-view [] s = refl
  updates-view (u ∷ us) s =
      updates-view us (update c u s)
      ∙ ap (all_promised us) (fun_ext (λ j. fun_ext (λ x. view-update u s j x)))
