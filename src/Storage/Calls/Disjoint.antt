-- ===== src/Storage/Calls/Disjoint.antt =====
-- calvin/runtime/north/storage.py: what is to be added to a set is not to be removed from it.
use exjobb_calvin.Prelude.{
  String, Bool, Option, none, some, List, [], ◌∷◌, ◌≡◌, true, false, arith, if◌then◌else◌,
  Option-cases, inl, inr, refl,
}
use exjobb_calvin.Prelude.Dict.{Dict, lookup, insert, remove, lookup-insert, lookup-remove}
use exjobb_calvin.Prelude.Dict.Names.{contains, contains-add_all, contains-discard_all}
use exjobb_calvin.Token.{Coder}
use exjobb_calvin.Storage.{Changes, Storage, is_empty}
use exjobb_calvin.Storage.Sets.{flush_localdata, appended, dropped}
use exjobb_calvin.Storage.Calls.{
  Call, step, steps, start_call, started_call, stop_call, flush_call, set_call, get_call,
  delete_call, append_call, remove_call, get_concat_call, set_replied, append_replied,
  remove_replied, get_replied, get_concat_replied,
}
use exjobb_calvin.Token.Values.{truthy, is_true}
use exjobb_calvin.Storage.Sets.Changed.{
  without_added, without_removed, append-sets, remove_items-sets, set-sets, delete-sets,
  set_cb-sets, append_cb-sets, remove_cb-sets, started_cb-sets, start-sets, stop-sets, get-sets,
  get_cb-sets, get_concat-sets, get_concat_cb-sets,
}

abbrev pub Apart : Option Changes → Type 0
Apart none = Unit {0}
Apart (some ch) = (x : String) → contains x ch.added ≡ true → contains x ch.removed ≡ false

-- No text is both to be added to the set of a key and to be removed from it.
abbrev pub IsDisjoint : Dict Changes → Type 0
IsDisjoint d = (key : String) → Apart (lookup key d)

appended-Apart :
    (value : List String) (o : Option Changes) → Apart o → Apart (some (appended value o))
unfolding appended contains
appended-Apart value none h x a = ground arith
appended-Apart value (some ch) h x a =
    ground (arith, contains-add_all x value ch.added, contains-discard_all x value ch.removed, h x)

dropped-Apart :
    (value : List String) (o : Option Changes) → Apart o → Apart (some (dropped value o))
unfolding dropped contains
dropped-Apart value none h x a = ground arith
dropped-Apart value (some ch) h x a =
    ground (arith, contains-add_all x value ch.removed, contains-discard_all x value ch.added, h x)

remove-IsDisjoint : (key : String) (d : Dict Changes) → IsDisjoint d → IsDisjoint (remove key d)
remove-IsDisjoint key d h j = ground (arith, lookup-remove key j d, h j)

insert-IsDisjoint :
    (key : String) (ch : Changes) (d : Dict Changes)
    → Apart (some ch)
    → IsDisjoint d
    → IsDisjoint (insert key ch d)
insert-IsDisjoint key ch d a h j = ground (arith, lookup-insert key j ch d, h j)

if-IsDisjoint :
    (b : Bool) (d e : Dict Changes) → IsDisjoint d → IsDisjoint e → IsDisjoint (if b then d else e)
if-IsDisjoint true d e hd he = hd
if-IsDisjoint false d e hd he = he

without_added-IsDisjoint :
    (key : String) (d : Dict Changes) → IsDisjoint d → IsDisjoint (without_added key d)
unfolding without_added contains
without_added-IsDisjoint key d h = elim (Option-cases (lookup key d)) [
  | inl n ↦ rw (n, without_added) h
  | inr (ch, e) ↦
      rw (e, without_added)
        (if-IsDisjoint (is_empty ch.removed) _ _ (remove-IsDisjoint key d h)
          (insert-IsDisjoint key _ d (λ x a. cc) h))
]

without_removed-IsDisjoint :
    (key : String) (d : Dict Changes) → IsDisjoint d → IsDisjoint (without_removed key d)
unfolding without_removed contains
without_removed-IsDisjoint key d h = elim (Option-cases (lookup key d)) [
  | inl n ↦ rw (n, without_removed) h
  | inr (ch, e) ↦
      rw (e, without_removed)
        (if-IsDisjoint (is_empty ch.added) _ _ (remove-IsDisjoint key d h)
          (insert-IsDisjoint key _ d (λ x a. refl) h))
]

module _ {C : Type 0} (c : Coder) where
  step-IsDisjoint :
      (call : Call C) (s : Storage C)
      → IsDisjoint s.localstore_sets
      → IsDisjoint (step c call s).localstore_sets
  unfolding step flush_localdata
  step-IsDisjoint (start_call raises cb) s h = rw start-sets h
  step-IsDisjoint (started_call value cb) s h = rw started_cb-sets h
  step-IsDisjoint (stop_call cb) s h = rw stop-sets h
  step-IsDisjoint flush_call s h = h
  step-IsDisjoint (set_call prefix key value cb) s h = rw set-sets (remove-IsDisjoint _ _ h)
  step-IsDisjoint (get_call raises prefix key cb) s h = rw get-sets h
  step-IsDisjoint (delete_call prefix key cb) s h = rw delete-sets (
      if-IsDisjoint s.started _ _ (remove-IsDisjoint _ _ (remove-IsDisjoint _ _ h))
        (remove-IsDisjoint _ _ h))
  step-IsDisjoint (append_call prefix key value cb) s h =
      rw append-sets (insert-IsDisjoint _ _ _ (appended-Apart value _ (h _)) h)
  step-IsDisjoint (remove_call prefix key value cb) s h =
      rw remove_items-sets (insert-IsDisjoint _ _ _ (dropped-Apart value _ (h _)) h)
  step-IsDisjoint (get_concat_call raises prefix key cb) s h = rw get_concat-sets h
  step-IsDisjoint (set_replied key value org_key org_value cb) s h = rw set_cb-sets h
  step-IsDisjoint (append_replied key value org_key cb) s h =
      rw append_cb-sets (if-IsDisjoint (truthy value) _ _ (without_added-IsDisjoint key _ h) h)
  step-IsDisjoint (remove_replied key value org_key cb) s h =
      rw remove_cb-sets (if-IsDisjoint (is_true value) _ _ (without_removed-IsDisjoint key _ h) h)
  step-IsDisjoint (get_replied value cb key) s h = rw get_cb-sets h
  step-IsDisjoint (get_concat_replied value cb key local) s h = rw get_concat_cb-sets h

  -- Whatever is called, in any order: when no text is both to be added to the set of a key and to
  -- be removed from it, this stays so.
  pub steps-IsDisjoint :
      (calls : List (Call C)) (s : Storage C)
      → IsDisjoint s.localstore_sets
      → IsDisjoint (steps c calls s).localstore_sets
  unfolding steps
  steps-IsDisjoint [] s h = h
  steps-IsDisjoint (call ∷ calls) s h =
      steps-IsDisjoint calls (step c call s) (step-IsDisjoint call s h)
