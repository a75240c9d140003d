-- ===== src/Storage/Sets/Changed.antt =====
-- calvin/runtime/north/storage.py: what each call of the storage does to the held sets.
use exjobb_calvin.Prelude.{
  String, Bool, Option, none, some, List, [], ◌≡◌, arith, str_append, if◌then◌else◌,
}
use exjobb_calvin.Prelude.Dict.{Dict, lookup, insert, remove}
use exjobb_calvin.Token.{Coder}
use exjobb_calvin.Token.Values.{Value, truthy, is_true}
use exjobb_calvin.Storage.{
  Changes, Storage, set_cb, set, delete, is_empty, started_cb, start, stop, get_cb, get,
}
use exjobb_calvin.Storage.Sets.{
  append, remove_items, append_cb, remove_cb, appended, dropped, get_concat_cb, get_concat,
}
use exjobb_calvin.Storage.Calls.{or_old}

-- The sets after the plugin confirmed an append, or a remove, of this key.
unfoldable pub without_added : String → Dict Changes → Dict Changes
without_added key d = elim (lookup key d) [
  | none ↦ d
  | some ch ↦ if is_empty ch.removed then remove key d else insert key (record ch { added = [] }) d
]

unfoldable pub without_removed : String → Dict Changes → Dict Changes
without_removed key d = elim (lookup key d) [
  | none ↦ d
  | some ch ↦ if is_empty ch.added then remove key d else insert key (record ch { removed = [] }) d
]

module _ {C : Type 0} where
  pub append-sets :
      (c : Coder) (prefix key : String) (value : List String) (cb : Option C) (s : Storage C)
      → (append c prefix key value cb s).localstore_sets
        ≡ insert
            (str_append prefix key)
            (appended value (lookup (str_append prefix key) s.localstore_sets))
            s.localstore_sets
  unfolding append
  append-sets c prefix key value cb s = ground arith

  pub remove_items-sets :
      (c : Coder) (prefix key : String) (value : List String) (cb : Option C) (s : Storage C)
      → (remove_items c prefix key value cb s).localstore_sets
        ≡ insert
            (str_append prefix key)
            (dropped value (lookup (str_append prefix key) s.localstore_sets))
            s.localstore_sets
  unfolding remove_items
  remove_items-sets c prefix key value cb s = ground arith

  pub set-sets :
      (c : Coder) (prefix key : String) (value : Value) (cb : Option C) (s : Storage C)
      → (set c prefix key value cb s).localstore_sets
        ≡ remove (str_append prefix key) s.localstore_sets
  unfolding set
  set-sets c prefix key value cb s = ground arith

  pub delete-sets :
      (c : Coder) (prefix key : String) (cb : Option C) (s : Storage C)
      → (delete c prefix key cb s).localstore_sets ≡ (
          if s.started
          then remove (str_append prefix key) (remove (str_append prefix key) s.localstore_sets)
          else remove (str_append prefix key) s.localstore_sets)
  unfolding delete
  delete-sets c prefix key cb s = ground arith

  pub set_cb-sets :
      (key : String) (value : Value) (org_key : Option String) (org_value : Value)
      (org_cb : Option C) (s : Storage C)
      → (set_cb key value org_key org_value org_cb s).localstore_sets ≡ s.localstore_sets
  unfolding set_cb
  set_cb-sets key value org_key org_value org_cb s = ground arith

  pub append_cb-sets :
      (key : String) (value : Value) (org_key : Option String) (org_cb : Option C) (s : Storage C)
      → (append_cb key value org_key org_cb s).localstore_sets
        ≡ (if truthy value then without_added key s.localstore_sets else s.localstore_sets)
  unfolding append_cb without_added
  append_cb-sets key value org_key org_cb s = ground arith

  pub remove_cb-sets :
      (key : String) (value : Value) (org_key : Option String) (org_cb : Option C) (s : Storage C)
      → (remove_cb key value org_key org_cb s).localstore_sets
        ≡ (if is_true value then without_removed key s.localstore_sets else s.localstore_sets)
  unfolding remove_cb without_removed
  remove_cb-sets key value org_key org_cb s = ground arith

  pub started_cb-sets :
      (value : Value) (cb : Option C) (s : Storage C)
      → (started_cb value cb s).localstore_sets ≡ s.localstore_sets
  unfolding started_cb
  started_cb-sets value cb s = ground arith

  pub start-sets :
      (raises : Bool) (cb : Option C) (s : Storage C)
      → (start raises cb s).localstore_sets ≡ s.localstore_sets
  unfolding start
  start-sets raises cb s = ground arith

  pub stop-sets : (cb : Option C) (s : Storage C) → (stop cb s).localstore_sets ≡ s.localstore_sets
  unfolding stop
  stop-sets cb s = ground arith

  pub get-sets :
      (c : Coder) (raises : Bool) (prefix key : String) (cb : Option C) (s : Storage C)
      → (or_old s (get c raises prefix key cb s)).localstore_sets ≡ s.localstore_sets
  unfolding get
  get-sets c raises prefix key cb s = ground arith

  pub get_cb-sets :
      (c : Coder) (value : Value) (cb : C) (key : String) (s : Storage C)
      → (or_old s (get_cb c value cb key s)).localstore_sets ≡ s.localstore_sets
  unfolding get_cb
  get_cb-sets c value cb key s = ground arith

  pub get_concat-sets :
      (raises : Bool) (prefix key : String) (cb : Option C) (s : Storage C)
      → (get_concat raises prefix key cb s).localstore_sets ≡ s.localstore_sets
  unfolding get_concat
  get_concat-sets raises prefix key cb s = ground arith

  pub get_concat_cb-sets :
      (c : Coder) (value : Value) (cb : C) (key : String) (local : List String) (s : Storage C)
      → (or_old s (get_concat_cb c value cb key local s)).localstore_sets ≡ s.localstore_sets
  unfolding get_concat_cb
  get_concat_cb-sets c value cb key local s = ground arith
