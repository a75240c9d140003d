-- ===== src/Storage/Sets.antt =====
-- calvin/runtime/north/storage.py: the sets, and the flush of everything that is held.
pub mod Changed
pub mod Delta
pub mod Acknowledged
use exjobb_calvin.Prelude.{
  ℕ, ◌*◌, String, Bool, true, false, not, ◌&&◌, Option, none, some, List, [], ◌∷◌, ◌++◌, ltb,
  if◌then◌else◌, str_append, Result, ok, err, ◌>>=◌, type_error,
}
use exjobb_calvin.Prelude.Dict.{Dict, lookup, insert, remove, has}
use exjobb_calvin.Prelude.Dict.Names.{add_all, discard_all}
use exjobb_calvin.Token.{Coder}
use exjobb_calvin.Token.Values.{
  Value, Values, nil, cons, null, bool, str, list, truthy, is_true, texts,
}
use exjobb_calvin.Storage.{
  Changes, Reply, set_reply, append_reply, remove_reply, get_concat_reply, Request, storage_set,
  storage_append, storage_remove, storage_get_concat, Event, asked, called, delayed, Storage,
  is_empty, emit, ask, call_back, reset_flush_timeout, trigger_flush,
}

-- The changes after `set(value)` was to be added, or removed; `none` where the key has none yet.
unfoldable pub appended : List String → Option Changes → Changes
appended value none = record { added = add_all value []; removed = [] }
appended value (some ch) = record {
  added = add_all value ch.added;
  removed = discard_all value ch.removed;
}

unfoldable pub dropped : List String → Option Changes → Changes
dropped value none = record { added = []; removed = add_all value [] }
dropped value (some ch) = record {
  added = discard_all value ch.added;
  removed = add_all value ch.removed;
}

-- The elements of a decoded value, which has to be a list of texts.
unfoldable pub elements : Values → Result (List String)
elements nil = ok []
elements (cons (str s) vs) = elements vs >>= λ ss. ok (s ∷ ss)
elements (cons _ _) = err type_error

unfoldable pub names_of : Value → Result (List String)
unfolding elements
names_of (list vs) = elements vs
names_of _ = err type_error

-- A list, or None for an empty one.
unfoldable pub list_or_none : List String → Value
list_or_none [] = null
list_or_none (s ∷ ss) = list (texts (s ∷ ss))

-- self.coder.encode(list(value))
unfoldable pub coded : Coder → List String → Value
coded c value = c.encode (list (texts value))

module _ {C : Type 0} (c : Coder) where
  -- The plugin's calls for all keys, in the order of the dict.
  unfoldable pub flush_keys : Dict Value → List (Event C)
  flush_keys [] = []
  flush_keys ((key, value) ∷ d) =
      asked (storage_set key value (set_reply none null none)) ∷ flush_keys d

  unfoldable pub flush_append : String → List String → List (Event C)
  unfolding coded
  flush_append key value =
      if is_empty value
      then []
      else asked (storage_append key (coded c value) (append_reply none none)) ∷ []

  unfoldable pub flush_remove : String → List String → List (Event C)
  unfolding coded
  flush_remove key value =
      if is_empty value
      then []
      else asked (storage_remove key (coded c value) (remove_reply none none)) ∷ []

  unfoldable pub flush_sets : Dict Changes → List (Event C)
  unfolding flush_append flush_remove
  flush_sets [] = []
  flush_sets ((key, ch) ∷ d) =
      flush_append key ch.added ++ flush_remove key ch.removed ++ flush_sets d

  unfoldable pub flush_localdata : Storage C → Storage C
  unfolding flush_keys flush_sets
  flush_localdata s = record s {
    flush_timeout = if ltb s.flush_timeout 6000 then s.flush_timeout * 2 else s.flush_timeout;
    flush_delayedcall = none;
    events = s.events ++ flush_keys s.localstore ++ flush_sets s.localstore_sets;
  }

  unfoldable pub append :
      (prefix key : String) (value : List String) → Option C → Storage C → Storage C
  unfolding appended coded ask call_back
  append prefix key value cb s =
      let full = str_append prefix key in
      let ch = appended value (lookup full s.localstore_sets) in
      let s' = record s { localstore_sets = insert full ch s.localstore_sets } in
      if s.started
      then ask (storage_append full (coded c ch.added) (append_reply (some key) cb)) s'
      else call_back cb (some key) (bool true) s'

  -- `remove` of the source
  unfoldable pub remove_items :
      (prefix key : String) (value : List String) → Option C → Storage C → Storage C
  unfolding dropped coded ask call_back
  remove_items prefix key value cb s =
      let full = str_append prefix key in
      let ch = dropped value (lookup full s.localstore_sets) in
      let s' = record s { localstore_sets = insert full ch s.localstore_sets } in
      if s.started
      then ask (storage_remove full (coded c ch.removed) (remove_reply (some key) cb)) s'
      else call_back cb (some key) (bool true) s'

  -- list(set(value + local_list)), or the local list alone
  unfoldable pub get_concat_cb :
      Value
      → (org_cb : C) (org_key : String) (local_list : List String) → Storage C
      → Result (Storage C)
  unfolding emit names_of list_or_none
  get_concat_cb value org_cb org_key local_list s =
      if truthy value
      then (do
        v ← c.decode value
        names ← names_of v
        ok (
            emit (called org_cb (some org_key) (list (texts (add_all (names ++ local_list) []))))
              s))
      else ok (emit (called org_cb (some org_key) (list_or_none local_list)) s)

module _ {C : Type 0} where
  -- What is to be added to the set, as far as it is known here.
  unfoldable pub local_list : String → Storage C → List String
  local_list key s = elim (lookup key s.localstore_sets) [ none ↦ [] | some ch ↦ ch.added ]

  unfoldable pub get_concat :
      (raises : Bool) (prefix key : String) → Option C → Storage C → Storage C
  unfolding emit ask local_list list_or_none
  get_concat raises prefix key none s = s
  get_concat raises prefix key (some cb) s =
      let full = str_append prefix key in
      let known = local_list full s in
      if raises
      then emit (delayed cb key (list_or_none known)) s
      else ask (storage_get_concat full (get_concat_reply cb key known)) s

  -- The part of append_cb and remove_cb about the held changes.
  unfoldable pub append_done : String → Storage C → Storage C
  unfolding reset_flush_timeout
  append_done key s = elim (lookup key s.localstore_sets) [
    | none ↦ s
    | some ch ↦ reset_flush_timeout (record s {
      localstore_sets =
          if is_empty ch.removed
          then remove key s.localstore_sets
          else insert key (record ch { added = [] }) s.localstore_sets;
    })
  ]

  unfoldable pub append_cb :
      (key : String) (value : Value) (org_key : Option String) (org_cb : Option C)
      → Storage C
      → Storage C
  unfolding append_done call_back trigger_flush
  append_cb key value org_key org_cb s = trigger_flush none (
      if truthy value
      then append_done key (call_back org_cb org_key (bool true) s)
      else call_back org_cb org_key (bool false) s)

  unfoldable pub remove_done : String → Storage C → Storage C
  unfolding reset_flush_timeout
  remove_done key s = reset_flush_timeout (elim (lookup key s.localstore_sets) [
    | none ↦ s
    | some ch ↦ record s {
      localstore_sets =
          if is_empty ch.added
          then remove key s.localstore_sets
          else insert key (record ch { removed = [] }) s.localstore_sets;
    }
  ])

  unfoldable pub remove_cb :
      (key : String) (value : Value) (org_key : Option String) (org_cb : Option C)
      → Storage C
      → Storage C
  unfolding remove_done call_back trigger_flush
  remove_cb key value org_key org_cb s = trigger_flush none (
      if is_true value
      then remove_done key (call_back org_cb org_key (bool true) s)
      else call_back org_cb org_key (bool false) s)
