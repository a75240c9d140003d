-- ===== src/Storage.antt =====
-- calvin/runtime/north/storage.py: the keys and sets that a runtime holds until its storage plugin
-- has them, and the calls of the plugin. The plugin answers later, by the callback of the call.
pub mod Sets
pub mod Reading
pub mod Calls
pub mod Index
pub mod Objects
pub mod Proxy
use exjobb_calvin.Prelude.{
  ℕ, ◌*◌, String, Bool, true, false, not, ◌&&◌, Option, none, some, List, [], ◌∷◌, ◌++◌, ltb,
  if◌then◌else◌, str_eq, str_append, Result, ok, err, ◌>>=◌,
}
use exjobb_calvin.Prelude.Dict.{Dict, lookup, insert, remove, has}
use exjobb_calvin.Token.{Coder}
use exjobb_calvin.Token.Values.{Value, null, bool, str, truthy}

-- What is to be added to the set of a key, and what removed: {'+': set, '-': set}.
pub record Changes : Type 0 where
  pub added : List String
  pub removed : List String

-- The callback that is handed to the plugin: a method of the storage with its bound arguments.
-- `C` is the type of the callers' callbacks.
pub data Reply (C : Type 0) : Type 0 where
  set_reply : (org_key : Option String) (org_value : Value) (org_cb : Option C) → Reply C
  append_reply : (org_key : Option String) (org_cb : Option C) → Reply C
  remove_reply : (org_key : Option String) (org_cb : Option C) → Reply C
  get_reply : (org_cb : C) (org_key : String) → Reply C
  get_concat_reply : (org_cb : C) (org_key : String) (local_list : List String) → Reply C

-- A call of the plugin.
pub data Request (C : Type 0) : Type 0 where
  storage_set : (key : String) (value : Value) (cb : Reply C) → Request C
  storage_append : (key : String) (value : Value) (cb : Reply C) → Request C
  storage_remove : (key : String) (value : Value) (cb : Reply C) → Request C
  storage_get : (key : String) (cb : Reply C) → Request C
  storage_get_concat : (key : String) (cb : Reply C) → Request C
  storage_start : (org_cb : Option C) → Request C
  storage_stop : (cb : Option C) → Request C

-- What the storage asks of others, in order.
pub data Event (C : Type 0) : Type 0 where
  asked : Request C → Event C
  -- cb(key, value), at once
  called : C → (key : Option String) → Value → Event C
  -- async.DelayedCall(0, cb, key=key, value=value)
  delayed : C → (key : String) → Value → Event C
  -- async.DelayedCall(0, cb, value)
  delayed_started : C → Value → Event C
  -- async.DelayedCall(1.0, self._delete_node_timeout_cb, …)
  delayed_timeout : Option C → Event C
  -- cb()
  called_bare : C → Event C

pub record Storage (C : Type 0) : Type 0 where
  pub localstore : Dict Value
  pub localstore_sets : Dict Changes
  pub started : Bool
  pub starting : Bool
  -- in tenths of a second
  pub flush_timeout : ℕ
  -- the delay of the call of flush_localdata that is to come, if any
  pub flush_delayedcall : Option ℕ
  pub events : List (Event C)

abbrev pub is_empty {ℓ} : {A : Type ℓ} → List A → Bool
is_empty [] = true
is_empty (_ ∷ _) = false

-- `if key`, of a key that may be None
abbrev pub is_key : Option String → Bool
is_key none = false
is_key (some s) = not (str_eq s "")

module _ (c : Coder) where
  -- self.coder.encode(value) if value else value
  unfoldable pub encoded : Value → Value
  encoded value = if truthy value then c.encode value else value

  -- if value: value = self.coder.decode(value)
  unfoldable pub decoded : Value → Result Value
  decoded value = if truthy value then c.decode value else ok value

module _ {C : Type 0} where
  unfoldable pub init : (is_local : Bool) → Storage C
  init is_local = record {
    localstore = [];
    localstore_sets = [];
    started = false;
    starting = not is_local;
    flush_timeout = 2;
    flush_delayedcall = none;
    events = [];
  }

  unfoldable pub emit : Event C → Storage C → Storage C
  emit e s = record s { events = s.events ++ e ∷ [] }

  unfoldable pub ask : Request C → Storage C → Storage C
  unfolding emit
  ask r s = emit (asked r) s

  -- `if cb: cb(key=key, value=value)`
  unfoldable pub call_back : Option C → Option String → Value → Storage C → Storage C
  unfolding emit
  call_back none key value s = s
  call_back (some cb) key value s = emit (called cb key value) s

  -- `if cb: async.DelayedCall(0, cb, key=key, value=value)`
  unfoldable pub call_later : Option C → String → Value → Storage C → Storage C
  unfolding emit
  call_later none key value s = s
  call_later (some cb) key value s = emit (delayed cb key value) s

  unfoldable pub reset_flush_timeout : Storage C → Storage C
  reset_flush_timeout s = record s { flush_timeout = 2 }

  -- A new call takes the place of the one that is cancelled.
  unfoldable pub trigger_flush : Option ℕ → Storage C → Storage C
  trigger_flush delay s =
      if is_empty s.localstore && is_empty s.localstore_sets then s else record s {
        flush_delayedcall = some (elim delay [ none ↦ s.flush_timeout | some d ↦ d ]);
      }

  unfoldable pub started_cb : Value → Option C → Storage C → Storage C
  unfolding emit trigger_flush
  started_cb value org_cb s =
      if not (truthy value)
      then s
      else (let s' = trigger_flush (some 0) (record s { started = true }) in
          elim org_cb [ none ↦ s' | some cb ↦ emit (delayed_started cb value) s' ])

  -- A plugin that raises is logged; the registration of the proxy server is in `Proxy`.
  unfoldable pub start : (raises : Bool) → Option C → Storage C → Storage C
  unfolding ask
  start raises cb s = if s.starting && not raises then ask (storage_start cb) s else s

  unfoldable pub stop : Option C → Storage C → Storage C
  unfolding emit ask
  stop cb s =
      let s' =
        if s.started
        then ask (storage_stop cb) s
        else elim cb [ none ↦ s | some c ↦ emit (called_bare c) s ] in
      record s' { started = false }

  -- The key of the reply is the prefixed one.
  unfoldable pub set_cb :
      (key : String) (value : Value) (org_key : Option String) (org_value : Value)
      (org_cb : Option C)
      → Storage C
      → Storage C
  unfolding call_back reset_flush_timeout trigger_flush
  set_cb key value org_key org_value org_cb s = trigger_flush none (
      if truthy value
      then (let s' = call_back org_cb (some key) (bool true) s in
          reset_flush_timeout (record s' { localstore = remove key s'.localstore }))
      else (let s' =
            if is_key org_key && truthy org_value
            then record s { localstore = insert key org_value s.localstore }
            else s in
          call_back org_cb (some key) (bool false) s'))

  module _ (c : Coder) where
    unfoldable pub set : (prefix key : String) → Value → Option C → Storage C → Storage C
    unfolding encoded ask call_later
    set prefix key value cb s =
        let full = str_append prefix key in
        let s' = record s {
          localstore_sets = remove full s.localstore_sets;
          localstore = insert full (encoded c value) s.localstore;
        } in
        if s.started
        then ask (storage_set full (encoded c value) (set_reply (some key) (encoded c value) cb)) s'
        else call_later cb key (bool true) s'

    unfoldable pub get_cb : Value → (org_cb : C) (org_key : String) → Storage C → Result (Storage C)
    unfolding decoded emit
    get_cb value org_cb org_key s = do
      v ← decoded c value
      ok (emit (called org_cb (some org_key) v) s)

    -- `raises`: whether the plugin raises when it is called.
    unfoldable pub get :
        (raises : Bool) (prefix key : String) → Option C → Storage C → Result (Storage C)
    unfolding decoded emit ask
    get raises prefix key none s = ok s
    get raises prefix key (some cb) s =
        let full = str_append prefix key in
        elim (lookup full s.localstore) [
          | some value ↦ decoded c value >>= λ v. ok (emit (delayed cb key v) s)
          | none ↦ ok (
              if raises
              then emit (delayed cb key (bool false)) s
              else ask (storage_get full (get_reply cb key)) s)
        ]

    unfoldable pub delete : (prefix key : String) → Option C → Storage C → Storage C
    unfolding set call_back
    delete prefix key cb s =
        let full = str_append prefix key in
        let s' = record s {
          localstore = remove full s.localstore;
          localstore_sets = remove full s.localstore_sets;
        } in
        if s.started then set prefix key null cb s' else call_back cb (some key) (bool true) s'
