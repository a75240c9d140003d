-- ===== src/Storage/Reading.antt =====
-- calvin/runtime/north/storage.py: what a runtime reads of the keys that it has set, and what it
-- does when a write fails.
use exjobb_calvin.Prelude.{
  String, Bool, Option, none, some, List, [], ◌∷◌, ◌++◌, ◌≡◌, ◌≢◌, true, false, arith, str_append,
  if◌then◌else◌, ok, inl, inr, refl, Any, str_eq, eq_iff, ◌&&◌, none≢some, some-injective, if-cases,
  Any-append,
}
use exjobb_calvin.Prelude.Dict.{
  Dict, lookup, insert, lookup-insert, lookup-insert_self, str_eq_refl,
}
use exjobb_calvin.Token.{Coder}
use exjobb_calvin.Token.Values.{Value, truthy, bool, null}
use exjobb_calvin.Storage.{
  Storage, Event, asked, delayed, storage_set, set_reply, emit, call_back, set, get, set_cb,
  encoded, decoded, is_key, is_empty,
}
use exjobb_calvin.Storage.Sets.{flush_keys, flush_localdata, flush_sets}
use mathlib.Core.List.{append_assoc}

-- The coder gives back what it encoded, and no value is encoded as an empty text.
pub record IsLossless (c : Coder) : Type 0 where
  pub decode-encode : (v : Value) → c.decode (c.encode v) ≡ ok v
  pub encode-truthy : (v : Value) → truthy (c.encode v) ≡ true

decoded-encoded : (c : Coder) → IsLossless c → (v : Value) → decoded c (encoded c v) ≡ ok v
unfolding decoded encoded
decoded-encoded c l v = ground (arith, l.decode-encode v, l.encode-truthy v)

-- The request that a flush makes for a key.
abbrev pub AsksSet : {C : Type 0} → String → Value → Event C → Type 0
AsksSet key v e = e ≡ asked (storage_set key v (set_reply none null none))

flush_keys-lookup :
    (C : Type 0) (c : Coder) (key : String) (v : Value) (d : Dict Value)
    → lookup key d ≡ some v
    → Any (AsksSet {C = C} key v) (flush_keys c d)
unfolding flush_keys lookup
flush_keys-lookup C c key v [] h = absurd (none≢some h)
flush_keys-lookup C c key v ((j, w) ∷ d) h =
    elim (if-cases (str_eq j key) (some w) (lookup key d) h) [
      | inl (e, same) ↦
          inl (
            let jk : j ≡ key = (eq_iff j key).0 e in let vw : w ≡ v = some-injective _ _ same in cc)
      | inr (_, rest) ↦ inr (flush_keys-lookup C c key v d rest)
    ]

-- What is held after a failed write: the value of the failed call, if it is known, else the old one.
abbrev pub kept : Option String → Value → Value → Value
kept org_key org_value held = if is_key org_key && truthy org_value then org_value else held

lookup-not_empty :
    (key : String) (v : Value) (d : Dict Value) → lookup key d ≡ some v → is_empty d ≡ false
unfolding lookup
lookup-not_empty key v [] h = absurd (none≢some h)
lookup-not_empty key v (e ∷ d) h = refl

insert-not_empty : (key : String) (v : Value) (d : Dict Value) → is_empty (insert key v d) ≡ false
unfolding insert
insert-not_empty key v [] = refl
insert-not_empty key v ((j, w) ∷ d) = ground arith

module _ {C : Type 0} (c : Coder) where
  set-localstore :
      (prefix key : String) (v : Value) (cb : Option C) (s : Storage C)
      → (set c prefix key v cb s).localstore
        ≡ insert (str_append prefix key) (encoded c v) s.localstore
  unfolding set
  set-localstore prefix key v cb s = ground arith

  get-local :
      (raises : Bool) (prefix key : String) (d : C) (s : Storage C) (w v : Value)
      → lookup (str_append prefix key) s.localstore ≡ some w
      → decoded c w ≡ ok v
      → get c raises prefix key (some d) s ≡ ok (emit (delayed d key v) s)
  unfolding get decoded
  get-local raises prefix key d s w v h e = ground arith

  -- With a lossless coder, a get of a key right after it was set, started or not, answers with the
  -- value that was set, whatever it is, and does not ask the plugin; the value of every other key
  -- that is held stays.
  pub get-set :
      IsLossless c
      → (raises : Bool) (prefix key : String) (v : Value) (cb : Option C) (d : C) (s : Storage C)
      → (get c raises prefix key (some d) (set c prefix key v cb s)
          ≡ ok (emit (delayed d key v) (set c prefix key v cb s)))
        × ((j : String)
            → str_append prefix key ≢ j
            → lookup j (set c prefix key v cb s).localstore ≡ lookup j s.localstore)
  get-set l raises prefix key v cb d s = (
    get-local raises prefix key d (set c prefix key v cb s) (encoded c v) v
        (rw set-localstore (lookup-insert_self _ _ _)) (decoded-encoded c l v),
    λ j ne. rw set-localstore (
        ground (
          arith,
          lookup-insert (str_append prefix key) j (encoded c v) s.localstore,
          eq_iff (str_append prefix key) j,
        )),
  )

  failed-localstore :
      (key : String) (value : Value) (org_key : Option String) (org_value : Value) (cb : Option C)
      (s : Storage C) (held : Value)
      → truthy value ≡ false
      → lookup key s.localstore ≡ some held
      → lookup key (set_cb key value org_key org_value cb s).localstore
        ≡ some (kept org_key org_value held)
  unfolding set_cb
  failed-localstore key value org_key org_value cb s held f h =
      ground (arith, lookup-insert key key org_value s.localstore, str_eq_refl key)

  failed-events :
      (key : String) (value : Value) (org_key : Option String) (org_value : Value) (cb : Option C)
      (s : Storage C)
      → truthy value ≡ false
      → (set_cb key value org_key org_value cb s).events
        ≡ (call_back cb (some key) (bool false) s).events
  unfolding set_cb
  failed-events key value org_key org_value cb s f = ground arith

  failed-pending :
      (key : String) (value : Value) (org_key : Option String) (org_value : Value) (cb : Option C)
      (s : Storage C) (held : Value)
      → truthy value ≡ false
      → lookup key s.localstore ≡ some held
      → (set_cb key value org_key org_value cb s).flush_delayedcall ≡ some s.flush_timeout
  unfolding set_cb
  failed-pending key value org_key org_value cb s held f h =
      ground
        (arith, lookup-not_empty key held s.localstore, insert-not_empty key org_value s.localstore)

  pub record Retries (key : String) (w : Value) (cb : Option C) (s s' : Storage C) : Type 0 where
    pub held : lookup key s'.localstore ≡ some w
    pub told : s'.events ≡ (call_back cb (some key) (bool false) s).events
    pub pending : s'.flush_delayedcall ≡ some s.flush_timeout
    pub sent : List (Event C)
    pub flushed : (flush_localdata c s').events ≡ s'.events ++ sent
    pub asked_again : Any (AsksSet key w) sent

  -- When the plugin reports a failure for a key that is held, the key stays held, the caller is told
  -- once that it failed, a flush is to come after the timeout, and that flush asks the plugin again
  -- to set the key: to the value of the failed call, where that was given with a key of the caller
  -- that is not empty and is neither None nor false, 0 or empty, and otherwise to the value that was
  -- held.
  pub set_cb-Retries :
      (key : String) (value : Value) (org_key : Option String) (org_value : Value) (cb : Option C)
      (s : Storage C) (held : Value)
      → truthy value ≡ false
      → lookup key s.localstore ≡ some held
      → Retries key (kept org_key org_value held) cb s (set_cb key value org_key org_value cb s)
  unfolding flush_localdata
  set_cb-Retries key value org_key org_value cb s held f h =
      let s' = set_cb key value org_key org_value cb s in
      let w = kept org_key org_value held in
      let there : lookup key s'.localstore ≡ some w =
        failed-localstore key value org_key org_value cb s held f h in
      record {
        held = there;
        told = failed-events key value org_key org_value cb s f;
        pending = failed-pending key value org_key org_value cb s held f h;
        sent = flush_keys c s'.localstore ++ flush_sets c s'.localstore_sets;
        flushed =
            append_assoc s'.events (flush_keys c s'.localstore) (flush_sets c s'.localstore_sets);
        asked_again =
            Any-append _ (flush_keys c s'.localstore) _
              (flush_keys-lookup C c key w s'.localstore there);
      }
