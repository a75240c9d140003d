-- ===== src/Storage/Calls.antt =====
-- calvin/runtime/north/storage.py: any sequence of calls of the storage, by its users, by the event
-- loop and by the replies of the plugin.
pub mod Live
pub mod Bounds
pub mod Disjoint
use exjobb_calvin.Prelude.{String, Bool, Option, List, [], ◌∷◌, Result, ok, err}
use exjobb_calvin.Token.{Coder}
use exjobb_calvin.Token.Values.{Value}
use exjobb_calvin.Storage.{Storage, started_cb, start, stop, set_cb, set, get_cb, get, delete}
use exjobb_calvin.Storage.Sets.{
  flush_localdata, append, remove_items, get_concat_cb, get_concat, append_cb, remove_cb,
}

pub data Call (C : Type 0) : Type 0 where
  start_call : (raises : Bool) → Option C → Call C
  started_call : Value → Option C → Call C
  stop_call : Option C → Call C
  flush_call : Call C
  set_call : (prefix key : String) → Value → Option C → Call C
  get_call : (raises : Bool) (prefix key : String) → Option C → Call C
  delete_call : (prefix key : String) → Option C → Call C
  append_call : (prefix key : String) → List String → Option C → Call C
  remove_call : (prefix key : String) → List String → Option C → Call C
  get_concat_call : (raises : Bool) (prefix key : String) → Option C → Call C
  set_replied : (key : String) (value : Value) → Option String → Value → Option C → Call C
  append_replied : (key : String) (value : Value) → Option String → Option C → Call C
  remove_replied : (key : String) (value : Value) → Option String → Option C → Call C
  get_replied : (value : Value) → C → String → Call C
  get_concat_replied : (value : Value) → C → String → List String → Call C

-- The state that a reply with an undecodable value leaves: the exception comes before any change.
abbrev pub or_old : {S : Type 0} → S → Result S → S
or_old s (ok s') = s'
or_old s (err _) = s

unfoldable pub step : {C : Type 0} → Coder → Call C → Storage C → Storage C
step c (start_call raises cb) s = start raises cb s
step c (started_call value cb) s = started_cb value cb s
step c (stop_call cb) s = stop cb s
step c flush_call s = flush_localdata c s
step c (set_call prefix key value cb) s = set c prefix key value cb s
step c (get_call raises prefix key cb) s = or_old s (get c raises prefix key cb s)
step c (delete_call prefix key cb) s = delete c prefix key cb s
step c (append_call prefix key value cb) s = append c prefix key value cb s
step c (remove_call prefix key value cb) s = remove_items c prefix key value cb s
step c (get_concat_call raises prefix key cb) s = get_concat raises prefix key cb s
step c (set_replied key value org_key org_value cb) s = set_cb key value org_key org_value cb s
step c (append_replied key value org_key cb) s = append_cb key value org_key cb s
step c (remove_replied key value org_key cb) s = remove_cb key value org_key cb s
step c (get_replied value cb key) s = or_old s (get_cb c value cb key s)
step c (get_concat_replied value cb key local) s = or_old s (get_concat_cb c value cb key local s)

unfoldable pub steps : {C : Type 0} → Coder → List (Call C) → Storage C → Storage C
steps c [] s = s
steps c (call ∷ calls) s = steps c calls (step c call s)
