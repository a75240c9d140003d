-- ===== src/Callback.antt =====
-- calvin/utilities/calvin_callback.py: named sets of callbacks. What a callback does is a
-- parameter, with none for an exception, which is logged and swallowed.
pub mod Registry
use exjobb_calvin.Prelude.{
  String, Bool, true, false, Option, none, some, List, [], ◌∷◌, ◌++◌, map, if◌then◌else◌, is_some,
}
use exjobb_calvin.Prelude.Dict.{Dict, lookup, insert, remove, has}
use exjobb_calvin.Prelude.Dict.Names.{contains}

-- A callback: its id, the function it wraps, and the arguments that it puts before and among the
-- caller's.
pub record Cb (F A : Type 0) : Type 0 where
  pub id : String
  pub func : F
  pub args : List A
  pub kwargs : Dict A

module _ {A : Type 0} where
  -- dict(d, **kwargs), and d.update(kwargs)
  unfoldable pub update : Dict A → Dict A → Dict A
  update [] d = d
  update ((k, v) ∷ kwargs) d = update kwargs (insert k v d)

module _ {F A : Type 0} where
  unfoldable pub args_append : A → Cb F A → Cb F A
  args_append a cb = record cb { args = cb.args ++ a ∷ [] }

  unfoldable pub kwargs_update : Dict A → Cb F A → Cb F A
  kwargs_update kwargs cb = record cb { kwargs = update kwargs cb.kwargs }

module _ {F A R : Type 0} where
  -- `__call__`
  unfoldable pub call :
      (apply : F → List A → Dict A → Option R) → List A → Dict A → Cb F A → Option R
  call apply args kwargs cb = apply cb.func (cb.args ++ args) (update kwargs cb.kwargs)

  -- `CalvinCBGroup.__call__`: the reply of each callback by its id, None for one that raised.
  unfoldable pub call_group :
      (apply : F → List A → Dict A → Option R)
      → List A
      → Dict A
      → List (Cb F A)
      → Dict (Option R)
      → Dict (Option R)
  call_group apply args kwargs [] reply = reply
  call_group apply args kwargs (f ∷ funcs) reply =
      call_group apply args kwargs funcs (insert f.id (call apply args kwargs f) reply)

-- `CalvinCBClass`: the callbacks of a name, by id, and the names that are valid (none for all).
pub record Callbacks (C : Type 0) : Type 0 where
  pub callbacks : Dict (Dict C)
  pub valid_names : Option (List String)

module _ {C : Type 0} where
  unfoldable pub is_valid : String → Callbacks C → Bool
  is_valid name c = elim c.valid_names [ none ↦ true | some names ↦ contains name names ]

  -- dict([(cb.id, cb) for cb in cbs])
  unfoldable pub by_id : List (String × C) → Dict C → Dict C
  by_id [] d = d
  by_id ((id, cb) ∷ cbs) d = by_id cbs (insert id cb d)

  unfoldable pub init_loop : Dict (List (String × C)) → Callbacks C → Callbacks C
  init_loop [] c = c
  init_loop ((name, cbs) ∷ given) c = init_loop given (
      if is_valid name c
      then record c { callbacks = insert name (by_id cbs []) c.callbacks }
      else c)

  unfoldable pub init : Dict (List (String × C)) → Option (List String) → Callbacks C
  init given valid = init_loop given (record { callbacks = []; valid_names = valid })

  unfoldable pub keys : Dict (Dict C) → List String
  keys [] = []
  keys ((k, _) ∷ d) = k ∷ keys d

  -- The valid names, or those with callbacks; an empty list of valid names counts as none.
  unfoldable pub callback_valid_names : Callbacks C → List String
  callback_valid_names c = elim c.valid_names [
    | none ↦ keys c.callbacks
    | some [] ↦ keys c.callbacks
    | some (n ∷ names) ↦ n ∷ names
  ]

  unfoldable pub callbacks_of : String → Callbacks C → Dict C
  callbacks_of name c = elim (lookup name c.callbacks) [ none ↦ [] | some cbs ↦ cbs ]

  unfoldable pub callback_register : String → String → C → Callbacks C → Callbacks C
  callback_register name id cb c =
      if is_valid name c
      then record c { callbacks = insert name (insert id cb (callbacks_of name c)) c.callbacks }
      else c

  -- A name without callbacks is dropped.
  unfoldable pub keep : String → Dict C → Dict (Dict C) → Dict (Dict C)
  keep name [] d = d
  keep name (cb ∷ cbs) d = (name, cb ∷ cbs) ∷ d

  -- The loop of `callback_unregister`: it stops at the first name that has the id.
  unfoldable pub unregister : String → Dict (Dict C) → Dict (Dict C)
  unregister id [] = []
  unregister id ((k, v) ∷ d) =
      let rest = unregister id d in if has id v then keep k (remove id v) d else (k, v) ∷ rest

  unfoldable pub callback_unregister : String → Callbacks C → Callbacks C
  callback_unregister id c = record c { callbacks = unregister id c.callbacks }

-- `_callback_execute`: a copy of the callbacks is run, so that they may change the registry. The
-- replies are those of the callbacks that did not raise.
module _ {C S R : Type 0} (run : C → S → Option R × S) where
  unfoldable pub execute_all : Dict C → Dict R → S → Dict R × S
  execute_all [] reply s = (reply, s)
  execute_all ((id, cb) ∷ cbs) reply s =
      let (r, s') = run cb s in
      elim r [ none ↦ execute_all cbs reply s' | some r ↦ execute_all cbs (insert id r reply) s' ]

  unfoldable pub callback_execute : String → Callbacks C → S → Dict R × S
  callback_execute name c s = execute_all (callbacks_of name c) [] s
