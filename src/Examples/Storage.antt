-- ===== src/Examples/Storage.antt =====
-- The storage of calvin/runtime/north/storage.py.
use exjobb_calvin.Prelude.{
  String, true, false, none, some, List, [], ◌∷◌, ◌≡◌, ◌≢◌, refl, arith, Result, ok, err,
  type_error, str_append,
}
use exjobb_calvin.Prelude.Dict.{lookup, insert}
use exjobb_calvin.Prelude.Dict.Names.{contains}
use exjobb_calvin.Token.{Coder}
use exjobb_calvin.Token.Values.{Value, bool, str, list, nil, cons, truthy}
use exjobb_calvin.Storage.{Storage, emit, delayed, set, get, set_cb}
use exjobb_calvin.Storage.Reading.{IsLossless, get-set, Retries, kept, set_cb-Retries}
use exjobb_calvin.Storage.Sets.Delta.{
  Sets, Update, appending, removing, view, updates, all_promised, updates-view,
}
use exjobb_calvin.Storage.Calls.{Call, step, steps, set_call, set_replied, flush_call}
use exjobb_calvin.Storage.Calls.Live.{IsLive, steps-IsLive, total, writes, answers, any_changes}
use exjobb_calvin.Storage.Calls.Bounds.{IsBounded, steps-IsBounded}
use exjobb_calvin.Storage.Index.Once.{
  index_all, index_all-once, CalledOnce, covered, distinct, Answers,
}

-- A coder that puts a value into a list.
unboxed : Value → Result Value
unboxed (list (cons v nil)) = ok v
unboxed _ = err type_error

abbrev boxing : Coder
boxing = record { encode = λ v. list (cons v nil); decode = unboxed }

boxing-IsLossless : IsLossless boxing
unfolding unboxed truthy
boxing-IsLossless = record { decode-encode = λ v. refl; encode-truthy = λ v. refl }

abbrev started_storage : Storage String
started_storage = record {
  localstore = [];
  localstore_sets = [];
  started = true;
  starting = true;
  flush_timeout = 2;
  flush_delayedcall = none;
  events = [];
}

-- A key is set, the plugin fails, and the storage flushes.
abbrev failed_write : List (Call String)
failed_write =
    set_call "node-" "a" (str "x") (some "cb")
    ∷ set_replied "node-a" (bool false) (some "a") (list (cons (str "x") nil)) (some "cb")
    ∷ flush_call
    ∷ []

steps-IsLive_example : IsLive (total failed_write 0) (steps boxing failed_write started_storage)
unfolding writes answers step set set_cb any_changes truthy insert
steps-IsLive_example =
    steps-IsLive boxing failed_write 0 started_storage
      (omega arith, (omega arith, (omega arith, tt)))
      (record { counted = omega arith; live = λ a b. absurd (let e : false ≡ true = b in cc) })

steps-IsBounded_example : IsBounded (steps boxing failed_write started_storage)
steps-IsBounded_example =
    steps-IsBounded boxing failed_write started_storage
      (record { low = omega arith; high = omega arith; delay = tt })

abbrev no_members : Sets
no_members key x = false

abbrev two_updates : List (Update String)
two_updates =
    appending "index-" "/node" ("n1" ∷ "n2" ∷ []) none
    ∷ removing "index-" "/node" ("n1" ∷ []) none
    ∷ []

updates-view_example :
    view true no_members (updates boxing two_updates started_storage)
    ≡ all_promised two_updates (view true no_members started_storage)
updates-view_example = updates-view true boxing no_members two_updates started_storage

get-set_example :
    (get boxing true "node-" "a"
        (some "reader")
        (set boxing "node-" "a" (str "x") none started_storage)
      ≡ ok (
          emit
            (delayed "reader" "a" (str "x"))
            (set boxing "node-" "a" (str "x") none started_storage)))
    × ((j : String)
        → str_append "node-" "a" ≢ j
        → lookup j (set boxing "node-" "a" (str "x") none started_storage).localstore
          ≡ lookup j started_storage.localstore)
get-set_example =
    get-set boxing boxing-IsLossless true "node-" "a" (str "x") none "reader" started_storage

abbrev holding_storage : Storage String
holding_storage = record started_storage { localstore = ("node-a", str "new") ∷ [] }

set_cb-Retries_example :
    Retries boxing "node-a"
      (kept (some "a") (str "old") (str "new"))
      (some "cb")
      holding_storage
      (set_cb "node-a" (bool false) (some "a") (str "old") (some "cb") holding_storage)
unfolding truthy lookup
set_cb-Retries_example =
    set_cb-Retries boxing "node-a" (bool false) (some "a") (str "old") (some "cb") holding_storage
      (str "new") refl refl

abbrev two_answers : Answers
two_answers = ("/a/b", bool true) ∷ ("/a", bool true) ∷ []

abbrev done : String
done = "done"

index_all-once_example : CalledOnce done true (index_all two_answers done ("/a" ∷ "/a/b" ∷ []))
unfolding covered distinct contains truthy
index_all-once_example = index_all-once done two_answers "/a" ("/a/b" ∷ []) refl refl
