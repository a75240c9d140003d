-- ===== src/Storage/Sets/Acknowledged.antt =====
-- calvin/runtime/north/storage.py: answers that come after further changes.
use exjobb_calvin.Prelude.{
  String, Option, none, some, List, [], ◌≡◌, true, false, arith, str_append, ap, ◌∙◌, refl,
}
use exjobb_calvin.Prelude.Dict.{lookup, lookup-remove, str_eq_refl, lookup-insert_self}
use exjobb_calvin.Token.{Coder}
use exjobb_calvin.Token.Values.{Value, truthy}
use exjobb_calvin.Storage.{Changes, Storage}
use exjobb_calvin.Storage.Sets.{append, append_cb, appended}
use exjobb_calvin.Storage.Sets.Changed.{append-sets, append_cb-sets, without_added}
use exjobb_calvin.Prelude.Dict.Names.{discard_all-nil}

module _ {C : Type 0} where
  -- A confirmed append of a key with nothing to be removed leaves nothing held for the key.
  append_cb-lookup :
      (key : String) (value : Value) (org_key : Option String) (cb : Option C) (s : Storage C)
      (ch : Changes)
      → truthy value ≡ true
      → lookup key s.localstore_sets ≡ some ch
      → ch.removed ≡ []
      → lookup key (append_cb key value org_key cb s).localstore_sets ≡ none
  unfolding without_added
  append_cb-lookup key value org_key cb s ch t h e =
      rw append_cb-sets (ground (arith, lookup-remove key key s.localstore_sets, str_eq_refl key))

  append_cb-failed :
      (key : String) (value : Value) (org_key : Option String) (cb : Option C) (s : Storage C)
      → truthy value ≡ false
      → (append_cb key value org_key cb s).localstore_sets ≡ s.localstore_sets
  append_cb-failed key value org_key cb s f = rw append_cb-sets (rw f refl)

appended-removed :
    (first second : List String) → (appended second (some (appended first none))).removed ≡ []
unfolding appended
appended-removed first second = discard_all-nil second

module _ {C : Type 0} (c : Coder) where
  append-lookup :
      (prefix key : String) (value : List String) (cb : Option C) (s : Storage C)
      → lookup (str_append prefix key) (append c prefix key value cb s).localstore_sets
        ≡ some (appended value (lookup (str_append prefix key) s.localstore_sets))
  append-lookup prefix key value cb s = rw append-sets (lookup-insert_self _ _ _)

  -- Two appends to the set of a key for which nothing is held, then the confirmation of the first,
  -- then the failure of the second: nothing is held for the key, so the items of the second are lost.
  pub append_cb-forgets :
      (prefix key : String) (first second : List String) (done failed : Value) (cb cb' : Option C)
      (s : Storage C)
      → truthy done ≡ true
      → truthy failed ≡ false
      → lookup (str_append prefix key) s.localstore_sets ≡ none
      → lookup
          (str_append prefix key)
          (append_cb (str_append prefix key) failed (some key) cb' (
            append_cb
              (str_append prefix key)
              done
              (some key)
              cb
              (append c prefix key second cb' (append c prefix key first cb s)))).localstore_sets
        ≡ none
  append_cb-forgets prefix key first second done failed cb cb' s d f h =
      let once = append c prefix key first cb s in
      let twice = append c prefix key second cb' once in
      let held : lookup (str_append prefix key) twice.localstore_sets
          ≡ some (appended second (some (appended first none))) =
        append-lookup prefix key second cb' once
        ∙ ap (λ o. some (appended second o))
            (append-lookup prefix key first cb s ∙ ap (λ o. some (appended first o)) h) in
      ap (lookup (str_append prefix key)) (append_cb-failed _ failed (some key) cb' _ f)
      ∙ append_cb-lookup _ done (some key) cb twice _ d held (appended-removed first second)
