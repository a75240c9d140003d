-- ===== src/Storage/Index.antt =====
-- calvin/runtime/north/storage.py: the index, which keeps a value in a set for each level of a
-- path, and the removal of a node from it.
pub mod Levels
pub mod Once
pub mod Deleting
use exjobb_calvin.Prelude.{
  ℕ, zero, suc, ◌+◌, String, Bool, true, false, not, ◌&&◌, Option, none, some, List, [], ◌∷◌, ◌++◌,
  length, take, if◌then◌else◌, str_eq, str_append,
}
use exjobb_calvin.Prelude.Int.{ℤ, pos, negsuc}
use exjobb_calvin.Prelude.Dict.Names.{contains}
use exjobb_calvin.Token.{Coder}
use exjobb_calvin.Token.Values.{Value, bool, truthy}
use exjobb_calvin.Storage.{Storage, Event, called, called_bare}
use exjobb_calvin.Storage.Sets.{append, remove_items, get_concat}
use text.Mathlib.Text.{starts_with}

-- An index is given by its levels, or as one text.
pub data IndexPath : Type 0 where
  path_text : String → IndexPath
  levels : List String → IndexPath

-- "/".join(items)
unfoldable pub join : List String → String
join [] = ""
join (x ∷ []) = x
join (x ∷ y ∷ ys) = str_append x (str_append "/" (join (y ∷ ys)))

-- items[n:]
unfoldable pub drop : ℕ → List String → List String
drop zero xs = xs
drop (suc n) [] = []
drop (suc n) (x ∷ xs) = drop n xs

-- ['/'+'/'.join(items[:l]) for l in range(first, first + count)]
unfoldable pub level_strings : (first count : ℕ) → List String → List String
level_strings first zero items = []
level_strings first (suc count) items =
    str_append "/" (join (take first items)) ∷ level_strings (suc first) count items

-- The root takes the place of the levels that it is made of.
unfoldable pub rooted : ℕ → List String → List String
unfolding join drop
rooted root_prefix_level items = join (take root_prefix_level items) ∷ drop root_prefix_level items

-- `split`: re.split of the text without its leading slashes, at the slashes that are not escaped.
unfoldable pub index_strings : (split : String → List String) → IndexPath → ℕ → List String
unfolding rooted level_strings
index_strings split (path_text s) n =
    let items = rooted n (split s) in level_strings 1 (length items) items
index_strings split (levels xs) n = let items = rooted n xs in level_strings 1 (length items) items

-- index_items.remove(x), of the first that is equal
unfoldable pub remove_first : String → List String → List String
remove_first x [] = []
remove_first x (y ∷ ys) = if str_eq y x then ys else y ∷ remove_first x ys

module _ {C : Type 0} where
  -- if not value and index_items: …
  unfoldable pub index_failed :
      (key : String) (value : Value) → C → List String → List String × List (Event C)
  index_failed key value org_cb [] = ([], [])
  index_failed key value org_cb (i ∷ is) =
      if truthy value then (i ∷ is, []) else ([], called org_cb (some key) (bool false) ∷ [])

  -- if not index_items: org_cb(key=org_key, value=True)
  unfoldable pub index_done : (key : String) → C → List String → List (Event C)
  index_done key org_cb [] = called org_cb (some key) (bool true) ∷ []
  index_done key org_cb (i ∷ is) = []

  -- The list of the levels that were not answered, shared by the callbacks of all levels.
  unfoldable pub index_cb :
      (key : String) (value : Value) → C → List String → List String × List (Event C)
  unfolding index_failed index_done remove_first
  index_cb key value org_cb index_items =
      let (items, events) = index_failed key value org_cb index_items in
      if contains key items
      then (remove_first key items, events ++ index_done key org_cb (remove_first key items))
      else (items, events)

  module _ (c : Coder) where
    -- `cb`: the callback index_cb with its arguments, if the caller has a callback
    unfoldable pub append_levels : List String → (value : String) → Option C → Storage C → Storage C
    unfolding append
    append_levels [] value cb s = s
    append_levels (i ∷ is) value cb s =
        append_levels is value cb (append c "index-" i (value ∷ []) cb s)

    unfoldable pub remove_levels : List String → (value : String) → Option C → Storage C → Storage C
    unfolding remove_items
    remove_levels [] value cb s = s
    remove_levels (i ∷ is) value cb s =
        remove_levels is value cb (remove_items c "index-" i (value ∷ []) cb s)

    unfoldable pub add_index :
        (split : String → List String)
        → IndexPath
        → (value : String) (root_prefix_level : ℕ) → Option C
        → Storage C
        → Storage C
    unfolding index_strings append_levels
    add_index split index value root_prefix_level cb s =
        append_levels (index_strings split index root_prefix_level) value cb s

    unfoldable pub remove_index :
        (split : String → List String)
        → IndexPath
        → (value : String) (root_prefix_level : ℕ) → Option C
        → Storage C
        → Storage C
    unfolding index_strings remove_levels
    remove_index split index value root_prefix_level cb s =
        remove_levels (index_strings split index root_prefix_level) value cb s

  -- The key of an index, with its leading slash.
  unfoldable pub get_index : (raises : Bool) → IndexPath → Option C → Storage C → Storage C
  unfolding join get_concat
  get_index raises index cb s =
      let joined : String = elim index [ path_text t ↦ t | levels xs ↦ join xs ] in
      get_concat raises "index-" (if starts_with joined "/" then joined else str_append "/" joined)
        cb s

-- counter[0] - 1, which may fall below zero
unfoldable pub pred_ℤ : ℤ → ℤ
pred_ℤ (pos zero) = negsuc 0
pred_ℤ (pos (suc n)) = pos n
pred_ℤ (negsuc n) = negsuc (suc n)

-- counter[0] == 0, counter[0] > 0
unfoldable pub is_zero : ℤ → Bool
is_zero (pos zero) = true
is_zero _ = false

unfoldable pub is_positive : ℤ → Bool
is_positive (pos (suc n)) = true
is_positive _ = false

-- The callbacks of a node's removal from its indexes share a counter. Each answers the new counter
-- and whether it calls the caller's callback.
unfoldable pub delete_node_cb : ℤ → ℤ × Bool
unfolding pred_ℤ is_zero
delete_node_cb counter = (pred_ℤ counter, is_zero (pred_ℤ counter))

unfoldable pub delete_node_timeout_cb : ℤ → ℤ × Bool
unfolding is_positive
delete_node_timeout_cb counter = (counter, is_positive counter)

module _ {C : Type 0} (c : Coder) (split : String → List String) where
  unfoldable pub remove_indexes :
      List IndexPath → (node_id : String) → Option C → Storage C → Storage C
  unfolding remove_index
  remove_indexes [] node_id cb s = s
  remove_indexes (i ∷ is) node_id cb s =
      remove_indexes is node_id cb (remove_index c split i node_id 2 cb s)
