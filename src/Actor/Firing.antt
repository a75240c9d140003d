-- ===== src/Actor/Firing.antt =====
-- calvin/actor/actor.py: the loop `fire` and the authorization that it checks before each round.
pub mod Totals
use exjobb_calvin.Prelude.{
  ℕ, ◌-◌, zero, suc, String, Bool, true, false, not, ◌&&◌, ◌||◌, Option, none, some, List, [], ◌∷◌,
  if◌then◌else◌, Result, ok, err, ◌>>=◌, ◌>>◌, out_of_fuel, name_error,
}
use exjobb_calvin.Actor.Action.{ActionResult, action_result, merge}

-- A plugin's check: none when it raises, or when no plugin has the id.
-- The plugins come from the decision that the actor was given, flat or one list for each
-- requirement.
pub data Plugin (P : Type 0) : Type 0 where
  plugin : P → Plugin P
  plugins : List P → Plugin P

module _ {P : Type 0} (authorization_check : P → Option Bool) where
  -- `check_authorization_plugin_list`: an exception is a refusal, whatever was found before it.
  unfoldable pub results_ok : Bool → List P → Bool
  results_ok found [] = found
  results_ok found (p ∷ ps) = elim (authorization_check p) [
    | none ↦ false
    | some b ↦ results_ok (found || b) ps
  ]

  unfoldable pub check_authorization_plugin_list : List P → Bool
  check_authorization_plugin_list ps = results_ok false ps

  unfoldable pub any_list : List (Plugin P) → Bool
  any_list [] = false
  any_list (plugin _ ∷ ps) = any_list ps
  any_list (plugins _ ∷ ps) = true

  -- A single plugin among lists: it is a dict, whose keys have no "id" of their own.
  unfoldable pub all_lists : List (Plugin P) → Bool
  all_lists [] = true
  all_lists (plugin _ ∷ ps) = false
  all_lists (plugins xs ∷ ps) = check_authorization_plugin_list xs && all_lists ps

  unfoldable pub singles : List (Plugin P) → List P
  singles [] = []
  singles (plugin p ∷ ps) = p ∷ singles ps
  singles (plugins _ ∷ ps) = singles ps

  -- No plugins: the actor is authorized.
  unfoldable pub check_authorization_decision : List (Plugin P) → Bool
  check_authorization_decision [] = true
  check_authorization_decision (p ∷ ps) =
      if any_list (p ∷ ps)
      then all_lists (p ∷ ps)
      else check_authorization_plugin_list (singles (p ∷ ps))

-- An action as the loop sees it: its name, and the decorated method.
pub record Action (S : Type 0) : Type 0 where
  pub action_name : String
  pub run : S → Result (ActionResult × S)

-- `action_result.did_fire` after the loop over the actions. Without actions the name is not bound.
unfoldable pub goes_on : Option ActionResult → Result Bool
goes_on none = err name_error
goes_on (some r) = ok r.did_fire

module _ {S : Type 0} (authorized : S → Bool) (fired : String → ActionResult → S → S) where
  -- `for action_method in action_priority`, with the total so far. It stops behind the first
  -- action that fires, which is reported. The answer has the last action's result, none when the
  -- actor has no actions.
  unfoldable pub round :
      List (Action S)
      → Option ActionResult
      → ActionResult
      → S
      → Result (Option ActionResult × ActionResult × S)
  round [] last total s = ok (last, total, s)
  round (a ∷ actions) last total s = do
    (r, s') ← a.run s
    if r.did_fire
        then ok (some r, merge total r, fired a.action_name r s')
        else round actions (some r) (merge total r) s'

  -- `while True`, on fuel.
  unfoldable pub rounds :
      (fuel : ℕ)
      → List (Action S)
      → Option ActionResult
      → ActionResult
      → S
      → Result (ActionResult × S)
  rounds zero actions last total s = err out_of_fuel
  rounds (suc fuel) actions last total s = if not (authorized s) then ok (total, s) else (do
    (last', total', s') ← round actions last total s
    on ← goes_on last'
    if on then rounds fuel actions last' total' s' else ok (total', s'))

  unfoldable pub fire : (fuel : ℕ) → List (Action S) → S → Result (ActionResult × S)
  fire fuel actions s = rounds fuel actions none (action_result false []) s
