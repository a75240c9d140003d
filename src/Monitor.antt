-- ===== src/Monitor.antt =====
-- calvin/runtime/south/monitor.py: the endpoints that the scheduler's loop lets communicate.
use exjobb_calvin.Prelude.{
  Bool, false, ◌||◌, String, str_eq, List, [], ◌∷◌, ◌++◌, if◌then◌else◌, Result, ok, err,
  value_error, ◌>>=◌,
}

-- Endpoints by name, in the order of their registration.
pub record Monitor : Type 0 where
  pub out_endpoints : List String

unfoldable pub register_out_endpoint : String → Monitor → Monitor
register_out_endpoint e m = record m { out_endpoints = m.out_endpoints ++ e ∷ [] }

-- list.remove, which raises ValueError
unfoldable pub remove_first : String → List String → Result (List String)
remove_first e [] = err value_error
remove_first e (x ∷ xs) =
    let rest = remove_first e xs in if str_eq x e then ok xs else (do ys ← rest; ok (x ∷ ys))

unfoldable pub unregister_out_endpoint : String → Monitor → Result Monitor
unregister_out_endpoint e m = do
  es ← remove_first e m.out_endpoints
  ok (record m { out_endpoints = es })

module _ {S : Type 0} (communicate : String → S → Result (Bool × S)) where
  -- The list of the answers is built before `any` reads it: every endpoint communicates.
  unfoldable pub communicate_all : List String → S → Result (Bool × S)
  communicate_all [] s = ok (false, s)
  communicate_all (e ∷ es) s = do
    (sent, s') ← communicate e s
    (rest, s'') ← communicate_all es s'
    ok (sent || rest, s'')

  unfoldable pub loop : Monitor → S → Result (Bool × S)
  loop m s = communicate_all m.out_endpoints s
