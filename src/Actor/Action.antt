-- ===== src/Actor/Action.antt =====
-- Actions: `condition`, `guard` and `ActionResult` of calvin/actor/actor.py. The ports are an
-- interface, `Ports`, which a state of the actor and its connections fills; the body of an action
-- is code of the single actor, and so a parameter.
pub mod Reading
pub mod Writing
pub mod Outcome
use exjobb_calvin.Prelude.{
  ℕ, zero, suc, ◌+◌, String, Bool, true, false, ◌&&◌, ◌||◌, not, Option, none, some, List, [], ◌∷◌,
  ◌++◌, map, length, ltb, leb, ◌==◌, if◌then◌else◌, Result, ok, err, ◌>>=◌, ◌>>◌, index_error,
  type_error, exception_token, invalid_production,
}
use exjobb_calvin.Prelude.Dict.{Dict, insert, lookup}
use exjobb_calvin.Token.{Token, token, is_exception}
use exjobb_calvin.Token.Values.{Value, Values, list, nil, cons}

-- A value, or a token that is passed on as it is.
pub data Datum : Type 0 where
  raw : Value → Datum
  tok : Token → Datum

-- One datum, or the list of them that a port with a count above 1 takes.
pub data Data : Type 0 where
  one : Datum → Data
  many : List Datum → Data

pub record ActionResult : Type 0 where
  pub did_fire : Bool
  pub tokens_consumed : ℕ
  pub tokens_produced : ℕ
  pub production : List Data

-- ActionResult(did_fire, production)
unfoldable pub action_result : Bool → List Data → ActionResult
action_result fired production = record {
  did_fire = fired;
  tokens_consumed = 0;
  tokens_produced = 0;
  production = production;
}

-- `merge`: the production of the other is discarded.
unfoldable pub merge : ActionResult → ActionResult → ActionResult
merge a b = record a {
  did_fire = a.did_fire || b.did_fire;
  tokens_consumed = a.tokens_consumed + b.tokens_consumed;
  tokens_produced = a.tokens_produced + b.tokens_produced;
}

-- The ports of an actor, by name, in a state `S` of the actor and all it is connected to.
-- A name that is no port of the actor raises KeyError.
pub record Ports (S : Type 0) : Type 0 where
  pub in_available : String → S → Result ℕ
  pub out_available : String → S → Result ℕ
  pub peek : String → S → Result (Token × S)
  pub commit : String → S → Result S
  pub rewind : String → S → Result S
  pub put : String → Token → S → Result S

-- (port, #tokens consumed or produced)
abbrev pub Specs : Type 0
Specs = List (String × ℕ)

-- What the decorator fixes for one action.
pub record Contract : Type 0 where
  pub action_input : Specs
  pub action_output : Specs

unfoldable pub total : Specs → ℕ
total [] = 0
total ((_, n) ∷ ps) = n + total ps

-- What an action returns, with the state it leaves.
abbrev pub Body : Type 0 → Type 0
Body S = List Data → S → Result (ActionResult × S)

-- An actor's handler is also given the places of the exceptions in the input of each port.
abbrev pub Handler : Type 0 → Type 0
Handler S = List Data → Dict (List ℕ) → S → Result (ActionResult × S)

-- `exception_handler` of the class Actor.
unfoldable pub exception_handler : {S : Type 0} → Handler S
exception_handler args exceptions s = err exception_token

-- all([available(portname) >= repeat for (portname, repeat) in ports])
unfoldable pub enough : {S : Type 0} → (String → S → Result ℕ) → Specs → S → Result Bool
enough available [] s = ok true
enough available ((p, n) ∷ ps) s = do
  k ← available p s
  rest ← enough available ps s
  ok (leb n k && rest)

-- ex.setdefault(portname, []).append(i)
unfoldable pub note : String → ℕ → Dict (List ℕ) → Dict (List ℕ)
note p i ex = elim (lookup p ex) [
  | none ↦ insert p (i ∷ []) ex
  | some is ↦ insert p (is ++ i ∷ []) ex
]

-- `for i in range(repeat)`, from `i`, with `n` left.
unfoldable pub peek_tokens :
    {S : Type 0}
    → Ports S
    → String
    → (i n : ℕ) → Dict (List ℕ)
    → S
    → Result (List Datum × Dict (List ℕ) × S)
peek_tokens ports p i zero ex s = ok ([], ex, s)
peek_tokens ports p i (suc n) ex s = do
  (t, s') ← ports.peek p s
  (ds, ex', s'') ←
      peek_tokens ports p (i + 1) n (if is_exception t.class then note p i ex else ex) s'
  ok ((if is_exception t.class then tok t else raw t.value) ∷ ds, ex', s'')

-- tokenlist if len(tokenlist) > 1 else tokenlist[0]
unfoldable pub as_argument : List Datum → Result Data
as_argument [] = err index_error
as_argument (d ∷ []) = ok (one d)
as_argument (d ∷ e ∷ ds) = ok (many (d ∷ e ∷ ds))

unfoldable pub arguments :
    {S : Type 0} → Ports S → Specs → Dict (List ℕ) → S → Result (List Data × Dict (List ℕ) × S)
arguments ports [] ex s = ok ([], ex, s)
arguments ports ((p, n) ∷ ps) ex s = do
  (ds, ex', s') ← peek_tokens ports p 0 n ex s
  arg ← as_argument ds
  (args, ex'', s'') ← arguments ports ps ex' s'
  ok (arg ∷ args, ex'', s'')

-- The elements of a list that a token holds.
unfoldable pub elements : Values → List Datum
elements nil = []
elements (cons v vs) = raw v ∷ elements vs

-- The data in a list that an action returns for one port. Anything but a list is an error here:
-- the text and the dict, which Python would take apart too, are not modelled.
unfoldable pub items : Data → Result (List Datum)
items (many ds) = ok ds
items (one (raw (list vs))) = ok (elements vs)
items (one _) = err type_error

-- `valid_production`: the loop over the ports and their data.
unfoldable pub lengths_match : Specs → List Data → Result Bool
lengths_match ((_, n) ∷ ps) (d ∷ ds) =
    if ltb 1 n
    then (do xs ← items d; if length xs == n then lengths_match ps ds else ok false)
    else lengths_match ps ds
lengths_match _ _ = ok true

unfoldable pub valid_production : Specs → ActionResult → Result Bool
valid_production ps r =
    if r.did_fire && (length ps == length r.production)
    then lengths_match ps r.production
    else ok false

-- A list of values as one value. A token in it makes a value that no coder can write.
unfoldable pub as_values : List Datum → Result Values
as_values [] = ok nil
as_values (raw v ∷ ds) = do vs ← as_values ds; ok (cons v vs)
as_values (tok t ∷ ds) = err type_error

-- data if isinstance(data, Token) else Token(data)
unfoldable pub as_token : Datum → Token
as_token (tok t) = t
as_token (raw v) = record { class = token; value = v }

-- retval if repeat > 1 else [retval], each as a token
unfoldable pub outgoing : ℕ → Data → Result (List Token)
outgoing n d = if ltb 1 n then (do xs ← items d; ok (map as_token xs)) else elim d [
  | one x ↦ ok (as_token x ∷ [])
  | many xs ↦ (do vs ← as_values xs; ok (record { class = token; value = list vs } ∷ []))
]

unfoldable pub put_tokens : {S : Type 0} → Ports S → String → List Token → S → Result S
put_tokens ports p [] s = ok s
put_tokens ports p (t ∷ ts) s = do s' ← ports.put p t s; put_tokens ports p ts s'

unfoldable pub produce : {S : Type 0} → Ports S → Specs → List Data → S → Result S
produce ports ((p, n) ∷ ps) (d ∷ ds) s = do
  ts ← outgoing n d
  s' ← put_tokens ports p ts s
  produce ports ps ds s'
produce ports _ _ s = ok s

-- `for (portname, _) in action_input`, with `commit_peek_as_read` or `peek_rewind`.
unfoldable pub each : {S : Type 0} → (String → S → Result S) → Specs → S → Result S
each op [] s = ok s
each op ((p, _) ∷ ps) s = do s' ← op p s; each op ps s'

-- The commit of an action: it fired, and its production is valid.
unfoldable pub settle :
    {S : Type 0} → Ports S → Contract → ActionResult → S → Result (ActionResult × S)
settle ports c r s = do
  s' ← each ports.commit c.action_input s
  s'' ← produce ports c.action_output r.production s'
  ok (
    record r { tokens_consumed = total c.action_input; tokens_produced = total c.action_output },
    s'',
  )

-- Otherwise the reads are taken back, and a fired action with an invalid production raises.
unfoldable pub withdraw :
    {S : Type 0} → Ports S → Contract → ActionResult → S → Result (ActionResult × S)
withdraw ports c r s = do
  s' ← each ports.rewind c.action_input s
  if r.did_fire then err invalid_production else ok (r, s')

unfoldable pub finish :
    {S : Type 0} → Ports S → Contract → ActionResult → S → Result (ActionResult × S)
finish ports c r s = do
  valid ← valid_production c.action_output r
  if r.did_fire && valid then settle ports c r s else withdraw ports c r s

-- The action itself, or the handler when there are exceptions in its input.
unfoldable pub react :
    {S : Type 0} → Body S → Handler S → List Data → Dict (List ℕ) → S → Result (ActionResult × S)
react body handler args [] s = body args s
react body handler args (e ∷ ex) s = handler args (e ∷ ex) s

unfoldable pub perform :
    {S : Type 0} → Ports S → Contract → Body S → Handler S → S → Result (ActionResult × S)
perform ports c body handler s = do
  (args, ex, s') ← arguments ports c.action_input [] s
  (r, s'') ← react body handler args ex s'
  finish ports c r s''

unfoldable pub condition :
    {S : Type 0} → Ports S → Contract → Body S → Handler S → S → Result (ActionResult × S)
condition ports c body handler s = do
  input_ok ← enough ports.in_available c.action_input s
  output_ok ← enough ports.out_available c.action_output s
  if not input_ok || not output_ok
      then ok (action_result false [], s)
      else perform ports c body handler s

-- The guard has the action's arguments, and decides whether the body runs.
unfoldable pub guard : {S : Type 0} → (List Data → S → Result (Bool × S)) → Body S → Body S
guard check body args s = do
  (guard_ok, s') ← check args s
  if guard_ok then body args s' else ok (action_result false [], s')
