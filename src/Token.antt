-- ===== src/Token.antt =====
-- calvin/runtime/north/calvin_token.py: tokens, and their form on the wire.
pub mod Values
pub mod Coding
use exjobb_calvin.Prelude.{
  String, Bool, true, false, Option, none, some, ◌≡◌, str_eq, if◌then◌else◌, Result, ok, err,
  type_error, attribute_error, ◌>>=◌,
}
use Values.{Value, str, list, dict, Fields, end, field, get_or}

-- The class of a token object.
pub data TokenClass : Type 0 where
  token exception_token eos_token : TokenClass

pub record Token : Type 0 where
  pub class : TokenClass
  pub value : Value

-- isinstance(t, ExceptionToken): `EOSToken` is a subclass of `ExceptionToken`.
unfoldable pub is_exception : TokenClass → Bool
is_exception token = false
is_exception exception_token = true
is_exception eos_token = true

-- self.__class__.__name__
unfoldable pub class_name : TokenClass → String
class_name token = "Token"
class_name exception_token = "ExceptionToken"
class_name eos_token = "EOSToken"

-- A coder of the caller: any object with `encode` and `decode`.
pub record Coder : Type 0 where
  pub encode : Value → Value
  pub decode : Value → Result Value

unfoldable pub repr_for_coder : Token → Value
unfolding class_name
repr_for_coder t = dict (field "type" (str (class_name t.class)) (field "data" t.value end))

unfoldable pub encode : Option Coder → Token → Value
unfolding repr_for_coder
encode none t = repr_for_coder t
encode (some coder) t = coder.encode (repr_for_coder t)

-- The class that a decoded type names. A list or a dict is no key of the table.
unfoldable pub class_of : Value → Result TokenClass
class_of (str s) =
    if str_eq s "Token"
    then ok token
    else if str_eq s "ExceptionToken"
    then ok exception_token
    else if str_eq s "EOSToken"
    then ok eos_token
    else ok exception_token
class_of (list _) = err type_error
class_of (dict _) = err type_error
class_of _ = ok exception_token

-- `representation.get(…)` and the construction of the token.
unfoldable pub from_repr : Value → Result Token
unfolding class_of
from_repr (dict fields) = do
  class ← class_of (get_or "type" fields (str ""))
  ok (record { class = class; value = get_or "data" fields (str "Bad Token") })
from_repr _ = err attribute_error

unfoldable pub decode : Option Coder → Value → Result Token
unfolding from_repr
decode none v = from_repr v
decode (some coder) v = coder.decode v >>= from_repr
