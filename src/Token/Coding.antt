-- ===== src/Token/Coding.antt =====
-- Decoding what was encoded gives the token back.
use exjobb_calvin.Prelude.{Option, none, some, ◌≡◌, refl, ok}
use exjobb_calvin.Token.Values.{Value, get_or}
use exjobb_calvin.Token.{
  TokenClass, token, exception_token, eos_token, Token, Coder, encode, decode, from_repr,
  repr_for_coder,
}

-- The coder, if one is given, decodes what it encoded.
abbrev pub IsLossless : Option Coder → Type 0
IsLossless none = Unit
IsLossless (some coder) = (v : Value) → coder.decode (coder.encode v) ≡ ok v

from_repr-repr_for_coder : (t : Token) → from_repr (repr_for_coder t) ≡ ok t
unfolding from_repr repr_for_coder get_or
from_repr-repr_for_coder t = go t.class t.value
  where
    go :
        (c : TokenClass) (v : Value)
        → from_repr (repr_for_coder (record { class = c; value = v }))
          ≡ ok (record { class = c; value = v })
    go token v = refl
    go exception_token v = refl
    go eos_token v = refl

-- Decoding an encoded token, with the same coder on both sides and a coder that loses nothing,
-- or with no coder, gives the token back: its class and its value.
pub decode-encode :
    (coder : Option Coder) (t : Token) → IsLossless coder → decode coder (encode coder t) ≡ ok t
unfolding decode encode
decode-encode none t h = from_repr-repr_for_coder t
decode-encode (some coder) t h = rw (h (repr_for_coder t)) (from_repr-repr_for_coder t)
