-- ===== src/Fifo/Serial.antt =====
-- calvin/runtime/north/fifo.py: the state that a ring is migrated with.
use exjobb_calvin.Prelude.{ℕ, String, none, List, [], ◌∷◌, ◌≡◌, refl, Result, ok, ◌>>=◌}
use exjobb_calvin.Prelude.Dict.{Dict}
use exjobb_calvin.Token.{Token, encode, decode}
use exjobb_calvin.Token.Coding.{decode-encode}
use exjobb_calvin.Token.Values.{Value}
use exjobb_calvin.Fifo.{Fifo}

pub record FifoState : Type 0 where
  pub fifo : List Value
  pub size : ℕ
  pub readers : List String
  pub write_pos : ℕ
  pub read_pos : Dict ℕ
  pub tentative_read_pos : Dict ℕ

unfoldable pub encode_all : List Token → List Value
encode_all [] = []
encode_all (t ∷ ts) = encode none t ∷ encode_all ts

unfoldable pub decode_all : List Value → Result (List Token)
decode_all [] = ok []
decode_all (v ∷ vs) = do t ← decode none v; ts ← decode_all vs; ok (t ∷ ts)

unfoldable pub state : Fifo → FifoState
state f = record {
  fifo = encode_all f.fifo;
  size = f.size;
  readers = f.readers;
  write_pos = f.write_pos;
  read_pos = f.read_pos;
  tentative_read_pos = f.tentative_read_pos;
}

-- Every field is replaced, whatever the ring was.
unfoldable pub set_state : FifoState → Fifo → Result Fifo
set_state s f = do
  tokens ← decode_all s.fifo
  ok (record {
    fifo = tokens;
    size = s.size;
    readers = s.readers;
    write_pos = s.write_pos;
    read_pos = s.read_pos;
    tentative_read_pos = s.tentative_read_pos;
  })

pub decode_all-encode_all : (ts : List Token) → decode_all (encode_all ts) ≡ ok ts
unfolding decode_all encode_all
decode_all-encode_all [] = refl
decode_all-encode_all (t ∷ ts) = rw (decode-encode none t tt) (rw (decode_all-encode_all ts) refl)

pub set_state-state : (f g : Fifo) → set_state (state f) g ≡ ok f
unfolding set_state state
set_state-state f g = rw (decode_all-encode_all f.fifo) refl
