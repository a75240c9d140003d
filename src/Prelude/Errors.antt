-- ===== src/Prelude/Errors.antt =====
-- Python's exceptions as values: an operation that may raise returns a `Result`.
use mathlib.Core.Path.{◌≡◌, refl}
use mathlib.Core.Logic.{◌⊎◌, inl, inr}

-- One constructor for each exception that the modelled code raises or lets through.
pub data Error : Type 0 where
  -- raised by the language: a missing key, a modulus of zero, a bad value,
  -- a key that cannot be hashed, a method that the object lacks
  key_error zero_division value_error index_error type_error attribute_error name_error : Error
  -- "User id already in use", "User id not found"
  user_error : Error
  -- "No reader", "Unknown reader"
  no_reader : Error
  -- "FIFO full when writing to port"
  fifo_full : Error
  -- "Invalid transition", "Invalid status"
  invalid_transition invalid_status : Error
  -- "ExceptionToken NOT HANDLED"
  exception_token : Error
  -- "invalid production"
  invalid_production : Error
  -- raise Exception(…)
  exception_raised : Error
  -- not an exception: a loop of the model that ran out of its fuel
  out_of_fuel : Error

-- What a call gives: its value, or the exception it ends with.
pub data Result {κ} (X : Type κ) : Type κ where
  ok : (value : X) → Result X
  err : (exception : Error) → Result X

abbrev pub ◌>>=◌ {κ ν} : {X : Type κ} {Y : Type ν} → Result X → (X → Result Y) → Result Y
(ok x) >>= next = next x
(err problem) >>= next = err problem

abbrev pub ◌>>◌ {κ ν} : {X : Type κ} {Y : Type ν} → Result X → Result Y → Result Y
first >> second = first >>= λ _. second

infixl 5 ◌>>=◌ ◌>>◌
-- Both parts of a chain that gave a value gave one.
pub >>=-eq-ok {κ ν} :
    {X : Type κ} {Y : Type ν} (first : Result X) (next : X → Result Y) {y : Y}
    → (first >>= next) ≡ ok y
    → (x : X) × (first ≡ ok x) × (next x ≡ ok y)
>>=-eq-ok (ok x) next chain = (x, refl, chain)
>>=-eq-ok (err problem) next chain = cc

pub ok-injective {ℓ} : {A : Type ℓ} (a b : A) → ok a ≡ ok b → a ≡ b
ok-injective a b e = cc

-- Two results of one call are the same.
pub ok_unique {ℓ} : {A : Type ℓ} {m : Result A} (a b : A) → m ≡ ok a → m ≡ ok b → a ≡ b
ok_unique a b e f = ok-injective a b (cc)

-- Inversion of a failed bind.
pub >>=-eq-err {ℓ κ} :
    {A : Type ℓ} {B : Type κ} (m : Result A) (f : A → Result B) {e : Error}
    → (m >>= f) ≡ err e
    → (m ≡ err e) ⊎ ((a : A) × (m ≡ ok a) × (f a ≡ err e))
>>=-eq-err (ok a) f h = inr (a, refl, h)
>>=-eq-err (err e) f h = inl (cc)
