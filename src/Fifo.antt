-- ===== src/Fifo.antt =====
-- calvin/runtime/north/fifo.py: a ring of tokens with one writer and several readers, each with
-- a committed and a tentative position. Positions only grow, and are taken modulo the size at
-- each access. `N` is the field `size`.
pub mod WellFormed
pub mod Operations
pub mod Streams
pub mod Runs
pub mod History
pub mod Modular
pub mod Membership
pub mod Consume
pub mod Cursor
pub mod Serial
use exjobb_calvin.Prelude.{
  ℕ, ◌+◌, ◌-◌, ◌*◌, ◌%◌, String, Bool, true, false, not, Option, none, some, List, [], get_elem?,
  set, replicate, ltb, ◌==◌, if◌then◌else◌, Result, ok, err, no_reader, zero_division, value_error,
  index_error, key_error, ◌>>=◌, ◌>>◌,
}
use exjobb_calvin.Prelude.Int.{ℤ, pos, sub_ℕ}
use exjobb_calvin.Prelude.Dict
use exjobb_calvin.Prelude.Dict.{Dict, insert, get, del}
use exjobb_calvin.Prelude.Dict.Least.{least}
use exjobb_calvin.Prelude.Dict.Names.{contains, add, discard}
use exjobb_calvin.Token.{Token, token}
use exjobb_calvin.Token.Values.{int}

pub record Fifo : Type 0 where
  pub fifo : List Token
  pub size : ℕ
  pub readers : List String
  pub write_pos : ℕ
  pub read_pos : Dict ℕ
  pub tentative_read_pos : Dict ℕ

unfoldable pub init : ℕ → Fifo
init length = record {
  fifo = replicate length (record { class = token; value = int (pos 0) });
  size = length;
  readers = [];
  write_pos = 0;
  read_pos = [];
  tentative_read_pos = [];
}

-- The smallest committed position, 0 if there is no reader.
abbrev pub last_readpos : Fifo → ℕ
last_readpos f = least f.read_pos

-- `len(fifo)`: a negative length raises ValueError.
unfoldable pub count : Fifo → Result ℕ
count f =
    if ltb f.write_pos (last_readpos f) then err value_error else ok (f.write_pos - last_readpos f)

unfoldable pub add_reader : String → Fifo → Fifo
add_reader reader f = if contains reader f.readers then f else record f {
  read_pos = insert reader 0 f.read_pos;
  tentative_read_pos = insert reader 0 f.tentative_read_pos;
  readers = add reader f.readers;
}

unfoldable pub remove_reader : String → Fifo → Result Fifo
remove_reader reader f = do
  read_pos ← del reader f.read_pos
  tentative ← del reader f.tentative_read_pos
  ok (record f {
    read_pos = read_pos;
    tentative_read_pos = tentative;
    readers = discard reader f.readers;
  })

-- `% 0` raises.
unfoldable pub can_write : Fifo → Result Bool
can_write f =
    if f.size == 0
    then err zero_division
    else ok (not ((f.write_pos + 1) % f.size == last_readpos f % f.size))

unfoldable pub write : Token → Fifo → Result (Bool × Fifo)
write data' f = do
  writable ← can_write f
  ok (
      if writable
      then (
        true,
        record f { fifo = set f.fifo (f.write_pos % f.size) data'; write_pos = f.write_pos + 1 },
      )
      else (false, f))

-- Python's `%` of a difference that may be negative: the difference is first raised by a multiple
-- of the size.
unfoldable pub sub_mod : ℕ → ℕ → ℕ → ℕ
sub_mod a b n = (a + n * b - b) % n

unfoldable pub available_slots : Fifo → Result ℕ
available_slots f =
    if f.size == 0
    then err zero_division
    else ok (f.size - sub_mod f.write_pos (last_readpos f) f.size - 1)

-- "if reader not in self.readers: raise"
unfoldable pub require_reader : String → Fifo → Result (Unit {0})
require_reader reader f = if contains reader f.readers then ok tt else err no_reader

unfoldable pub available_tokens : String → Fifo → Result ℤ
available_tokens reader f = do
  require_reader reader f
  tentative ← get reader f.tentative_read_pos
  ok (sub_ℕ f.write_pos tentative)

unfoldable pub can_read : String → Fifo → Result Bool
can_read reader f = do
  require_reader reader f
  tentative ← get reader f.tentative_read_pos
  ok (not (tentative == f.write_pos))

-- `self.fifo[pos % self.N]`, which raises if the size is 0 or the list is shorter than the size.
unfoldable pub slot : ℕ → Fifo → Result Token
slot position f =
    if f.size == 0
    then err zero_division
    else elim (get_elem? f.fifo (position % f.size)) [ none ↦ err index_error | some t ↦ ok t ]

-- The token at the tentative position, and one step on.
unfoldable pub take_one : String → Fifo → Result (Option Token × Fifo)
take_one reader f = do
  position ← get reader f.tentative_read_pos
  t ← slot position f
  ok (some t, record f { tentative_read_pos = insert reader (position + 1) f.tentative_read_pos })

unfoldable pub read : String → Fifo → Result (Option Token × Fifo)
read reader f = do
  require_reader reader f
  readable ← can_read reader f
  if readable then take_one reader f else ok (none, f)

unfoldable pub commit_reads : String → Bool → Fifo → Result Fifo
commit_reads reader true f = do
  tentative ← get reader f.tentative_read_pos
  ok (record f { read_pos = insert reader tentative f.read_pos })
commit_reads reader false f = do
  committed ← get reader f.read_pos
  ok (record f { tentative_read_pos = insert reader committed f.tentative_read_pos })

unfoldable pub rollback_reads : String → Fifo → Result Fifo
rollback_reads reader f = commit_reads reader false f

unfoldable pub commit_one_read : String → Bool → Fifo → Result Fifo
commit_one_read reader commit f = do
  committed ← get reader f.read_pos
  tentative ← get reader f.tentative_read_pos
  ok (
      if ltb committed tentative
      then (if commit
          then record f { read_pos = insert reader (committed + 1) f.read_pos }
          else record f { tentative_read_pos = insert reader (tentative - 1) f.tentative_read_pos })
      else f)
