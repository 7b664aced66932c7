-- ===== src/DataBlock.antt =====
-- lines/data.c: a block of bytes that grows. The buffer is a row of checked cells; `len` and `size` are
-- 32-bit numbers.
pub mod Append
use bksupport.Base.{
  ℕ, zero, suc, ◌+◌, ◌*◌, ◌%◌, List, replicate, Option, none, some, Bytes, length, Bool, true,
  false, ltb, leb, if◌then◌else◌, Run, ok, fault, no_fuel, assert_failed, ◌>>=◌, ◌>>◌, [],
}
use bksupport.Cells.{Cells, write, write_all, resize}

pub record DataBlock : Type 0 where
  pub buf : Cells ℕ
  pub len : ℕ
  pub size : ℕ

abbrev pub no_data : DataBlock
no_data = record { buf = []; len = 0; size = 0 }

abbrev pub word : ℕ
word = 4294967296

abbrev pub assert : Bool → Run (Unit {0})
assert true = ok tt
assert false = fault assert_failed

unfoldable pub data_set_size : DataBlock → ℕ → Run DataBlock
data_set_size d size = do
  assert (leb d.len size)
  ok (record d { buf = resize size d.buf; size = size })

-- `while (size < newlen) size *= 2`
unfoldable pub size_loop : ℕ → ℕ → ℕ → Run ℕ
size_loop zero size newlen = fault no_fuel
size_loop (suc fuel) size newlen =
    let rest = size_loop fuel (size * 2 % word) newlen in if ltb size newlen then rest else ok size

-- `2 << 30` and `3 << 30` as 32-bit numbers
unfoldable pub grown_size : ℕ → Run ℕ
grown_size newlen =
    if leb newlen 2147483648
    then size_loop 27 64 newlen
    else if ltb newlen 3221225472
    then ok 3221225472
    else assert (ltb newlen 4293918720) >> ok 4293918720

unfoldable pub data_resize : DataBlock → ℕ → Run DataBlock
data_resize d newlen =
    let grow = grown_size newlen >>= λ size. data_set_size d size in
    if ltb d.size newlen then grow else ok d

unfoldable pub data_append : DataBlock → Bytes → Run DataBlock
data_append d bytes = do
  let newlen = (d.len + length bytes) % word
  d₁ ← data_resize d ((newlen + 1) % word)
  filled ← write_all d₁.buf d₁.len bytes
  ended ← write filled newlen 0
  ok (record d₁ { buf = ended; len = newlen })
