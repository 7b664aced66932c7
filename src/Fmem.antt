-- ===== src/Fmem.antt =====
-- utils/fmem.c: a file in memory, as its calls of read, write and seek from stdio see it. The buffer that
-- stdio writes in place is the block itself, so bytes of a direct write are in the block before the call.
-- A file of `fmem_buf` is read-only.
pub mod Text
pub mod Write
pub mod Seek
use bksupport.Base.{
  ℕ, zero, suc, ◌+◌, ◌-◌, ◌%◌, List, [], replicate, Option, none, some, Bytes, length, Bool, true,
  false, ◌&&◌, ltb, leb, ◌==◌, if◌then◌else◌, Run, ok, fault, assert_failed, ◌>>=◌, ◌>>◌, map, ◌++◌,
  ◌∷◌,
}
use bksupport.Cells.{Cells, write, write_all, read_all, resize}
use bksupport.DataBlock.{DataBlock, no_data, word, assert, data_resize}

pub record Fmem : Type 0 where
  pub d : DataBlock
  pub offset : ℕ
  pub writable : Bool

abbrev pub min_size : ℕ
min_size = 128

unfoldable pub fmem : Run Fmem
fmem = do d ← data_resize no_data 1; ok (record { d = d; offset = 0; writable = true })

-- the bytes of the caller and the null behind them
unfoldable pub fmem_buf : Bytes → Fmem
fmem_buf text = record {
  d = record { buf = map some text ++ some 0 ∷ []; len = length text; size = length text + 1 };
  offset = 0;
  writable = false;
}

-- `data_resize` takes 32 bits of the length
abbrev pub resize_to : DataBlock → ℕ → Run DataBlock
resize_to d newlen = data_resize d (newlen % word)

-- the block after `len` bytes came in at the offset
unfoldable pub put_bytes : Fmem → Bool → Bytes → Run DataBlock
put_bytes fm direct bytes =
    let newoff = fm.offset + length bytes in
    let stored = write_all fm.d.buf fm.offset bytes >>= λ cells.
    assert (leb newoff fm.d.size) >> ok (record fm.d { buf = cells }) in
    let room = if ltb fm.d.size newoff then resize_to fm.d (newoff + min_size) else ok fm.d in
    let copied =
      room >>= λ d. write_all d.buf fm.offset bytes >>= λ cells. ok (record d { buf = cells }) in
    if direct then stored else copied

-- the call on a file that can be written
unfoldable pub write_block : Fmem → Bool → Bytes → Run (Fmem × Option ℕ)
write_block fm direct bytes = do
  let newoff = fm.offset + length bytes
  d₁ ← put_bytes fm direct bytes
  let d₂ : DataBlock = record d₁ { len = if ltb d₁.len newoff then newoff else d₁.len }
  d₃ ← if ltb (d₂.size - newoff) min_size then resize_to d₂ (d₂.len + min_size) else ok d₂
  ok (record fm { d = d₃; offset = newoff }, some (length bytes))

-- the number of bytes, or -1
unfoldable pub fmem_write : Fmem → Bool → Bytes → Run (Fmem × Option ℕ)
fmem_write fm direct bytes = if fm.writable then write_block fm direct bytes else ok (fm, none)

-- `newlen` is an int: past the end it is negative
unfoldable pub fmem_read : Fmem → ℕ → Run (Fmem × Bytes)
fmem_read fm len =
    let newlen = if ltb fm.d.len (len + fm.offset) then fm.d.len - fm.offset else len in
    let negative = ltb fm.d.len (len + fm.offset) && ltb fm.d.len fm.offset in
    let copy : Run (Fmem × Bytes) = do
      bytes ← read_all fm.d.buf fm.offset newlen
      ok (record fm { offset = fm.offset + newlen }, bytes)
    in if negative then fault assert_failed else if newlen == 0 then ok (fm, []) else copy

pub data Whence : Type 0 where
  seek_set seek_cur seek_end : Whence

-- a distance forward or backward
pub data Distance : Type 0 where
  forward : ℕ → Distance
  backward : ℕ → Distance

abbrev pub seek_base : Fmem → Whence → ℕ
seek_base fm seek_set = 0
seek_base fm seek_cur = fm.offset
seek_base fm seek_end = fm.d.len

-- the place, if it is not negative
unfoldable pub seek_target : ℕ → Distance → Run ℕ
seek_target base (forward n) = ok (base + n)
seek_target base (backward n) = assert (leb n base) >> ok (base - n)

-- the file after the call, and the place or -1
unfoldable pub seek_to : Fmem → ℕ → Run (Fmem × Option ℕ)
seek_to fm offset =
    let moved : Fmem = record fm { offset = offset } in
    let extended : Run (Fmem × Option ℕ) = do
      d ← resize_to fm.d (offset + min_size)
      ok (record moved { d = record d { len = offset } }, some offset)
    in if fm.offset == offset
      then ok (fm, some offset)
      else if leb fm.d.len offset
      then (if fm.writable then extended else ok (moved, none))
      else ok (moved, some offset)

unfoldable pub fmem_seek : Fmem → Distance → Whence → Run (Fmem × Option ℕ)
fmem_seek fm distance whence = seek_target (seek_base fm whence) distance >>= seek_to fm

-- new bytes up to the offset are null
unfoldable pub zero_extend : DataBlock → ℕ → Run DataBlock
zero_extend d offset = do
  d₁ ← resize_to d (offset + 1)
  cells ← write_all d₁.buf d.len (replicate (offset - d.len) 0)
  ok (record d₁ { buf = cells })

-- the branch for a file in memory
unfoldable pub cut_file : Fmem → ℕ → Run Fmem
cut_file fm offset = do
  d₁ ← if ltb fm.d.len offset then zero_extend fm.d offset else ok fm.d
  ok (record fm {
    d = record d₁ { len = offset };
    offset = if ltb offset fm.offset then offset else fm.offset;
  })

-- The flush fails on a file that is read-only. The file, and whether the call returns 0.
unfoldable pub ftrunc : Fmem → ℕ → Run (Fmem × Bool)
unfolding cut_file
ftrunc fm offset =
    let done = cut_file fm offset >>= λ cut. ok (cut, true) in
    if fm.writable then done else ok (fm, false)

-- the text, behind which is a null unless the file is read-only
unfoldable pub fmem_peek : Fmem → Run (Fmem × Bytes)
fmem_peek fm = do
  let ended = (do
    d ← resize_to fm.d (fm.d.len + 1)
    cells ← write d.buf d.len 0
    ok (record d { buf = cells }))
  d₁ ← if fm.writable then ended else ok fm.d
  text ← read_all d₁.buf 0 d₁.len
  ok (record fm { d = d₁ }, text)

unfoldable pub fmem_dup : Fmem → Run Bytes
fmem_dup fm = read_all fm.d.buf 0 fm.d.len

-- the text, or the null pointer for a file that is read-only
unfoldable pub fmem_close : Fmem → Run (Option Bytes)
fmem_close fm =
    let closed : Run (Option Bytes) = do
      cells ← write (resize (fm.d.len + 1) fm.d.buf) fm.d.len 0
      text ← read_all cells 0 fm.d.len
      ok (some text)
    in if fm.writable then closed else ok none
