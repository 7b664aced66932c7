-- ===== src/Fmem/Text.antt =====
-- What a file in memory holds.
use bksupport.Base.{ℕ, ◌%◌, ◌≤◌, ◌<◌, ◌≡◌, arith, Bytes, length, Returns}
use bksupport.Cells.{Cells}
use bksupport.DataBlock.Append.{Holds, Resized, data_resize-Resized}
use bksupport.DataBlock.{DataBlock, word}
use bksupport.Fmem.{Fmem, resize_to}

-- The file holds the text, and its offset is a place in it or its end.
pub record FileIs (text : Bytes) (fm : Fmem) : Type 0 where
  pub spare : Cells ℕ
  pub holds : Holds text spare fm.d
  pub inside : fm.offset ≤ length text

pub resize_to-Resized :
    (text : Bytes) (spare : Cells ℕ) (d : DataBlock) (newlen : ℕ)
    → Holds text spare d
    → newlen < 4293918720
    → Returns (resize_to d newlen) (Resized text newlen)
resize_to-Resized text spare d newlen h small =
    let e : newlen % word ≡ newlen = omega arith in
    rw e (data_resize-Resized text spare d newlen h small)
