-- ===== src/Fmem/Write.antt =====
-- `fmemWrite` and `fmemRead` on the text of a file.
use bksupport.Base.{
  ℕ, ◌+◌, ◌-◌, ◌≤◌, ◌≡◌, refl, sym, ap, ◌∙◌, false, ◌&&◌, [], ◌++◌, map, Option, some, arith, Bytes,
  length, length-take, length-drop, take, drop, ltb, ◌==◌, if◌then◌else◌, Bool-cases, ok, Returns,
  inl, inr, ◌⊎◌,
}
use bksupport.Cells.Overwrite.{overwrite, read_all-part, take_past}
use bksupport.Cells.{Cells, read_all}
use bksupport.DataBlock.{DataBlock}
use bksupport.Fmem.Text.{FileIs}
use bksupport.Fmem.{Fmem, fmem_read}

-- The block with the bytes in it, its length not yet that of the text.
record Put (text : Bytes) (len : ℕ) (d : DataBlock) : Type 0 where
  spare : Cells ℕ
  cells_are : d.buf ≡ map some text ++ spare
  len_is : d.len ≡ len
  size_is : d.size ≡ length text + length spare

-- The outcome of a write.
pub record Written (text : Bytes) (fm : Fmem) (bytes : Bytes) (r : Fmem × Option ℕ) : Type 0 where
  pub count : r.1 ≡ some (length bytes)
  pub file : FileIs (overwrite text fm.offset bytes) r.0
  pub place : r.0.offset ≡ fm.offset + length bytes
  pub same_mode : r.0.writable ≡ fm.writable

-- The outcome of a read.
pub record WasRead (text : Bytes) (fm : Fmem) (len : ℕ) (r : Fmem × Bytes) : Type 0 where
  pub bytes : r.1 ≡ take len (drop fm.offset text)
  pub file : FileIs text r.0
  pub place : r.0.offset ≡ fm.offset + length r.1

-- fmemRead gives the bytes of the text from the offset on, as many as are asked for and are there, and
-- moves the offset behind them.
pub fmem_read-WasRead :
    (text : Bytes) (fm : Fmem) (len : ℕ)
    → FileIs text fm
    → Returns (fmem_read fm len) (WasRead text fm len)
unfolding fmem_read
fmem_read-WasRead text fm len f =
    let n = if ltb fm.d.len (len + fm.offset) then fm.d.len - fm.offset else len in
    let there : (ltb fm.d.len (len + fm.offset) && ltb fm.d.len fm.offset) ≡ false =
      ground (arith, f.inside, f.holds.len_is) in
    let cut : fm.offset + n ≤ length text = ground (arith, f.inside, f.holds.len_is) in
    let rest = length-drop fm.offset text in
    let same : take n (drop fm.offset text) ≡ take len (drop fm.offset text) =
      cut_same n rest (ground (arith, f.holds.len_is)) in
    let long : length (take n (drop fm.offset text)) ≡ n =
      omega (arith, cut, rest, length-take n (drop fm.offset text)) in
    let got : read_all fm.d.buf fm.offset n ≡ ok (take n (drop fm.offset text)) =
      ap (λ c. read_all c fm.offset n) f.holds.cells_are
      ∙ read_all-part text f.spare fm.offset f.inside n cut in
    elim (Bool-cases (n == 0)) [
      | inl z ↦
          rw (there, z)
            (
              (fm, []),
              refl,
              record { bytes = none_read n (ground arith) ∙ same; file = f; place = omega arith },
            )
      | inr z ↦
          rw (there, z, got)
            (
              (record fm { offset = fm.offset + n }, take n (drop fm.offset text)),
              refl,
              record {
                bytes = same;
                file = record { spare = f.spare; holds = f.holds; inside = cut };
                place = omega (arith, long);
              },
            )
    ]
  where
    none_read : (n : ℕ) → n ≡ 0 → [] ≡ take n (drop fm.offset text)
    none_read n e = rw e refl

    cut_same :
        (n : ℕ)
        → length (drop fm.offset text) ≡ length text - fm.offset
        → (n ≡ len) ⊎ ((length text - fm.offset ≤ n) × (n ≤ len))
        → take n (drop fm.offset text) ≡ take len (drop fm.offset text)
    cut_same n rest (inl e) = ap (λ r. take r (drop fm.offset text)) e
    cut_same n rest (inr (le, le')) =
        take_past n (drop fm.offset text) (omega arith)
        ∙ sym (take_past len (drop fm.offset text) (omega arith))
