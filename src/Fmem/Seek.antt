-- ===== src/Fmem/Seek.antt =====
-- `fmemSeek` and `ftrunc` on the text of a file, and calls in a row.
use bksupport.Base.{
  ℕ, ◌+◌, ◌-◌, ◌≤◌, ◌<◌, ◌≡◌, refl, sym, ap, subst, true, false, ◌&&◌, [], ◌++◌, Option, none, some,
  arith, Bytes, length, take, replicate, ltb, leb, ◌==◌, if◌then◌else◌, if-false, Bool-cases, ok,
  fault, assert_failed, ◌>>=◌, Returns, inl, inr, ◌⊎◌,
}
use bksupport.Cells.{Cells}
use bksupport.DataBlock.Append.{Holds, data_resize-Resized}
use bksupport.DataBlock.{DataBlock, no_data}
use bksupport.Fmem.Text.{FileIs, resize_to-Resized}
use bksupport.Fmem.{
  Fmem, min_size, fmem, fmem_read, Whence, Distance, forward, backward, seek_base, seek_target,
  seek_to, fmem_seek,
}

-- The outcome of a move to a place in the text.
pub record Moved (text : Bytes) (fm : Fmem) (offset : ℕ) (r : Fmem × Option ℕ) : Type 0 where
  pub answer : r.1 ≡ some offset
  pub file : FileIs text r.0
  pub place : r.0.offset ≡ offset
  pub same_mode : r.0.writable ≡ fm.writable

seek_to-Moved :
    (text : Bytes) (fm : Fmem) (offset : ℕ)
    → FileIs text fm
    → offset ≤ length text
    → (fm.writable ≡ true) ⊎ (offset < length text)
    → length text + 128 < 4293918720
    → Returns (seek_to fm offset) (Moved text fm offset)
unfolding seek_to
seek_to-Moved text fm offset f inside mode small = elim (Bool-cases (fm.offset == offset)) [
  | inl e ↦ rw e (
    (fm, some offset),
    refl,
    record { answer = refl; file = f; place = ground arith; same_mode = refl },
  )
  | inr e ↦ elim (Bool-cases (leb fm.d.len offset)) [
    | inr before ↦
        rw (e, before)
          (
            (record fm { offset = offset }, some offset),
            refl,
            record {
              answer = refl;
              file = record { spare = f.spare; holds = f.holds; inside = inside };
              place = refl;
              same_mode = refl;
            },
          )
    | inl at_end ↦
        let end : offset ≡ length text = ground (arith, f.holds.len_is) in
        let (d, grown, r) =
          resize_to-Resized text f.spare fm.d (offset + min_size) f.holds (omega arith) in
        elim mode [
          | inr low ↦ absurd (omega arith)
          | inl w ↦
              rw (e, at_end, grown)
                (subst
                  (λ b.
                    Returns
                      (if b
                        then ok (
                          record fm { d = record d { len = offset }; offset = offset },
                          some offset,
                        )
                        else ok (record fm { offset = offset }, none))
                      (Moved text fm offset))
                  (sym w)
                  (
                    (record fm { d = record d { len = offset }; offset = offset }, some offset),
                    refl,
                    record {
                      answer = refl;
                      file = record {
                        spare = r.spare;
                        holds = record {
                          cells_are = r.holds.cells_are;
                          len_is = end;
                          size_is = r.holds.size_is;
                        };
                        inside = inside;
                      };
                      place = refl;
                      same_mode = refl;
                    },
                  ))
        ]
  ]
]

-- Where a call of seek is to go, if not before the start.
abbrev pub Target : ℕ → Distance → ℕ → Type 0
Target base (forward n) offset = offset ≡ base + n
Target base (backward n) offset = offset + n ≡ base

seek_target_lem :
    (base offset : ℕ) (distance : Distance)
    → Target base distance offset
    → seek_target base distance ≡ ok offset
unfolding seek_target
seek_target_lem base offset (forward n) e = ap ok (sym e)
seek_target_lem base offset (backward n) e =
    let fits : leb n base ≡ true = ground (arith, e) in
    let same : base - n ≡ offset = omega (arith, e) in rw (fits, same) refl

-- fmemSeek to a place in the text, or to its end on a file that can be written, moves the offset there
-- and leaves the text alone.
pub fmem_seek-Moved :
    (text : Bytes) (fm : Fmem) (distance : Distance) (whence : Whence) (offset : ℕ)
    → FileIs text fm
    → Target (seek_base fm whence) distance offset
    → offset ≤ length text
    → (fm.writable ≡ true) ⊎ (offset < length text)
    → length text + 128 < 4293918720
    → Returns (fmem_seek fm distance whence) (Moved text fm offset)
unfolding fmem_seek
fmem_seek-Moved text fm distance whence offset f t inside mode small =
    rw (seek_target_lem (seek_base fm whence) offset distance t)
      (seek_to-Moved text fm offset f inside mode small)

-- On a read-only file a seek behind the end of the text fails, but the offset has moved, so that the
-- next read fails its assertion; a seek to the end fails, too.
pub seek_to_past :
    (text : Bytes) (fm : Fmem) (offset len : ℕ)
    → FileIs text fm
    → fm.writable ≡ false
    → fm.offset < length text
    → length text ≤ offset
    → (seek_to fm offset ≡ ok (record fm { offset = offset }, none))
      × (length text < offset → fmem_read (record fm { offset = offset }) len ≡ fault assert_failed)
unfolding seek_to fmem_read
seek_to_past text fm offset len f w before past =
    let moved : (fm.offset == offset) ≡ false = ground arith in
    let at_end : leb fm.d.len offset ≡ true = ground (arith, f.holds.len_is) in
    (
      rw (moved, at_end) (if-false fm.writable _ _ w),
      λ behind.
          let negative : (ltb fm.d.len (len + offset) && ltb fm.d.len offset) ≡ true =
            ground (arith, f.holds.len_is) in
          rw negative refl,
    )

-- The text after ftrunc.
abbrev pub truncated : Bytes → ℕ → Bytes
truncated text offset = take offset text ++ replicate (offset - length text) 0

-- The outcome of a change of the length.
pub record Cut (text : Bytes) (fm : Fmem) (offset : ℕ) (fm' : Fmem) : Type 0 where
  pub file : FileIs (truncated text offset) fm'
  pub place : fm'.offset ≡ (if ltb offset fm.offset then offset else fm.offset)

-- A new file is empty, and can be written at its start.
pub fmem-FileIs : Returns fmem (λ fm. FileIs [] fm × (fm.offset ≡ 0) × (fm.writable ≡ true))
unfolding fmem
fmem-FileIs =
    let (d, run, r) = data_resize-Resized [] [] no_data 1 empty (omega arith) in
    rw run (
      record { d = d; offset = 0; writable = true },
      refl,
      (record { spare = r.spare; holds = r.holds; inside = omega arith }, refl, refl),
    )
  where
    empty : Holds [] [] no_data
    empty = record { cells_are = refl; len_is = refl; size_is = refl }
