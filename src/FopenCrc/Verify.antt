-- ===== src/FopenCrc/Verify.antt =====
-- crcCheckVerify of utils/fopen_crc.c, the scan behind a checksum that does not agree. What it prints is
-- the result.
use bksupport.Base.{
  ◌*◌, ltb, ◌-◌, ℕ, zero, suc, ◌+◌, ◌/◌, ◌%◌, Bool, not, ◌&&◌, List, [], ◌∷◌, Bytes, length, take,
  drop, replicate, ◌==◌, if◌then◌else◌, Run, ok, ◌>>=◌, ◌>>◌,
}
use bksupport.FopenCrc.{assert, per_blk, xorsz, xor_into}
use bksupport.FopenCrc.Reader.{from_le}

-- the place of a byte, what it is and what it should be
pub record Correction : Type 0 where
  pub place : ℕ
  pub was : ℕ
  pub should : ℕ

pub data Report : Type 0 where
  no_problem too_many : Report
  correctable : List Correction → Report

unfoldable pub corrections : ℕ → Bytes → Bytes → List Correction
corrections place [] xor = []
corrections place (b ∷ buf) [] = []
corrections place (b ∷ buf) (x ∷ xor) =
    let rest = corrections (place + 1) buf xor in
    if not (b == x) then record { place = place; was = b; should = x } ∷ rest else rest

-- the exclusive or of the good blocks, the errors, and the place of the last one
pub record Scanned : Type 0 where
  pub xor : Bytes
  pub errors : ℕ
  pub first_error : ℕ

-- a number of blocks as an int; a negative one gives no round
abbrev pub block_count : ℕ → ℕ
block_count n = if ltb (n % 4294967296) 2147483648 then n % 4294967296 else 0

module _ (crc32c : ℕ → Bytes → ℕ) (file : Bytes) (datasz : ℕ) where
  unfoldable pub is_good : ℕ → Bool
  is_good place =
      let crc = take 4 (drop (place + xorsz datasz) file) in
      length crc == 4 && (from_le crc == crc32c 0 (take (xorsz datasz) (drop place file)))

  -- `rounds` blocks from `place` on
  unfoldable pub scan_blocks : ℕ → ℕ → Scanned → Run Scanned
  scan_blocks zero place st = ok st
  scan_blocks (suc rounds) place st =
      let next = place + (datasz + per_blk) in
      let good : Run Scanned = do
        xor ← xor_into st.xor 0 (take (xorsz datasz) (drop place file))
        scan_blocks rounds next (record st { xor = xor })
      in let bad =
          scan_blocks rounds next
            (record st { errors = st.errors + 1; first_error = place % 4294967296 }) in
        if is_good place then good else bad

  -- An int that is negative is no place for fseek; the buffer then keeps the block that was read last.
  unfoldable pub check_verify : Run Report
  check_verify = do
    assert (length file % (datasz + per_blk) == 0)
    let n = block_count (length file / (datasz + per_blk))
    st ← scan_blocks n 0 (record { xor = replicate (xorsz datasz) 0; errors = 0; first_error = 0 })
    let last = take (xorsz datasz) (drop ((n - 1) * (datasz + per_blk)) file)
    let buf =
        if ltb st.first_error 2147483648
        then take (xorsz datasz) (drop st.first_error file)
        else last
    let found =
        if st.errors == 1 then correctable (corrections st.first_error buf st.xor) else too_many
    ok (if st.errors == 0 then no_problem else found)
