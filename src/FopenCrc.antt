-- ===== src/FopenCrc.antt =====
-- utils/fopen_crc.c: files in blocks with a checksum each, and a block that is the exclusive or of the
-- others. Here are the numbers, the header, the choice of a block size and the side that writes.
-- `crc x buf` stands for `crc32c(x, buf, len)`. The file is the bytes written to it.
pub mod Reader
pub mod Verify
pub mod Xor
pub mod Format
pub mod Written
pub mod Closed
pub mod Intake
pub mod ReadBack
pub mod RoundTrip
pub mod WriteRead
pub mod Repair
pub mod Corrected
use Prim.Native.Nat.{bit_xor, min}
use bksupport.Base.{
  ℕ, zero, suc, ◌+◌, ◌-◌, ◌*◌, ◌/◌, ◌%◌, ◌^◌, Bool, true, false, not, ◌&&◌, ◌||◌, List, [], ◌∷◌,
  ◌++◌, Bytes, codes, length, take, drop, replicate, ltb, leb, ◌==◌, if◌then◌else◌, Run, ok, fault,
  wild, no_fuel, assert_failed, ◌>>=◌, ◌>>◌,
}

abbrev pub assert : Bool → Run (Unit {0})
assert true = ok tt
assert false = fault assert_failed

-- HDRSZ and PER_BLK
abbrev pub hdrsz : ℕ
hdrsz = 8

abbrev pub per_blk : ℕ
per_blk = 6

-- numbers in the byte order of the file
abbrev pub le16 : ℕ → Bytes
le16 n = n % 256 ∷ n / 256 % 256 ∷ []

abbrev pub le32 : ℕ → Bytes
le32 n = n % 256 ∷ n / 256 % 256 ∷ n / 65536 % 256 ∷ n / 16777216 % 256 ∷ []

-- `sprintf(hdr, "CRc %03d\n", bits)`, for up to three digits
abbrev pub header : ℕ → Bytes
header bits =
    codes "CRc " ++ (b'0' + bits / 100) ∷ (b'0' + bits / 10 % 10) ∷ (b'0' + bits % 10) ∷ 10 ∷ []

-- `xor[c++] ^= b` for each byte
unfoldable pub xor_into : Bytes → ℕ → Bytes → Run Bytes
xor_into xs zero [] = ok xs
xor_into [] c bs = fault wild
xor_into (x ∷ xs) zero (b ∷ bs) = do ys ← xor_into xs zero bs; ok (bit_xor x b ∷ ys)
xor_into (x ∷ xs) (suc c) bs = do ys ← xor_into xs c bs; ok (x ∷ ys)

-- `<` on ints of 32 bits, given as numbers below 2 ^ 32
abbrev pub int_less : ℕ → ℕ → Bool
int_less a b = ltb ((a + 2147483648) % 4294967296) ((b + 2147483648) % 4294967296)

-- the rounds of best_datasz from `bits` on; an int that overflows wraps around
unfoldable pub best_loop : ℕ → ℕ → ℕ → ℕ → ℕ → ℕ
best_loop zero bits est best bestsz = best
best_loop (suc rounds) bits est best bestsz =
    let sz = 2 ^ bits in
    let nblocks = (est / (sz - per_blk) + 1) % 4294967296 in
    let out = (nblocks * per_blk + sz) % 4294967296 in
    let better = best_loop rounds (bits + 1) est bits out in
    let worse = best_loop rounds (bits + 1) est best bestsz in
    if best == 0 || int_less out bestsz then better else worse

unfoldable pub best_datasz : ℕ → ℕ
unfolding best_loop
best_datasz est = best_loop 11 6 est 0 0

-- the part of the state that writing reads or changes
pub record Writer : Type 0 where
  pub out : Bytes
  pub bits : ℕ
  pub datasz : ℕ
  pub offset : ℕ
  pub boff : ℕ
  pub crc : ℕ
  pub xor : Bytes
  pub writepartial : Bool
  pub didseek : Bool

-- fopen_crc with the mode "w"
unfoldable pub open_write : ℕ → Run Writer
unfolding best_datasz
open_write est = do
  let bits = best_datasz est
  assert (ltb (2 ^ bits - per_blk) 65536)
  ok (record {
    out = [];
    bits = bits;
    datasz = 2 ^ bits - per_blk;
    offset = 0;
    boff = 0;
    crc = 0;
    xor = [];
    writepartial = false;
    didseek = true;
  })

-- XORSZ
abbrev pub xorsz : ℕ → ℕ
xorsz datasz = datasz + 2

-- on a file that is only written, where the seek is to the start
unfoldable pub write_after_seek : Writer → Run Writer
write_after_seek fc =
    assert (fc.offset == 0)
    >> ok (record fc { didseek = false; xor = replicate (xorsz fc.datasz) 0 })

module _ (crc32c : ℕ → Bytes → ℕ) where
  unfoldable pub write_header : Writer → Run Writer
  unfolding xor_into
  write_header fc = do
    xor ← xor_into fc.xor 0 (header fc.bits)
    ok (record fc {
      crc = crc32c fc.crc (header fc.bits);
      out = fc.out ++ header fc.bits;
      xor = xor;
      writepartial = true;
    })

  -- the length and the checksum behind a full block, whose bytes end at `c` of the xor block
  unfoldable pub end_block : Writer → ℕ → ℕ → Run Writer
  unfolding xor_into
  end_block fc bsize c = do
    assert (fc.offset == fc.boff + bsize)
    xor ← xor_into fc.xor c (le16 bsize)
    assert (c + 2 == xorsz fc.datasz)
    let crc = crc32c fc.crc (le16 bsize)
    ok (record fc {
      boff = fc.boff + bsize;
      out = fc.out ++ (le16 bsize ++ le32 crc);
      crc = 0;
      xor = xor;
      writepartial = false;
    })

  -- the bytes `part` of the buffer go to the block, at `c` of the xor block
  unfoldable pub put_part : Writer → Bytes → ℕ → Run Writer
  unfolding xor_into
  put_part fc part c = do
    xor ← xor_into fc.xor c part
    ok (record fc {
      crc = crc32c fc.crc part;
      out = fc.out ++ part;
      offset = fc.offset + length part;
      xor = xor;
    })

  -- while (len)
  unfoldable pub write_loop : ℕ → Writer → Bytes → ℕ → ℕ → Run Writer
  unfolding put_part end_block
  write_loop zero fc buf bsize c = fault no_fuel
  write_loop (suc fuel) fc [] bsize c = ok fc
  write_loop (suc fuel) fc (b ∷ buf) bsize c = do
    let n = min (length (b ∷ buf)) (bsize - (fc.offset - fc.boff))
    fc₁ ← put_part fc (take n (b ∷ buf)) c
    let full =
        end_block fc₁ bsize (c + n) >>= λ fc₂. write_loop fuel fc₂ (drop n (b ∷ buf)) fc₂.datasz 0
    let more = write_loop fuel (record fc₁ { writepartial = true }) (drop n (b ∷ buf)) bsize (c + n)
    if leb bsize (fc₁.offset - fc₁.boff) then full else more

  unfoldable pub crc_write : Writer → Bytes → Run Writer
  unfolding write_after_seek write_header write_loop
  crc_write fc buf = do
    fc₁ ← if fc.didseek then write_after_seek fc else ok fc
    fc₂ ← if fc₁.offset == 0 && not fc₁.writepartial then write_header fc₁ else ok fc₁
    let bsize = if fc₂.boff == 0 then fc₂.datasz - hdrsz else fc₂.datasz
    let c = if fc₂.boff == 0 then fc₂.offset - fc₂.boff + hdrsz else fc₂.offset - fc₂.boff
    write_loop (length buf + 1) fc₂ buf bsize c

  -- crcClose of a file that is written: the file
  unfoldable pub close_write : Writer → Run Bytes
  unfolding crc_write xor_into
  close_write fc₀ = do
    fc ← crc_write fc₀ []
    let len = fc.offset - fc.boff
    let n = if fc.boff == 0 then fc.datasz - len - hdrsz else fc.datasz - len
    xor ← xor_into fc.xor fc.datasz (le16 len)
    let crc = crc32c (crc32c fc.crc (replicate n 0)) (le16 len)
    ok (fc.out ++ (replicate n 0 ++ (le16 len ++ (le32 crc ++ (xor ++ le32 (crc32c 0 xor))))))

  -- a call for each buffer
  unfoldable pub write_bufs : Writer → List Bytes → Run Writer
  unfolding crc_write
  write_bufs fc [] = ok fc
  write_bufs fc (buf ∷ bufs) = do fc' ← crc_write fc buf; write_bufs fc' bufs

  unfoldable pub write_file : ℕ → List Bytes → Run Bytes
  unfolding open_write write_bufs close_write
  write_file est bufs = do fc ← open_write est; fc' ← write_bufs fc bufs; close_write fc'
