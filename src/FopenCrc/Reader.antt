-- ===== src/FopenCrc/Reader.antt =====
-- The side of utils/fopen_crc.c that reads a file opened with "r". The file is its bytes and a place in
-- them. A call that fails with -1 is `io_error`; its callers hand that on. The variables _BK_BAD_XOR
-- and _BK_XOR_OK of the environment are not set. `scan` stands for the fscanf of the header.
use Prim.Native.Nat.{min}
use bksupport.Base.{
  ◌%◌, ℕ, zero, suc, ◌+◌, ◌-◌, ◌*◌, ◌/◌, ◌^◌, Bool, true, false, not, ◌&&◌, ◌||◌, [], ◌∷◌, ◌++◌,
  Option, none, some, Bytes, length, take, drop, replicate, ltb, leb, ◌==◌, if◌then◌else◌, Run, ok,
  fault, wild, no_fuel, io_error, ◌>>=◌, ◌>>◌,
}
use bksupport.FopenCrc.{assert, hdrsz, per_blk, xorsz, xor_into}

-- `rlen` is the length of `rbuf`
pub record Reader : Type 0 where
  pub file : Bytes
  pub pos : ℕ
  pub datasz : ℕ
  pub oldfmt : Bool
  pub filesz : Option ℕ
  pub offset : ℕ
  pub boff : ℕ
  pub seekoff : ℕ
  pub didseek : Bool
  pub do_xor : Bool
  pub chkxor : Bool
  pub xorchkd : Bool
  pub rbuf : Bytes
  pub rbuf_off : ℕ
  pub xor : Bytes

abbrev pub from_le : Bytes → ℕ
from_le [] = 0
from_le (b ∷ bs) = b + 256 * from_le bs

-- fopen_crc with the mode "r"
unfoldable pub open_read : (Bytes → Option (ℕ × ℕ)) → Bytes → Bool → Run Reader
open_read scan file chkxor = elim (scan file) [
  | none ↦ fault io_error
  | some (c, bits) ↦
      assert (c == b'C' || c == b'c')
      >> assert (ltb (2 ^ bits - per_blk) 65536)
      >> ok (record {
        file = file;
        pos = 0;
        datasz = 2 ^ bits - per_blk;
        oldfmt = c == b'C';
        filesz = none;
        offset = 0;
        boff = 0;
        seekoff = 0;
        didseek = true;
        do_xor = false;
        chkxor = chkxor;
        xorchkd = false;
        rbuf = [];
        rbuf_off = 0;
        xor = [];
      })
]

-- a short read ends in the "early eof" of the checksum
unfoldable pub fread : ℕ → Reader → Run (Reader × Bytes)
fread n fc =
    let bytes = take n (drop fc.pos fc.file) in
    if length bytes == n then ok (record fc { pos = fc.pos + n }, bytes) else fault io_error

-- the file, the checksum and the place in the xor block while a block comes in
pub record Intake : Type 0 where
  pub fc : Reader
  pub crc2 : ℕ
  pub index : ℕ

-- the products have 32 bits
unfoldable pub seek_block : Reader → Reader
seek_block fc =
    let n = (fc.offset + hdrsz) / fc.datasz % 4294967296 in
    let new_pos = if n == 0 then 0 else (n * fc.datasz + 4294967296 - hdrsz) % 4294967296 in
    if fc.boff == fc.offset
    then fc
    else if new_pos == fc.boff
    then fc
    else record fc { boff = new_pos; pos = n * (fc.datasz + per_blk) % 4294967296 }

unfoldable pub read_after_seek : Reader → Reader
read_after_seek fc =
    let at : Reader = seek_block (record fc { didseek = false }) in
    if at.boff == 0
    then record at { do_xor = true; seekoff = at.boff; xor = replicate (xorsz at.datasz) 0 }
    else record at { do_xor = false }

abbrev pub all_zero : Bytes → Bool
all_zero [] = true
all_zero (b ∷ bs) = if b == 0 then all_zero bs else false

-- behind the loop of crcRead
unfoldable pub end_read : Reader → Bytes → Run (Reader × Bytes)
end_read fc ret =
    let whole = length ret == 0 && (fc.do_xor && fc.seekoff == 0) in
    if whole
    then if all_zero fc.xor then ok (record fc { xorchkd = true }, ret) else fault io_error
    else ok (fc, ret)

-- the copy from the block that was read last
unfoldable pub saved_part : Reader → ℕ → Bytes
saved_part fc len =
    if leb fc.rbuf_off fc.offset
    then take (min len (length fc.rbuf - (fc.offset - fc.rbuf_off)))
        (drop (fc.offset - fc.rbuf_off) fc.rbuf)
    else []

-- the size is known, and the block begins more than `n` bytes behind it
abbrev pub is_behind : Option ℕ → ℕ → ℕ → Bool
is_behind none n boff = false
is_behind (some size) n boff = ltb (size + n) boff

-- the size, unless it is known
unfoldable pub with_size : Reader → ℕ → Reader
with_size fc size = record fc {
  filesz = elim fc.filesz [ none ↦ some size | some known ↦ some known ];
}

module _ (crc32c : ℕ → Bytes → ℕ) where
  unfoldable pub take_in : ℕ → Intake → Run (Intake × Bytes)
  take_in n i = do
    (fc, bytes) ← fread n i.fc
    xor ← if fc.do_xor then xor_into fc.xor i.index bytes else ok fc.xor
    let index = if fc.do_xor then i.index + n else i.index
    ok (record { fc = record fc { xor = xor }; crc2 = crc32c i.crc2 bytes; index = index }, bytes)

  -- a block and its checksum: the file behind it, its data and its length
  unfoldable pub raw_block : Reader → Run (Reader × Bytes × ℕ)
  raw_block fc = do
    let bsize = if fc.boff == 0 then fc.datasz - hdrsz else fc.datasz
    let start : Intake = record { fc = fc; crc2 = 0; index = 0 }
    (i₁, _) ← if fc.boff == 0 then take_in hdrsz start else ok (start, [])
    (i₂, old_len) ← if fc.oldfmt then take_in 2 i₁ else ok (i₁, [])
    (i₃, buf) ← take_in bsize i₂
    (i₄, len) ← if fc.oldfmt then ok (i₃, old_len) else take_in 2 i₃
    (fc₅, crc) ← fread 4 i₄.fc
    if i₄.crc2 == from_le crc then ok tt else fault io_error
    assert (not fc.do_xor || i₄.index == xorsz fc.datasz)
    ok (record fc₅ { boff = fc₅.boff + bsize }, buf, from_le len)

  -- the data of a block, none at the end; there the exclusive or is read, too
  unfoldable pub read_block : ℕ → Reader → Run (Reader × Bytes)
  read_block zero fc = fault no_fuel
  read_block (suc fuel) fc =
      let round : Run (Reader × Bytes) = do
        (fc₁, buf, len) ← raw_block fc
        let fc₂ = with_size fc₁ (fc₁.boff - length buf + len)
        let last = read_block fuel fc₂ >>= λ r. ok (r.0, [])
        let short = if len == 0 then last else ok (fc₂, take len buf)
        let long = if len == length buf then ok (fc₁, buf) else fault wild
        if is_behind fc.filesz 0 fc.boff
            then ok (fc₁, [])
            else (if ltb len (length buf) then short else long)
      in if is_behind fc.filesz fc.datasz fc.boff then ok (fc, []) else round

  -- the loop of crcRead; `ret` is what stands before `buf`
  unfoldable pub read_loop : ℕ → Reader → ℕ → Bytes → Run (Reader × Bytes)
  read_loop zero fc len ret = fault no_fuel
  read_loop (suc fuel) fc len ret =
      let part = saved_part fc len in
      let fc₁ : Reader = record fc { offset = fc.offset + length part } in
      let ret₁ = ret ++ part in
      let len₁ = len - length part in
      let refill : Run (Reader × Bytes) = do
        (fc₂, data₂) ← read_block 2 (record fc₁ { rbuf_off = fc₁.boff })
        let fc₃ : Reader = record fc₂ { rbuf = data₂ }
        let again = read_loop fuel fc₃ len₁ ret₁
        let ended = end_read fc₃ ret₁
        if length data₂ == 0 then ended else again
      in let direct : Run (Reader × Bytes) = do
        (fc₂, data₂) ← read_block 2 fc₁
        end_read (record fc₂ { offset = fc₂.offset + length data₂ }) (ret₁ ++ data₂)
        in if fc₁.offset == fc₁.boff && leb fc₁.datasz len₁
          then direct
          else if length ret₁ == 0
          then refill
          else end_read fc₁ ret₁

  unfoldable pub crc_read : Reader → ℕ → Run (Reader × Bytes)
  crc_read fc len =
      let start : Reader = if fc.didseek then record (read_after_seek fc) { rbuf = [] } else fc in
      read_loop (length fc.file + 2) start len []

  -- the reads of crcClose, with what it throws away
  unfoldable pub eat : ℕ → Reader → Run (Reader × Bytes)
  eat zero fc = fault no_fuel
  eat (suc fuel) fc = do
    (fc₁, bytes) ← crc_read fc fc.datasz
    let rest = eat fuel fc₁ >>= λ r. ok (r.0, bytes ++ r.1)
    if length bytes == 0 then ok (fc₁, []) else rest

  -- crcClose of a file that is read
  unfoldable pub close_read : Reader → Run (Unit {0})
  close_read fc =
      let again : Reader = record fc { offset = 0; didseek = true; filesz = none } in
      let checked = eat (length fc.file + 1) again >>= λ r. assert r.0.xorchkd in
      if fc.chkxor && not fc.xorchkd then checked else ok tt
