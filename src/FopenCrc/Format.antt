-- ===== src/FopenCrc/Format.antt =====
-- The layout of a file in blocks, as the comment at the top of utils/fopen_crc.c has it.
use bksupport.Base.{
  ℕ, ◌+◌, ◌-◌, ◌<◌, ◌≤◌, ◌≡◌, refl, sym, ap, ◌∙◌, List, [], ◌∷◌, ◌++◌, append_assoc, arith, Bytes,
  length, length-append, replicate, length-replicate,
}
use bksupport.FopenCrc.{le16, le32}
use bksupport.FopenCrc.Xor.{xor_sum, zeros}

-- What the code relies on of crc32c: it can go on from the value for the bytes before, and its
-- value has 32 bits.
pub record Checksum : Type 0 where
  pub crc : ℕ → Bytes → ℕ
  pub crc-nil : crc 0 [] ≡ 0
  pub crc-append : (x : ℕ) (a b : Bytes) → crc (crc x a) b ≡ crc x (a ++ b)
  pub crc_bound : (a : Bytes) → crc 0 a < 4294967296

abbrev pub concat : List Bytes → Bytes
concat [] = []
concat (buf ∷ bufs) = buf ++ concat bufs

-- The blocks, without their checksums, of a stream of which the first `h` bytes are no data: full
-- ones with `d` bytes and a length, and one that is not full, padded with nulls.
pub data Blocks (d : ℕ) : ℕ → Bytes → List Bytes → Type 0 where
  last :
      (h : ℕ) (s : Bytes)
      → length s < d
      → Blocks d h s ((s ++ (replicate (d - length s) 0 ++ le16 (length s - h))) ∷ [])
  full :
      (h : ℕ) (s rest : Bytes) (ps : List Bytes)
      → length s ≡ d
      → Blocks d 0 rest ps
      → Blocks d h (s ++ rest) ((s ++ le16 (d - h)) ∷ ps)

pub length-block :
    (d : ℕ) (s : Bytes) (h : ℕ)
    → length s ≤ d
    → length (s ++ (replicate (d - length s) 0 ++ le16 h)) ≡ d + 2
length-block d s h le = omega (
  arith,
  length-append s (replicate (d - length s) 0 ++ le16 h),
  length-append (replicate (d - length s) 0) (le16 h),
  length-replicate {A = ℕ} (d - length s) 0,
)

pub length-full : (d : ℕ) (s : Bytes) (h : ℕ) → length s ≡ d → length (s ++ le16 h) ≡ d + 2
length-full d s h e =
    let a = length-append s (le16 h) in let b : length (le16 h) ≡ 2 = refl in omega arith

module _ (sum : Checksum) where
  -- Each block with its checksum.
  abbrev pub sealed : List Bytes → Bytes
  sealed [] = []
  sealed (p ∷ ps) = p ++ (le32 (sum.crc 0 p) ++ sealed ps)

  pub sealed-append : (ps qs : List Bytes) → sealed (ps ++ qs) ≡ sealed ps ++ sealed qs
  sealed-append [] qs = refl
  sealed-append (p ∷ ps) qs =
      ap (λ r. p ++ (le32 (sum.crc 0 p) ++ r)) (sealed-append ps qs)
      ∙ ap (λ r. p ++ r) (sym (append_assoc (le32 (sum.crc 0 p)) (sealed ps) (sealed qs)))
      ∙ sym (append_assoc p (le32 (sum.crc 0 p) ++ sealed ps) (sealed qs))

  -- The file for the blocks, with the exclusive or of them all behind.
  abbrev pub file : ℕ → List Bytes → Bytes
  file d ps = sealed (ps ++ xor_sum (zeros (d + 2)) ps ∷ [])
