-- ===== src/FopenCrc/Intake.antt =====
-- How a block of the file comes in.
use bksupport.Base.{
  ℕ, ◌+◌, ◌-◌, ◌<◌, ◌≤◌, ◌≡◌, refl, sym, ap, ◌∙◌, Bool, true, false, ◌++◌, append_assoc, Option,
  arith, Bytes, length, length-append, drop, take_append, drop_append, ◌==◌, ==_iff, ok,
}
use bksupport.Cells.Overwrite.{drop-drop}
use bksupport.FopenCrc.{le16, le32}
use bksupport.FopenCrc.Reader.{Reader, from_le, fread, take_in, raw_block}
use bksupport.FopenCrc.Xor.{xor_at, xor_into_lem, length-xor_at, xor_at-append}
use bksupport.FopenCrc.Format.{Checksum}

pub from_le-le16 : (n : ℕ) → n < 65536 → from_le (le16 n) ≡ n
from_le-le16 n h = omega arith

pub from_le-le32 : (n : ℕ) → n < 4294967296 → from_le (le32 n) ≡ n
from_le-le32 n h = omega arith

pub drop-part :
    (pos : ℕ) (file part tail : Bytes)
    → drop pos file ≡ part ++ tail
    → drop (pos + length part) file ≡ tail
drop-part pos file part tail at =
    sym (drop-drop (length part) pos file) ∙ ap (drop (length part)) at ∙ drop_append part tail

module _ (sum : Checksum) (file : Bytes) (d : ℕ) (chk : Bool) where
  -- A file that is read from its start on, with the exclusive or of what was read.
  abbrev pub reading : ℕ → Option ℕ → ℕ → ℕ → Bytes → ℕ → Bytes → Reader
  reading pos size offset boff rbuf rbuf_off xor = record {
    file = file;
    pos = pos;
    datasz = d;
    oldfmt = false;
    filesz = size;
    offset = offset;
    boff = boff;
    seekoff = 0;
    didseek = false;
    do_xor = true;
    chkxor = chk;
    xorchkd = false;
    rbuf = rbuf;
    rbuf_off = rbuf_off;
    xor = xor;
  }

  module _ (size : Option ℕ) (offset : ℕ) (rbuf : Bytes) (rbuf_off : ℕ) where
    abbrev place : ℕ → ℕ → Bytes → Reader
    place pos boff xor = reading pos size offset boff rbuf rbuf_off xor

    fread_lem :
        (pos boff : ℕ) (xor part tail : Bytes) (n : ℕ)
        → drop pos file ≡ part ++ tail
        → length part ≡ n
        → fread n (place pos boff xor) ≡ ok (place (pos + n) boff xor, part)
    unfolding fread
    fread_lem pos boff xor part tail n at e =
        let whole : (length part == length part) ≡ true = (==_iff _ _).1 refl in
        rw (at, ← e, take_append part tail, whole) refl

    take_in_lem :
        (pos boff : ℕ) (xor part tail : Bytes) (n crc2 index : ℕ)
        → drop pos file ≡ part ++ tail
        → length part ≡ n
        → index + n ≤ length xor
        → take_in sum.crc n (record { fc = place pos boff xor; crc2 = crc2; index = index })
          ≡ ok (
            record {
              fc = place (pos + n) boff (xor_at xor index part);
              crc2 = sum.crc crc2 part;
              index = index + n;
            },
            part,
          )
    unfolding take_in
    take_in_lem pos boff xor part tail n crc2 index at e fits =
        rw (fread_lem pos boff xor part tail n at e, xor_into_lem xor index part (omega arith)) refl

    -- The block in which no header stands.
    pub raw_block-later :
        (pos boff : ℕ) (xor body len rest : Bytes)
        → (boff == 0) ≡ false
        → length xor ≡ d + 2
        → length body ≡ d
        → length len ≡ 2
        → drop pos file ≡ (body ++ len) ++ (le32 (sum.crc 0 (body ++ len)) ++ rest)
        → raw_block sum.crc (place pos boff xor)
          ≡ ok (place (pos + d + 2 + 4) (boff + d) (xor_at xor 0 (body ++ len)), body, from_le len)
    unfolding raw_block
    raw_block-later pos boff xor body len rest later wide l m at =
        let at₁ : drop pos file ≡ body ++ (len ++ (le32 (sum.crc 0 (body ++ len)) ++ rest)) =
          at ∙ append_assoc body len _ in
        let at₂ = ap (λ k. drop (pos + k) file) (sym l) ∙ drop-part pos file body _ at₁ in
        let at₃ = ap (λ k. drop (pos + d + k) file) (sym m) ∙ drop-part (pos + d) file len _ at₂ in
        let code : sum.crc (sum.crc 0 body) len ≡ sum.crc 0 (body ++ len) =
          sum.crc-append 0 body len in
        let same : (sum.crc 0 (body ++ len) == from_le (le32 (sum.crc 0 (body ++ len)))) ≡ true =
          (==_iff _ _).1 (sym (from_le-le32 _ (sum.crc_bound (body ++ len)))) in
        let index : (0 + d + 2 == d + 2) ≡ true = (==_iff _ _).1 (omega arith) in
        let both : xor_at (xor_at xor 0 body) (0 + d) len ≡ xor_at xor 0 (body ++ len) =
          ap (λ k. xor_at (xor_at xor 0 body) k len) (omega (arith, l))
          ∙ xor_at-append xor body len in
        rw
          (
            later,
            take_in_lem pos boff xor body _ d 0 0 at₁ l (omega (arith, wide)),
            take_in_lem (pos + d) boff (xor_at xor 0 body) len _ 2 (sum.crc 0 body) (0 + d) at₂ m
                (omega (arith, wide, length-xor_at xor 0 body)),
            fread_lem (pos + d + 2) boff (xor_at (xor_at xor 0 body) (0 + d) len)
                (le32 (sum.crc 0 (body ++ len))) rest 4 at₃ refl,
            code,
            same,
            index,
            both,
          )
          refl

    -- The block that begins with the header.
    pub raw_block-first :
        (xor head body len rest : Bytes)
        → 8 ≤ d
        → length xor ≡ d + 2
        → length head ≡ 8
        → length body ≡ d - 8
        → length len ≡ 2
        → file ≡ (head ++ (body ++ len)) ++ (le32 (sum.crc 0 (head ++ (body ++ len))) ++ rest)
        → raw_block sum.crc (place 0 0 xor)
          ≡ ok (place (d + 2 + 4) (d - 8) (xor_at xor 0 (head ++ (body ++ len))), body, from_le len)
    unfolding raw_block
    raw_block-first xor head body len rest room wide k l m at =
        let block = head ++ (body ++ len) in
        let at₁ : drop 0 file ≡ head ++ ((body ++ len) ++ (le32 (sum.crc 0 block) ++ rest)) =
          at ∙ append_assoc head (body ++ len) _ in
        let at₂ : drop (0 + 8) file ≡ body ++ (len ++ (le32 (sum.crc 0 block) ++ rest)) =
          ap (λ n. drop (0 + n) file) (sym k)
          ∙ drop-part 0 file head _ at₁
          ∙ append_assoc body len _ in
        let at₃ = ap (λ n. drop (0 + 8 + n) file) (sym l) ∙ drop-part (0 + 8) file body _ at₂ in
        let at₄ =
          ap (λ n. drop (0 + 8 + (d - 8) + n) file) (sym m)
          ∙ drop-part (0 + 8 + (d - 8)) file len _ at₃ in
        let x₁ = xor_at xor 0 head in
        let x₂ = xor_at x₁ (0 + 8) body in
        let code : sum.crc (sum.crc (sum.crc 0 head) body) len ≡ sum.crc 0 block =
          sum.crc-append (sum.crc 0 head) body len ∙ sum.crc-append 0 head (body ++ len) in
        let same : (sum.crc 0 block == from_le (le32 (sum.crc 0 block))) ≡ true =
          (==_iff _ _).1 (sym (from_le-le32 _ (sum.crc_bound block))) in
        let index : (0 + 8 + (d - 8) + 2 == d + 2) ≡ true = (==_iff _ _).1 (omega arith) in
        let both : xor_at x₂ (0 + 8 + (d - 8)) len ≡ xor_at xor 0 block =
          ap (λ r. xor_at r (0 + 8 + (d - 8)) len)
            (ap (λ n. xor_at x₁ n body) (omega (arith, k)) ∙ xor_at-append xor head body)
          ∙ ap (λ n. xor_at (xor_at xor 0 (head ++ body)) n len)
              (omega (arith, k, l, length-append head body))
          ∙ xor_at-append xor (head ++ body) len
          ∙ ap (xor_at xor 0) (append_assoc head body len) in
        let end : 0 + 8 + (d - 8) + 2 + 4 ≡ d + 2 + 4 = omega arith in
        let behind : 0 + (d - 8) ≡ d - 8 = omega arith in
        rw
          (
            take_in_lem 0 0 xor head _ 8 0 0 at₁ k (omega (arith, wide)),
            take_in_lem (0 + 8) 0 x₁ body _ (d - 8) (sum.crc 0 head) (0 + 8) at₂ l
                (omega (arith, wide, length-xor_at xor 0 head)),
            take_in_lem (0 + 8 + (d - 8)) 0 x₂ len _ 2 (sum.crc (sum.crc 0 head) body)
                (0 + 8 + (d - 8)) at₃ m
                (omega (arith, wide, length-xor_at xor 0 head, length-xor_at x₁ (0 + 8) body)),
            fread_lem (0 + 8 + (d - 8) + 2) 0 (xor_at x₂ (0 + 8 + (d - 8)) len)
                (le32 (sum.crc 0 block)) rest 4 at₄ refl,
            code,
            same,
            index,
            both,
            end,
            behind,
          )
          refl
