-- ===== src/Tests/CrcRuns.antt =====
-- Runs of the files in blocks with checksums.
use bksupport.Base.{
  ℕ, ◌+◌, ◌-◌, ◌*◌, ◌%◌, ◌^◌, ◌<◌, ◌≤◌, ◌≡◌, refl, List, [], ◌∷◌, ◌++◌, Option, none, some, true,
  Bytes, codes, arith, length, Returns, ok,
}
use bksupport.FopenCrc.{le16, le32, header, best_datasz, best_loop, write_file}
use bksupport.FopenCrc.Reader.{open_read, eat, close_read}
use bksupport.FopenCrc.Verify.{check_verify}
use bksupport.FopenCrc.Xor.{xor_sum, zeros}
use bksupport.FopenCrc.Format.{Checksum, Blocks, last, file, sealed, concat}
use bksupport.FopenCrc.Closed.{write_file-file}
use bksupport.FopenCrc.WriteRead.{HeaderScan, open_read-write_file}
use bksupport.FopenCrc.Corrected.{IsCorrected, check_verify-IsCorrected}

-- a checksum and a scan to run the code with
abbrev code_of : ℕ → Bytes → ℕ
code_of x [] = x
code_of x (b ∷ a) = code_of ((x * 31 + b) % 4294967296) a

code_of-append : (x : ℕ) (a b : Bytes) → code_of (code_of x a) b ≡ code_of x (a ++ b)
code_of-append x [] b = refl
code_of-append x (c ∷ a) b = code_of-append ((x * 31 + c) % 4294967296) a b

code_of_bound : (x : ℕ) (a : Bytes) → x < 4294967296 → code_of x a < 4294967296
code_of_bound x [] h = h
code_of_bound x (b ∷ a) h = code_of_bound ((x * 31 + b) % 4294967296) a (omega arith)

abbrev sum : Checksum
sum = record {
  crc = code_of;
  crc-nil = refl;
  crc-append = code_of-append;
  crc_bound = λ a. code_of_bound 0 a (omega arith);
}

abbrev scan_digits : Bytes → Option (ℕ × ℕ)
scan_digits (_ ∷ _ ∷ c ∷ _ ∷ x ∷ y ∷ z ∷ _) = some (c, (x - 48) * 100 + ((y - 48) * 10 + (z - 48)))
scan_digits _ = none

scan_digits-header :
    (bits : ℕ) (rest : Bytes)
    → 6 ≤ bits
    → bits ≤ 16
    → scan_digits (header bits ++ rest) ≡ some (b'c', bits)
scan_digits-header bits rest low high = ground arith

abbrev header_scan : HeaderScan
header_scan = record { scan = scan_digits; reads = scan_digits-header }

abbrev bufs : List Bytes
bufs = codes "some data, " ∷ codes "" ∷ codes "and more of it" ∷ []

open_read-write_file_example : Returns (write_file code_of 100 bufs) (λ text.
    Returns (open_read scan_digits text true) (λ fc.
      Returns (eat code_of (length text + 1) fc) (λ r. (r.1 ≡ concat bufs) × (r.0.xorchkd ≡ true))
      × (close_read code_of fc ≡ ok tt)))
open_read-write_file_example = open_read-write_file sum header_scan 100 bufs true

write_file-file_example :
    (ps : List Bytes) × Blocks
      (2 ^ best_datasz 100 - 6)
      8
      (header (best_datasz 100) ++ concat bufs)
      ps
    × (write_file code_of 100 bufs ≡ ok (file sum (2 ^ best_datasz 100 - 6) ps))
write_file-file_example = write_file-file sum 100 bufs

abbrev stream : Bytes
stream = header 6 ++ codes "ab"

abbrev block : Bytes
block = stream ++ (zeros 2 ++ le16 2)

abbrev damaged : Bytes
damaged = header 6 ++ (codes "aB" ++ (zeros 2 ++ le16 2))

block-Blocks : Blocks 12 8 stream (block ∷ [])
block-Blocks = last 8 stream (omega arith)

check_verify-IsCorrected_example :
    Returns
      (check_verify code_of
        (sealed sum []
          ++ (damaged
              ++ (le32 (code_of 0 block) ++ sealed sum (xor_sum (zeros 14) (block ∷ []) ∷ []))))
        12)
      (IsCorrected
        (sealed sum []
          ++ (damaged
              ++ (le32 (code_of 0 block) ++ sealed sum (xor_sum (zeros 14) (block ∷ []) ∷ []))))
        (sealed sum []
          ++ (block
              ++ (le32 (code_of 0 block) ++ sealed sum (xor_sum (zeros 14) (block ∷ []) ∷ [])))))
check_verify-IsCorrected_example =
    check_verify-IsCorrected sum 12 8 stream (block ∷ []) [] (xor_sum (zeros 14) (block ∷ []) ∷ [])
      block damaged (le32 (code_of 0 block)) block-Blocks refl refl refl
      (λ e. absurd (omega (arith, e))) (omega arith)

-- for 100 GB the ints overflow, and blocks of 256 bytes are chosen
overflow_run : best_datasz 100000000000 ≡ 8
unfolding best_datasz best_loop
overflow_run = refl

best_run : best_datasz 1000000 ≡ 11
unfolding best_datasz best_loop
best_run = refl
