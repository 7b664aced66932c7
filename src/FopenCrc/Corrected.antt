-- ===== src/FopenCrc/Corrected.antt =====
-- The corrections that crcCheckVerify prints, against the file of before.
use bksupport.Base.{
  ℕ, ◌+◌, ◌*◌, ◌<◌, ◌≡◌, ◌≢◌, refl, sym, ap, ◌∙◌, inl, inr, List, [], ◌∷◌, ◌++◌, append_assoc,
  arith, Bytes, length, length-append, get_or, set, ◌==◌, ==_iff, Bool-cases, Returns,
}
use bksupport.FopenCrc.Reader.{from_le}
use bksupport.FopenCrc.Verify.{Report, correctable, Correction, corrections, check_verify}
use bksupport.FopenCrc.Xor.{xor_sum, zeros}
use bksupport.FopenCrc.Format.{Checksum, Blocks, sealed}
use bksupport.FopenCrc.Repair.{block_parts, length-sealed, check_verify-correctable}

-- The file with the bytes of the corrections put in their places.
abbrev pub corrected : List Correction → Bytes → Bytes
corrected [] text = text
corrected (c ∷ found) text = corrected found (set text c.place c.should)

-- Each correction names a place of the file, the byte that is there, and another one.
abbrev pub AreDifferences : Bytes → List Correction → Type 0
AreDifferences text [] = Unit
AreDifferences text (c ∷ found) =
    ((c.place < length text) × (get_or text c.place 0 ≡ c.was) × (c.was ≢ c.should))
    × AreDifferences text found

set_at : (pre post : Bytes) (b x : ℕ) → set (pre ++ b ∷ post) (length pre) x ≡ pre ++ x ∷ post
set_at [] post b x = refl
set_at (a ∷ pre) post b x = ap (λ r. a ∷ r) (set_at pre post b x)

get_at : (pre post : Bytes) (b : ℕ) → get_or (pre ++ b ∷ post) (length pre) 0 ≡ b
get_at [] post b = refl
get_at (a ∷ pre) post b = get_at pre post b

next_place : (pre : Bytes) (x : ℕ) → length (pre ++ x ∷ []) ≡ length pre + 1
next_place pre x = length-append pre (x ∷ [])

corrections-corrected :
    (bad p pre post : Bytes)
    → length bad ≡ length p
    → corrected (corrections (length pre) bad p) (pre ++ (bad ++ post)) ≡ pre ++ (p ++ post)
unfolding corrections
corrections-corrected [] [] pre post h = refl
corrections-corrected [] (x ∷ p) pre post h = absurd (omega arith)
corrections-corrected (b ∷ bad) [] pre post h = absurd (omega arith)
corrections-corrected (b ∷ bad) (x ∷ p) pre post h =
    let rest = corrections-corrected bad p (pre ++ x ∷ []) post (omega arith) in
    let moved : corrected (corrections (length pre + 1) bad p) (pre ++ x ∷ (bad ++ post))
        ≡ pre ++ x ∷ (p ++ post) =
      rw
        (
          next_place pre x,
          append_assoc pre (x ∷ []) (bad ++ post),
          append_assoc pre (x ∷ []) (p ++ post),
        )
        at rest in
    elim (Bool-cases (b == x)) [
      | inl e ↦ rw (e, (==_iff b x).0 e) moved
      | inr e ↦ rw (e, set_at pre (bad ++ post) b x) moved
    ]

corrections-AreDifferences :
    (bad p pre post text : Bytes)
    → text ≡ pre ++ (bad ++ post)
    → AreDifferences text (corrections (length pre) bad p)
unfolding corrections
corrections-AreDifferences [] p pre post text h = tt
corrections-AreDifferences (b ∷ bad) [] pre post text h = tt
corrections-AreDifferences (b ∷ bad) (x ∷ p) pre post text h =
    let rest = rw (next_place pre b) at (
      corrections-AreDifferences bad p (pre ++ b ∷ []) post text
        (h ∙ sym (append_assoc pre (b ∷ []) (bad ++ post)))) in
    elim (Bool-cases (b == x)) [
      | inl e ↦ rw e rest
      | inr e ↦ rw e (
        (
          omega (arith, ap length h, length-append pre (b ∷ (bad ++ post))),
          ap (λ t. get_or t (length pre) 0) h ∙ get_at pre (bad ++ post) b,
          λ same. cc (e, (==_iff b x).1 same),
        ),
        rest,
      )
    ]

-- The error is found, and its corrections are where the file differs and make it `whole` again.
pub record IsCorrected (text whole : Bytes) (report : Report) : Type 0 where
  pub found : List Correction
  pub report_is : report ≡ correctable found
  pub differences : AreDifferences text found
  pub repaired : corrected found text ≡ whole

-- When one block of a file of the format below 2 GB, the one of the exclusive or included, is damaged,
-- so that its checksum does not agree, crcCheckVerify calls the error correctable. What it prints are
-- places of the file where a byte differs from the one that is printed as right, and the file with
-- these bytes put in is the one of before, but for the checksum that was read for the block.
pub check_verify-IsCorrected :
    (sum : Checksum) (d h : ℕ) (s : Bytes) (ps before after : List Bytes) (p bad code : Bytes)
    → Blocks d h s ps
    → ps ++ xor_sum (zeros (d + 2)) ps ∷ [] ≡ before ++ p ∷ after
    → length bad ≡ d + 2
    → length code ≡ 4
    → from_le code ≢ sum.crc 0 bad
    → length (sealed sum before ++ (bad ++ (code ++ sealed sum after))) < 2147483648
    → Returns (check_verify sum.crc (sealed sum before ++ (bad ++ (code ++ sealed sum after))) d) (
        IsCorrected
          (sealed sum before ++ (bad ++ (code ++ sealed sum after)))
          (sealed sum before ++ (p ++ (code ++ sealed sum after))))
check_verify-IsCorrected sum d h s ps before after p bad code blocks split l m wrong small =
    let (even, k, _) = block_parts d h s ps before after p blocks split in
    let place : length (sealed sum before) ≡ length before * (d + 6) =
      length-sealed sum d before even in
    let rest = code ++ sealed sum after in
    (
      correctable (corrections (length before * (d + 6)) bad p),
      check_verify-correctable sum d h s ps before after p bad code blocks split l m wrong small,
      record {
        found = corrections (length before * (d + 6)) bad p;
        report_is = refl;
        differences =
            rw place at (corrections-AreDifferences bad p (sealed sum before) rest _ refl);
        repaired =
            rw place at
              (corrections-corrected bad p (sealed sum before) rest (omega (arith, l, k)));
      },
    )
