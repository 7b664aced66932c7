-- ===== src/FopenCrc/Repair.antt =====
-- The scan finds the block that was damaged, and what it was.
use native.Mathlib.Nat.{mul-div_cancel, mul-mod_left, add-mul}
use bksupport.Base.{
  ltb-true, ◌≤◌, zero, ℕ, suc, ◌+◌, ◌-◌, ◌*◌, ◌/◌, ◌%◌, ◌<◌, ◌≡◌, ◌≢◌, refl, sym, ap, ◌∙◌, subst,
  true, false, List, [], ◌∷◌, ◌++◌, append_assoc, append-nil, arith, Bytes, length, length-append,
  length-replicate, take, drop, take_append, ◌==◌, ==_iff, ok,
}
use bksupport.FopenCrc.{le32}
use bksupport.FopenCrc.Reader.{from_le}
use bksupport.FopenCrc.Verify.{correctable, corrections, is_good, scan_blocks, check_verify}
use bksupport.FopenCrc.Xor.{
  xor_at, xor_into_lem, length-xor_at, xor_sum, length-xor_sum, xor_sum-append, xor_sum_all,
  xor_sum_others, zeros,
}
use bksupport.FopenCrc.Format.{Checksum, Blocks, last, full, sealed, length-block, length-full}
use bksupport.FopenCrc.Intake.{from_le-le32, drop-part}

-- Blocks of one length.
pub data Even (n : ℕ) : List Bytes → Type 0 where
  none_left : Even n []
  one_more : (p : Bytes) (ps : List Bytes) → length p ≡ n → Even n ps → Even n (p ∷ ps)

Even-append : (n : ℕ) (ps qs : List Bytes) → Even n ps → Even n qs → Even n (ps ++ qs)
Even-append n _ qs none_left e = e
Even-append n _ qs (one_more p ps h d) e = one_more p (ps ++ qs) h (Even-append n ps qs d e)

Even-parts :
    (n : ℕ) (ps : List Bytes) (p : Bytes) (qs : List Bytes)
    → Even n (ps ++ p ∷ qs)
    → Even n ps × (length p ≡ n) × Even n qs
Even-parts n [] p qs (one_more _ _ h e) = (none_left, h, e)
Even-parts n (x ∷ ps) p qs (one_more _ _ h e) =
    let (a, b, c) = Even-parts n ps p qs e in (one_more x ps h a, b, c)

Blocks-Even : (d h : ℕ) (s : Bytes) (ps : List Bytes) → Blocks d h s ps → Even (d + 2) ps
Blocks-Even d h _ _ (last _ s short) =
    one_more _ [] (length-block d s (length s - h) (omega arith)) none_left
Blocks-Even d h _ _ (full _ s rest ps l blocks) =
    one_more _ ps (length-full d s (d - h) l) (Blocks-Even d 0 rest ps blocks)

suc_times : (a m : ℕ) → suc a * m ≡ m + a * m
suc_times a m = omega arith

le_times : (a m : ℕ) → 0 < m → a ≤ a * m
le_times zero m h = omega arith
le_times (suc a) m h = omega (arith, le_times a m h, suc_times a m)

module _ (sum : Checksum) (text : Bytes) (d : ℕ) where
  block_good :
      (place : ℕ) (p code rest : Bytes)
      → length p ≡ d + 2
      → length code ≡ 4
      → drop place text ≡ p ++ (code ++ rest)
      → (is_good sum.crc text d place ≡ (from_le code == sum.crc 0 p))
        × (take (d + 2) (drop place text) ≡ p)
        × (drop (place + (d + 6)) text ≡ rest)
  unfolding is_good
  block_good place p code rest l m at =
      let here : take (d + 2) (drop place text) ≡ p =
        ap (λ r. take (d + 2) r) at
        ∙ ap (λ k. take k (p ++ (code ++ rest))) (sym l)
        ∙ take_append p (code ++ rest) in
      let next : drop (place + (d + 2)) text ≡ code ++ rest =
        ap (λ k. drop (place + k) text) (sym l) ∙ drop-part place text p (code ++ rest) at in
      let sealed_by : take 4 (drop (place + (d + 2)) text) ≡ code =
        ap (λ r. take 4 r) next ∙ ap (λ k. take k (code ++ rest)) (sym m) ∙ take_append code rest in
      let four : (length code == 4) ≡ true = (==_iff _ _).1 m in
      let end : place + (d + 6) ≡ place + (d + 2) + length code = omega (arith, m) in
      (
        rw (sealed_by, four, here) refl,
        here,
        ap (λ k. drop k text) end ∙ drop-part (place + (d + 2)) text code rest next,
      )

  scan_good :
      (ps : List Bytes) (rest : Bytes) (rounds place errors first : ℕ) (xor : Bytes)
      → Even (d + 2) ps
      → length xor ≡ d + 2
      → drop place text ≡ sealed sum ps ++ rest
      → (scan_blocks sum.crc text d
            (length ps + rounds)
            place
            (record { xor = xor; errors = errors; first_error = first })
          ≡ scan_blocks sum.crc text d rounds
              (place + length ps * (d + 6))
              (record { xor = xor_sum xor ps; errors = errors; first_error = first }))
        × (drop (place + length ps * (d + 6)) text ≡ rest)
  unfolding scan_blocks
  scan_good [] rest rounds place errors first xor even l at =
      let f : 0 + rounds ≡ rounds = omega arith in
      let e : place + 0 * (d + 6) ≡ place = omega arith in (rw (f, e) refl, rw e at)
  scan_good (p ∷ ps) rest rounds place errors first xor (one_more _ _ k even) l at =
      let at' : drop place text ≡ p ++ (le32 (sum.crc 0 p) ++ (sealed sum ps ++ rest)) =
        at
        ∙ append_assoc p (le32 (sum.crc 0 p) ++ sealed sum ps) rest
        ∙ ap (λ r. p ++ r) (append_assoc (le32 (sum.crc 0 p)) (sealed sum ps) rest) in
      let (good, here, next) =
        block_good place p (le32 (sum.crc 0 p)) (sealed sum ps ++ rest) k refl at' in
      let agrees : is_good sum.crc text d place ≡ true =
        good ∙ (==_iff _ _).1 (from_le-le32 (sum.crc 0 p) (sum.crc_bound p)) in
      let (run, end) =
        scan_good ps rest rounds (place + (d + 6)) errors first (xor_at xor 0 p) even
          (length-xor_at xor 0 p ∙ l) next in
      let f : suc (length ps) + rounds ≡ suc (length ps + rounds) = omega arith in
      let e : place + suc (length ps) * (d + 6) ≡ place + (d + 6) + length ps * (d + 6) =
        (let m = suc_times (length ps) (d + 6) in omega arith) in
      (rw (f, e, agrees, here, xor_into_lem xor 0 p (omega (arith, k, l))) run, rw e end)

  scan_bad :
      (bad code rest : Bytes) (rounds place first : ℕ) (xor : Bytes)
      → length bad ≡ d + 2
      → length code ≡ 4
      → from_le code ≢ sum.crc 0 bad
      → drop place text ≡ bad ++ (code ++ rest)
      → place < 2147483648
      → (scan_blocks sum.crc text d
            (suc rounds)
            place
            (record { xor = xor; errors = 0; first_error = first })
          ≡ scan_blocks sum.crc text d rounds
              (place + (d + 6))
              (record { xor = xor; errors = 1; first_error = place }))
        × (take (d + 2) (drop place text) ≡ bad)
        × (drop (place + (d + 6)) text ≡ rest)
  unfolding scan_blocks
  scan_bad bad code rest rounds place first xor l m wrong at low =
      let (good, here, next) = block_good place bad code rest l m at in
      let differs : (from_le code == sum.crc 0 bad) ≡ false = ground arith in
      let same : place % 4294967296 ≡ place = omega arith in
      (rw (good, differs, same) refl, here, next)

pub length-sealed :
    (sum : Checksum) (d : ℕ) (ps : List Bytes)
    → Even (d + 2) ps
    → length (sealed sum ps) ≡ length ps * (d + 6)
length-sealed sum d _ none_left = omega arith
length-sealed sum d _ (one_more p ps h even) = omega (
  arith,
  h,
  length-sealed sum d ps even,
  suc_times (length ps) (d + 6),
  length-append p (le32 (sum.crc 0 p) ++ sealed sum ps),
  length-append (le32 (sum.crc 0 p)) (sealed sum ps),
)

-- The blocks of a file, taken apart at one of them, have the same length.
pub block_parts :
    (d h : ℕ) (s : Bytes) (ps before after : List Bytes) (p : Bytes)
    → Blocks d h s ps
    → ps ++ xor_sum (zeros (d + 2)) ps ∷ [] ≡ before ++ p ∷ after
    → Even (d + 2) before × (length p ≡ d + 2) × Even (d + 2) after
block_parts d h s ps before after p blocks split =
    let sumx = xor_sum (zeros (d + 2)) ps in
    let wide : length sumx ≡ d + 2 =
      length-xor_sum (zeros (d + 2)) ps ∙ length-replicate (d + 2) 0 in
    let all = subst (Even (d + 2)) split (
      Even-append (d + 2) ps (sumx ∷ []) (Blocks-Even d h s ps blocks)
        (one_more sumx [] wide none_left)) in
    Even-parts (d + 2) before p after all

-- The report on a file of which one block is damaged.
pub check_verify-correctable :
    (sum : Checksum) (d h : ℕ) (s : Bytes) (ps before after : List Bytes) (p bad code : Bytes)
    → Blocks d h s ps
    → ps ++ xor_sum (zeros (d + 2)) ps ∷ [] ≡ before ++ p ∷ after
    → length bad ≡ d + 2
    → length code ≡ 4
    → from_le code ≢ sum.crc 0 bad
    → length (sealed sum before ++ (bad ++ (code ++ sealed sum after))) < 2147483648
    → check_verify sum.crc (sealed sum before ++ (bad ++ (code ++ sealed sum after))) d
      ≡ ok (correctable (corrections (length before * (d + 6)) bad p))
unfolding check_verify scan_blocks
check_verify-correctable sum d h s ps before after p bad code blocks split l m wrong small =
    let text = sealed sum before ++ (bad ++ (code ++ sealed sum after)) in
    let (even, k, even') = block_parts d h s ps before after p blocks split in
    let count = length before + suc (length after) in
    let room : 0 < d + 6 = omega arith in
    let start : 0 + length before * (d + 6) ≡ length before * (d + 6) = omega arith in
    let size : length text ≡ count * (d + 6) = omega (
      arith,
      l,
      m,
      length-append (sealed sum before) (bad ++ (code ++ sealed sum after)),
      length-append bad (code ++ sealed sum after),
      length-append code (sealed sum after),
      length-sealed sum d before even,
      length-sealed sum d after even',
      add-mul (length before) (suc (length after)) (d + 6),
      suc_times (length after) (d + 6),
    ) in
    let whole : (length text % (d + 6) == 0) ≡ true =
      (==_iff _ _).1 (ap (λ k. k % (d + 6)) size ∙ mul-mod_left count (d + 6)) in
    let rounds : length text / (d + 6) ≡ count =
      ap (λ k. k / (d + 6)) size ∙ mul-div_cancel count room in
    let (run₁, at₁) =
      scan_good sum text d before (bad ++ (code ++ sealed sum after)) (suc (length after)) 0 0 0
        (zeros (d + 2)) even (length-replicate (d + 2) 0) refl in
    let early : 0 + length before * (d + 6) < 2147483648 =
      omega (arith, small, size, add-mul (length before) (suc (length after)) (d + 6)) in
    let few : count < 2147483648 = omega (arith, small, size, le_times count (d + 6) room) in
    let few_ints : count % 4294967296 ≡ count = omega (arith, few) in
    let (run₂, here, at₂) =
      scan_bad sum text d bad code (sealed sum after) (length after) (0 + length before * (d + 6)) 0
        (xor_sum (zeros (d + 2)) before) l m wrong at₁ early in
    let (run₃, _) =
      scan_good sum text d after [] 0 (0 + length before * (d + 6) + (d + 6)) 1
        (0 + length before * (d + 6)) (xor_sum (zeros (d + 2)) before) even'
        (length-xor_sum (zeros (d + 2)) before ∙ length-replicate (d + 2) 0)
        (at₂ ∙ sym (append-nil (sealed sum after))) in
    let found : xor_sum (xor_sum (zeros (d + 2)) before) after ≡ p =
      sym (xor_sum-append (zeros (d + 2)) before after)
      ∙ xor_sum_others (d + 2) before after p k
          (ap (xor_sum (zeros (d + 2))) (sym split) ∙ xor_sum_all (d + 2) ps) in
    let more : length after + 0 ≡ length after = omega arith in
    rw (whole, rounds, few_ints, ltb-true count 2147483648 few, run₁, run₂, rw more at run₃)
      (rw (ltb-true (0 + length before * (d + 6)) 2147483648 early, found, here, start) refl)
