-- ===== src/FopenCrc/ReadBack.antt =====
-- The blocks of a file of the format, read one after the other.
use bksupport.Base.{
  ℕ, zero, suc, ◌+◌, ◌-◌, ◌<◌, ◌≤◌, ◌≡◌, refl, sym, ap, ◌∙◌, inl, inr, ◌⊎◌, Bool, true, false, [],
  ◌∷◌, ◌++◌, append_assoc, Option, none, some, arith, Bytes, length, length-append, length-drop,
  length-take, length-replicate, take, drop, take_append, take-append-drop, ltb, ltb-true,
  ltb-false, ◌==◌, ==_iff, ok,
}
use bksupport.Cells.Overwrite.{drop-append}
use bksupport.FopenCrc.{le16, le32}
use bksupport.FopenCrc.Reader.{Reader, from_le, raw_block, read_block, with_size, all_zero}
use bksupport.FopenCrc.Xor.{xor_at, length-xor_at, xor_at_twice, zeros-xor_at, zeros}
use bksupport.FopenCrc.Format.{Checksum, sealed, length-block}
use bksupport.FopenCrc.Intake.{from_le-le16, reading, raw_block-first, raw_block-later, drop-part}

all_zero-zeros : (n : ℕ) → all_zero (zeros n) ≡ true
all_zero-zeros zero = refl
all_zero-zeros (suc n) = all_zero-zeros n

pub all_zero-xor_at : (n : ℕ) (p : Bytes) → length p ≡ n → all_zero (xor_at p 0 p) ≡ true
all_zero-xor_at n p h =
    ap (λ r. all_zero (xor_at r 0 p)) (sym (zeros-xor_at n p h))
    ∙ ap all_zero (xor_at_twice (zeros n) p)
    ∙ all_zero-zeros n

module _ (sum : Checksum) (file : Bytes) (d : ℕ) (chk : Bool) (room : 8 < d)
    (small : d < 65536) where
  -- The place of a block: at the start, with the header in it, or behind.
  abbrev pub Stands : ℕ → ℕ → ℕ → Type 0
  Stands h pos boff = ((h ≡ 8) × (pos ≡ 0) × (boff ≡ 0)) ⊎ ((h ≡ 0) × ((boff == 0) ≡ false))

  abbrev pub state : ℕ → Option ℕ → ℕ → ℕ → ℕ → Bytes → Reader
  state pos size offset boff rbuf_off xor =
      reading sum file d chk pos size offset boff [] rbuf_off xor

  raw_block_lem :
      (h pos boff : ℕ) (size : Option ℕ) (offset rbuf_off : ℕ) (xor s end rest : Bytes)
      → Stands h pos boff
      → length xor ≡ d + 2
      → length s ≡ d
      → length end ≡ 2
      → drop pos file ≡ (s ++ end) ++ (le32 (sum.crc 0 (s ++ end)) ++ rest)
      → raw_block sum.crc (state pos size offset boff rbuf_off xor)
        ≡ ok (
          state (pos + d + 2 + 4) size offset (boff + (d - h)) rbuf_off (xor_at xor 0 (s ++ end)),
          drop h s,
          from_le end,
        )
  raw_block_lem h pos boff size offset rbuf_off xor s end rest (inl (e, f, g)) wide l m at =
      let parts : take 8 s ++ (drop 8 s ++ end) ≡ s ++ end =
        sym (append_assoc (take 8 s) (drop 8 s) end) ∙ ap (λ r. r ++ end) (take-append-drop 8 s) in
      let at' : file ≡ (s ++ end) ++ (le32 (sum.crc 0 (s ++ end)) ++ rest) =
        ap (λ p. drop p file) (sym f) ∙ at in
      let k : 0 + d + 2 + 4 ≡ d + 2 + 4 = omega arith in
      let b : 0 + (d - 8) ≡ d - 8 = omega arith in
      rw (e, f, g, k, b, ← parts)
        (raw_block-first sum file d chk size offset [] rbuf_off xor (take 8 s) (drop 8 s) end rest
          (omega arith) wide (omega (arith, length-take 8 s, l, room))
          (omega (arith, length-drop 8 s, l)) m (rw parts at'))
  raw_block_lem h pos boff size offset rbuf_off xor s end rest (inr (e, f)) wide l m at =
      let b : d - 0 ≡ d = omega arith in
      rw (e, b)
        (raw_block-later sum file d chk size offset [] rbuf_off pos boff xor s end rest f wide l m
          at)

  pub pos_step : (pos boff h : ℕ) → Stands h pos boff → ((boff + (d - h)) == 0) ≡ false
  pos_step pos boff h (inl (e, f, g)) = ground arith
  pos_step pos boff h (inr (e, g)) = ground arith

  pub short_head : (h pos boff : ℕ) → Stands h pos boff → h ≤ 8
  short_head h pos boff (inl (e, _, _)) = omega (arith, e)
  short_head h pos boff (inr (e, _)) = omega (arith, e)

  pub block_behind :
      (pos : ℕ) (block rest : Bytes)
      → length block ≡ d + 2
      → drop pos file ≡ block ++ (le32 (sum.crc 0 block) ++ rest)
      → drop (pos + d + 2 + 4) file ≡ rest
  block_behind pos block rest wide at =
      let h : pos + d + 2 + 4 ≡ pos + length block + 4 = omega (arith, wide) in
      ap (λ k. drop k file) h
      ∙ drop-part (pos + length block) file (le32 (sum.crc 0 block)) rest
          (drop-part pos file block _ at)

  -- A full block.
  pub read_block-full :
      (h pos boff rbuf_off offset : ℕ) (xor s rest : Bytes)
      → Stands h pos boff
      → length xor ≡ d + 2
      → length s ≡ d
      → drop pos file ≡ (s ++ le16 (d - h)) ++ (le32 (sum.crc 0 (s ++ le16 (d - h))) ++ rest)
      → read_block sum.crc 2 (state pos none offset boff rbuf_off xor)
        ≡ ok (
          state
              (pos + d + 2 + 4)
              none
              offset
              (boff + (d - h))
              rbuf_off
              (xor_at xor 0 (s ++ le16 (d - h))),
          drop h s,
        )
  unfolding read_block
  read_block-full h pos boff rbuf_off offset xor s rest stands wide l at =
      let size : length (drop h s) ≡ d - h = omega (arith, length-drop h s, l) in
      let len : from_le (le16 (d - h)) ≡ d - h = from_le-le16 (d - h) (omega (arith, small)) in
      let not_less : ltb (d - h) (d - h) ≡ false = ltb-false _ _ (omega arith) in
      let same : (d - h == d - h) ≡ true = (==_iff _ _).1 refl in
      rw
        (
          raw_block_lem h pos boff none offset rbuf_off xor s (le16 (d - h)) rest stands wide l refl
              at,
          len,
          size,
          not_less,
          same,
        )
        refl

  -- The block of the exclusive or, behind the data.
  pub read_block-xor :
      (fuel pos boff rbuf_off offset size : ℕ) (xor s end : Bytes)
      → (boff == 0) ≡ false
      → size < boff
      → boff ≤ size + d
      → length xor ≡ d + 2
      → length s ≡ d
      → length end ≡ 2
      → drop pos file ≡ sealed sum ((s ++ end) ∷ [])
      → read_block sum.crc (suc fuel) (state pos (some size) offset boff rbuf_off xor)
        ≡ ok (
          state (pos + d + 2 + 4) (some size) offset (boff + d) rbuf_off (xor_at xor 0 (s ++ end)),
          [],
        )
  unfolding read_block with_size
  read_block-xor fuel pos boff rbuf_off offset size xor s end later behind near wide l m at =
      let past : ltb (size + d) boff ≡ false = ltb-false _ _ near in
      let here : ltb (size + 0) boff ≡ true = ltb-true _ _ (omega arith) in
      let step : d - 0 ≡ d = omega arith in
      rw
        (
          past,
          raw_block_lem 0 pos boff (some size) offset rbuf_off xor s end [] (inr (refl, later)) wide
              l m at,
          here,
          step,
        )
        refl

  -- The last block is padded with nulls.
  abbrev padded : Bytes → Bytes
  padded s = s ++ zeros (d - length s)

  abbrev pub last_block : ℕ → Bytes → Bytes
  last_block h s = s ++ (zeros (d - length s) ++ le16 (length s - h))

  length-padded : (s : Bytes) → length s < d → length (padded s) ≡ d
  length-padded s h =
      omega
        (arith, length-append s (zeros (d - length s)), length-replicate {A = ℕ} (d - length s) 0)

  raw_block-last :
      (h pos boff offset rbuf_off : ℕ) (xor s rest : Bytes)
      → Stands h pos boff
      → length xor ≡ d + 2
      → length s < d
      → drop pos file ≡ last_block h s ++ (le32 (sum.crc 0 (last_block h s)) ++ rest)
      → raw_block sum.crc (state pos none offset boff rbuf_off xor)
        ≡ ok (
          state
              (pos + d + 2 + 4)
              none
              offset
              (boff + (d - h))
              rbuf_off
              (xor_at xor 0 (last_block h s)),
          drop h (padded s),
          length s - h,
        )
  raw_block-last h pos boff offset rbuf_off xor s rest stands wide short at =
      let parts : last_block h s ≡ padded s ++ le16 (length s - h) =
        sym (append_assoc s (zeros (d - length s)) (le16 (length s - h))) in
      let len : from_le (le16 (length s - h)) ≡ length s - h =
        from_le-le16 (length s - h) (omega (arith, short, small)) in
      rw parts (
        raw_block_lem h pos boff none offset rbuf_off xor (padded s) (le16 (length s - h)) rest
          stands wide (length-padded s short) refl (rw parts at at)
        ∙ rw len refl)

  data-padded :
      (h : ℕ) (s : Bytes) → h ≤ length s → take (length s - h) (drop h (padded s)) ≡ drop h s
  data-padded h s le =
      let none_over : h - length s ≡ 0 = omega arith in
      let size : length s - h ≡ length (drop h s) = omega (arith, length-drop h s) in
      rw (drop-append h s (zeros (d - length s)), none_over, size)
        (take_append (drop h s) (zeros (d - length s)))

  -- The last block, with data.
  pub read_block-last :
      (h pos boff rbuf_off offset : ℕ) (xor s rest : Bytes)
      → Stands h pos boff
      → length xor ≡ d + 2
      → length s < d
      → h < length s
      → drop pos file ≡ last_block h s ++ (le32 (sum.crc 0 (last_block h s)) ++ rest)
      → read_block sum.crc 2 (state pos none offset boff rbuf_off xor)
        ≡ ok (
          state
              (pos + d + 2 + 4)
              (some (boff + (length s - h)))
              offset
              (boff + (d - h))
              rbuf_off
              (xor_at xor 0 (last_block h s)),
          drop h s,
        )
  unfolding read_block with_size
  read_block-last h pos boff rbuf_off offset xor s rest stands wide short some_data at =
      let size : length (drop h (padded s)) ≡ d - h =
        omega (arith, length-drop h (padded s), length-padded s short) in
      let less : ltb (length s - h) (d - h) ≡ true = ltb-true _ _ (omega arith) in
      let not_none : (length s - h == 0) ≡ false = ground arith in
      let filled : boff + (d - h) - (d - h) + (length s - h) ≡ boff + (length s - h) =
        omega arith in
      rw
        (
          raw_block-last h pos boff offset rbuf_off xor s rest stands wide short at,
          size,
          less,
          not_none,
          filled,
          data-padded h s (omega arith),
        )
        refl

  -- The last block, without data, and the exclusive or behind it.
  pub read_block-empty :
      (h pos boff rbuf_off offset : ℕ) (xor s end t : Bytes)
      → Stands h pos boff
      → length xor ≡ d + 2
      → length s < d
      → length s ≡ h
      → length end ≡ 2
      → length t ≡ d
      → drop pos file
        ≡ last_block h s ++ (le32 (sum.crc 0 (last_block h s)) ++ sealed sum ((t ++ end) ∷ []))
      → read_block sum.crc 2 (state pos none offset boff rbuf_off xor)
        ≡ ok (
          state
              (pos + d + 2 + 4 + d + 2 + 4)
              (some (boff + 0))
              offset
              (boff + (d - h) + d)
              rbuf_off
              (xor_at (xor_at xor 0 (last_block h s)) 0 (t ++ end)),
          [],
        )
  unfolding read_block with_size
  read_block-empty h pos boff rbuf_off offset xor s end t stands wide short empty m n at =
      let size : length (drop h (padded s)) ≡ d - h =
        omega (arith, length-drop h (padded s), length-padded s short) in
      let none_left : length s - h ≡ 0 = omega arith in
      let less : ltb 0 (d - h) ≡ true = ltb-true _ _ (omega arith) in
      let filled : boff + (d - h) - (d - h) + 0 ≡ boff + 0 = omega arith in
      let next : drop (pos + d + 2 + 4) file ≡ sealed sum ((t ++ end) ∷ []) =
        block_behind pos (last_block h s) _ (length-block d s (length s - h) (omega (arith, short)))
          at in
      let then_xor =
        read_block-xor 0 (pos + d + 2 + 4) (boff + (d - h)) rbuf_off offset (boff + 0)
          (xor_at xor 0 (last_block h s)) t end (pos_step pos boff h stands) (omega (arith, short))
          (omega arith) (length-xor_at xor 0 (last_block h s) ∙ wide) n m next in
      rw
        (
          raw_block-last h pos boff offset rbuf_off xor s _ stands wide short at,
          size,
          none_left,
          less,
          filled,
          rw none_left at then_xor,
        )
        refl
