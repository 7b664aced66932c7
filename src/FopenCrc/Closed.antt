-- ===== src/FopenCrc/Closed.antt =====
-- From fopen_crc to the close of a file that is written.
use native.Mathlib.Nat.{pow-le-pow_right}
use bksupport.Base.{
  ◌%◌, ℕ, zero, suc, ◌+◌, ◌-◌, ◌*◌, ◌^◌, ◌<◌, ◌≤◌, ◌≡◌, refl, sym, ap, ◌∙◌, subst, inl, inr, Bool,
  true, false, not, ◌&&◌, ◌||◌, ◌/◌, List, [], ◌∷◌, ◌++◌, append_assoc, append-nil, arith, Bytes,
  length, length-append, length-replicate, ltb-true, ◌==◌, Bool-cases, if-false, if◌then◌else◌,
  Returns, ok, ◌>>=◌,
}
use bksupport.FopenCrc.{
  Writer, le16, le32, header, xor_into, write_header, crc_write, write_after_seek, close_write,
  write_bufs, write_file, open_write, best_datasz, best_loop, int_less,
}
use bksupport.FopenCrc.Xor.{xor_at, xor_into_lem, xor_at-append, xor_at-zeros, xor_sum, zeros}
use bksupport.FopenCrc.Format.{Checksum, Blocks, last, sealed, sealed-append, file, concat}
use bksupport.FopenCrc.Written.{Filling, Wrote, write_loop-Wrote, length-xor, xor_block}

no_and : (a b : Bool) → b ≡ false → (a && b) ≡ false
no_and true b e = e
no_and false b e = refl

module _ (sum : Checksum) (d : ℕ) (room : 8 < d) where
  resumed :
      (fc : Writer) (h : ℕ) (ps : List Bytes) (cur text : Bytes)
      → Filling sum d room fc h ps cur text
      → ((fc.offset == 0 && not fc.writepartial) ≡ false)
        × ((if fc.boff == 0 then fc.datasz - 8 else fc.datasz) ≡ d - h)
        × ((if fc.boff == 0 then fc.offset - fc.boff + 8 else fc.offset - fc.boff) ≡ length cur)
  resumed fc h ps cur text i =
      let p = i.place in
      let q = i.datasz in
      elim i.first [
        | inl (e, f, g) ↦
            (no_and (fc.offset == 0) (not fc.writepartial) (ap not g), ground arith, ground arith)
        | inr (e, f) ↦
            let later : (fc.offset == 0) ≡ false = ground arith in
            (rw later refl, ground arith, ground arith)
      ]

  crc_write-Wrote :
      (fc : Writer) (text buf : Bytes)
      → Wrote sum d room text fc
      → Returns (crc_write sum.crc fc buf) (Wrote sum d room (text ++ buf))
  unfolding crc_write
  crc_write-Wrote fc text buf (h, ps, cur, i, short) =
      let (no_header, size, c) = resumed fc h ps cur text i in
      rw
        (
          if-false fc.didseek (write_after_seek fc) (ok fc) i.didseek,
          if-false (fc.offset == 0 && not fc.writepartial) (write_header sum.crc fc) (ok fc)
              no_header,
          size,
          c,
        )
        (write_loop-Wrote sum d room (length buf + 1) fc h ps cur text buf i short (omega arith))

  -- A file that was opened to be written.
  abbrev pub fresh : ℕ → Writer
  fresh bits = record {
    out = [];
    bits = bits;
    datasz = d;
    offset = 0;
    boff = 0;
    crc = 0;
    xor = [];
    writepartial = false;
    didseek = true;
  }

  abbrev begun : ℕ → Writer
  begun bits = record {
    out = header bits;
    bits = bits;
    datasz = d;
    offset = 0;
    boff = 0;
    crc = sum.crc 0 (header bits);
    xor = xor_at (zeros (d + 2)) 0 (header bits);
    writepartial = true;
    didseek = false;
  }

  begun-Filling : (bits : ℕ) → Filling sum d room (begun bits) 8 [] (header bits) (header bits)
  begun-Filling bits = record {
    out = refl;
    crc = refl;
    xor = refl;
    datasz = refl;
    didseek = refl;
    place = refl;
    first = inl (refl, refl, refl);
    head = omega arith;
    fits = omega (arith, room);
    extends = λ t qs b. b;
  }

  fresh-Wrote :
      (bits : ℕ) (buf : Bytes)
      → Returns (crc_write sum.crc (fresh bits) buf) (Wrote sum d room (header bits ++ buf))
  unfolding crc_write write_after_seek write_header
  fresh-Wrote bits buf =
      let rest =
        write_loop-Wrote sum d room (length buf + 1) (begun bits) 8 [] (header bits) (header bits)
          buf (begun-Filling bits) room (omega arith) in
      let fits : 0 + length (header bits) ≤ length (zeros (d + 2)) =
        omega (arith, room, length-replicate {A = ℕ} (d + 2) 0) in
      rw (xor_into_lem (zeros (d + 2)) 0 (header bits) fits) rest

  last_xor :
      (fc : Writer) (h : ℕ) (ps : List Bytes) (cur text : Bytes)
      → Filling sum d room fc h ps cur text
      → xor_at fc.xor d (le16 (length cur - h))
        ≡ xor_sum
            (zeros (d + 2))
            (ps ++ (cur ++ (zeros (d - length cur) ++ le16 (length cur - h))) ∷ [])
  last_xor fc h ps cur text i =
      let fill = zeros (d - length cur) in
      let s = xor_sum (zeros (d + 2)) ps in
      let padded : length (cur ++ fill) ≡ d =
        omega
          (arith, i.fits, length-append cur fill, length-replicate {A = ℕ} (d - length cur) 0) in
      ap (λ k. xor_at fc.xor k (le16 (length cur - h))) (sym padded)
      ∙ xor_block sum d room fc.xor ps (cur ++ fill) (le16 (length cur - h)) (
          i.xor
          ∙ sym (xor_at-zeros (xor_at s 0 cur) (length cur) (d - length cur))
          ∙ xor_at-append s cur fill)
      ∙ ap (λ b. xor_sum (zeros (d + 2)) (ps ++ b ∷ []))
          (append_assoc cur fill (le16 (length cur - h)))

  file_text :
      (ps : List Bytes) (cur fill end sumx : Bytes)
      → (sealed sum ps ++ cur)
          ++ (fill
              ++ (end
                  ++ (le32 (sum.crc 0 (cur ++ (fill ++ end))) ++ (sumx ++ le32 (sum.crc 0 sumx)))))
        ≡ sealed sum ((ps ++ (cur ++ (fill ++ end)) ∷ []) ++ sumx ∷ [])
  file_text ps cur fill end sumx = simp (sealed-append sum, append_assoc, append-nil) refl

  -- The file behind the last block and the exclusive or.
  close_write-file :
      (fc : Writer) (text : Bytes)
      → Returns (crc_write sum.crc fc []) (Wrote sum d room text)
      → (ps : List Bytes) × Blocks d 8 text ps × (close_write sum.crc fc ≡ ok (file sum d ps))
  unfolding close_write
  close_write-file fc text (fc', run, (h, ps, cur, i, short)) =
      let (_, size, c) = resumed fc' h ps cur text i in
      let len : fc'.offset - fc'.boff ≡ length cur - h = omega (arith, i.place, i.head) in
      let fill = zeros (d - length cur) in
      let block = cur ++ (fill ++ le16 (length cur - h)) in
      let sumx = xor_sum (zeros (d + 2)) (ps ++ block ∷ []) in
      let tail =
        fill
        ++ (le16 (length cur - h) ++ (le32 (sum.crc 0 block) ++ (sumx ++ le32 (sum.crc 0 sumx)))) in
      let pad : (if fc'.boff == 0
            then fc'.datasz - (length cur - h) - 8
            else fc'.datasz - (length cur - h))
          ≡ d - length cur =
        (let p = i.head in
          let q = i.datasz in
          elim i.first [ inl (e, f, g) ↦ ground arith | inr (e, f) ↦ ground arith ]) in
      let into : xor_into fc'.xor fc'.datasz (le16 (length cur - h)) ≡ ok sumx =
        ap (λ k. xor_into fc'.xor k (le16 (length cur - h))) i.datasz
        ∙ xor_into_lem fc'.xor d (le16 (length cur - h))
            (omega (arith, length-xor sum d room fc' h ps cur text i))
        ∙ ap (λ r. ok r) (last_xor fc' h ps cur text i) in
      let code : sum.crc (sum.crc fc'.crc fill) (le16 (length cur - h)) ≡ sum.crc 0 block =
        ap (λ c. sum.crc (sum.crc c fill) (le16 (length cur - h))) i.crc
        ∙ sum.crc-append (sum.crc 0 cur) fill (le16 (length cur - h))
        ∙ sum.crc-append 0 cur (fill ++ le16 (length cur - h)) in
      (
        ps ++ block ∷ [],
        subst (λ t. Blocks d 8 t (ps ++ block ∷ [])) (append-nil text)
            (i.extends [] (block ∷ [])
              (subst (λ s. Blocks d h s (block ∷ [])) (sym (append-nil cur)) (last h cur short))),
        rw (run, len, pad, into, code)
            (ap (λ r. ok r)
              (ap (λ o. o ++ tail) i.out ∙ file_text ps cur fill (le16 (length cur - h)) sumx)),
      )

  -- A call with no bytes.
  more :
      (fc : Writer) (text : Bytes)
      → Wrote sum d room text fc
      → Returns (crc_write sum.crc fc []) (Wrote sum d room text)
  more fc text w =
      subst (λ t. Returns (crc_write sum.crc fc []) (Wrote sum d room t)) (append-nil text)
        (crc_write-Wrote fc text [] w)

  write_bufs-Wrote :
      (bufs : List Bytes) (fc : Writer) (text : Bytes)
      → Wrote sum d room text fc
      → Returns (write_bufs sum.crc fc bufs) (Wrote sum d room (text ++ concat bufs))
  unfolding write_bufs
  write_bufs-Wrote [] fc text w =
      (fc, refl, subst (λ t. Wrote sum d room t fc) (sym (append-nil text)) w)
  write_bufs-Wrote (buf ∷ bufs) fc text w =
      let (fc₁, run, w₁) = crc_write-Wrote fc text buf w in
      let (fc₂, ran, w₂) = write_bufs-Wrote bufs fc₁ (text ++ buf) w₁ in
      (
        fc₂,
        rw run ran,
        subst (λ t. Wrote sum d room t fc₂) (append_assoc text buf (concat bufs)) w₂,
      )

  -- The buffers, and then the close.
  pub bufs-file :
      (bits : ℕ) (bufs : List Bytes)
      → (ps : List Bytes) × Blocks d 8 (header bits ++ concat bufs) ps
        × ((write_bufs sum.crc (fresh bits) bufs >>= close_write sum.crc) ≡ ok (file sum d ps))
  unfolding write_bufs
  bufs-file bits [] = close_write-file (fresh bits) (header bits ++ []) (fresh-Wrote bits [])
  bufs-file bits (buf ∷ bufs) =
      let (fc₁, run, w₁) = fresh-Wrote bits buf in
      let (fc₂, ran, w₂) = write_bufs-Wrote bufs fc₁ (header bits ++ buf) w₁ in
      let (ps, blocks, closed) = close_write-file fc₂ _ (more fc₂ _ w₂) in
      (
        ps,
        subst (λ t. Blocks d 8 t ps) (append_assoc (header bits) buf (concat bufs)) blocks,
        rw (run, ran) closed,
      )

best_loop-range :
    (rounds bits est best bestsz : ℕ)
    → 6 ≤ bits
    → bits + rounds ≤ 17
    → 6 ≤ best
    → best ≤ 16
    → (6 ≤ best_loop rounds bits est best bestsz) × (best_loop rounds bits est best bestsz ≤ 16)
unfolding best_loop
best_loop-range zero bits est best bestsz low high l h = (l, h)
best_loop-range (suc rounds) bits est best bestsz low high l h =
    let nblocks = (est / (2 ^ bits - 6) + 1) % 4294967296 in
    let out = (nblocks * 6 + 2 ^ bits) % 4294967296 in
    let better =
      best_loop-range rounds (bits + 1) est bits out (omega arith) (omega arith) low
        (omega arith) in
    let worse = best_loop-range rounds (bits + 1) est best bestsz (omega arith) (omega arith) l h in
    elim (Bool-cases (best == 0 || int_less out bestsz)) [
      | inl e ↦ rw e better
      | inr e ↦ rw e worse
    ]

-- The block size is one of those that the format allows.
pub best_datasz-range : (est : ℕ) → (6 ≤ best_datasz est) × (best_datasz est ≤ 16)
unfolding best_datasz best_loop
best_datasz-range est =
    best_loop-range 10 7 est 6 (((est / 58 + 1) % 4294967296 * 6 + 64) % 4294967296) (omega arith)
      (omega arith) (omega arith) (omega arith)

pub datasz-range : (bits : ℕ) → 6 ≤ bits → bits ≤ 16 → (58 ≤ 2 ^ bits - 6) × (2 ^ bits - 6 < 65536)
datasz-range bits low high =
    let l : 2 ^ 6 ≤ 2 ^ bits = pow-le-pow_right (omega arith) low in
    let h : 2 ^ bits ≤ 2 ^ 16 = pow-le-pow_right (omega arith) high in
    (omega (arith, l), omega (arith, h))

-- However the data comes in, the file that is written and closed is the one of the format: a
-- header, the data in blocks of the size that best_datasz chose, each with its length and its
-- checksum, and the exclusive or of the blocks with its checksum.
pub write_file-file :
    (sum : Checksum) (est : ℕ) (bufs : List Bytes)
    → (ps : List Bytes) × Blocks
        (2 ^ best_datasz est - 6)
        8
        (header (best_datasz est) ++ concat bufs)
        ps
      × (write_file sum.crc est bufs ≡ ok (file sum (2 ^ best_datasz est - 6) ps))
unfolding write_file open_write
write_file-file sum est bufs =
    let bits = best_datasz est in
    let (low, high) = datasz-range bits (best_datasz-range est).0 (best_datasz-range est).1 in
    let (ps, blocks, run) = bufs-file sum (2 ^ bits - 6) (omega (arith, low)) bits bufs in
    (ps, blocks, rw (ltb-true (2 ^ bits - 6) 65536 high) run)
