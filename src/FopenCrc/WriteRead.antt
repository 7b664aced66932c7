-- ===== src/FopenCrc/WriteRead.antt =====
-- A file that was written and closed, opened and read again.
use bksupport.Base.{
  ℕ, zero, suc, ◌+◌, ◌-◌, ◌*◌, ◌^◌, ◌<◌, ◌≤◌, ◌≡◌, refl, sym, ap, ◌∙◌, subst, inl, Bool, true,
  false, List, [], ◌∷◌, ◌++◌, append_assoc, Option, none, some, arith, Bytes, length, length-append,
  length-replicate, take, drop, take-append-drop, ltb-true, Returns, ok,
}
use bksupport.FopenCrc.{le16, le32, header, best_datasz, write_file}
use bksupport.FopenCrc.Reader.{
  Reader, crc_read, read_after_seek, seek_block, eat, open_read, close_read,
}
use bksupport.FopenCrc.Xor.{xor_sum, zeros}
use bksupport.FopenCrc.Format.{Checksum, Blocks, last, full, sealed, file, concat}
use bksupport.FopenCrc.Closed.{best_datasz-range, datasz-range, write_file-file}
use bksupport.FopenCrc.RoundTrip.{at, eat-Eaten}

-- What the code relies on of `fscanf(f, "CR%c %03d\n", &c, &bits)`.
pub record HeaderScan : Type 0 where
  pub scan : Bytes → Option (ℕ × ℕ)
  pub reads :
      (bits : ℕ) (rest : Bytes)
      → 6 ≤ bits
      → bits ≤ 16
      → scan (header bits ++ rest) ≡ some (b'c', bits)

take_inside : (n : ℕ) (xs ys : Bytes) → n ≤ length xs → take n (xs ++ ys) ≡ take n xs
take_inside zero xs ys h = refl
take_inside (suc n) [] ys h = absurd (omega arith)
take_inside (suc n) (x ∷ xs) ys h = ap (λ r. x ∷ r) (take_inside n xs ys (omega arith))

starts : (n : ℕ) (s r : Bytes) → s ++ r ≡ take n s ++ (drop n s ++ r)
starts n s r = ap (λ t. t ++ r) (sym (take-append-drop n s)) ∙ append_assoc (take n s) (drop n s) r

module _ (sum : Checksum) where
  -- The file begins as the stream does.
  sealed-starts :
      (d h : ℕ) (t : Bytes) (ps qs : List Bytes)
      → Blocks d h t ps
      → 8 ≤ length t
      → 8 ≤ d
      → (r : Bytes) × (sealed sum (ps ++ qs) ≡ take 8 t ++ r)
  sealed-starts d h _ _ qs (last _ s short) le room = (_, append_assoc s _ _ ∙ starts 8 s _)
  sealed-starts d h _ _ qs (full _ s rest ps l blocks) le room =
      let same : take 8 (s ++ rest) ≡ take 8 s = take_inside 8 s rest (omega arith) in
      subst (λ t. (r : Bytes) × (sealed sum (((s ++ le16 (d - h)) ∷ ps) ++ qs) ≡ t ++ r)) (sym same)
        (_, append_assoc s _ _ ∙ starts 8 s _)

  sealed-longer : (ps : List Bytes) → 4 * length ps ≤ length (sealed sum ps)
  sealed-longer [] = omega arith
  sealed-longer (p ∷ ps) = omega (
    arith,
    sealed-longer ps,
    length-append p (le32 (sum.crc 0 p) ++ sealed sum ps),
    length-append (le32 (sum.crc 0 p)) (sealed sum ps),
  )

  -- The file as it is opened.
  abbrev opened : Bytes → ℕ → Bool → Reader
  opened text d chk = record {
    file = text;
    pos = 0;
    datasz = d;
    oldfmt = false;
    filesz = none;
    offset = 0;
    boff = 0;
    seekoff = 0;
    didseek = true;
    do_xor = false;
    chkxor = chk;
    xorchkd = false;
    rbuf = [];
    rbuf_off = 0;
    xor = [];
  }

  opened-eat :
      (text : Bytes) (d : ℕ) (chk : Bool) (room : 8 < d) (small : d < 65536) (fuel : ℕ)
      → eat sum.crc (suc fuel) (opened text d chk)
        ≡ eat sum.crc (suc fuel) (at sum text d chk room small 0 none 0 0 0 (zeros (d + 2)))
  unfolding eat crc_read read_after_seek seek_block
  opened-eat text d chk room small fuel = refl

  -- Reading the file of the format to its end.
  opened-Eaten :
      (d bits : ℕ) (chk : Bool) (room : 8 < d) (small : d < 65536) (data' : Bytes) (ps : List Bytes)
      → Blocks d 8 (header bits ++ data') ps
      → Returns
          (eat sum.crc (length (file sum d ps) + 1) (opened (file sum d ps) d chk))
          (λ r. (r.1 ≡ data') × (r.0.xorchkd ≡ true))
  opened-Eaten d bits chk room small data' ps blocks =
      let text = file sum d ps in
      let f : length text + 1 ≡ suc (length text) = omega arith in
      let longer = sealed-longer (ps ++ xor_sum (zeros (d + 2)) ps ∷ []) in
      let more = length-append ps (xor_sum (zeros (d + 2)) ps ∷ []) in
      rw (f, opened-eat text d chk room small (length text))
        (eat-Eaten sum text d chk room small 8 (header bits ++ data') ps 0 0 0 (length text)
          (zeros (d + 2)) blocks (inl (refl, refl, refl)) (omega arith) (length-replicate (d + 2) 0)
          refl (omega arith))

  open_read-opened :
      (scan : Bytes → Option (ℕ × ℕ)) (text : Bytes) (bits : ℕ) (chk : Bool)
      → scan text ≡ some (b'c', bits)
      → 2 ^ bits - 6 < 65536
      → open_read scan text chk ≡ ok (opened text (2 ^ bits - 6) chk)
  unfolding open_read
  open_read-opened scan text bits chk e small =
      rw (open_read, e, ltb-true (2 ^ bits - 6) 65536 small) refl

  close_read-opened :
      (text : Bytes) (d : ℕ) (chk : Bool) (r : Reader × Bytes)
      → eat sum.crc (length text + 1) (opened text d chk) ≡ ok r
      → r.0.xorchkd ≡ true
      → close_read sum.crc (opened text d chk) ≡ ok tt
  unfolding close_read
  close_read-opened text d false r run checked = refl
  close_read-opened text d true r run checked = rw (run, checked) refl

-- What was written in any number of buffers, and closed, is a file whose reads, block by block to
-- the end, give the bytes again; the checksums and the exclusive or agree, and so do the checks of
-- crcClose.
pub open_read-write_file :
    (sum : Checksum) (header_scan : HeaderScan) (est : ℕ) (bufs : List Bytes) (chk : Bool)
    → Returns (write_file sum.crc est bufs) (λ text.
      Returns (open_read header_scan.scan text chk) (λ fc.
        Returns (eat sum.crc (length text + 1) fc) (λ r. (r.1 ≡ concat bufs) × (r.0.xorchkd ≡ true))
        × (close_read sum.crc fc ≡ ok tt)))
open_read-write_file sum header_scan est bufs chk =
    let bits = best_datasz est in
    let (low, high) = best_datasz-range est in
    let (wide, small) = datasz-range bits low high in
    let room : 8 < 2 ^ bits - 6 = omega (arith, wide) in
    let (ps, blocks, written) = write_file-file sum est bufs in
    let text = file sum (2 ^ bits - 6) ps in
    let (rest, begins) =
      sealed-starts sum (2 ^ bits - 6) 8 (header bits ++ concat bufs) ps _ blocks (omega arith)
        (omega (arith, room)) in
    let scanned : header_scan.scan text ≡ some (b'c', bits) =
      ap header_scan.scan begins ∙ header_scan.reads bits rest low high in
    let eaten = opened-Eaten sum (2 ^ bits - 6) bits chk room small (concat bufs) ps blocks in
    let (r, run, (bytes, checked)) = eaten in
    (
      text,
      written,
      (
        opened sum text (2 ^ bits - 6) chk,
        open_read-opened sum header_scan.scan text bits chk scanned small,
        ((r, run, (bytes, checked)), close_read-opened sum text (2 ^ bits - 6) chk r run checked),
      ),
    )
