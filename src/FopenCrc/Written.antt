-- ===== src/FopenCrc/Written.antt =====
-- What is written is the file of the format, however the data comes in.
use Prim.Native.Nat.{min}
use bksupport.Base.{
  ℕ, zero, suc, ◌+◌, ◌-◌, ◌<◌, ◌≤◌, ◌≡◌, refl, sym, ap, ◌∙◌, subst, inl, inr, ◌⊎◌, true, false,
  List, [], ◌∷◌, ◌++◌, append_assoc, append-nil, arith, Bytes, length, length-append, length-take,
  length-replicate, take, drop, take-append-drop, leb, ◌==◌, ==_iff, Bool-cases, length-drop,
  if◌then◌else◌, Returns, ◌>>=◌,
}
use bksupport.FopenCrc.{Writer, le16, le32, end_block, put_part, write_loop}
use bksupport.FopenCrc.Xor.{
  xor_at, xor_into_lem, length-xor_at, xor_at_nil, xor_at-append, xor_sum, length-xor_sum,
  xor_sum-append, zeros,
}
use bksupport.FopenCrc.Format.{Checksum, Blocks, full, sealed, sealed-append}

module _ (sum : Checksum) (d : ℕ) (room : 8 < d) where
  -- The blocks `ps` are written, and `cur` of the next one; with what may follow they are the
  -- blocks of `text` with what follows.
  pub record Filling (fc : Writer) (h : ℕ) (ps : List Bytes) (cur text : Bytes) : Type 0 where
    pub out : fc.out ≡ sealed sum ps ++ cur
    pub crc : fc.crc ≡ sum.crc 0 cur
    pub xor : fc.xor ≡ xor_at (xor_sum (zeros (d + 2)) ps) 0 cur
    pub datasz : fc.datasz ≡ d
    pub didseek : fc.didseek ≡ false
    pub place : fc.offset + h ≡ fc.boff + length cur
    pub first : ((h ≡ 8) × (fc.boff ≡ 0) × (fc.writepartial ≡ true)) ⊎ ((h ≡ 0) × (0 < fc.boff))
    pub head : h ≤ length cur
    pub fits : length cur ≤ d
    pub extends :
        (t : Bytes) (qs : List Bytes) → Blocks d h (cur ++ t) qs → Blocks d 8 (text ++ t) (ps ++ qs)

  pub length-xor :
      (fc : Writer) (h : ℕ) (ps : List Bytes) (cur text : Bytes)
      → Filling fc h ps cur text
      → length fc.xor ≡ d + 2
  length-xor fc h ps cur text i =
      ap length i.xor
      ∙ length-xor_at (xor_sum (zeros (d + 2)) ps) 0 cur
      ∙ length-xor_sum (zeros (d + 2)) ps
      ∙ length-replicate (d + 2) 0

  abbrev parted : Writer → Bytes → ℕ → Writer
  parted fc part c = record fc {
    crc = sum.crc fc.crc part;
    out = fc.out ++ part;
    offset = fc.offset + length part;
    xor = xor_at fc.xor c part;
  }

  put_part-Filling :
      (fc : Writer) (h : ℕ) (ps : List Bytes) (cur text part : Bytes)
      → Filling fc h ps cur text
      → length cur + length part ≤ d
      → Returns
          (put_part sum.crc fc part (length cur))
          (λ fc'. Filling fc' h ps (cur ++ part) (text ++ part))
  unfolding put_part
  put_part-Filling fc h ps cur text part i le = (
    parted fc part (length cur),
    rw (xor_into_lem fc.xor (length cur) part (omega (arith, length-xor fc h ps cur text i))) refl,
    record {
      out = ap (λ r. r ++ part) i.out ∙ append_assoc (sealed sum ps) cur part;
      crc = ap (λ r. sum.crc r part) i.crc ∙ sum.crc-append 0 cur part;
      xor =
          ap (λ r. xor_at r (length cur) part) i.xor
          ∙ xor_at-append (xor_sum (zeros (d + 2)) ps) cur part;
      datasz = i.datasz;
      didseek = i.didseek;
      place = omega (arith, i.place, length-append cur part);
      first = i.first;
      head = omega (arith, i.head, length-append cur part);
      fits = omega (arith, le, length-append cur part);
      extends = λ t qs b.
          subst (λ s. Blocks d 8 s (ps ++ qs)) (sym (append_assoc text part t))
            (i.extends (part ++ t) qs (subst (λ s. Blocks d h s qs) (append_assoc cur part t) b));
    },
  )

  pub sealed_block :
      (ps : List Bytes) (cur end : Bytes)
      → (sealed sum ps ++ cur) ++ (end ++ le32 (sum.crc 0 (cur ++ end)))
        ≡ sealed sum (ps ++ (cur ++ end) ∷ [])
  sealed_block ps cur end =
      append_assoc (sealed sum ps) cur (end ++ le32 (sum.crc 0 (cur ++ end)))
      ∙ ap (λ r. sealed sum ps ++ r)
          (sym (append_assoc cur end (le32 (sum.crc 0 (cur ++ end))))
            ∙ ap (λ r. (cur ++ end) ++ r) (sym (append-nil (le32 (sum.crc 0 (cur ++ end))))))
      ∙ sym (sealed-append sum ps ((cur ++ end) ∷ []))

  pub xor_block :
      (xor : Bytes) (ps : List Bytes) (cur end : Bytes)
      → xor ≡ xor_at (xor_sum (zeros (d + 2)) ps) 0 cur
      → xor_at xor (length cur) end ≡ xor_sum (zeros (d + 2)) (ps ++ (cur ++ end) ∷ [])
  xor_block xor ps cur end e =
      ap (λ x. xor_at x (length cur) end) e
      ∙ xor_at-append (xor_sum (zeros (d + 2)) ps) cur end
      ∙ sym (xor_sum-append (zeros (d + 2)) ps ((cur ++ end) ∷ []))

  -- A block that is full.
  abbrev ended : Writer → ℕ → Writer
  ended fc bsize =
      let crc = sum.crc fc.crc (le16 bsize) in
      record fc {
        boff = fc.boff + bsize;
        out = fc.out ++ (le16 bsize ++ le32 crc);
        crc = 0;
        xor = xor_at fc.xor d (le16 bsize);
        writepartial = false;
      }

  end_block-Filling :
      (fc : Writer) (h : ℕ) (ps : List Bytes) (cur text : Bytes)
      → Filling fc h ps cur text
      → length cur ≡ d
      → Returns
          (end_block sum.crc fc (d - h) (length cur))
          (λ fc'. Filling fc' 0 (ps ++ (cur ++ le16 (d - h)) ∷ []) [] text)
  unfolding end_block
  end_block-Filling fc h ps cur text i e =
      let at : (fc.offset == fc.boff + (d - h)) ≡ true =
        (==_iff _ _).1 (omega (arith, i.place, i.head, e)) in
      let two : (d + 2 == d + 2) ≡ true = (==_iff _ _).1 refl in
      (
        ended fc (d - h),
        rw
            (
              at,
              e,
              xor_into_lem fc.xor d (le16 (d - h)) (omega (arith, length-xor fc h ps cur text i)),
              i.datasz,
              two,
            )
            refl,
        record {
          out =
              ap (λ o. o ++ (le16 (d - h) ++ le32 (sum.crc fc.crc (le16 (d - h))))) i.out
              ∙ ap (λ c. (sealed sum ps ++ cur) ++ (le16 (d - h) ++ le32 c))
                  (ap (λ c. sum.crc c (le16 (d - h))) i.crc ∙ sum.crc-append 0 cur (le16 (d - h)))
              ∙ sealed_block ps cur (le16 (d - h))
              ∙ sym (append-nil (sealed sum (ps ++ (cur ++ le16 (d - h)) ∷ [])));
          crc = sym (sum.crc-nil);
          xor =
              ap (λ k. xor_at fc.xor k (le16 (d - h))) (sym e)
              ∙ xor_block fc.xor ps cur (le16 (d - h)) i.xor
              ∙ sym (xor_at_nil (xor_sum (zeros (d + 2)) (ps ++ (cur ++ le16 (d - h)) ∷ [])) 0);
          datasz = i.datasz;
          didseek = i.didseek;
          place = omega (arith, i.place, i.head, e);
          first = inr (
            refl,
            elim i.first [ inl (f, _, _) ↦ omega (arith, f, room) | inr (_, f) ↦ omega (arith, f) ],
          );
          head = omega arith;
          fits = omega arith;
          extends = λ t qs b.
              subst (Blocks d 8 (text ++ t)) (sym (append_assoc ps ((cur ++ le16 (d - h)) ∷ []) qs))
                (i.extends t ((cur ++ le16 (d - h)) ∷ qs) (full h cur t qs e b));
        },
      )

  -- The loop that writes a buffer.
  abbrev pub Wrote : Bytes → Writer → Type 0
  Wrote text fc =
      (h : ℕ) × (ps : List Bytes) × (cur : Bytes) × Filling fc h ps cur text × (length cur < d)

  partial-Filling :
      (fc : Writer) (h : ℕ) (ps : List Bytes) (cur text : Bytes)
      → Filling fc h ps cur text
      → Filling (record fc { writepartial = true }) h ps cur text
  partial-Filling fc h ps cur text i = record {
    out = i.out;
    crc = i.crc;
    xor = i.xor;
    datasz = i.datasz;
    didseek = i.didseek;
    place = i.place;
    first = elim i.first [ inl (e, f, _) ↦ inl (e, f, refl) | inr f ↦ inr f ];
    head = i.head;
    fits = i.fits;
    extends = i.extends;
  }

  after_part :
      (fuel : ℕ) (fc : Writer) (h : ℕ) (ps : List Bytes) (cur text rest : Bytes) (c : ℕ)
      → Filling fc h ps cur text
      → c ≡ length cur
      → ((fc' : Writer) (h' : ℕ) (ps' : List Bytes) (cur' text' : Bytes)
          → Filling fc' h' ps' cur' text'
          → length cur' < d
          → Returns
              (write_loop sum.crc fuel fc' rest (d - h') (length cur'))
              (Wrote (text' ++ rest)))
      → Returns
          (if leb (d - h) (fc.offset - fc.boff)
            then (end_block sum.crc fc (d - h) c >>= λ fc'.
                write_loop sum.crc fuel fc' rest fc'.datasz 0)
            else write_loop sum.crc fuel (record fc { writepartial = true }) rest (d - h) c)
          (Wrote (text ++ rest))
  after_part fuel fc h ps cur text rest c i e ih =
      elim (Bool-cases (leb (d - h) (fc.offset - fc.boff))) [
        | inl f ↦
            let filled : length cur ≡ d =
              (let p = i.place in let q = i.head in let r = i.fits in ground arith) in
            let (fc', run, i') = end_block-Filling fc h ps cur text i filled in
            let size : fc'.datasz ≡ d - 0 = omega (arith, i'.datasz) in
            rw (f, e, run, size)
              (ih fc' 0 (ps ++ (cur ++ le16 (d - h)) ∷ []) [] text i' (omega arith))
        | inr f ↦
            let short : length cur < d =
              (let p = i.place in let q = i.head in let r = i.fits in ground arith) in
            rw (f, e) (ih _ h ps cur text (partial-Filling fc h ps cur text i) short)
      ]

  pub write_loop-Wrote :
      (fuel : ℕ) (fc : Writer) (h : ℕ) (ps : List Bytes) (cur text buf : Bytes)
      → Filling fc h ps cur text
      → length cur < d
      → length buf < fuel
      → Returns (write_loop sum.crc fuel fc buf (d - h) (length cur)) (Wrote (text ++ buf))
  unfolding write_loop
  write_loop-Wrote zero fc h ps cur text buf i short enough = absurd (omega arith)
  write_loop-Wrote (suc fuel) fc h ps cur text [] i short enough =
      (fc, refl, (h, ps, cur, subst (Filling fc h ps cur) (sym (append-nil text)) i, short))
  write_loop-Wrote (suc fuel) fc h ps cur text (b ∷ buf) i short enough =
      let n = min (length (b ∷ buf)) (d - h - (fc.offset - fc.boff)) in
      let part = take n (b ∷ buf) in
      let rest = drop n (b ∷ buf) in
      let gap : d - h - (fc.offset - fc.boff) ≡ d - length cur =
        omega (arith, i.place, i.head, i.fits) in
      let size : length part ≡ n = omega (arith, length-take n (b ∷ buf)) in
      let (fc₁, run, i₁) = put_part-Filling fc h ps cur text part i (omega (arith, i.fits)) in
      let fewer : length rest < fuel = omega (arith, length-drop n (b ∷ buf)) in
      let (fc₂, ran, wrote) =
        after_part fuel fc₁ h ps (cur ++ part) (text ++ part) rest (length cur + n) i₁
          (omega (arith, length-append cur part))
          (λ fc h ps cur text i short. write_loop-Wrote fuel fc h ps cur text rest i short fewer) in
      (
        fc₂,
        rw run ran,
        subst (λ t. Wrote t fc₂)
            (append_assoc text part rest ∙ ap (λ r. text ++ r) (take-append-drop n (b ∷ buf)))
            wrote,
      )
