-- ===== src/FopenCrc/RoundTrip.antt =====
-- What was written is read back, and the exclusive or agrees.
use Prim.Native.Nat.{min}
use bksupport.Base.{
  ℕ, zero, suc, ◌+◌, ◌-◌, ◌<◌, ◌≤◌, ◌≡◌, refl, sym, ap, ◌∙◌, subst, inl, inr, ◌⊎◌, Bool, true,
  false, List, [], ◌∷◌, ◌++◌, append-nil, Option, none, some, arith, Bytes, length, length-append,
  length-drop, length-take, take, drop, take-append-drop, leb, leb-true, ◌==◌, ==_iff,
  if◌then◌else◌, Returns, ok,
}
use bksupport.Cells.Overwrite.{drop-append, drop_whole}
use bksupport.FopenCrc.{le16}
use bksupport.FopenCrc.Reader.{
  Reader, read_block, read_loop, crc_read, saved_part, end_read, all_zero, eat,
}
use bksupport.FopenCrc.Xor.{xor_at, length-xor_at, xor_sum}
use bksupport.FopenCrc.Format.{Checksum, Blocks, last, full, sealed, length-block, length-full}
use bksupport.FopenCrc.ReadBack.{
  Stands, state, last_block, read_block-full, read_block-last, read_block-empty, read_block-xor,
  pos_step, short_head, block_behind, all_zero-xor_at,
}

take_nil {ℓ} : {A : Type ℓ} → (n : ℕ) → take {A = A} n [] ≡ []
take_nil zero = refl
take_nil (suc n) = refl

drop_nil {ℓ} : {A : Type ℓ} → (n : ℕ) → drop {A = A} n [] ≡ []
drop_nil zero = refl
drop_nil (suc n) = refl

if_same {ℓ} : {A : Type ℓ} → (b : Bool) (x : A) → (if b then x else x) ≡ x
if_same true x = refl
if_same false x = refl

Nat-split : (h n : ℕ) → h ≤ n → (h ≡ n) ⊎ (h < n)
Nat-split h n le = omega arith

module _ (sum : Checksum) (text : Bytes) (d : ℕ) (chk : Bool) (room : 8 < d)
    (small : d < 65536) where
  abbrev pub at : ℕ → Option ℕ → ℕ → ℕ → ℕ → Bytes → Reader
  at = state sum text d chk room small

  saved_none :
      (pos : ℕ) (size : Option ℕ) (offset boff rbuf_off : ℕ) (xor : Bytes) (len : ℕ)
      → saved_part (at pos size offset boff rbuf_off xor) len ≡ []
  unfolding saved_part
  saved_none pos size offset boff rbuf_off xor len =
      rw
        (drop_nil {A = ℕ} (offset - rbuf_off), take_nil {A = ℕ} (min len (0 - (offset - rbuf_off))))
        (if_same (leb rbuf_off offset) [])

  -- A read of the size of a block, at the start of one.
  crc_read-direct :
      (pos boff rbuf_off : ℕ) (xor : Bytes) (fc : Reader) (data' : Bytes)
      → read_block sum.crc 2 (at pos none boff boff rbuf_off xor) ≡ ok (fc, data')
      → crc_read sum.crc (at pos none boff boff rbuf_off xor) d
        ≡ end_read (record fc { offset = fc.offset + length data' }) data'
  unfolding crc_read read_loop
  crc_read-direct pos boff rbuf_off xor fc data' run =
      let f : length text + 2 ≡ suc (length text + 1) = omega arith in
      let o : boff + 0 ≡ boff = omega arith in
      let l : d - 0 ≡ d = omega arith in
      let here : (boff == boff) ≡ true = (==_iff _ _).1 refl in
      let fits : leb d d ≡ true = leb-true d d (omega arith) in
      rw (f, saved_none pos none boff boff rbuf_off xor d, o, l, here, fits, run) refl

  -- The check behind the last block.
  end_read-whole :
      (pos : ℕ) (size : Option ℕ) (offset boff rbuf_off : ℕ) (xor : Bytes)
      → all_zero xor ≡ true
      → Returns
          (end_read (at pos size offset boff rbuf_off xor) [])
          (λ r. (r.1 ≡ []) × (r.0.xorchkd ≡ true))
  unfolding end_read
  end_read-whole pos size offset boff rbuf_off xor clear = (
    (record (at pos size offset boff rbuf_off xor) { xorchkd = true }, []),
    rw clear refl,
    (refl, refl),
  )

  end_read-data :
      (fc : Reader) (data' : Bytes)
      → (length data' == 0) ≡ false
      → end_read fc data' ≡ ok (fc, data')
  unfolding end_read
  end_read-data fc data' e = rw e refl

  crc_read-refill :
      (pos size boff rbuf_off : ℕ) (xor : Bytes) (fc : Reader)
      → (size == boff) ≡ false
      → read_block sum.crc 2 (at pos (some size) size boff boff xor) ≡ ok (fc, [])
      → crc_read sum.crc (at pos (some size) size boff rbuf_off xor) d
        ≡ end_read (record fc { rbuf = [] }) []
  unfolding crc_read read_loop
  crc_read-refill pos size boff rbuf_off xor fc apart run =
      let f : length text + 2 ≡ suc (length text + 1) = omega arith in
      let o : size + 0 ≡ size = omega arith in
      rw (f, saved_none pos (some size) size boff rbuf_off xor d, o, apart, run) refl

  -- A read behind the last data.
  crc_read-end :
      (pos size boff rbuf_off : ℕ) (xor t end : Bytes)
      → (boff == 0) ≡ false
      → size < boff
      → boff ≤ size + d
      → length t ≡ d
      → length end ≡ 2
      → xor ≡ t ++ end
      → drop pos text ≡ sealed sum ((t ++ end) ∷ [])
      → Returns
          (crc_read sum.crc (at pos (some size) size boff rbuf_off xor) d)
          (λ r. (r.1 ≡ []) × (r.0.xorchkd ≡ true))
  crc_read-end pos size boff rbuf_off xor t end later behind near l m same here =
      let apart : (size == boff) ≡ false = ground arith in
      let wide : length (t ++ end) ≡ d + 2 = omega (arith, length-append t end, l, m) in
      let run =
        read_block-xor sum text d chk room small 1 pos boff boff size size xor t end later behind
          near (ap length same ∙ wide) l m here in
      let clear : all_zero (xor_at xor 0 (t ++ end)) ≡ true =
        ap (λ x. all_zero (xor_at x 0 (t ++ end))) same ∙ all_zero-xor_at (d + 2) (t ++ end) wide in
      let (r, checked, post) =
        end_read-whole (pos + d + 2 + 4) (some size) size (boff + d) boff (xor_at xor 0 (t ++ end))
          clear in
      (r, crc_read-refill pos size boff rbuf_off xor _ apart run ∙ checked, post)

  -- The reads of whole blocks up to the end give the data, and the exclusive or agrees.
  abbrev pub Eaten : Bytes → Reader × Bytes → Type 0
  Eaten bytes r = (r.1 ≡ bytes) × (r.0.xorchkd ≡ true)

  eat_data :
      (fuel : ℕ) (fc fc' : Reader) (data' rest : Bytes)
      → crc_read sum.crc fc fc.datasz ≡ ok (fc', data')
      → (length data' == 0) ≡ false
      → Returns (eat sum.crc fuel fc') (Eaten rest)
      → Returns (eat sum.crc (suc fuel) fc) (Eaten (data' ++ rest))
  unfolding eat
  eat_data fuel fc fc' data' rest run some_data (r, ran, (e, checked)) =
      ((r.0, data' ++ r.1), rw (run, some_data, ran) refl, (ap (λ b. data' ++ b) e, checked))

  eat_done :
      (fuel : ℕ) (fc : Reader)
      → Returns (crc_read sum.crc fc fc.datasz) (λ r. (r.1 ≡ []) × (r.0.xorchkd ≡ true))
      → Returns (eat sum.crc (suc fuel) fc) (Eaten [])
  unfolding eat
  eat_done fuel fc (r, run, (e, checked)) =
      let none_read : (length r.1 == 0) ≡ true = ap (λ b. length b == 0) e in
      ((r.0, []), rw (run, none_read) refl, (refl, checked))

  last-Eaten :
      (h : ℕ) (s : Bytes) (pos boff rbuf_off fuel : ℕ) (xor : Bytes)
      → Stands sum text d chk room small h pos boff
      → h ≤ length s
      → length s < d
      → length xor ≡ d + 2
      → drop pos text
        ≡ sealed sum (
            last_block sum text d chk room small h s
            ∷ xor_at xor 0 (last_block sum text d chk room small h s)
            ∷ [])
      → Returns
          (eat sum.crc (suc (suc fuel)) (at pos none boff boff rbuf_off xor))
          (Eaten (drop h s))
  last-Eaten h s pos boff rbuf_off fuel xor stands le short wide here =
      let block = last_block sum text d chk room small h s in
      let sumx = xor_at xor 0 block in
      let parts : take d sumx ++ drop d sumx ≡ sumx = take-append-drop d sumx in
      let l : length (take d sumx) ≡ d =
        omega (arith, length-take d sumx, length-xor_at xor 0 block, wide) in
      let m : length (drop d sumx) ≡ 2 =
        omega (arith, length-drop d sumx, length-xor_at xor 0 block, wide) in
      elim (Nat-split h (length s) le) [
        | inl same ↦
            let run =
              read_block-empty sum text d chk room small h pos boff rbuf_off boff xor s
                (drop d sumx) (take d sumx) stands wide short (sym same) m l
                (here ∙ ap (λ x. sealed sum (block ∷ x ∷ [])) (sym parts)) in
            let none_data : drop h s ≡ [] = drop_whole h s (omega (arith, same)) in
            let clear : all_zero (xor_at sumx 0 (take d sumx ++ drop d sumx)) ≡ true =
              ap (λ x. all_zero (xor_at sumx 0 x)) parts
              ∙ all_zero-xor_at (d + 2) sumx (length-xor_at xor 0 block ∙ wide) in
            let (r, checked, post) =
              end_read-whole (pos + d + 2 + 4 + d + 2 + 4) (some (boff + 0)) (boff + 0)
                (boff + (d - h) + d) rbuf_off _ clear in
            subst
              (λ b.
                Returns (eat sum.crc (suc (suc fuel)) (at pos none boff boff rbuf_off xor))
                  (Eaten b))
              (sym none_data)
              (eat_done (suc fuel) (at pos none boff boff rbuf_off xor)
                (r, crc_read-direct pos boff rbuf_off xor _ [] run ∙ checked, post))
        | inr less ↦
            let size : length (drop h s) ≡ length s - h = omega (arith, length-drop h s) in
            let some_data : (length (drop h s) == 0) ≡ false = ground arith in
            let read =
              crc_read-direct pos boff rbuf_off xor _ (drop h s) (
                read_block-last sum text d chk room small h pos boff rbuf_off boff xor s _ stands
                  wide short less here)
              ∙ end_read-data _ (drop h s) some_data in
            let next =
              block_behind sum text d chk room small pos block _
                (length-block d s (length s - h) (omega (arith, short))) here in
            let rest =
              eat_done fuel
                (at (pos + d + 2 + 4) (some (boff + (length s - h))) (boff + (length s - h))
                  (boff + (d - h)) rbuf_off sumx)
                (crc_read-end (pos + d + 2 + 4) (boff + (length s - h)) (boff + (d - h)) rbuf_off
                  sumx (take d sumx) (drop d sumx)
                  (pos_step sum text d chk room small pos boff h stands) (omega arith) (omega arith)
                  l m (sym parts) (next ∙ ap (λ x. sealed sum (x ∷ [])) (sym parts))) in
            subst
              (λ b.
                Returns (eat sum.crc (suc (suc fuel)) (at pos none boff boff rbuf_off xor))
                  (Eaten b))
              (append-nil (drop h s))
              (eat_data (suc fuel) (at pos none boff boff rbuf_off xor) _ (drop h s) [] read
                some_data (rw size rest))
      ]

  pub eat-Eaten :
      (h : ℕ) (s : Bytes) (ps : List Bytes) (pos boff rbuf_off fuel : ℕ) (xor : Bytes)
      → Blocks d h s ps
      → Stands sum text d chk room small h pos boff
      → h ≤ length s
      → length xor ≡ d + 2
      → drop pos text ≡ sealed sum (ps ++ xor_sum xor ps ∷ [])
      → length ps < fuel
      → Returns (eat sum.crc (suc fuel) (at pos none boff boff rbuf_off xor)) (Eaten (drop h s))
  eat-Eaten h s ps pos boff rbuf_off zero xor blocks stands le wide here enough =
      absurd (omega arith)
  eat-Eaten h _ _ pos boff rbuf_off (suc fuel) xor (full _ s rest ps l blocks) stands le wide here
        enough =
      let small_head = short_head sum text d chk room small h pos boff stands in
      let block = s ++ le16 (d - h) in
      let size : length (drop h s) ≡ d - h = omega (arith, length-drop h s, l) in
      let some_data : (length (drop h s) == 0) ≡ false = ground arith in
      let block_size = length-full d s (d - h) l in
      let read =
        crc_read-direct pos boff rbuf_off xor _ (drop h s) (
          read_block-full sum text d chk room small h pos boff rbuf_off boff xor s _ stands wide l
            here)
        ∙ end_read-data _ (drop h s) some_data in
      let next = block_behind sum text d chk room small pos block _ block_size here in
      let before : h - length s ≡ 0 = omega (arith, l) in
      subst
        (λ b. Returns (eat sum.crc (suc (suc fuel)) (at pos none boff boff rbuf_off xor)) (Eaten b))
        (sym (drop-append h s rest ∙ ap (λ k. drop h s ++ drop k rest) before))
        (eat_data (suc fuel) (at pos none boff boff rbuf_off xor) _ (drop h s) rest read some_data (
          rw size (
            eat-Eaten 0 rest ps (pos + d + 2 + 4) (boff + (d - h)) rbuf_off fuel
              (xor_at xor 0 block) blocks
              (inr (refl, pos_step sum text d chk room small pos boff h stands)) (omega arith)
              (length-xor_at xor 0 block ∙ wide) next (omega arith))))
  eat-Eaten h _ _ pos boff rbuf_off (suc fuel) xor (last _ s short) stands le wide here enough =
      last-Eaten h s pos boff rbuf_off fuel xor stands le short wide here
