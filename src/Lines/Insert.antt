-- ===== src/Lines/Insert.antt =====
-- `truncArray` and `_insertArrayN` against the list operations that they stand for.
use bksupport.Base.{
  ℕ, zero, suc, ◌+◌, ◌-◌, ◌≤◌, ◌<◌, ◌≡◌, refl, ap, ◌∙◌, ◌⊎◌, inl, inr, List, [], ◌∷◌, ◌++◌, map,
  append_assoc, Option, none, some, arith, length, length-append, length-map, take, drop,
  take-append-drop, length-take, true, false, ltb, ltb-true, leb-true, leb-false, Run, ok, fault,
  assert_failed, Returns, ◌>>=◌, if◌then◌else◌,
}
use bksupport.Cells.{Cells, write, write_all, write_mid, write_all_mid, read_all, read_all_mid}
use bksupport.Lines.{Array, Space, trunc_array, insert_array, set_llen, item_or}
use bksupport.Lines.Append.{map-some-append, set_llen-Models, n_lines-Models}
use bksupport.Lines.Grow.{HasRoom, grow-Holds, header}
use bksupport.Lines.Shape.{Models, SpaceModels}

module _ {ℓ} {A : Type ℓ} where
  -- `truncArray` keeps the first `n` elements; a length that the array does not have stops the
  -- program.
  pub trunc_array_lem :
      (xs : List A) (space : Space A) (n : ℕ)
      → SpaceModels xs space
      → (n ≤ length xs → Returns (trunc_array space n) (SpaceModels (take n xs)))
        × (length xs < n → trunc_array space n ≡ fault assert_failed)
  unfolding trunc_array
  trunc_array_lem xs (some a) n m =
      let (len, _, _) = header m.holds in
      (
        λ le. (
          some (record a { hdr = set_llen a.hdr n }),
          rw (len, leb-true n (length xs) le),
          set_llen-Models n m le,
        ),
        λ lt. rw (len, leb-false n (length xs) lt),
      )
  trunc_array_lem xs none n m = rw m (trunc_null n)
    where
      trunc_null :
          (n : ℕ)
          → (n ≤ 0 → Returns (trunc_array {A = A} none n) (SpaceModels (take {A = A} n [])))
            × (0 < n → trunc_array {A = A} none n ≡ fault assert_failed)
      trunc_null zero = (λ le. (none, refl, refl), λ lt. absurd (omega arith))
      trunc_null (suc n) = (λ le. absurd (omega arith), λ lt. ground arith)

  -- `memmove` of a tail by one cell towards the end.
  move_up :
      (ys zs : List A) (z : A) (c : Option A) (rest : Cells A)
      → write_all (map some ys ++ (map some (z ∷ zs) ++ (c ∷ rest))) (length ys + 1) (z ∷ zs)
        ≡ ok (map some ys ++ (some z ∷ (map some (z ∷ zs) ++ rest)))
  move_up ys zs z c rest =
      let same : map some ys ++ (map some (z ∷ zs) ++ (c ∷ rest))
          ≡ map some (ys ++ z ∷ []) ++ ((map some zs ++ c ∷ []) ++ rest) =
        rw (← map-some-append) (simp append_assoc) in
      let pos : length ys + 1 ≡ length (ys ++ z ∷ []) = rw length-append refl in
      let wide : length (map some zs ++ c ∷ []) ≡ length (z ∷ zs) =
        rw (length-append, length-map) (omega arith) in
      rw (same, pos)
        (write_all_mid (ys ++ z ∷ []) (map some zs ++ c ∷ []) rest (z ∷ zs) wide
          ∙ ap ok (rw (← map-some-append) (simp append_assoc)))

  -- The cells after an insertion: the tail is moved up by one, and the gap is written.
  insert_cells :
      (ys zs : List A) (v : A) (c : Option A) (rest : Cells A) (k : Cells A → Run (Array A))
      → let cells = map some ys ++ (map some zs ++ (c ∷ rest)) in
        (if ltb (length ys + 1) (length ys + length zs + 1)
            then (read_all cells (length ys + 1 - 1) (length ys + length zs + 1 - (length ys + 1))
                >>= λ tail. write_all cells (length ys + 1) tail)
            else ok cells)
          >>= (λ moved. write moved (length ys + 1 - 1) v >>= k)
        ≡ k (map some (ys ++ v ∷ zs) ++ rest)
  insert_cells ys [] v c rest k =
      let n = length ys in
      let out : ltb (n + 1) (n + 0 + 1) ≡ false = ground arith in
      let e : n + 1 - 1 ≡ n = omega arith in
      rw (out, e, write_mid ys c rest v, ← map-some-append, append_assoc)
  insert_cells ys (z ∷ zs) v c rest k =
      let n = length ys in
      let inside : ltb (n + 1) (n + suc (length zs) + 1) ≡ true = ground arith in
      let e₁ : n + 1 - 1 ≡ n = omega arith in
      let e₂ : n + suc (length zs) + 1 - (n + 1) ≡ suc (length zs) = omega arith in
      rw
        (
          inside,
          e₁,
          e₂,
          read_all_mid ys (z ∷ zs) (c ∷ rest),
          move_up ys zs z c rest,
          write_mid ys (some z) (map some (z ∷ zs) ++ rest) v,
        )
        (ap k (rw (← map-some-append, append_assoc)))

  module _ (zeros : A) (space : Space A) (size : ℕ) (new : Option A) where
    insert_split :
        (ys zs : List A)
        → SpaceModels (ys ++ zs) space
        → HasRoom size (length (ys ++ zs) + 1)
        → Returns
            (insert_array zeros space (length ys + 1) new size)
            (Models (ys ++ item_or zeros new ∷ zs))
    unfolding insert_array
    insert_split ys zs m room =
        let (a, run, (c, spare, h)) = grow-Holds (ys ++ zs) space 1 size m room in
        let total : length (ys ++ zs) + 1 ≡ length ys + length zs + 1 = rw length-append refl in
        let (c0, rest, e) = spare_cell spare (omega (arith, h.sized, h.fits)) in
        let cells : a.cells ≡ map some ys ++ (map some zs ++ (c0 ∷ rest)) =
          h.cells_are ∙ rw (e, ← map-some-append, append_assoc) in
        let v = item_or zeros new in
        (
          record a { cells = map some (ys ++ v ∷ zs) ++ rest },
          rw
              (
                n_lines-Models (ys ++ zs) space m,
                total,
                ltb-true 0 (length ys + 1) (omega arith),
                leb-true (length ys + 1) (length ys + length zs + 1) (omega arith),
                run,
                cells,
              )
              (insert_cells ys zs v c0 rest (λ cs. ok (record a { cells = cs }))),
          record {
            log = c;
            spare = rest;
            holds = record {
              hdr_is = rw length-append (h.hdr_is ∙ rw length-append (omega arith));
              cells_are = refl;
              sized = rw length-append (omega (arith, h.sized, total, ap length e));
              fits = rw length-append (omega (arith, h.fits, total));
              small = h.small;
            };
          },
        )
      where
        spare_cell : (s : Cells A) → 0 < length s → (c : Option A) × (r : Cells A) × (s ≡ c ∷ r)
        spare_cell [] p = absurd (omega arith)
        spare_cell (c ∷ r) p = (c, r, refl)

    -- `insertArrayN` puts the element at position `j` and moves the tail up by one.
    pub insert_array-Models :
        (xs : List A) (j : ℕ)
        → SpaceModels xs space
        → HasRoom size (length xs + 1)
        → 0 < j
        → j ≤ length xs + 1
        → Returns
            (insert_array zeros space j new size)
            (Models (take (j - 1) xs ++ item_or zeros new ∷ drop (j - 1) xs))
    insert_array-Models xs j m room lo hi =
        let cut = take-append-drop (j - 1) xs in
        let pos : length (take (j - 1) xs) + 1 ≡ j = omega (arith, length-take (j - 1) xs) in
        rw pos at (insert_split (take (j - 1) xs) (drop (j - 1) xs) (rw cut m) (rw cut room))

    -- A position outside 1 .. nLines + 1 stops the program.
    pub insert_array_out :
        (xs : List A) (j : ℕ)
        → SpaceModels xs space
        → (j ≡ 0) ⊎ (length xs + 1 < j)
        → insert_array zeros space j new size ≡ fault assert_failed
    unfolding insert_array
    insert_array_out xs j m (inl e) = rw e refl
    insert_array_out xs j m (inr lt) =
        rw (n_lines-Models xs space m, ltb-true 0 j (omega arith), leb-false j (length xs + 1) lt)
