-- ===== src/Cells/Overwrite.antt =====
-- Writes into the middle of a block that holds a row of elements.
use bksupport.Base.{
  ℕ, zero, suc, ◌+◌, ◌-◌, ◌≤◌, ◌≡◌, refl, sym, ap, ◌∙◌, List, [], ◌∷◌, ◌++◌, map, append_assoc,
  append-nil, Option, some, arith, length, length-append, length-map, length-take, length-drop,
  take, drop, take-append-drop, ok,
}
use mathlib.Core.List.{map-append}
use bksupport.Cells.{Cells, write_all, read_all, write_all_mid, read_all_mid}

-- `xs` with `vs` written over it from position `i` on, and behind it.
abbrev pub overwrite {ℓ} : {A : Type ℓ} → List A → ℕ → List A → List A
overwrite xs i vs = take i xs ++ (vs ++ drop (i + length vs) xs)

module _ {ℓ} {A : Type ℓ} where
  pub drop-append :
      (n : ℕ) (xs ys : List A) → drop n (xs ++ ys) ≡ drop n xs ++ drop (n - length xs) ys
  drop-append zero xs ys = let e : 0 - length xs ≡ 0 = omega arith in rw e refl
  drop-append (suc n) [] ys = let e : suc n - 0 ≡ suc n = omega arith in rw e refl
  drop-append (suc n) (x ∷ xs) ys =
      let e : suc n - suc (length xs) ≡ n - length xs = omega arith in rw e (drop-append n xs ys)

  pub drop-drop : (n i : ℕ) (xs : List A) → drop n (drop i xs) ≡ drop (i + n) xs
  drop-drop n zero xs = let e : 0 + n ≡ n = omega arith in rw e refl
  drop-drop zero (suc i) [] = let e : suc i + 0 ≡ suc i = omega arith in rw e refl
  drop-drop (suc n) (suc i) [] = let e : suc i + suc n ≡ suc (i + suc n) = omega arith in rw e refl
  drop-drop n (suc i) (x ∷ xs) =
      let e : suc i + n ≡ suc (i + n) = omega arith in rw e (drop-drop n i xs)

  pub length-overwrite :
      (xs : List A) (i : ℕ) (vs : List A)
      → i ≤ length xs
      → length (overwrite xs i vs) ≡ i + length vs + (length xs - (i + length vs))
  length-overwrite xs i vs h = omega (
    arith,
    h,
    length-take i xs,
    length-drop (i + length vs) xs,
    length-append (take i xs) (vs ++ drop (i + length vs) xs),
    length-append vs (drop (i + length vs) xs),
  )

  pub take_past : (n : ℕ) (xs : List A) → length xs ≤ n → take n xs ≡ xs
  take_past zero [] h = refl
  take_past zero (x ∷ xs) h = absurd (omega arith)
  take_past (suc n) [] h = refl
  take_past (suc n) (x ∷ xs) h = ap (λ r. x ∷ r) (take_past n xs (omega arith))

  pub drop_whole : (n : ℕ) (xs : List A) → length xs ≤ n → drop n xs ≡ []
  drop_whole zero [] h = refl
  drop_whole zero (x ∷ xs) h = absurd (omega arith)
  drop_whole (suc n) [] h = refl
  drop_whole (suc n) (x ∷ xs) h = drop_whole n xs (omega arith)

  pub overwrite_end : (xs vs : List A) → overwrite xs (length xs) vs ≡ xs ++ vs
  overwrite_end xs vs =
      ap (λ r. r ++ (vs ++ drop (length xs + length vs) xs))
        (take_past (length xs) xs (omega arith))
      ∙ ap (λ r. xs ++ (vs ++ r)) (drop_whole (length xs + length vs) xs (omega arith))
      ∙ ap (λ r. xs ++ r) (append-nil vs)

module _ {ℓ κ} {A : Type ℓ} {B : Type κ} (f : A → B) where
  pub drop-map : (n : ℕ) (xs : List A) → drop n (map f xs) ≡ map f (drop n xs)
  drop-map zero xs = refl
  drop-map (suc n) [] = refl
  drop-map (suc n) (x ∷ xs) = drop-map n xs

module _ {ℓ} {A : Type ℓ} (xs : List A) (spare : Cells A) (i : ℕ) (inside : i ≤ length xs) where
  abbrev tail : Cells A
  tail = map some (drop i xs) ++ spare

  length-front : length (take i xs) ≡ i
  length-front = omega (arith, length-take i xs)

  split_cells : map some xs ++ spare ≡ map some (take i xs) ++ tail
  split_cells =
      ap (λ r. map some r ++ spare) (sym (take-append-drop i xs))
      ∙ ap (λ r. r ++ spare) (map-append some (take i xs) (drop i xs))
      ∙ append_assoc (map some (take i xs)) (map some (drop i xs)) spare

  drop-tail : (n : ℕ) → drop n tail ≡ map some (drop (i + n) xs) ++ drop (i + n - length xs) spare
  drop-tail n =
      let e : n - length (map {B = Option A} some (drop i xs)) ≡ i + n - length xs =
        omega (arith, length-map {B = Option A} some (drop i xs), length-drop i xs) in
      drop-append n (map some (drop i xs)) spare
      ∙ rw e (
          ap (λ r. r ++ drop (i + n - length xs) spare)
            (drop-map some n (drop i xs) ∙ ap (map some) (drop-drop n i xs)))

  -- Elements written over the row, and behind it, at a position in the row or at its end.
  pub write_all-overwrite :
      (vs : List A)
      → i + length vs ≤ length xs + length spare
      → write_all (map some xs ++ spare) i vs
        ≡ ok (map some (overwrite xs i vs) ++ drop (i + length vs - length xs) spare)
  write_all-overwrite vs fits =
      let n = length vs in
      let room : length (take n tail) ≡ n = omega (
        arith,
        fits,
        length-take n tail,
        length-append (map {B = Option A} some (drop i xs)) spare,
        length-map {B = Option A} some (drop i xs),
        length-drop i xs,
      ) in
      ap (λ c. write_all c i vs)
        (split_cells ∙ ap (λ r. map some (take i xs) ++ r) (sym (take-append-drop n tail)))
      ∙ (rw length-front at (write_all_mid (take i xs) (take n tail) (drop n tail) vs room))
      ∙ ap ok (ap (λ r. map some (take i xs) ++ (map some vs ++ r)) (drop-tail n) ∙ regroup n)
    where
      regroup :
          (n : ℕ)
          → map some (take i xs)
              ++ (map some vs ++ (map some (drop (i + n) xs) ++ drop (i + n - length xs) spare))
            ≡ map some (take i xs ++ (vs ++ drop (i + n) xs)) ++ drop (i + n - length xs) spare
      regroup n = simp (map-append {A = A} {B = Option A} some, append_assoc)

  -- A part of the row is read.
  pub read_all-part :
      (n : ℕ) → i + n ≤ length xs → read_all (map some xs ++ spare) i n ≡ ok (take n (drop i xs))
  read_all-part n fits =
      let part = take n (drop i xs) in
      let long : length part ≡ n =
        omega (arith, fits, length-take n (drop i xs), length-drop i xs) in
      let rest = map some (drop n (drop i xs)) ++ spare in
      let tail_is : tail ≡ map some part ++ rest =
        ap (λ r. map some r ++ spare) (sym (take-append-drop n (drop i xs)))
        ∙ ap (λ r. r ++ spare) (map-append some part (drop n (drop i xs)))
        ∙ append_assoc (map some part) (map some (drop n (drop i xs))) spare in
      ap (λ c. read_all c i n) (split_cells ∙ ap (λ r. map some (take i xs) ++ r) tail_is)
      ∙ (rw (length-front, long) at (read_all_mid (take i xs) part rest))
