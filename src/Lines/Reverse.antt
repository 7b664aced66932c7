-- ===== src/Lines/Reverse.antt =====
-- `reverseLines` and `_reverseArray` reverse the elements in place.
use mathlib.Core.List.{reverse, reverse-append, map-append}
use bksupport.Base.{
  ℕ, zero, suc, ◌+◌, ◌-◌, ◌≤◌, ◌<◌, ◌≡◌, refl, sym, ap, ◌∙◌, List, [], ◌∷◌, ◌++◌, map, append_assoc,
  append-nil, none, some, arith, length, length-append, ltb-true, ltb-false, ok, Returns,
}
use bksupport.Cells.{Cells, read, write, read_mid, write_mid}
use bksupport.Lines.Grow.{header}
use bksupport.Lines.Shape.{SpaceModels}
use bksupport.Lines.{Space, reverse_loop, reverse_array}

module _ {ℓ} {A : Type ℓ} where
  -- A list of two elements or more, by its two ends.
  data Ends : List A → Type ℓ where
    short : {xs : List A} → length xs < 2 → Ends xs
    long : {xs : List A} (x y : A) (mid : List A) → xs ≡ x ∷ (mid ++ y ∷ []) → Ends xs

  unsnoc : (x : A) (xs : List A) → (mid : List A) × (y : A) × (x ∷ xs ≡ mid ++ y ∷ [])
  unsnoc x [] = ([], x, refl)
  unsnoc x (z ∷ xs) = let (mid, y, e) = unsnoc z xs in (x ∷ mid, y, ap (◌∷◌ x) e)

  ends : (xs : List A) → Ends xs
  ends [] = short (omega arith)
  ends (x ∷ []) = short (omega arith)
  ends (x ∷ z ∷ xs) = let (mid, y, e) = unsnoc z xs in long x y mid (ap (◌∷◌ x) e)

  reverse_short : (xs : List A) → length xs < 2 → reverse xs ≡ xs
  reverse_short [] h = refl
  reverse_short (x ∷ []) h = refl
  reverse_short (x ∷ y ∷ xs) h = absurd (omega arith)

  reverse_stop :
      (fuel i end : ℕ) (cells : Cells A) → end ≤ i → reverse_loop (suc fuel) i end cells ≡ ok cells
  unfolding reverse_loop
  reverse_stop fuel i end cells h = rw (ltb-false i end h)

  reverse_step :
      (fuel i end : ℕ) (cells cells₁ cells₂ : Cells A) (x y : A)
      → i < end
      → read cells (i - 1) ≡ ok x
      → read cells (end - 1) ≡ ok y
      → write cells (i - 1) y ≡ ok cells₁
      → write cells₁ (end - 1) x ≡ ok cells₂
      → reverse_loop (suc fuel) i end cells ≡ reverse_loop fuel (i + 1) (end - 1) cells₂
  unfolding reverse_loop
  reverse_step fuel i end cells cells₁ cells₂ x y h r₁ r₂ w₁ w₂ =
      rw (ltb-true i end h, r₁, r₂, w₁, w₂)

  -- One round of the loop on a row that has `x` and `y` at the two positions.
  module _ (pre m post : List A) (spare : Cells A) where
    abbrev row : A → A → Cells A
    row a b = map some (pre ++ ((a ∷ (m ++ b ∷ [])) ++ post)) ++ spare

    row_first : (a b : A) → row a b ≡ map some pre ++ (some a ∷ (map some (m ++ b ∷ post) ++ spare))
    row_first a b = simp (map-append, append_assoc)

    row_last : (a b : A) → row a b ≡ map some (pre ++ a ∷ m) ++ (some b ∷ (map some post ++ spare))
    row_last a b = simp (map-append, append_assoc)

    reverse_round :
        (fuel : ℕ) (x y : A) (i end : ℕ)
        → i ≡ length pre + 1
        → end ≡ length pre + (length m + 2)
        → reverse_loop (suc fuel) i end (row x y) ≡ reverse_loop fuel (i + 1) (end - 1) (row y x)
    reverse_round fuel x y i end hi he =
        let at_i : i - 1 ≡ length pre = omega arith in
        let at_end : (a : A) → end - 1 ≡ length (pre ++ a ∷ m) =
          λ a. omega (arith, length-append pre (a ∷ m)) in
        reverse_step fuel i end (row x y) (row y y) (row y x) x y (omega arith)
          (rw (row_first x y, at_i) (read_mid pre x _))
          (rw (row_last x y, at_end x) (read_mid (pre ++ x ∷ m) y _))
          (rw (row_first x y, at_i) (write_mid pre (some x) _ y ∙ ap ok (sym (row_first y y))))
          (rw (row_last y y, at_end y)
            (write_mid (pre ++ y ∷ m) (some y) _ x ∙ ap ok (sym (row_last y x))))

  reverse_ends : (x y : A) (m : List A) → reverse (x ∷ (m ++ y ∷ [])) ≡ y ∷ (reverse m ++ x ∷ [])
  reverse_ends x y m =
      reverse-append (x ∷ []) (m ++ y ∷ []) ∙ ap (λ t. t ++ x ∷ []) (reverse-append m (y ∷ []))

  -- The loop reverses the elements between the two positions.
  reverse_loop_lem :
      (fuel : ℕ) (pre mid post : List A) (spare : Cells A) (i end : ℕ)
      → length mid < fuel
      → i ≡ length pre + 1
      → end ≡ length pre + length mid
      → reverse_loop fuel i end (map some (pre ++ (mid ++ post)) ++ spare)
        ≡ ok (map some (pre ++ (reverse mid ++ post)) ++ spare)
  reverse_loop_lem zero pre mid post spare i end h hi he = absurd (omega arith)
  reverse_loop_lem (suc fuel) pre mid post spare i end h hi he = elim (ends mid) [
    | short few ↦
        reverse_stop fuel i end _ (omega arith)
        ∙ ap (λ t. ok (map some (pre ++ (t ++ post)) ++ spare)) (sym (reverse_short mid few))
    | long x y m e ↦
        let size : length mid ≡ length m + 2 =
          omega (arith, ap length e, length-append m (y ∷ [])) in
        let grown = length-append pre (y ∷ []) in
        let shown : (a b : A)
            → (t : List A)
            → pre ++ ((a ∷ (t ++ b ∷ [])) ++ post) ≡ (pre ++ a ∷ []) ++ (t ++ b ∷ post) =
          λ a b t. simp append_assoc in
        ap (λ t. reverse_loop (suc fuel) i end (map some (pre ++ (t ++ post)) ++ spare)) e
        ∙ reverse_round pre m post spare fuel x y i end hi (omega arith)
        ∙ ap (λ t. reverse_loop fuel (i + 1) (end - 1) (map some t ++ spare)) (shown y x m)
        ∙ reverse_loop_lem fuel (pre ++ y ∷ []) m (x ∷ post) spare (i + 1) (end - 1) (omega arith)
            (omega arith) (omega arith)
        ∙ ap (λ t. ok (map some t ++ spare)) (sym (shown y x (reverse m)))
        ∙ ap (λ t. ok (map some (pre ++ (t ++ post)) ++ spare))
            (sym (ap reverse e ∙ reverse_ends x y m))
  ]

  length-reverse : (xs : List A) → length (reverse xs) ≡ length xs
  length-reverse [] = refl
  length-reverse (x ∷ xs) =
      ap length (reverse-append (x ∷ []) xs)
      ∙ length-append (reverse xs) (x ∷ [])
      ∙ omega (arith, length-reverse xs)

  -- `reverseLines` and `_reverseArray` reverse the elements, whatever their number.
  pub reverse_array-Models :
      (xs : List A) (space : Space A)
      → SpaceModels xs space
      → Returns (reverse_array space) (SpaceModels (reverse xs))
  unfolding reverse_array
  reverse_array-Models xs none m = (none, refl, rw m)
  reverse_array-Models xs (some a) m =
      let h = m.holds in
      let (len, _, _) = header h in
      let n = length xs in
      let run : reverse_loop (n + 1) 1 n a.cells ≡ ok (map some (reverse xs) ++ m.spare) =
        ap (λ t. reverse_loop (n + 1) 1 n t) (h.cells_are ∙ rw append-nil)
        ∙ reverse_loop_lem (n + 1) [] xs [] m.spare 1 n (omega arith) (omega arith) (omega arith)
        ∙ rw append-nil in
      (
        some (record a { cells = map some (reverse xs) ++ m.spare }),
        rw (len, run),
        record {
          log = m.log;
          spare = m.spare;
          holds = record {
            hdr_is = rw length-reverse h.hdr_is;
            cells_are = refl;
            sized = rw length-reverse h.sized;
            fits = rw length-reverse h.fits;
            small = h.small;
          };
        },
      )
