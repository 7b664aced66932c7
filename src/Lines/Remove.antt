-- ===== src/Lines/Remove.antt =====
-- `_removeArrayN` against the list operation that it stands for.
use bksupport.Base.{
  ℕ, zero, suc, ◌+◌, ◌-◌, ◌≤◌, ◌<◌, ◌≡◌, refl, sym, ap, ◌∙◌, ◌⊎◌, inl, inr, List, [], ◌∷◌, ◌++◌,
  map, append_assoc, append-nil, Option, some, arith, length, length-append, length-map, take, drop,
  take-append-drop, drop_cons, length-take, length-drop, true, false, ltb, ltb-true, leb-true,
  leb-false, ok, fault, assert_failed, Returns, ◌>>=◌, if◌then◌else◌,
}
use bksupport.Cells.{Cells, write_all, write_all_mid, read_all, read_all_mid}
use bksupport.Lines.{Array, remove_array, set_llen}
use bksupport.Lines.Append.{map-some-append}
use bksupport.Lines.Grow.{header}
use bksupport.Lines.Shape.{Models, set_llen_join}

module _ {ℓ} {A : Type ℓ} where
  -- `memmove` of a tail by one cell towards the front.
  move_down :
      (ys zs : List A) (x : A) (rest : Cells A)
      → (last : Option A) × (write_all
            (map some ys ++ (some x ∷ (map some zs ++ rest)))
            (length ys)
            zs
          ≡ ok (map some (ys ++ zs) ++ (last ∷ rest)))
  move_down ys zs x rest =
      let row : Cells A = some x ∷ map some zs in
      let k = length zs in
      let size : length row ≡ suc k = ap suc (length-map some zs) in
      let (last, e) = single (drop k row) (omega (arith, length-drop k row)) in
      let same : map some ys ++ (some x ∷ (map some zs ++ rest))
          ≡ map some ys ++ (take k row ++ (last ∷ rest)) =
        ap (λ t. map some ys ++ t)
          (ap (λ t. t ++ rest) (sym (take-append-drop k row))
            ∙ append_assoc (take k row) (drop k row) rest
            ∙ ap (λ d. take k row ++ (d ++ rest)) e) in
      (
        last,
        rw same (
            write_all_mid ys (take k row) (last ∷ rest) zs (omega (arith, length-take k row))
            ∙ ap ok (rw (← map-some-append, append_assoc))),
      )
    where
      single : (s : Cells A) → length s ≡ 1 → (c : Option A) × (s ≡ c ∷ [])
      single [] p = absurd (omega arith)
      single (c ∷ []) p = (c, refl)
      single (c ∷ d ∷ s) p = absurd (omega arith)

  -- The cells after a removal: the tail is moved down by one.
  remove_cells :
      (ys zs : List A) (x : A) (rest : Cells A)
      → let cells = map some ys ++ (some x ∷ (map some zs ++ rest)) in
        (last : Option A) × ((if ltb (length ys + 1) (length ys + length zs + 1)
            then (read_all cells (length ys + 1) (length ys + length zs + 1 - (length ys + 1))
                >>= λ tail. write_all cells (length ys + 1 - 1) tail)
            else ok cells)
          ≡ ok (map some (ys ++ zs) ++ (last ∷ rest)))
  remove_cells ys [] x rest =
      let out : ltb (length ys + 1) (length ys + 0 + 1) ≡ false = ground arith in
      (some x, rw (out, append-nil))
  remove_cells ys (z ∷ zs) x rest =
      let n = length ys in
      let inside : ltb (n + 1) (n + suc (length zs) + 1) ≡ true = ground arith in
      let e₁ : n + 1 - 1 ≡ n = omega arith in
      let e₂ : n + suc (length zs) + 1 - (n + 1) ≡ suc (length zs) = omega arith in
      let pos : n + 1 ≡ length (ys ++ x ∷ []) = rw length-append refl in
      let same : map some ys ++ (some x ∷ (map some (z ∷ zs) ++ rest))
          ≡ map some (ys ++ x ∷ []) ++ (map some (z ∷ zs) ++ rest) =
        rw (← map-some-append, append_assoc) in
      let tail : read_all (map some ys ++ (some x ∷ (map some (z ∷ zs) ++ rest))) (n + 1)
            (suc (length zs))
          ≡ ok (z ∷ zs) =
        rw (same, pos) (read_all_mid (ys ++ x ∷ []) (z ∷ zs) rest) in
      let (last, run) = move_down ys (z ∷ zs) x rest in (last, rw (inside, e₁, e₂, tail) run)

  remove_split :
      (ys zs : List A) (x : A) (a : Array A)
      → Models (ys ++ x ∷ zs) a
      → Returns (remove_array a (length ys + 1)) (Models (ys ++ zs))
  unfolding remove_array
  remove_split ys zs x a m =
      let h = m.holds in
      let n = length ys in
      let total : length (ys ++ x ∷ zs) ≡ n + length zs + 1 = rw length-append (omega arith) in
      let left : length (ys ++ zs) ≡ n + length zs = length-append ys zs in
      let cells : a.cells ≡ map some ys ++ (some x ∷ (map some zs ++ m.spare)) =
        h.cells_are ∙ rw (← map-some-append, append_assoc) in
      let (last, run) = remove_cells ys zs x m.spare in
      let small = (header h).2 in
      (
        record {
          hdr = set_llen a.hdr (n + length zs + 1 - 1);
          cells = map some (ys ++ zs) ++ (last ∷ m.spare);
        },
        rw
            (
              (header h).0,
              total,
              leb-true (n + 1) (n + length zs + 1) (omega arith),
              ltb-true 0 (n + 1) (omega arith),
              cells,
              run,
            )
            refl,
        record {
          log = m.log;
          spare = last ∷ m.spare;
          holds = record {
            hdr_is =
                rw (h.hdr_is, left)
                  (set_llen_join m.log _ _ (omega (arith, h.small)) small (omega (arith, total))
                    ∙ omega arith);
            cells_are = refl;
            sized = rw left (omega (arith, h.sized, total));
            fits = rw left (omega (arith, h.fits, total));
            small = h.small;
          };
        },
      )

  -- `removeArrayN` takes out the element at position `rm` and moves the tail down by one.
  pub remove_array-Models :
      (xs : List A) (a : Array A) (rm : ℕ)
      → Models xs a
      → 0 < rm
      → rm ≤ length xs
      → Returns (remove_array a rm) (Models (take (rm - 1) xs ++ drop rm xs))
  remove_array-Models xs a zero m lo hi = absurd (omega arith)
  remove_array-Models xs a (suc i) m lo hi =
      let (x, e) = drop_cons i xs (omega arith) in
      let cut : take i xs ++ x ∷ drop (suc i) xs ≡ xs =
        ap (λ t. take i xs ++ t) (sym e) ∙ take-append-drop i xs in
      let back : suc i - 1 ≡ i = omega arith in
      let pos : length (take i xs) + 1 ≡ suc i = omega (arith, length-take i xs) in
      rw back (rw pos at (remove_split (take i xs) (drop (suc i) xs) x a (rw cut m)))

  -- A position outside 1 .. nLines stops the program.
  pub remove_array_out :
      (xs : List A) (a : Array A) (rm : ℕ)
      → Models xs a
      → (rm ≡ 0) ⊎ (length xs < rm)
      → remove_array a rm ≡ fault assert_failed
  unfolding remove_array
  remove_array_out xs a rm m (inl e) = rw e (ground arith)
  remove_array_out xs a rm m (inr lt) = rw ((header m.holds).0, leb-false rm (length xs) lt)
