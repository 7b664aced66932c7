-- ===== src/Cells.antt =====
-- Blocks of memory as the array code of lines/lines.c sees them: a row of cells of one element
-- each, `none` for a cell that was allocated and never written. Every access is checked.
pub mod Overwrite
use bksupport.Base.{
  ℕ, zero, suc, ◌-◌, ◌≤◌, ◌≡◌, refl, ap, inl, inr, List, [], ◌∷◌, ◌++◌, map, Option, none, some,
  arith, length, take, replicate, length-append, length-take, length-replicate, Run, ok, fault,
  wild, ◌>>=◌, Run-cases,
}

abbrev pub Cells {ℓ} : Type ℓ → Type ℓ
Cells A = List (Option A)

module _ {ℓ} {A : Type ℓ} where
  unfoldable pub write : Cells A → ℕ → A → Run (Cells A)
  write [] i v = fault wild
  write (c ∷ cs) zero v = ok (some v ∷ cs)
  write (c ∷ cs) (suc i) v = do cs' ← write cs i v; ok (c ∷ cs')

  -- A read of a cell that was never written counts as wild, too.
  unfoldable pub read : Cells A → ℕ → Run A
  read [] i = fault wild
  read (none ∷ cs) zero = fault wild
  read (some v ∷ cs) zero = ok v
  read (c ∷ cs) (suc i) = read cs i

  unfoldable pub write_all : Cells A → ℕ → List A → Run (Cells A)
  write_all cs i [] = ok cs
  write_all cs i (v ∷ vs) = do cs' ← write cs i v; write_all cs' (suc i) vs

  unfoldable pub read_all : Cells A → ℕ → ℕ → Run (List A)
  read_all cs i zero = ok []
  read_all cs i (suc n) = do v ← read cs i; vs ← read_all cs (suc i) n; ok (v ∷ vs)

  -- `realloc` to `n` cells.
  unfoldable pub resize : ℕ → Cells A → Cells A
  resize n cs = take n cs ++ replicate (n - length cs) none

  pub write_mid :
      (xs : List A) (c : Option A) (rest : Cells A) (v : A)
      → write (map some xs ++ (c ∷ rest)) (length xs) v ≡ ok (map some xs ++ (some v ∷ rest))
  unfolding write
  write_mid [] c rest v = refl
  write_mid (x ∷ xs) c rest v = rw (write_mid xs c rest v)

  pub read_mid :
      (xs : List A) (v : A) (rest : Cells A)
      → read (map some xs ++ (some v ∷ rest)) (length xs) ≡ ok v
  unfolding read
  read_mid [] v rest = refl
  read_mid (x ∷ xs) v rest = read_mid xs v rest

  read-suc : (c : Option A) (cs : Cells A) (i : ℕ) → read (c ∷ cs) (suc i) ≡ read cs i
  unfolding read
  read-suc none cs i = refl
  read-suc (some v) cs i = refl

  read_all-suc :
      (c : Option A) (cs : Cells A) (i n : ℕ) → read_all (c ∷ cs) (suc i) n ≡ read_all cs i n
  unfolding read_all
  read_all-suc c cs i zero = refl
  read_all-suc c cs i (suc n) = rw (read-suc c cs i, read_all-suc c cs (suc i) n)

  write_all-suc :
      (c : Option A) (cs : Cells A) (i : ℕ) (vs : List A)
      → write_all (c ∷ cs) (suc i) vs ≡ (write_all cs i vs >>= λ cs'. ok (c ∷ cs'))
  unfolding write_all write
  write_all-suc c cs i [] = refl
  write_all-suc c cs i (v ∷ vs) = elim (Run-cases (write cs i v)) [
    | inl (cs', e) ↦ rw (e, write_all-suc c cs' (suc i) vs)
    | inr (f, e) ↦ rw e
  ]

  -- A row of cells is written behind `xs`.
  pub write_all_mid :
      (xs : List A) (cs rest : Cells A) (vs : List A)
      → length cs ≡ length vs
      → write_all (map some xs ++ (cs ++ rest)) (length xs) vs
        ≡ ok (map some xs ++ (map some vs ++ rest))
  unfolding write_all write
  write_all_mid [] [] rest [] h = refl
  write_all_mid [] (c ∷ cs) rest [] h = absurd (omega arith)
  write_all_mid [] [] rest (v ∷ vs) h = absurd (omega arith)
  write_all_mid [] (c ∷ cs) rest (v ∷ vs) h =
      rw (write_all-suc, write_all_mid [] cs rest vs (omega arith))
  write_all_mid (x ∷ xs) cs rest vs h = rw (write_all-suc, write_all_mid xs cs rest vs h)

  pub read_all_mid :
      (xs vs : List A) (rest : Cells A)
      → read_all (map some xs ++ (map some vs ++ rest)) (length xs) (length vs) ≡ ok vs
  unfolding read_all read
  read_all_mid [] [] rest = refl
  read_all_mid [] (v ∷ vs) rest =
      rw (read_all-suc (some v) (map some vs ++ rest) 0 (length vs), read_all_mid [] vs rest)
  read_all_mid (x ∷ xs) vs rest = rw (
    read_all-suc (some x) (map some xs ++ (map some vs ++ rest)) (length xs) (length vs),
    read_all_mid xs vs rest,
  )

  pub length-resize : (n : ℕ) (cs : Cells A) → length (resize n cs) ≡ n
  unfolding resize
  length-resize n cs =
      rw length-append
        (omega (arith, length-take n cs, length-replicate {A = Option A} (n - length cs) none))

  take_all : (n : ℕ) (cs : Cells A) → length cs ≤ n → take n cs ≡ cs
  take_all zero [] h = refl
  take_all zero (c ∷ cs) h = absurd (omega arith)
  take_all (suc n) [] h = refl
  take_all (suc n) (c ∷ cs) h = ap (◌∷◌ c) (take_all n cs (omega arith))

  -- A block that grows keeps its cells.
  pub resize_grows :
      (n : ℕ) (cs : Cells A) → length cs ≤ n → resize n cs ≡ cs ++ replicate (n - length cs) none
  unfolding resize
  resize_grows n cs h = rw (take_all n cs h)
