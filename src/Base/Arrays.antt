-- ===== src/Base/Arrays.antt =====
-- Reads and writes at an index, and the multiset of a list's elements.
use Prim.Native.Nat.{ℕ, zero, suc, ◌<◌}
use bksupport.Base.Checks.{◌==◌, if◌then◌else◌}
use bksupport.Base.Lists.{length, get_or, set, take}
use mathlib.Core.List.{List, [], ◌∷◌, ◌++◌, Perm}
use mathlib.Core.List.Perm
use mathlib.Core.Path.{◌≡◌, refl, ap}
use mathlib.Core.Bool.{false}
use native.Mathlib.Omega.{arith}

pub get_or-set {ℓ} :
    {A : Type ℓ} (xs : List A) (i j : ℕ) (v d : A)
    → i < length xs
    → get_or (set xs i v) j d ≡ (if i == j then v else get_or xs j d)
get_or-set [] i j v d h = absurd (omega arith)
get_or-set (x ∷ xs) zero zero v d h = refl
get_or-set (x ∷ xs) zero (suc j) v d h = let e : (0 == suc j) ≡ false = ground arith in rw e refl
get_or-set (x ∷ xs) (suc i) zero v d h = let e : (suc i == 0) ≡ false = ground arith in rw e refl
get_or-set (x ∷ xs) (suc i) (suc j) v d h =
    let e : (suc i == suc j) ≡ (i == j) = ground arith in rw e (get_or-set xs i j v d (omega arith))

module _ {ℓ} {A : Type ℓ} where
  -- A write puts the new element in the place of the old one.
  pub set-perm :
      (d : A) (xs : List A) (i : ℕ) (v : A)
      → i < length xs
      → Perm (get_or xs i d ∷ set xs i v) (v ∷ xs)
  set-perm d [] i v h = absurd (omega arith)
  set-perm d (x ∷ xs) zero v h = Perm.swap v x xs
  set-perm d (x ∷ xs) (suc i) v h =
      Perm.trans (Perm.swap x _ _)
        (Perm.trans (Perm.cons x (set-perm d xs i v (omega arith))) (Perm.swap v x xs))

  pub get_or-append :
      (xs ys : List A) (i : ℕ) (d : A) → i < length xs → get_or (xs ++ ys) i d ≡ get_or xs i d
  get_or-append [] ys i d h = absurd (omega arith)
  get_or-append (x ∷ xs) ys zero d h = refl
  get_or-append (x ∷ xs) ys (suc i) d h = get_or-append xs ys i d (omega arith)

  pub get_or-take :
      (n : ℕ) (xs : List A) (i : ℕ) (d : A) → i < n → get_or (take n xs) i d ≡ get_or xs i d
  get_or-take zero xs i d h = absurd (omega arith)
  get_or-take (suc n) [] i d h = refl
  get_or-take (suc n) (x ∷ xs) zero d h = refl
  get_or-take (suc n) (x ∷ xs) (suc i) d h = get_or-take n xs i d (omega arith)

  -- A list with an element is its front and its last element.
  pub take-get_or_last :
      (n : ℕ) (xs : List A) (d : A) → length xs ≡ suc n → take n xs ++ get_or xs n d ∷ [] ≡ xs
  take-get_or_last n [] d h = absurd (omega arith)
  take-get_or_last zero (x ∷ []) d h = refl
  take-get_or_last zero (x ∷ y ∷ xs) d h = absurd (omega arith)
  take-get_or_last (suc n) (x ∷ xs) d h = ap (λ r. x ∷ r) (take-get_or_last n xs d (omega arith))
