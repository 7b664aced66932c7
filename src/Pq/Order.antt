-- ===== src/Pq/Order.antt =====
-- The order of a heap.
use mathlib.Core.List.{Perm}
use mathlib.Core.List.Perm
use bksupport.Base.{
  ℕ, zero, suc, ◌-◌, ◌/◌, ◌≤◌, ◌<◌, ◌≡◌, refl, ◌∙◌, subst, Bool, true, false, List, [], ◌∷◌, arith,
  length, length-set, get_or, get_or-set, set-perm, ltb, ◌==◌, if◌then◌else◌, Bool-cases, ok, inl,
  inr,
}
use bksupport.Pq.{load, store, swap}

-- What the comparison has to be: never both ways, and a chain of items none of which is below the
-- next is in order.
pub record IsOrder {ℓ} {A : Type ℓ} (below : A → A → Bool) : Type ℓ where
  pub asym : (x y : A) → below x y ≡ true → below y x ≡ false
  pub chain : (x y z : A) → below x y ≡ false → below y z ≡ false → below x z ≡ false

pub IsOrder-irrefl {ℓ} :
    {A : Type ℓ} {below : A → A → Bool} (x : A) → IsOrder below → below x x ≡ false
IsOrder-irrefl {below = below} x o = elim (Bool-cases (below x x)) [
  | inl e ↦ o.asym x x e
  | inr e ↦ e
]

pub ltb-IsOrder : IsOrder ltb
ltb-IsOrder = record { asym = λ x y e. ground arith; chain = λ x y z e f. ground arith }

-- The item at index `i`, counted from 1.
abbrev pub at {ℓ} : {A : Type ℓ} → A → List A → ℕ → A
at d a i = get_or a (i - 1) d

module _ {ℓ} {A : Type ℓ} (d : A) where
  pub load-ok : (a : List A) (i : ℕ) → 1 ≤ i → i ≤ length a → load a i ≡ ok (at d a i)
  unfolding load
  load-ok a zero h g = absurd (omega arith)
  load-ok [] (suc i) h g = absurd (omega arith)
  load-ok (x ∷ a) (suc zero) h g = refl
  load-ok (x ∷ a) (suc (suc i)) h g = load-ok a (suc i) (omega arith) (omega arith) ∙ same
    where
      same : ok (at d a (suc i)) ≡ ok (at d (x ∷ a) (suc (suc i)))
      same =
          let e : suc i - 1 ≡ i = omega arith in
          let f : suc (suc i) - 1 ≡ suc i = omega arith in rw (e, f) refl

  abbrev pub swapped : List A → ℕ → ℕ → List A
  swapped a i j = store (store a i (at d a j)) j (at d a i)

  module _ (a : List A) (i j : ℕ) (hi : 1 ≤ i) (hi' : i ≤ length a) (hj : 1 ≤ j)
      (hj' : j ≤ length a) where
    pub swap-ok : swap a i j ≡ ok (swapped a i j)
    unfolding swap
    swap-ok = rw (load-ok a i hi hi', load-ok a j hj hj') refl

    pub length-swapped : length (swapped a i j) ≡ length a
    length-swapped =
        length-set (store a i (at d a j)) (j - 1) (at d a i) ∙ length-set a (i - 1) (at d a j)

    pub at-swapped :
        (c : ℕ)
        → 1 ≤ c
        → at d (swapped a i j) c
          ≡ (if j == c then at d a i else if i == c then at d a j else at d a c)
    at-swapped c h =
        let low : j - 1 < length (store a i (at d a j)) =
          omega (arith, length-set a (i - 1) (at d a j)) in
        let e₁ : (j - 1 == c - 1) ≡ (j == c) = ground arith in
        let e₂ : (i - 1 == c - 1) ≡ (i == c) = ground arith in
        rw
          (
            get_or-set (store a i (at d a j)) (j - 1) (c - 1) (at d a i) d low,
            get_or-set a (i - 1) (c - 1) (at d a j) d (omega arith),
            e₁,
            e₂,
          )
          refl

    pub swapped-perm : Perm (swapped a i j) a
    swapped-perm =
        let b = store a i (at d a j) in
        let low : j - 1 < length b = omega (arith, length-set a (i - 1) (at d a j)) in
        let kept : at d b j ≡ at d a j = kept_at in
        let second =
          subst (λ r. Perm (r ∷ swapped a i j) (at d a i ∷ b)) kept
            (set-perm d b (j - 1) (at d a i) low) in
        Perm.cons_inv (Perm.trans second (set-perm d a (i - 1) (at d a j) (omega arith)))
      where
        kept_at : at d (store a i (at d a j)) j ≡ at d a j
        kept_at = elim (Bool-cases (i - 1 == j - 1)) [
          | inl e ↦ get_or-set a (i - 1) (j - 1) (at d a j) d (omega arith) ∙ rw e refl
          | inr e ↦ get_or-set a (i - 1) (j - 1) (at d a j) d (omega arith) ∙ rw e refl
        ]

module _ {ℓ} {A : Type ℓ} (below : A → A → Bool) (d : A) where
  -- no item is below one of its children
  abbrev pub IsHeap : List A → Type 0
  IsHeap a = (c : ℕ) → 1 < c → c ≤ length a → below (at d a (c / 2)) (at d a c) ≡ false

  -- the edges past `k`, from its parent to its children, are in order
  abbrev pub IsBridged : List A → ℕ → Type 0
  IsBridged a k =
      (c : ℕ) → c ≤ length a → c / 2 ≡ k → 1 < k → below (at d a (k / 2)) (at d a c) ≡ false

  root_below :
      (fuel : ℕ) (a : List A) (c : ℕ)
      → IsOrder below
      → IsHeap a
      → c < fuel
      → 1 ≤ c
      → c ≤ length a
      → below (at d a 1) (at d a c) ≡ false
  root_below zero a c o h le p q = absurd (omega arith)
  root_below (suc fuel) a c o h le p q = elim (Bool-cases (c == 1)) [
    | inl e ↦ let e' : c ≡ 1 = ground arith in rw e' (IsOrder-irrefl (at d a 1) o)
    | inr e ↦
        o.chain (at d a 1) (at d a (c / 2)) (at d a c)
          (root_below fuel a (c / 2) o h (ground arith) (ground arith) (omega arith))
          (h c (ground arith) q)
  ]

  -- The root of a heap is below none of its items.
  pub root-IsMax :
      (a : List A) (c : ℕ)
      → IsOrder below
      → IsHeap a
      → 1 ≤ c
      → c ≤ length a
      → below (at d a 1) (at d a c) ≡ false
  root-IsMax a c o h p q = root_below (suc c) a c o h (omega arith) p q
