-- ===== src/Base/Xor.antt =====
-- The exclusive or of numbers: a commutative group in which each number is its own inverse.
use Prim.Native.Nat.{ℕ, zero, suc, ◌+◌, ◌*◌, ◌/◌, ◌%◌, ◌≤◌, ◌<◌, bit_xor, differ, bit_xor-bitwise}
use mathlib.Core.Path.{◌≡◌, refl, sym, ◌∙◌}
use mathlib.Core.Logic.{◌⊎◌, inl, inr}
use native.Mathlib.Omega.{arith}
use bksupport.Base.Bits.{halves}

xor_halves : (x y : ℕ) → bit_xor x y ≡ bit_xor (x / 2) (y / 2) * 2 + differ (x % 2) (y % 2)
xor_halves x y =
    rw (bit_xor-bitwise x y, bit_xor-bitwise (x / 2) (y / 2))
      (halves (λ b. b) differ (λ b. omega arith) x y)

digit-cases : (x : ℕ) → (x % 2 ≡ 0) ⊎ (x % 2 ≡ 1)
digit-cases x = omega arith

differ_short : (x y : ℕ) → differ (x % 2) (y % 2) < 2
differ_short x y = elim (digit-cases x) [
  | inl e ↦ rw e (omega arith)
  | inr e ↦ elim (digit-cases y) [
    | inl f ↦ rw (e, f) (omega arith)
    | inr f ↦ rw (e, f) (omega arith)
  ]
]

xor_half : (x y : ℕ) → bit_xor x y / 2 ≡ bit_xor (x / 2) (y / 2)
xor_half x y = omega (arith, xor_halves x y, differ_short x y)

xor_digit : (x y : ℕ) → bit_xor x y % 2 ≡ differ (x % 2) (y % 2)
xor_digit x y = omega (arith, xor_halves x y, differ_short x y)

differ_self : (x : ℕ) → differ x x ≡ 0
differ_self zero = refl
differ_self (suc x) = differ_self x

differ_zero : (x : ℕ) → differ x 0 ≡ x
differ_zero zero = refl
differ_zero (suc x) = refl

differ_comm : (x y : ℕ) → differ x y ≡ differ y x
differ_comm zero zero = refl
differ_comm zero (suc y) = refl
differ_comm (suc x) zero = refl
differ_comm (suc x) (suc y) = differ_comm x y

differ_assoc :
    (x y z : ℕ) → differ (differ (x % 2) (y % 2)) (z % 2) ≡ differ (x % 2) (differ (y % 2) (z % 2))
differ_assoc x y z = elim (digit-cases x) [
  | inl e ↦ rw e refl
  | inr e ↦ elim (digit-cases y) [
    | inl f ↦ rw (e, f) refl
    | inr f ↦ elim (digit-cases z) [ inl g ↦ rw (e, f, g) refl | inr g ↦ rw (e, f, g) refl ]
  ]
]

pub zero_xor : (y : ℕ) → bit_xor 0 y ≡ y
zero_xor y = rw (bit_xor-bitwise 0 y) refl

xor_zero_below : (bound x : ℕ) → x ≤ bound → bit_xor x 0 ≡ x
xor_zero_below bound zero h = refl
xor_zero_below zero (suc x) h = absurd (omega arith)
xor_zero_below (suc bound) (suc x) h =
    xor_halves (suc x) 0
    ∙ omega (arith, xor_zero_below bound (suc x / 2) (omega arith), differ_zero (suc x % 2))

pub xor_zero : (x : ℕ) → bit_xor x 0 ≡ x
xor_zero x = xor_zero_below x x (omega arith)

xor_self_below : (bound x : ℕ) → x ≤ bound → bit_xor x x ≡ 0
xor_self_below bound zero h = refl
xor_self_below zero (suc x) h = absurd (omega arith)
xor_self_below (suc bound) (suc x) h =
    xor_halves (suc x) (suc x)
    ∙ omega (arith, xor_self_below bound (suc x / 2) (omega arith), differ_self (suc x % 2))

pub xor_self : (x : ℕ) → bit_xor x x ≡ 0
xor_self x = xor_self_below x x (omega arith)

xor_comm_below : (bound x y : ℕ) → x ≤ bound → bit_xor x y ≡ bit_xor y x
xor_comm_below bound zero y h = zero_xor y ∙ sym (xor_zero y)
xor_comm_below zero (suc x) y h = absurd (omega arith)
xor_comm_below (suc bound) (suc x) y h =
    xor_halves (suc x) y
    ∙ omega (
      arith,
      xor_comm_below bound (suc x / 2) (y / 2) (omega arith),
      differ_comm (suc x % 2) (y % 2),
      xor_halves y (suc x),
    )

pub xor_comm : (x y : ℕ) → bit_xor x y ≡ bit_xor y x
xor_comm x y = xor_comm_below x x y (omega arith)

xor_assoc_below : (bound x y z : ℕ) → x ≤ bound → bit_xor (bit_xor x y) z ≡ bit_xor x (bit_xor y z)
xor_assoc_below bound zero y z h = rw (zero_xor y, zero_xor (bit_xor y z)) refl
xor_assoc_below zero (suc x) y z h = absurd (omega arith)
xor_assoc_below (suc bound) (suc x) y z h =
    xor_halves (bit_xor (suc x) y) z
    ∙ rw
        (
          xor_half (suc x) y,
          xor_digit (suc x) y,
          differ_assoc (suc x) y z,
          xor_assoc_below bound (suc x / 2) (y / 2) (z / 2) (omega arith),
        )
        (sym (xor_halves (suc x) (bit_xor y z) ∙ rw (xor_half y z, xor_digit y z) refl))

pub xor_assoc : (x y z : ℕ) → bit_xor (bit_xor x y) z ≡ bit_xor x (bit_xor y z)
xor_assoc x y z = xor_assoc_below x x y z (omega arith)
