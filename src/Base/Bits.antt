-- ===== src/Base/Bits.antt =====
-- The bit operations at variables: a shifted number joined to a short one is their sum, and a
-- mask of k ones is a remainder.
use Prim.Native.Nat.{
  ℕ, zero, suc, ◌+◌, ◌-◌, ◌*◌, ◌/◌, ◌%◌, ◌^◌, ◌≤◌, ◌<◌, min, max, bit_and, bit_or, digits,
  bit_and-bitwise, bit_or-bitwise,
}
use mathlib.Core.Path.{◌≡◌, refl, sym, ap, ◌∙◌}
use native.Mathlib.Nat.{pow-suc}
use native.Mathlib.Omega.{arith}

-- The native operations are a recursion on digits, whose fuel is the first number.
module _ (z : ℕ → ℕ) (f : ℕ → ℕ → ℕ) where
  no_digits : (fuel y : ℕ) → digits z f fuel zero y ≡ z y
  no_digits zero y = refl
  no_digits (suc fuel) y = refl

  fuel_free : (m n x y : ℕ) → x ≤ m → x ≤ n → digits z f m x y ≡ digits z f n x y
  fuel_free m n zero y _ _ = no_digits m y ∙ sym (no_digits n y)
  fuel_free zero n (suc x) y low _ = absurd (omega arith)
  fuel_free (suc m) zero (suc x) y _ low = absurd (omega arith)
  fuel_free (suc m) (suc n) (suc x) y low high =
      let ih = fuel_free m n (suc x / 2) (y / 2) (omega arith) (omega arith) in
      ap (λ t. t * 2 + f (suc x % 2) (y % 2)) ih

  -- The lowest digits apart, where the base case can be read so, too.
  pub halves :
      ((y : ℕ) → z y ≡ z (y / 2) * 2 + f 0 (y % 2))
      → (x y : ℕ) → digits z f x x y ≡ digits z f (x / 2) (x / 2) (y / 2) * 2 + f (x % 2) (y % 2)
  halves base zero y = base y
  halves base (suc x) y =
      ap (λ t. t * 2 + f (suc x % 2) (y % 2))
        (fuel_free x (suc x / 2) (suc x / 2) (y / 2) (omega arith) (omega arith))

or_halves : (x y : ℕ) → bit_or x y ≡ bit_or (x / 2) (y / 2) * 2 + max (x % 2) (y % 2)
or_halves x y =
    rw (bit_or-bitwise x y, bit_or-bitwise (x / 2) (y / 2))
      (halves (λ b. b) max (λ b. omega arith) x y)

and_halves : (x y : ℕ) → bit_and x y ≡ bit_and (x / 2) (y / 2) * 2 + min (x % 2) (y % 2)
and_halves x y =
    rw (bit_and-bitwise x y, bit_and-bitwise (x / 2) (y / 2))
      (halves (λ _. zero) min (λ b. omega arith) x y)

-- Nothing is joined to `x`, and nothing is kept of it, for every bound on `x`.
nothing_joined : (bound x : ℕ) → x ≤ bound → bit_or x 0 ≡ x
nothing_joined bound zero le = refl
nothing_joined zero (suc x) le = absurd (omega arith)
nothing_joined (suc bound) (suc x) le =
    or_halves (suc x) 0 ∙ omega (arith, nothing_joined bound (suc x / 2) (omega arith))

nothing_kept : (bound x : ℕ) → x ≤ bound → bit_and x 0 ≡ 0
nothing_kept bound zero le = refl
nothing_kept zero (suc x) le = absurd (omega arith)
nothing_kept (suc bound) (suc x) le =
    and_halves (suc x) 0 ∙ omega (arith, nothing_kept bound (suc x / 2) (omega arith))

mul_double : (q p : ℕ) → q * (p * 2) ≡ q * p * 2
mul_double q p = omega arith

-- `(q << k) | r` for a short `r`.
pub bit_or_join : (k q r : ℕ) → r < 2 ^ k → bit_or (q * 2 ^ k) r ≡ q * 2 ^ k + r
bit_or_join zero q r h = ground (arith, nothing_joined q q)
bit_or_join (suc k) q r h =
    ground (
      arith,
      or_halves (q * 2 ^ suc k) r,
      bit_or_join k q (r / 2),
      pow-suc 2 k,
      mul_double q (2 ^ k),
    )

pub two_pow_pos : (k : ℕ) → 0 < 2 ^ k
two_pow_pos zero = omega arith
two_pow_pos (suc k) = omega (arith, pow-suc 2 k, two_pow_pos k)

bit_and_split : (k q r : ℕ) → r < 2 ^ k → bit_and (q * 2 ^ k + r) (2 ^ k - 1) ≡ r
bit_and_split zero q r h = ground (arith, nothing_kept (q * 2 ^ 0 + r) (q * 2 ^ 0 + r))
bit_and_split (suc k) q r h = ground (
  arith,
  and_halves (q * 2 ^ suc k + r) (2 ^ suc k - 1),
  pow-suc 2 k,
  mul_double q (2 ^ k),
  two_pow_pos k,
  bit_and_split k q (r / 2),
)

-- `a & ((1 << k) - 1)`.
pub bit_and_mask : (k a : ℕ) → bit_and a (2 ^ k - 1) ≡ a % 2 ^ k
bit_and_mask k a = ground (arith, two_pow_pos k, bit_and_split k (a / 2 ^ k) (a % 2 ^ k))

-- `a & ~((1 << k) - 1)`, where `m` is the mask's high part.
pub bit_and_high :
    (k q r m : ℕ) → r < 2 ^ k → bit_and (q * 2 ^ k + r) (m * 2 ^ k) ≡ bit_and q m * 2 ^ k
bit_and_high zero q r m h = let e : r ≡ 0 = omega arith in rw e (ground arith)
bit_and_high (suc k) q r m h = ground (
  arith,
  and_halves (q * 2 ^ suc k + r) (m * 2 ^ suc k),
  pow-suc 2 k,
  mul_double q (2 ^ k),
  mul_double m (2 ^ k),
  mul_double (bit_and q m) (2 ^ k),
  two_pow_pos k,
  bit_and_high k q (r / 2) m,
)
