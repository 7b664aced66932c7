-- ===== src/Base/Outcome.antt =====
-- The outcome of a C function that can stop the program or leave its memory.
use mathlib.Core.Logic.{◌⊎◌, inl, inr}
use mathlib.Core.Path.{◌≡◌, refl}

-- A failed `assert`, a call of `exit(1)`, an access outside an object, and a bound on the rounds
-- of a loop that was reached. `io_error` is a call that failed with -1, where each caller hands that on.
pub data Fault : Type 0 where
  assert_failed exited wild no_fuel io_error : Fault

pub data Run {ℓ} (A : Type ℓ) : Type ℓ where
  ok : A → Run A
  fault : Fault → Run A

pub Run-cases {ℓ} :
    {A : Type ℓ} (m : Run A) → ((a : A) × (m ≡ ok a)) ⊎ ((e : Fault) × (m ≡ fault e))
Run-cases (ok a) = inl (a, refl)
Run-cases (fault e) = inr (e, refl)

-- The function returns, with a value of which the postcondition holds.
abbrev pub Returns {ℓ κ} : {A : Type ℓ} → Run A → (A → Type κ) → Type (ℓ ⊔ κ)
Returns {A} outcome Post = (value : A) × (outcome ≡ ok value) × Post value

infixl 5 ◌>>=◌ ◌>>◌
-- Sequencing: a fault skips all that would follow.
abbrev pub ◌>>=◌ {κ ℓ} : {B : Type κ} {A : Type ℓ} → Run B → (B → Run A) → Run A
fault why >>= next = fault why
ok value >>= next = next value

abbrev pub ◌>>◌ {κ} : {B : Type κ} → Run (Unit {0}) → Run B → Run B
check >> after = check >>= λ _. after

-- The first part of a run that ends normally, with what the second part makes of its value.
pub normal_parts {ℓ κ} :
    {A : Type ℓ} {B : Type κ} (r : Run A) (next : A → Run B) (b : B)
    → r >>= next ≡ ok b
    → (a : A) × (r ≡ ok a) × (next a ≡ ok b)
normal_parts (fault _) next b h = cc
normal_parts (ok a) next b h = (a, refl, h)
