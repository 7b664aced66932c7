-- ===== src/Lines/Shape.antt =====
-- What a well-formed array holds: the header word of its length and of the logarithm of its size,
-- and its elements in the first cells.
use bksupport.Base.{
  ℕ, ◌+◌, ◌*◌, ◌%◌, ◌^◌, ◌≤◌, ◌<◌, ◌≡◌, ◌∙◌, List, [], ◌++◌, map, none, some, arith, length,
}
use bksupport.Base.Bits.{bit_or_join, bit_and_mask, bit_and_high}
use bksupport.Cells.{Cells}
use bksupport.Lines.{Array, Space, llen, set_llen, pack}

pub pack-eq : (c len : ℕ) → c < 32 → len < 2 ^ 27 → pack c len ≡ c * 2 ^ 27 + len
unfolding pack
pack-eq c len hc hl =
    let e : c * 2 ^ 27 % 2 ^ 32 ≡ c * 2 ^ 27 = omega arith in rw e (bit_or_join 27 c len hl)

pub llen_join : (c len : ℕ) → len < 2 ^ 27 → llen (c * 2 ^ 27 + len) ≡ len
unfolding llen
llen_join c len h = bit_and_mask 27 (c * 2 ^ 27 + len) ∙ omega arith

pub set_llen_join :
    (c len n : ℕ)
    → c < 32
    → len < 2 ^ 27
    → n < 2 ^ 27
    → set_llen (c * 2 ^ 27 + len) n ≡ c * 2 ^ 27 + n
unfolding set_llen
set_llen_join c len n hc hl hn =
    rw (bit_and_high 27 c len 31 hl, bit_and_mask 5 c)
      (rw (bit_or_join 27 (c % 2 ^ 5) n hn) (omega arith))

-- The first elements are `xs`, the length is `n`, and 2 ^ `c` cells are counted with the header.
pub record Holds {ℓ} {A : Type ℓ} (xs : List A) (n c : ℕ) (rest : Cells A) (a : Array A)
    : Type ℓ where
  pub hdr_is : a.hdr ≡ c * 2 ^ 27 + n
  pub cells_are : a.cells ≡ map some xs ++ rest
  pub sized : length xs + length rest + 1 ≡ 2 ^ c
  pub fits : n < 2 ^ c
  pub small : c ≤ 27

-- The array `a` stands for the list `xs`.
pub record Models {ℓ} {A : Type ℓ} (xs : List A) (a : Array A) : Type ℓ where
  pub log : ℕ
  pub spare : Cells A
  pub holds : Holds xs (length xs) log spare a

abbrev pub SpaceModels {ℓ} : {A : Type ℓ} → List A → Space A → Type ℓ
SpaceModels xs (some a) = Models xs a
SpaceModels xs none = xs ≡ []
