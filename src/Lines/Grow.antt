-- ===== src/Lines/Grow.antt =====
-- `_growArray_int` keeps the elements and makes room, for a new length that fits the header word
-- and a block that fits 32 bits of bytes.
use native.Mathlib.Nat.{pow-suc, mod-eq_of_lt, pow-le-pow_right, mul-div_cancel, mul-le-mul_right}
use native.Mathlib.Numerals.{add-one}
use bksupport.Base.{
  ℕ, zero, suc, ◌+◌, ◌-◌, ◌*◌, ◌/◌, ◌%◌, ◌^◌, ◌≤◌, ◌<◌, ◌≡◌, refl, ◌⊎◌, inl, inr, List, [], ◌++◌,
  map, append_assoc, Option, none, some, arith, length, length-append, length-map, replicate,
  length-replicate, leb, ltb, ltb-true, leb-true, Bool-cases, Returns,
}
use bksupport.Base.Bits.{two_pow_pos}
use bksupport.Cells.{Cells, resize, resize_grows}
use bksupport.Lines.{Array, Space, llen, pack, double, double_fuel, alloc, grow_array_int, log_size}
use bksupport.Lines.Shape.{Holds, Models, SpaceModels, pack-eq, llen_join}

-- An array of `n` elements of `size` bytes can be had without a 32-bit overflow.
pub record HasRoom (size n : ℕ) : Type 0 where
  pub least : 4 ≤ size
  pub count : n < 2 ^ 27
  pub bytes : n * 2 * size < 2 ^ 32
  pub first : 8 * size < 2 ^ 32

pub two_pow_le : (a b : ℕ) → a ≤ b → 2 ^ a ≤ 2 ^ b
two_pow_le a b h = pow-le-pow_right (omega arith) h

-- What the doubling loop returns.
record Doubled (len c : ℕ) (r : ℕ × ℕ) : Type 0 where
  size_is : r.0 ≡ 2 ^ r.1
  more : len < 2 ^ r.1
  from : c ≤ r.1
  upto : r.1 ≤ 27
  tight : (r.1 ≡ c) ⊎ (2 ^ r.1 ≤ 2 * len)

double_lem :
    (fuel len c : ℕ)
    → len < 2 ^ 27
    → c ≤ 27
    → 27 - c < fuel
    → Returns (double fuel len (2 ^ c) c) (Doubled len c)
unfolding double
double_lem zero len c hl hc hf = absurd (omega arith)
double_lem (suc fuel) len c hl hc hf = elim (Bool-cases (leb (2 ^ c) len)) [
  | inr out ↦ (
    (2 ^ c, c),
    rw out,
    record { size_is = refl; more = ground arith; from = omega arith; upto = hc; tight = inl refl },
  )
  | inl again ↦
      let le : 2 ^ c ≤ len = ground arith in
      let below : c < 27 = ground (arith, two_pow_le 27 c) in
      let half : 2 ^ (c + 1) ≡ 2 ^ c * 2 = rw (add-one c) (pow-suc 2 c) in
      let e : 2 ^ c * 2 % 2 ^ 32 ≡ 2 ^ (c + 1) = omega arith in
      let (r, run, d) = double_lem fuel len (c + 1) hl (omega arith) (omega arith) in
      (
        r,
        rw (again, e) run,
        record {
          size_is = d.size_is;
          more = d.more;
          from = omega (arith, d.from);
          upto = d.upto;
          tight = inr (tight_bound r.1 le half d.tight);
        },
      )
]
  where
    tight_bound :
        (c' : ℕ)
        → 2 ^ c ≤ len
        → 2 ^ (c + 1) ≡ 2 ^ c * 2
        → (c' ≡ c + 1) ⊎ (2 ^ c' ≤ 2 * len)
        → 2 ^ c' ≤ 2 * len
    tight_bound c' le half (inl e) = rw e (omega arith)
    tight_bound c' le half (inr h) = h

-- What `alloc` builds once the size is known.
alloc_built {ℓ} :
    {A : Type ℓ} (size len c : ℕ) (xs : List A) (old : Cells A)
    → 4 ≤ size
    → len < 2 ^ c
    → c ≤ 27
    → 2 ^ c * size < 2 ^ 32
    → length xs + length old + 1 ≤ 2 ^ c
    → Holds xs len c (old ++ replicate (2 ^ c - 1 - length (map some xs ++ old)) none) (record {
      hdr = pack c len;
      cells = resize (2 ^ c * size % 2 ^ 32 / size - 1) (map some xs ++ old);
    })
alloc_built {A} size len c xs old h4 hl hc fit wide =
    let small : len < 2 ^ 27 = omega (arith, two_pow_le c 27 hc) in
    let cells_wide : length (map some xs ++ old) ≤ 2 ^ c - 1 =
      rw (length-append, length-map) (omega arith) in
    let count : 2 ^ c * size % 2 ^ 32 / size ≡ 2 ^ c =
      rw (mod-eq_of_lt fit) (mul-div_cancel (2 ^ c) (omega arith)) in
    record {
      hdr_is = pack-eq c len (omega arith) small;
      cells_are = rw (count, resize_grows (2 ^ c - 1) _ cells_wide, append_assoc);
      sized =
          rw
            (
              length-append,
              length-replicate {A = Option A} (2 ^ c - 1 - length (map some xs ++ old)) none,
              length-append,
              length-map,
            )
            (omega arith);
      fits = hl;
      small = hc;
    }

-- The block that `alloc` returns, for a start size that is itself no overflow.
pub alloc-Holds {ℓ} :
    {A : Type ℓ} (size len c : ℕ) (xs : List A) (old : Cells A)
    → 4 ≤ size
    → len < 2 ^ 27
    → len * 2 * size < 2 ^ 32
    → c ≤ 27
    → 2 ^ c * size < 2 ^ 32
    → length xs + length old + 1 ≤ 2 ^ c
    → Returns
        (alloc size (map some xs ++ old) len (2 ^ c) c)
        λ a. (c' : ℕ) × (spare : Cells A) × Holds xs len c' spare a
unfolding alloc
alloc-Holds {A} size len c xs old h4 hl hb hc hs room =
    let ((s, c'), run, d) = double_lem double_fuel len c hl hc (omega arith) in
    let wide : length xs + length old + 1 ≤ 2 ^ c' = omega (arith, two_pow_le c c' d.from) in
    (
      _,
      rw (run, d.size_is),
      (c', _, alloc_built size len c' xs old h4 d.more d.upto (bytes_fit c' d.tight) wide),
    )
  where
    bytes_fit : (c' : ℕ) → (c' ≡ c) ⊎ (2 ^ c' ≤ 2 * len) → 2 ^ c' * size < 2 ^ 32
    bytes_fit c' (inl e) = rw e hs
    bytes_fit c' (inr h) = omega (arith, mul-le-mul_right size h)

module _ {ℓ} {A : Type ℓ} where
  -- The header word of an array gives back its length and its logarithm.
  pub header :
      {xs : List A} {n c : ℕ} {spare : Cells A} {a : Array A}
      → Holds xs n c spare a
      → (llen a.hdr ≡ n) × (log_size a.hdr ≡ c) × (n < 2 ^ 27)
  header {n} {c} h =
      let small : n < 2 ^ 27 = omega (arith, two_pow_le c 27 h.small) in
      (rw h.hdr_is (llen_join c n small), rw h.hdr_is (omega arith), small)

  pub alloc_null :
      (add size : ℕ)
      → HasRoom size add
      → Returns
          (grow_array_int {A = A} none add size)
          λ a. (c : ℕ) × (spare : Cells A) × Holds [] add c spare a
  unfolding grow_array_int
  alloc_null add size room = elim (Bool-cases (ltb 128 size)) [
    | inl big ↦
        rw (leb-true 4 size room.least, big)
          (alloc-Holds size add 2 [] [] room.least room.count room.bytes (omega arith)
            (omega (arith, room.first)) (omega arith))
    | inr usual ↦
        rw (leb-true 4 size room.least, usual)
          (alloc-Holds size add 3 [] [] room.least room.count room.bytes (omega arith)
            (omega (arith, room.first)) (omega arith))
  ]

  alloc_again :
      (xs : List A) (a : Array A) (add size : ℕ)
      → Models xs a
      → HasRoom size (length xs + add)
      → Returns
          (grow_array_int (some a) add size)
          λ a'. (c : ℕ) × (spare : Cells A) × Holds xs (length xs + add) c spare a'
  unfolding grow_array_int
  alloc_again xs a add size m room =
      let h = m.holds in
      let (len, log, small) = header h in
      let len' : (llen a.hdr + add) % 2 ^ 32 ≡ length xs + add =
        rw len (omega (arith, room.count)) in
      let size' : 2 ^ m.log % 2 ^ 32 ≡ 2 ^ m.log = omega (arith, two_pow_le m.log 27 h.small) in
      rw (len', log, size', ltb-true 0 (2 ^ m.log) (two_pow_pos m.log))
        (elim (Bool-cases (leb (2 ^ m.log) (length xs + add))) [
          | inl full ↦
              let le : 2 ^ m.log ≤ length xs + add = ground arith in
              rw (full, h.cells_are)
                (alloc-Holds size (length xs + add) m.log xs m.spare room.least room.count
                  room.bytes h.small (omega (arith, room.bytes, mul-le-mul_right size le))
                  (omega (arith, h.sized)))
          | inr roomy ↦ (
            _,
            rw roomy,
            (
              m.log,
              m.spare,
              record {
                hdr_is = pack-eq m.log _ (omega (arith, h.small)) room.count;
                cells_are = h.cells_are;
                sized = h.sized;
                fits = ground arith;
                small = h.small;
              },
            ),
          )
        ])

  pub grow-Holds :
      (xs : List A) (space : Space A) (add size : ℕ)
      → SpaceModels xs space
      → HasRoom size (length xs + add)
      → Returns
          (grow_array_int space add size)
          λ a. (c : ℕ) × (spare : Cells A) × Holds xs (length xs + add) c spare a
  grow-Holds xs (some a) add size m room = alloc_again xs a add size m room
  grow-Holds xs none add size m room = rw m (
      let e : length {A = A} [] + add ≡ add = omega arith in
      rw e (alloc_null add size (rw (m, e) at room)))
