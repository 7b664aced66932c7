-- ===== src/DataBlock/Append.antt =====
-- A block holds a text, and grows without losing it.
use bksupport.Base.{
  ℕ, zero, suc, ◌+◌, ◌-◌, ◌*◌, ◌%◌, ◌^◌, ◌≤◌, ◌<◌, ◌≡◌, refl, sym, ap, ◌∙◌, true, false, [], ◌∷◌,
  ◌++◌, map, append_assoc, Option, none, some, arith, Bytes, length, length-append, length-map,
  length-replicate, drop, length-drop, replicate, ltb, leb, leb-true, Bool-cases, ok, Returns, inl,
  inr,
}
use native.Mathlib.Nat.{pow-suc, mul_assoc, mul_comm}
use bksupport.Cells.{Cells, write, write_all, resize, resize_grows, write_mid}
use bksupport.Cells.Overwrite.{overwrite_end, write_all-overwrite}
use bksupport.DataBlock.{
  DataBlock, word, data_set_size, size_loop, grown_size, data_resize, data_append,
}

-- The first bytes of the block are the text, and `spare` is behind them.
pub record Holds (text : Bytes) (spare : Cells ℕ) (d : DataBlock) : Type 0 where
  pub cells_are : d.buf ≡ map some text ++ spare
  pub len_is : d.len ≡ length text
  pub size_is : d.size ≡ length text + length spare

pub length-buf :
    (text : Bytes) (spare : Cells ℕ)
    → length (map {B = Option ℕ} some text ++ spare) ≡ length text + length spare
length-buf text spare =
    omega (
      arith,
      length-append (map {B = Option ℕ} some text) spare,
      length-map {B = Option ℕ} some text,
    )

twice : (size fuel : ℕ) → size * 2 * 2 ^ fuel ≡ size * 2 ^ suc fuel
twice size fuel =
    rw (pow-suc 2 fuel) (mul_assoc size 2 (2 ^ fuel) ∙ ap (λ r. size * r) (mul_comm 2 (2 ^ fuel)))

size_loop_lem :
    (fuel size newlen : ℕ)
    → newlen ≤ size * 2 ^ fuel
    → newlen ≤ 2147483648
    → Returns (size_loop (suc fuel) size newlen) (λ s. newlen ≤ s)
unfolding size_loop
size_loop_lem zero size newlen enough small =
    let e : ltb size newlen ≡ false = ground (arith, enough) in rw e (size, refl, ground (arith, e))
size_loop_lem (suc fuel) size newlen enough small = elim (Bool-cases (ltb size newlen)) [
  | inr e ↦ rw e (size, refl, ground arith)
  | inl e ↦
      let whole : size * 2 % word ≡ size * 2 = ground arith in
      let (s, run, le) = size_loop_lem fuel (size * 2) newlen (rw (twice size fuel) enough) small in
      rw (e, whole) (s, run, le)
]

grown_size_lem : (newlen : ℕ) → newlen < 4293918720 → Returns (grown_size newlen) (λ s. newlen ≤ s)
unfolding grown_size
grown_size_lem newlen small = elim (Bool-cases (leb newlen 2147483648)) [
  | inl e ↦ rw e (size_loop_lem 26 64 newlen (ground arith) (ground arith))
  | inr e ↦ elim (Bool-cases (ltb newlen 3221225472)) [
    | inl f ↦ rw (e, f) (3221225472, refl, ground arith)
    | inr f ↦
        let g : ltb newlen 4293918720 ≡ true = ground arith in
        rw (e, f, g) (4293918720, refl, omega arith)
  ]
]

-- A block that is made big enough for `newlen` bytes.
pub record Resized (text : Bytes) (newlen : ℕ) (d : DataBlock) : Type 0 where
  pub spare : Cells ℕ
  pub holds : Holds text spare d
  pub enough : newlen ≤ d.size

pub data_resize-Resized :
    (text : Bytes) (spare : Cells ℕ) (d : DataBlock) (newlen : ℕ)
    → Holds text spare d
    → newlen < 4293918720
    → Returns (data_resize d newlen) (Resized text newlen)
unfolding data_resize data_set_size
data_resize-Resized text spare d newlen h small = elim (Bool-cases (ltb d.size newlen)) [
  | inr e ↦ rw e (d, refl, record { spare = spare; holds = h; enough = ground arith })
  | inl e ↦
      let (size, run, le) = grown_size_lem newlen small in
      let fits : leb d.len size ≡ true =
        leb-true d.len size (ground (arith, h.len_is, h.size_is, le)) in
      let long : length d.buf ≤ size =
        ground (arith, h.size_is, le, ap length h.cells_are, length-buf text spare) in
      let more = replicate {A = Option ℕ} (size - length d.buf) none in
      rw (e, run, fits)
        (
          record d { buf = resize size d.buf; size = size },
          refl,
          record {
            spare = spare ++ more;
            holds = record {
              cells_are =
                  resize_grows size d.buf long
                  ∙ ap (λ r. r ++ more) h.cells_are
                  ∙ append_assoc (map some text) spare more;
              len_is = h.len_is;
              size_is = omega (
                arith,
                long,
                ap length h.cells_are,
                length-buf text spare,
                length-append spare more,
                length-replicate {A = Option ℕ} (size - length d.buf) none,
              );
            };
            enough = le;
          },
        )
]

-- The block after an append: the text with the new bytes, and a null behind it.
pub record Appended (text : Bytes) (d : DataBlock) : Type 0 where
  pub more : Cells ℕ
  pub holds : Holds text (some 0 ∷ more) d

-- The cells behind a text that a null is to follow.
pub null_written :
    (text : Bytes) (rest : Cells ℕ) (i : ℕ)
    → i ≡ length text
    → 0 < length rest
    → Returns (write (map some text ++ rest) i 0) (λ cells.
      (more : Cells ℕ) × (cells ≡ map some text ++ (some 0 ∷ more))
      × (length rest ≡ suc (length more)))
null_written text [] i e h = absurd (omega arith)
null_written text (c ∷ rest) i e h = (
  _,
  ap (λ r. write (map some text ++ (c ∷ rest)) r 0) e ∙ write_mid text c rest 0,
  (rest, refl, refl),
)

-- data_append puts the bytes behind the text of the block, and a null behind them, when the block
-- stays below 0xfff00000 bytes.
pub data_append-Appended :
    (text : Bytes) (spare : Cells ℕ) (d : DataBlock) (bytes : Bytes)
    → Holds text spare d
    → length text + length bytes + 1 < 4293918720
    → Returns (data_append d bytes) (Appended (text ++ bytes))
unfolding data_append
data_append-Appended text spare d bytes h small =
    let newlen = length text + length bytes in
    let whole : (d.len + length bytes) % word ≡ newlen = omega (arith, h.len_is) in
    let whole' : (newlen + 1) % word ≡ newlen + 1 = omega arith in
    let (d₁, grown, r) = data_resize-Resized text spare d (newlen + 1) h small in
    let rest = drop (length text + length bytes - length text) r.spare in
    let size = length-append text bytes in
    let filled : write_all d₁.buf d₁.len bytes ≡ ok (map some (text ++ bytes) ++ rest) =
      ap (λ c. write_all c d₁.len bytes) r.holds.cells_are
      ∙ ap (λ i. write_all (map some text ++ r.spare) i bytes) r.holds.len_is
      ∙ write_all-overwrite text r.spare (length text) (omega arith) bytes
          (omega (arith, r.enough, r.holds.size_is))
      ∙ ap (λ x. ok (map some x ++ rest)) (overwrite_end text bytes) in
    let left = length-drop (length text + length bytes - length text) r.spare in
    let (cells, ended, (more, at, count)) =
      null_written (text ++ bytes) rest newlen (sym size)
        (omega (arith, r.enough, r.holds.size_is, left)) in
    rw (whole, whole', grown, filled, ended)
      (
        record d₁ { buf = cells; len = newlen },
        refl,
        record {
          more = more;
          holds = record {
            cells_are = at;
            len_is = sym size;
            size_is = omega (arith, r.holds.size_is, r.enough, left, count, size);
          };
        },
      )
