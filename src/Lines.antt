-- ===== src/Lines.antt =====
-- The auto-expanding arrays of lines/lines.c. An array is its header word and its cells; a null
-- `space` is `none`. The cell at C index k is cell k - 1 here, since index 0 is the header.
-- `size` is the size of an element in bytes, as in the C functions. `realloc` succeeds.
pub mod Shape
pub mod Grow
pub mod Append
pub mod Insert
pub mod Remove
pub mod Reverse
use bksupport.Base.{
  ℕ, zero, suc, ◌+◌, ◌-◌, ◌*◌, ◌/◌, ◌%◌, ◌^◌, bit_and, bit_or, Bool, true, false, List, [], ◌∷◌,
  ◌++◌, Option, none, some, length, ltb, leb, ◌==◌, if◌then◌else◌, replicate, Run, ok, fault,
  assert_failed, no_fuel, ◌>>=◌, ◌>>◌,
}
use bksupport.Cells.{Cells, read, write, read_all, write_all, resize}

-- LBITS, LMASK and its complement in 32 bits
abbrev pub lbits : ℕ
lbits = 27

abbrev pub lmask : ℕ
lmask = 0x07ff_ffff

abbrev pub not_lmask : ℕ
not_lmask = 0xf800_0000

-- _LLEN
unfoldable pub llen : ℕ → ℕ
llen hdr = bit_and hdr lmask

-- setLLEN
unfoldable pub set_llen : ℕ → ℕ → ℕ
set_llen hdr len = bit_or (bit_and hdr not_lmask) len

-- (c << LBITS) | len
unfoldable pub pack : ℕ → ℕ → ℕ
pack c len = bit_or (c * 2 ^ lbits % 2 ^ 32) len

-- hdr >> LBITS
abbrev pub log_size : ℕ → ℕ
log_size hdr = hdr / 2 ^ lbits

pub record Array {ℓ} (A : Type ℓ) : Type ℓ where
  pub hdr : ℕ
  pub cells : Cells A

abbrev pub Space {ℓ} : Type ℓ → Type ℓ
Space A = Option (Array A)

abbrev pub assert : Bool → Run (Unit {0})
assert true = ok tt
assert false = fault assert_failed

-- while (len >= size) { size *= 2; ++c; }
unfoldable pub double : ℕ → ℕ → ℕ → ℕ → Run (ℕ × ℕ)
double zero len size c = fault no_fuel
double (suc fuel) len size c =
    let rest = double fuel len (size * 2 % 2 ^ 32) (c + 1) in
    if leb size len then rest else ok (size, c)

-- A size of 32 bits is 0 after 32 doublings.
abbrev pub double_fuel : ℕ
double_fuel = 33

-- The new element of `addArray` and `insertArrayN`: the one given, or one that is cleared.
abbrev pub item_or {ℓ} : {A : Type ℓ} → A → Option A → A
item_or zeros (some v) = v
item_or zeros none = zeros

module _ {ℓ} {A : Type ℓ} where
  -- the label `alloc` of _growArray_int; the byte count `size * elemsize` is computed in 32 bits
  unfoldable pub alloc : ℕ → Cells A → ℕ → ℕ → ℕ → Run (Array A)
  alloc elemsize cells len size c = do
    (size', c') ← double double_fuel len size c
    ok (record {
      hdr = pack c' len;
      cells = resize (size' * elemsize % 2 ^ 32 / elemsize - 1) cells;
    })

  unfoldable pub grow_array_int : Space A → ℕ → ℕ → Run (Array A)
  unfolding alloc
  grow_array_int (some a) add elemsize =
      let len = (llen a.hdr + add) % 2 ^ 32 in
      let c = log_size a.hdr in
      let size = 2 ^ c % 2 ^ 32 in
      do
        assert (ltb 0 size)
        if leb size len
            then alloc elemsize a.cells len size c
            else ok (record a { hdr = pack c len })
  grow_array_int none add elemsize = do
    assert (leb 4 elemsize)
    let c : ℕ = if ltb 128 elemsize then 2 else 3
    alloc elemsize [] add (2 ^ c % 2 ^ 32) c

  -- nLines
  unfoldable pub n_lines : Space A → ℕ
  n_lines (some a) = llen a.hdr
  n_lines none = 0

  -- The result is the array and the C index of the first new element.
  unfoldable pub grow_array : A → Space A → ℕ → ℕ → Run (Array A × ℕ)
  unfolding grow_array_int
  grow_array zeros space add size = do
    a ← grow_array_int space add size
    let ret = llen a.hdr - add + 1
    cells ← write_all a.cells (ret - 1) (replicate add zeros)
    ok (record a { cells = cells }, ret)

  unfoldable pub add_array : A → Space A → Option A → ℕ → Run (Array A × ℕ)
  unfolding grow_array_int
  add_array zeros space x size = do
    a ← grow_array_int space 1 size
    let len = llen a.hdr
    cells ← write a.cells (len - 1) (item_or zeros x)
    ok (record a { cells = cells }, len)

  unfoldable pub trunc_array : Space A → ℕ → Run (Space A)
  trunc_array (some a) len = do
    assert (leb len (llen a.hdr))
    ok (some (record a { hdr = set_llen a.hdr len }))
  trunc_array none len = do assert (len == 0); ok none

  -- `cat_array space array`: both arrays after the call, and the index of the first new element
  unfoldable pub cat_array : Space A → Array A → ℕ → Run (Space A × Array A × Option ℕ)
  unfolding grow_array_int n_lines
  cat_array space array size =
      let n2 = llen array.hdr in
      let n1 = n_lines space in
      if n2 == 0 then ok (space, array, none) else do
        a ← grow_array_int space n2 size
        vs ← read_all array.cells 0 n2
        cells ← write_all a.cells n1 vs
        ok (
          some (record a { cells = cells }),
          record array { hdr = set_llen array.hdr 0 },
          some (n1 + 1),
        )

  unfoldable pub insert_array : A → Space A → ℕ → Option A → ℕ → Run (Array A)
  unfolding grow_array_int n_lines
  insert_array zeros space j new size = do
    let len = n_lines space + 1
    assert (ltb 0 j)
    assert (leb j len)
    a ← grow_array_int space 1 size
    moved ←
        (if ltb j len
          then (do tail ← read_all a.cells (j - 1) (len - j); write_all a.cells j tail)
          else ok a.cells)
    cells ← write moved (j - 1) (item_or zeros new)
    ok (record a { cells = cells })

  unfoldable pub remove_array : Array A → ℕ → Run (Array A)
  remove_array a rm = do
    let len = llen a.hdr
    assert (leb rm len)
    assert (ltb 0 rm)
    cells ←
        (if ltb rm len
          then (do tail ← read_all a.cells rm (len - rm); write_all a.cells (rm - 1) tail)
          else ok a.cells)
    ok (record { hdr = set_llen a.hdr (len - 1); cells = cells })

  -- while (i < end) { swap; ++i; --end; }
  unfoldable pub reverse_loop : ℕ → ℕ → ℕ → Cells A → Run (Cells A)
  reverse_loop zero i end cells = fault no_fuel
  reverse_loop (suc fuel) i end cells =
      let swapped = (do
        tmp ← read cells (i - 1)
        last ← read cells (end - 1)
        cells₁ ← write cells (i - 1) last
        cells₂ ← write cells₁ (end - 1) tmp
        reverse_loop fuel (i + 1) (end - 1) cells₂) in
      if ltb i end then swapped else ok cells

  -- _reverseArray, and reverseLines for pointers
  unfoldable pub reverse_array : Space A → Run (Space A)
  unfolding reverse_loop
  reverse_array none = ok none
  reverse_array (some a) = do
    cells ← reverse_loop (llen a.hdr + 1) 1 (llen a.hdr) a.cells
    ok (some (record a { cells = cells }))
