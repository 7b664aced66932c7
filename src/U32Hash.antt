-- ===== src/U32Hash.antt =====
-- hash/u32hash.c: a hash table with open addressing, from 32-bit keys to 32-bit values. The key 0 marks
-- an empty slot. `crc` stands for `crc32c(0, &key, 4)` of utils/crc32c.c. A pointer into the table is
-- the index of its slot. Only the mode with values of 32 bits is modelled, in which a value stands in
-- its slot, not the one with a separate store for longer values.
pub mod Probe
pub mod Assoc
pub mod Lookup
pub mod Resize
pub mod Insert
use bksupport.Base.{
  ℕ, zero, suc, ◌+◌, ◌-◌, ◌*◌, ◌/◌, ◌%◌, ◌≡◌, bit_and, Bool, true, false, not, ◌&&◌, List, [], ◌∷◌,
  Option, none, some, length, get_or, set, drop, replicate, ltb, leb, ◌==◌, if◌then◌else◌, Run, ok,
  fault, wild, no_fuel, assert_failed, ◌>>=◌, ◌>>◌,
}

pub record KeyVal : Type 0 where
  pub key : ℕ
  pub val : ℕ

abbrev pub empty_slot : KeyVal
empty_slot = record { key = 0; val = 0 }

-- `kptr` and `vptr` of the header point into the same slot, or are both null.
pub record U32Hash : Type 0 where
  pub table : List KeyVal
  pub size : ℕ
  pub cnt : ℕ
  pub kptr : Option ℕ

abbrev pub word : ℕ
word = 4294967296

abbrev pub assert : Bool → Run (Unit {0})
assert true = ok tt
assert false = fault assert_failed

abbrev pub new_table : U32Hash
new_table = record { table = replicate 32 empty_slot; size = 32; cnt = 0; kptr = none }

unfoldable pub u32hash_new : ℕ → ℕ → Run U32Hash
u32hash_new klen vlen = do assert (klen == 4); assert (leb 4 vlen); ok new_table

abbrev pub key_at : List KeyVal → ℕ → ℕ
key_at t n = (get_or t n empty_slot).key

abbrev pub val_at : List KeyVal → ℕ → ℕ
val_at t n = (get_or t n empty_slot).val

abbrev pub next_slot : ℕ → ℕ → ℕ
next_slot size n = bit_and (n + 1) (size - 1)

-- the loop of lookup
unfoldable pub lookup_loop : ℕ → List KeyVal → ℕ → ℕ → ℕ → Run ℕ
lookup_loop zero t size key n = fault no_fuel
lookup_loop (suc fuel) t size key n =
    let rest = lookup_loop fuel t size key (next_slot size n) in
    if not (key_at t n == 0) && not (key_at t n == key) then rest else ok n

-- `*h->hdr.vptr`, or null
unfoldable pub value_of : U32Hash → Option ℕ
value_of h = elim h.kptr [ none ↦ none | some n ↦ some (val_at h.table n) ]

unfoldable pub value_or_zero : Option ℕ → ℕ
value_or_zero none = 0
value_or_zero (some v) = v

unfoldable pub overwrite : U32Hash → ℕ → Run U32Hash
overwrite h value = elim h.kptr [
  | none ↦ fault wild
  | some n ↦
      ok (record h { table = set h.table n (record { key = key_at h.table n; val = value }) })
]

module _ (crc : ℕ → ℕ) where
  unfoldable pub lookup_slot : List KeyVal → ℕ → ℕ → Run ℕ
  lookup_slot t size key = lookup_loop (size + 1) t size key (bit_and (crc key) (size - 1))

  -- the slot, and the header's pointers set to it
  unfoldable pub lookup : U32Hash → ℕ → Run (U32Hash × ℕ)
  lookup h key = do
    n ← lookup_slot h.table h.size key
    ok (record h { kptr = if key_at h.table n == 0 then none else some n }, n)

  unfoldable pub u32hash_fetch : U32Hash → ℕ → ℕ → Run (U32Hash × Option ℕ)
  u32hash_fetch h key klen = do
    assert (klen == 4)
    found ← lookup h key
    ok (found.0, value_of found.0)

  -- the loop of resize over the slots of the old table
  unfoldable pub move_slots : List KeyVal → List KeyVal → ℕ → Run (List KeyVal)
  move_slots [] t size = ok t
  move_slots (s ∷ old) t size =
      let moved = lookup_slot t size s.key >>= λ n. move_slots old (set t n s) size in
      let skipped = move_slots old t size in if s.key == 0 then skipped else moved

  -- the pointers are null, as each lookup here ends at an empty slot
  unfoldable pub resize : U32Hash → Run U32Hash
  resize h = do
    let size = 2 * h.size % word
    t ← move_slots h.table (replicate size empty_slot) size
    ok (record h { table = t; size = size; kptr = none })

  -- at three quarters
  unfoldable pub make_room : U32Hash → Run U32Hash
  make_room h = if ltb (3 * h.size % word / 4) h.cnt then resize h else ok h

  -- the table after the call, and whether the key is new
  unfoldable pub u32hash_insert : U32Hash → ℕ → ℕ → Option ℕ → ℕ → Run (U32Hash × Bool)
  u32hash_insert h key klen vptr vlen = do
    assert (klen == 4)
    assert (vlen == 4)
    assert (not (key == 0))
    h₁ ← make_room h
    found ← lookup h₁ key
    let (h₂, n) = found
    elim h₂.kptr [
      | none ↦ ok (
        record h₂ {
          table = set h₂.table n (record { key = key; val = value_or_zero vptr });
          cnt = h₂.cnt + 1;
          kptr = some n;
        },
        true,
      )
      | some _ ↦ ok (h₂, false)
    ]

  unfoldable pub u32hash_store : U32Hash → ℕ → ℕ → Option ℕ → ℕ → Run U32Hash
  u32hash_store h key klen vptr vlen = do
    inserted ← u32hash_insert h key klen vptr vlen
    if inserted.1 then ok inserted.0 else overwrite inserted.0 (value_or_zero vptr)

-- the first slot in use from index `n` on
unfoldable pub used_from : ℕ → List KeyVal → Option ℕ
used_from n [] = none
used_from n (s ∷ t) = let rest = used_from (suc n) t in if s.key == 0 then rest else some n

-- the table after the call; its key pointer is the result
unfoldable pub u32hash_next : U32Hash → Run U32Hash
u32hash_next h = elim h.kptr [
  | none ↦ fault wild
  | some n ↦
      assert (ltb n h.size) >> ok (record h { kptr = used_from (suc n) (drop (suc n) h.table) })
]

unfoldable pub u32hash_first : U32Hash → Run U32Hash
u32hash_first h =
    let h₁ : U32Hash = record h { kptr = some 0 } in
    let rest = u32hash_next h₁ in if key_at h.table 0 == 0 then rest else ok h₁

unfoldable pub u32hash_count : U32Hash → ℕ
u32hash_count h = h.cnt
