-- ===== src/U32Hash/Insert.antt =====
-- The operations of hash/u32hash.c as those of a map.
use native.Mathlib.Nat.{pow-suc}
use bksupport.Base.{
  ℕ, suc, ◌+◌, ◌*◌, ◌/◌, ◌%◌, ◌^◌, ◌≤◌, ◌<◌, ◌≡◌, ◌≢◌, ◌⊎◌, refl, sym, ap, ◌∙◌, Bool, true, false,
  Option, none, some, arith, length, length-replicate, set, replicate, ltb, ◌==◌, if◌then◌else◌,
  Bool-cases, ok, Returns, inl, inr,
}
use bksupport.U32Hash.Assoc.{
  assoc, used, used-put, assoc-put, assoc-over, used-over, used-replicate, assoc-replicate,
  key-replicate,
}
use bksupport.U32Hash.Lookup.{
  Reachable, Ends, only_slot, lookup_slot-Ends, put-Reachable, over-Reachable,
}
use bksupport.U32Hash.Resize.{or_else, or_else-none, Reachable-AllOnce, move_slots-Moved}
use bksupport.U32Hash.{
  KeyVal, U32Hash, new_table, empty_slot, key_at, val_at, word, lookup, value_of, u32hash_new,
  u32hash_fetch, resize, make_room, value_or_zero, u32hash_insert, overwrite, u32hash_store,
}

-- The new value of key `k`, and the old one of any other.
abbrev pub change : ℕ → Option ℕ → (ℕ → Option ℕ) → ℕ → Option ℕ
change k o old k' = if k == k' then o else old k'

module _ (crc : ℕ → ℕ) where
  -- Each key is found, `cnt` counts the slots in use, and one slot is empty.
  pub record Valid (h : U32Hash) : Type 0 where
    pub reachable : Reachable crc h.table h.size
    pub counts : h.cnt ≡ used h.table
    pub room : used h.table < h.size
    pub big : 32 ≤ h.size

  pub record Grown (h h' : U32Hash) : Type 0 where
    pub valid : Valid h'
    pub spare : h'.cnt + 1 < h'.size
    pub says : (k : ℕ) → k ≢ 0 → assoc h'.table k ≡ assoc h.table k

  empty-Reachable : (size log : ℕ) → size ≡ 2 ^ log → Reachable crc (replicate size empty_slot) size
  empty-Reachable size log e = record {
    log = log;
    power = e;
    full = length-replicate size empty_slot;
    reach = λ m le filled. absurd (filled (key-replicate size m));
  }

  -- u32hash_new gives a table in order that holds no key.
  pub u32hash_new-Valid :
      (u32hash_new 4 4 ≡ ok new_table)
      × Valid new_table
      × ((k : ℕ) → k ≢ 0 → assoc new_table.table k ≡ none)
  unfolding u32hash_new
  u32hash_new-Valid = (
    refl,
    record {
      reachable = empty-Reachable 32 5 refl;
      counts = refl;
      room = omega arith;
      big = omega arith;
    },
    λ k filled. assoc-replicate 32 k filled,
  )

  resize-Grown : (h : U32Hash) → Valid h → h.size < 2147483648 → Returns (resize crc h) (Grown h)
  unfolding resize
  resize-Grown h v small =
      let whole : 2 * h.size % word ≡ 2 * h.size = omega arith in
      let power : 2 * h.size ≡ 2 ^ suc v.reachable.log =
        omega (arith, v.reachable.power, pow-suc 2 v.reachable.log) in
      let size = 2 * h.size in
      let (new, run, moved) =
        move_slots-Moved crc h.table (replicate size empty_slot) size
          (empty-Reachable size (suc v.reachable.log) power)
          (Reachable-AllOnce crc h.table h.size v.reachable)
          (λ k filled. inr (assoc-replicate size k filled))
          (omega (arith, v.room, used-replicate size)) in
      rw (whole, run)
        (
          record h { table = new; size = size; kptr = none },
          refl,
          record {
            valid = record {
              reachable = moved.reachable;
              counts = omega (arith, v.counts, moved.counts, used-replicate size);
              room = omega (arith, v.room, moved.counts, used-replicate size);
              big = omega (arith, v.big);
            };
            spare = omega (arith, v.counts, v.room, v.big);
            says = λ k filled.
                moved.says k filled
                ∙ ap (or_else (assoc h.table k)) (assoc-replicate size k filled)
                ∙ or_else-none (assoc h.table k);
          },
        )

  make_room-Grown :
      (h : U32Hash) → Valid h → h.size < 2147483648 → Returns (make_room crc h) (Grown h)
  unfolding make_room
  make_room-Grown h v small = elim (Bool-cases (ltb (3 * h.size % word / 4) h.cnt)) [
    | inl e ↦ rw e (resize-Grown h v small)
    | inr e ↦
        rw e (h, refl, record { valid = v; spare = ground (arith, v.big); says = λ k filled. refl })
  ]

  -- On a table in order u32hash_fetch of a key other than 0 ends, finds the value that the table holds
  -- for the key or the null pointer, and leaves the table alone.
  pub u32hash_fetch-assoc :
      (h : U32Hash) (key : ℕ)
      → Valid h
      → key ≢ 0
      → Returns (u32hash_fetch crc h key 4) (λ r. (r.1 ≡ assoc h.table key) × (r.0.table ≡ h.table))
  unfolding u32hash_fetch lookup value_of
  u32hash_fetch-assoc h key v filled =
      let (m, run, ends) = lookup_slot-Ends crc h.table h.size v.reachable key filled v.room in
      elim ends.outcome [
        | inl e ↦
            let z : (key_at h.table m == 0) ≡ true = ground (arith, e.0) in
            rw (run, z) ((record h { kptr = none }, none), refl, (sym e.1, refl))
        | inr e ↦
            let z : (key_at h.table m == 0) ≡ false = ground (arith, e.0) in
            rw (run, z)
              ((record h { kptr = some m }, some (val_at h.table m)), refl, (sym e.1, refl))
      ]

  -- What u32hash_insert leaves: the table in order, and the key new or found in the slot of `kptr`.
  pub record Inserted (h : U32Hash) (key value : ℕ) (r : U32Hash × Bool) : Type 0 where
    pub valid : Valid r.0
    pub outcome :
        ((r.1 ≡ true)
          × (assoc h.table key ≡ none)
          × ((k : ℕ) → k ≢ 0 → assoc r.0.table k ≡ change key (some value) (assoc h.table) k))
        ⊎ ((r.1 ≡ false)
            × (assoc h.table key ≢ none)
            × ((k : ℕ) → k ≢ 0 → assoc r.0.table k ≡ assoc h.table k)
            × ((n : ℕ) × (r.0.kptr ≡ some n) × (n < r.0.size) × (key_at r.0.table n ≡ key)))

  module _ (h h₁ : U32Hash) (key value : ℕ) (filled : key ≢ 0) (g : Grown h h₁) (m : ℕ)
      (ends : Ends crc h₁.table h₁.size key m) where
    abbrev pair : KeyVal
    pair = record { key = key; val = value }

    new-Inserted :
        key_at h₁.table m ≡ 0
        → assoc h₁.table key ≡ none
        → Inserted h key value
            (record h₁ { table = set h₁.table m pair; cnt = h₁.cnt + 1; kptr = some m }, true)
    new-Inserted z e =
        let r = g.valid.reachable in
        let low : m < length h₁.table = omega (arith, r.full, ends.inside) in
        let count = used-put pair filled h₁.table m low z in
        record {
          valid = record {
            reachable = put-Reachable crc h₁.table h₁.size r pair m filled ends.inside ends.path z;
            counts = omega (arith, g.valid.counts, count);
            room = omega (arith, g.valid.counts, g.spare, count);
            big = g.valid.big;
          };
          outcome = inl (
            refl,
            sym (g.says key filled) ∙ e,
            λ k there.
                assoc-put pair filled h₁.table m k low z e there
                ∙ ap (λ o. if key == k then some value else o) (g.says k there),
          );
        }

    old-Inserted :
        key_at h₁.table m ≡ key
        → assoc h₁.table key ≡ some (val_at h₁.table m)
        → Inserted h key value (record h₁ { kptr = some m }, false)
    old-Inserted z e = record {
      valid = record {
        reachable = g.valid.reachable;
        counts = g.valid.counts;
        room = g.valid.room;
        big = g.valid.big;
      };
      outcome =
          inr (refl, (λ gone. cc (g.says key filled, e, gone)), g.says, (m, refl, ends.inside, z));
    }

  -- On a table in order with fewer than 2^31 slots u32hash_insert of a key other than 0 ends with the
  -- table in order: a new key gets its value, and a key that is there keeps what it has and is found at
  -- the slot of the header; every other key keeps what it had, though the table may have grown.
  pub u32hash_insert-Inserted :
      (h : U32Hash) (key : ℕ) (vptr : Option ℕ)
      → Valid h
      → key ≢ 0
      → h.size < 2147483648
      → Returns (u32hash_insert crc h key 4 vptr 4) (Inserted h key (value_or_zero vptr))
  unfolding u32hash_insert lookup
  u32hash_insert-Inserted h key vptr v filled small =
      let (h₁, grown, g) = make_room-Grown h v small in
      let (m, run, ends) =
        lookup_slot-Ends crc h₁.table h₁.size g.valid.reachable key filled g.valid.room in
      let k : (key == 0) ≡ false = ground (arith, filled) in
      elim ends.outcome [
        | inl e ↦
            let z : (key_at h₁.table m == 0) ≡ true = ground (arith, e.0) in
            rw (k, grown, run, z)
              (_, refl, new-Inserted h h₁ key (value_or_zero vptr) filled g m ends e.0 e.1)
        | inr e ↦
            let z : (key_at h₁.table m == 0) ≡ false = ground (arith, e.0, filled) in
            rw (k, grown, run, z)
              (_, refl, old-Inserted h h₁ key (value_or_zero vptr) filled g m ends e.0 e.1)
      ]

  overwritten :
      (h : U32Hash) (key value : ℕ) (h₁ : U32Hash) (n : ℕ)
      → key ≢ 0
      → Valid h₁
      → ((k : ℕ) → k ≢ 0 → assoc h₁.table k ≡ assoc h.table k)
      → n < h₁.size
      → key_at h₁.table n ≡ key
      → Valid
          (record h₁ { table = set h₁.table n (record { key = key_at h₁.table n; val = value }) })
        × ((k : ℕ)
            → k ≢ 0
            → assoc (set h₁.table n (record { key = key_at h₁.table n; val = value })) k
              ≡ change key (some value) (assoc h.table) k)
  overwritten h key value h₁ n filled v says low e =
      let s : KeyVal = record { key = key_at h₁.table n; val = value } in
      let r = v.reachable in
      let low' : n < length h₁.table = omega (arith, low, r.full) in
      let there : key_at h₁.table n ≢ 0 = λ z. filled (sym e ∙ z) in
      (
        record {
          reachable = over-Reachable crc h₁.table h₁.size r s n there low refl;
          counts = v.counts ∙ sym (used-over s h₁.table n low' refl);
          room = omega (arith, v.room, used-over s h₁.table n low' refl);
          big = v.big;
        },
        λ k h'.
            assoc-over s h₁.table n k low' refl (λ m le f.
              only_slot crc h₁.table h₁.size r (key_at h₁.table n) n m there (r.reach n low there)
                le f)
            ∙ ap (λ x. if x == k then some value else assoc h₁.table k) e
            ∙ ap (λ o. if key == k then some value else o) (says k h'),
      )

  -- On a table in order with fewer than 2^31 slots u32hash_store of a key other than 0 ends with the
  -- table in order: the key has the new value, and every other key keeps what it had.
  pub u32hash_store-change :
      (h : U32Hash) (key : ℕ) (vptr : Option ℕ)
      → Valid h
      → key ≢ 0
      → h.size < 2147483648
      → Returns (u32hash_store crc h key 4 vptr 4) (λ h'.
        Valid h'
        × ((k : ℕ)
            → k ≢ 0
            → assoc h'.table k ≡ change key (some (value_or_zero vptr)) (assoc h.table) k))
  unfolding u32hash_store overwrite
  u32hash_store-change h key vptr v filled small =
      let (r, run, ins) = u32hash_insert-Inserted h key vptr v filled small in
      elim ins.outcome [
        | inl e ↦ rw (run, e.0) (r.0, refl, (ins.valid, e.2))
        | inr e ↦
            let (n, at, low, same) = e.3 in
            rw (run, e.0, overwrite, at)
              (_, refl, overwritten h key (value_or_zero vptr) r.0 n filled ins.valid e.2 low same)
      ]
