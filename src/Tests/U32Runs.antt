-- ===== src/Tests/U32Runs.antt =====
-- Runs of the table of 32-bit keys.
use bksupport.Base.{
  ℕ, ◌≡◌, ◌≢◌, refl, none, some, arith, ok, fault, Returns, assert_failed, subst, set, ◌>>=◌, true,
}
use bksupport.U32Hash.Assoc.{assoc}
use bksupport.U32Hash.Insert.{
  Valid, Inserted, change, u32hash_new-Valid, u32hash_fetch-assoc, u32hash_insert-Inserted,
  u32hash_store-change,
}
use bksupport.U32Hash.{
  U32Hash, new_table, lookup_loop, lookup_slot, lookup, make_room, u32hash_fetch, u32hash_insert,
  u32hash_store, u32hash_first, u32hash_next, used_from, value_or_zero,
}

-- A stand-in for the checksum: each key starts at the same slot.
abbrev same_slot : ℕ → ℕ
same_slot k = 7

five : ◌≢◌ {A = ℕ} 5 0
five e = absurd (omega (arith, e))

six : ◌≢◌ {A = ℕ} 6 0
six e = absurd (omega (arith, e))

new-Valid : Valid same_slot new_table
new-Valid = (u32hash_new-Valid same_slot).1

-- The key 5 with the value 50 in its slot.
abbrev one_key : U32Hash
one_key = record {
  table = set new_table.table 7 (record { key = 5; val = 50 });
  size = 32;
  cnt = 1;
  kptr = some 7;
}

insert_run : u32hash_insert same_slot new_table 5 4 (some 50) 4 ≡ ok (one_key, true)
unfolding u32hash_insert make_room lookup lookup_slot lookup_loop value_or_zero
insert_run = refl

one_key-Valid : Valid same_slot one_key
one_key-Valid =
    let (r, run, ins) =
      u32hash_insert-Inserted same_slot new_table 5 (some 50) new-Valid five (omega arith) in
    let e : r ≡ (one_key, true) = cc (run, insert_run) in
    subst (λ x. Valid same_slot x.0) e ins.valid

u32hash_insert-Inserted_example :
    Returns (u32hash_insert same_slot one_key 6 4 (some 60) 4) (Inserted same_slot one_key 6 60)
unfolding value_or_zero
u32hash_insert-Inserted_example =
    u32hash_insert-Inserted same_slot one_key 6 (some 60) one_key-Valid six (omega arith)

u32hash_fetch-assoc_example :
    Returns
      (u32hash_fetch same_slot one_key 6 4)
      (λ r. (r.1 ≡ assoc one_key.table 6) × (r.0.table ≡ one_key.table))
u32hash_fetch-assoc_example = u32hash_fetch-assoc same_slot one_key 6 one_key-Valid six

u32hash_store-change_example : Returns (u32hash_store same_slot one_key 5 4 (some 51) 4) (λ h.
    Valid same_slot h
    × ((k : ℕ) → k ≢ 0 → assoc h.table k ≡ change 5 (some 51) (assoc one_key.table) k))
unfolding value_or_zero
u32hash_store-change_example =
    u32hash_store-change same_slot one_key 5 (some 51) one_key-Valid five (omega arith)

walk_run : (do h ← u32hash_first one_key; ok h.kptr) ≡ ok (some 7)
unfolding u32hash_first u32hash_next used_from
walk_run = refl

-- The key 0 is refused.
zero_key_run : u32hash_insert same_slot one_key 0 4 none 4 ≡ fault assert_failed
unfolding u32hash_insert
zero_key_run = refl
