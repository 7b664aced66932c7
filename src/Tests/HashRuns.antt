-- ===== src/Tests/HashRuns.antt =====
-- Runs of the hash table.
use bksupport.Base.{
  ℕ, ◌≡◌, suc, ◌≤◌, ◌<◌, ◌+◌, ◌%◌, refl, [], ◌∷◌, none, some, arith, Bytes, codes, length, ok,
  Returns,
}
use bksupport.LineText.{streq}
use bksupport.MemHash.Buckets.{flat, find}
use bksupport.MemHash.Change.{Changed}
use bksupport.MemHash.Layout.{alignment, doff-fits}
use bksupport.MemHash.Maps.{
  Inserted, Deleted, memhash_new_lem, memhash_store-Changed, memhash_insert-Inserted,
  memhash_delete-Deleted,
}
use bksupport.MemHash.Split.{Valid, memhash_split-find}
use bksupport.MemHash.Walk.{each_hash, each_hash-memhash_first}
use bksupport.MemHash.{
  MemHash, bucket, doff, payload, memhash_new, memhash_first, memhash_count, memhash_fetch,
  memhash_split, memhash_insert, memhash_store, memhash_delete,
}

-- A stand-in for the checksum: keys of the same length share a bucket.
abbrev by_length : Bytes → ℕ
by_length k = length k

abbrev one_key : MemHash
one_key = (memhash_store by_length memhash_new (codes "a") (some (codes "x")) 1).0

one_key-Valid : Valid by_length one_key
one_key-Valid =
    (memhash_store-Changed by_length memhash_new (memhash_new_lem by_length).0 (codes "a")
      (some (codes "x")) 1).valid

abbrev two_keys : MemHash
two_keys = (memhash_store by_length one_key (codes "b") none 2).0

two_keys-Valid : Valid by_length two_keys
two_keys-Valid = (memhash_store-Changed by_length one_key one_key-Valid (codes "b") none 2).valid

memhash_store-Changed_example :
    Changed by_length two_keys
      (memhash_store by_length two_keys (codes "a") (some (codes "long")) 4).0
      (codes "a")
      (some (codes "long"))
unfolding payload
memhash_store-Changed_example =
    memhash_store-Changed by_length two_keys two_keys-Valid (codes "a") (some (codes "long")) 4

memhash_insert-Inserted_example :
    Inserted by_length two_keys two_keys-Valid
      (codes "c")
      (memhash_fetch by_length two_keys (codes "c"))
      (codes "y")
      (memhash_insert by_length two_keys (codes "c") (some (codes "y")) 1)
unfolding payload
memhash_insert-Inserted_example =
    memhash_insert-Inserted by_length two_keys two_keys-Valid (codes "c") (some (codes "y")) 1

memhash_delete-Deleted_example : Returns (memhash_delete by_length two_keys (codes "a")) (
    Deleted by_length two_keys two_keys-Valid
      (codes "a")
      (memhash_fetch by_length two_keys (codes "a")))
memhash_delete-Deleted_example =
    memhash_delete-Deleted by_length two_keys two_keys-Valid (codes "a")

memhash_split-find_example :
    find
      (bucket by_length (memhash_split by_length two_keys).mask)
      (memhash_split by_length two_keys).arr
      (codes "a")
    ≡ find (bucket by_length two_keys.mask) two_keys.arr (codes "a")
memhash_split-find_example = memhash_split-find by_length two_keys two_keys-Valid (codes "a")

each_hash-memhash_first_example :
    (each_hash (suc (memhash_count two_keys)) (memhash_first two_keys) ≡ ok (flat two_keys.arr))
    × (memhash_count two_keys ≡ length (flat two_keys.arr))
each_hash-memhash_first_example = each_hash-memhash_first by_length two_keys two_keys-Valid

doff-fits_example :
    (3 ≤ doff 8 3 5)
    × (doff 8 3 5 < 3 + alignment 8 5)
    × (doff 8 3 5 % alignment 8 5 ≡ 0)
    × (doff 8 3 5 + 5 ≤ doff 8 3 9 + 9)
doff-fits_example = doff-fits 8 3 9 5 (omega arith)

fetch_run : memhash_fetch by_length two_keys (codes "b") ≡ some (0 ∷ 0 ∷ [])
unfolding memhash_fetch memhash_store memhash_new payload streq
fetch_run = refl
