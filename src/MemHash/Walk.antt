-- ===== src/MemHash/Walk.antt =====
-- The walk of EACH_HASH in hash/hash.h by memhash_first and memhash_next.
use bksupport.Base.{
  ℕ, zero, suc, ◌<◌, ◌≡◌, refl, sym, ap, ◌∙◌, List, [], ◌∷◌, ◌++◌, Option, none, some, arith, Bytes,
  length, drop, Run, ok, fault, no_fuel, ◌>>=◌,
}
use bksupport.MemHash.Buckets.{flat}
use bksupport.MemHash.Split.{Valid}
use bksupport.MemHash.{
  Node, MemHash, next_bucket, take_bucket, memhash_next, memhash_first, memhash_count,
}

-- The nodes met from one result of memhash_first or memhash_next on.
unfoldable pub each_hash : ℕ → MemHash × Option Node → Run (List Node)
each_hash zero at = fault no_fuel
each_hash (suc fuel) (h, none) = ok []
each_hash (suc fuel) (h, some n) = do rest ← each_hash fuel (memhash_next h); ok (n ∷ rest)

abbrev after_head : List Node → List Node
after_head [] = []
after_head (n ∷ c) = c

abbrev remaining : MemHash → List Node
remaining h = after_head h.lastnode ++ flat (drop h.lastidx h.arr)

drop_next :
    (i : ℕ) (arr : List (List Node)) (c : List Node) (cs : List (List Node))
    → drop i arr ≡ c ∷ cs
    → drop (suc i) arr ≡ cs
drop_next zero [] c cs e = cc e
drop_next (suc i) [] c cs e = cc e
drop_next zero (b ∷ arr) c cs e = cc e
drop_next (suc i) (b ∷ arr) c cs e = drop_next i arr c cs e

abbrev Bucket : List (List Node) → List Node → Option (ℕ × List Node) → Type 0
Bucket arr left none = left ≡ []
Bucket arr left (some (j, [])) = left ≡ []
Bucket arr left (some (j, n ∷ c)) = left ≡ n ∷ (c ++ flat (drop j arr))

next_bucket_lem :
    (arr cs : List (List Node)) (i : ℕ) → drop i arr ≡ cs → Bucket arr (flat cs) (next_bucket i cs)
unfolding next_bucket
next_bucket_lem arr [] i e = refl
next_bucket_lem arr ([] ∷ cs) i e = next_bucket_lem arr cs (suc i) (drop_next i arr [] cs e)
next_bucket_lem arr ((n ∷ c) ∷ cs) i e =
    ap (λ r. n ∷ (c ++ flat r)) (sym (drop_next i arr (n ∷ c) cs e))

abbrev Next : MemHash → MemHash × Option Node → Type 0
Next h (h', none) = remaining h ≡ []
Next h (h', some n) = (remaining h ≡ n ∷ remaining h') × (h'.arr ≡ h.arr)

take_bucket-Next :
    (h : MemHash) (found : Option (ℕ × List Node))
    → Bucket h.arr (flat (drop h.lastidx h.arr)) found
    → after_head h.lastnode ≡ []
    → Next h (take_bucket h found)
unfolding take_bucket
take_bucket-Next h none b done = rw done b
take_bucket-Next h (some (i, [])) b done = rw done b
take_bucket-Next h (some (i, n ∷ c)) b done = (rw done b, refl)

memhash_next-Next :
    (nodes mask lastidx : ℕ) (arr : List (List Node)) (last : List Node)
    → Next
        (record { nodes = nodes; arr = arr; mask = mask; lastidx = lastidx; lastnode = last })
        (memhash_next
          (record { nodes = nodes; arr = arr; mask = mask; lastidx = lastidx; lastnode = last }))
unfolding memhash_next
memhash_next-Next nodes mask lastidx arr [] =
    take_bucket-Next
      (record { nodes = nodes; arr = arr; mask = mask; lastidx = lastidx; lastnode = [] }) _
      (next_bucket_lem arr (drop lastidx arr) lastidx refl) refl
memhash_next-Next nodes mask lastidx arr (m ∷ []) =
    take_bucket-Next
      (record { nodes = nodes; arr = arr; mask = mask; lastidx = lastidx; lastnode = m ∷ [] }) _
      (next_bucket_lem arr (drop lastidx arr) lastidx refl) refl
memhash_next-Next nodes mask lastidx arr (m ∷ n ∷ c) = (refl, refl)

walk_step :
    (fuel : ℕ) (h : MemHash) (left : List Node) (out : MemHash × Option Node)
    → remaining h ≡ left
    → length left < suc fuel
    → Next h out
    → ((left' : List Node) (h' : MemHash)
        → remaining h' ≡ left'
        → length left' < fuel
        → each_hash fuel (memhash_next h') ≡ ok left')
    → each_hash (suc fuel) out ≡ ok left
unfolding each_hash
walk_step fuel h left (h', none) e le next walk = ap ok (sym next ∙ e)
walk_step fuel h [] (h', some n) e le next walk = cc (e, next.0)
walk_step fuel h (m ∷ left) (h', some n) e le next walk =
    let e' : n ∷ remaining h' ≡ m ∷ left = sym next.0 ∙ e in
    rw (walk left h' (cc e') (omega arith)) (ap ok (cc e'))

each_hash_all :
    (fuel : ℕ) (left : List Node) (h : MemHash)
    → remaining h ≡ left
    → length left < fuel
    → each_hash fuel (memhash_next h) ≡ ok left
each_hash_all zero left h e le = absurd (omega arith)
each_hash_all (suc fuel) left h e le =
    walk_step fuel h left (memhash_next h) e le
      (memhash_next-Next h.nodes h.mask h.lastidx h.arr h.lastnode) (each_hash_all fuel)

-- EACH_HASH on a table in order meets each node of each chain once, in the order of the buckets, and
-- ends after as many rounds as memhash_count tells.
pub each_hash-memhash_first :
    (crc : Bytes → ℕ) (h : MemHash)
    → Valid crc h
    → (each_hash (suc (memhash_count h)) (memhash_first h) ≡ ok (flat h.arr))
      × (memhash_count h ≡ length (flat h.arr))
unfolding memhash_first memhash_count
each_hash-memhash_first crc h v = (
  each_hash_all (suc h.nodes) (flat h.arr) (record h { lastidx = 0; lastnode = [] }) refl
      (omega (arith, v.counts)),
  v.counts,
)
