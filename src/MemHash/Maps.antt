-- ===== src/MemHash/Maps.antt =====
-- The operations of hash/memhash.c as those of a map from keys to values.
use bksupport.Base.{
  ℕ, suc, ◌+◌, ◌-◌, ◌≤◌, ◌≡◌, inl, inr, refl, ap, ◌∙◌, Bool, true, false, List, [], ◌∷◌, ◌++◌,
  Option, none, some, arith, Bytes, length, length-append, length-replicate, get_or, ltb, ltb-true,
  Bool-cases, Returns,
}
use bksupport.MemHash.Buckets.{total-set, ChainsOk-at, ChainsOk-replicate}
use bksupport.MemHash.Chains.{
  streq-true, lookup, Link, HasKey, find_link-Link, find_link-HasKey, ChainOk,
}
use bksupport.MemHash.Change.{
  Without, no_node-Without, node-Without, put-ChainOk, put-lookup, gone-lookup, memhash_fetch_lem,
  Changed, replaced, split_if,
}
use bksupport.MemHash.Split.{get_or-replicate, Valid, Valid-Fits}
use bksupport.MemHash.{
  Node, MemHash, bucket, payload, find_nodep, memhash_new, memhash_fetch, new_node, memhash_insert,
  memhash_store, memhash_delete,
}

module _ (crc : Bytes → ℕ) where
  -- A new table is in order and has no key.
  pub memhash_new_lem :
      Valid crc memhash_new × ((k : Bytes) → memhash_fetch crc memhash_new k ≡ none)
  unfolding memhash_new
  memhash_new_lem = (
    record {
      log = 6;
      mask_is = refl;
      size = length-replicate {A = List Node} 64 [];
      chains = ChainsOk-replicate (bucket crc 63) 0 64;
      counts = refl;
    },
    λ k.
        memhash_fetch_lem crc memhash_new k
        ∙ unfold lookup memhash_new in ap (lookup k) (get_or-replicate 64 (bucket crc 63 k)),
  )

  module _ (h : MemHash) (v : Valid crc h) (k : Bytes) where
    abbrev at : Bytes → ℕ
    at = bucket crc h.mask

    abbrev chain : List Node
    chain = get_or h.arr (at k) []

    chain_ok : ChainOk at (at k) chain
    chain_ok = ChainsOk-at at (at k) h.arr v.chains

    -- A new node with nothing behind it, or in the place of a node.
    new_node_lem :
        (m : ℕ) (before next : List Node) (d : Bytes)
        → Without at k chain before next
        → m + length chain ≡ h.nodes + length (before ++ next)
        → Changed crc h
            (new_node crc (record h { nodes = m }) before next (record { key = k; value = d }))
            k
            (some d)
    unfolding new_node
    new_node_lem m before next d w count =
        let n : Node = record { key = k; value = d } in
        split_if crc h v k (some d) _ _ (
          replaced crc h v k (some d) (m + 1) (before ++ n ∷ next)
            (put-ChainOk at k chain before next w d)
            (omega (arith, count, length-append before (n ∷ next), length-append before next))
            (put-lookup at k chain before next w d))

    chain_fits : length chain ≤ h.nodes
    chain_fits = omega (arith, v.counts, total-set h.arr (at k) [] (Valid-Fits crc h v k))

    fetch_found :
        (n : Node) (before next : List Node)
        → Link k chain before (n ∷ next)
        → length chain ≡ suc (length (before ++ next))
    fetch_found n before next link =
        omega
          (arith, ap length link.joined, length-append before (n ∷ next), length-append before next)

    abbrev before : List Node
    before = (find_nodep crc h k).0

    store_cases :
        (dptr : Option Bytes) (dlen : ℕ) (rest : List Node)
        → Link k chain before rest
        → HasKey k rest
        → (find_nodep crc h k).1 ≡ rest
        → Changed crc h (memhash_store crc h k dptr dlen).0 k (some (payload dptr dlen))
    unfolding memhash_store
    store_cases dptr dlen [] link has e =
        rw (memhash_store, e)
          (new_node_lem h.nodes before [] (payload dptr dlen)
            (no_node-Without at k chain before chain_ok link)
            (omega (arith, ap length link.joined)))
    store_cases dptr dlen (n ∷ next) link has e =
        let w = node-Without at k chain before n next chain_ok link has in
        let count = fetch_found n before next link in
        let bytes = payload dptr dlen in
        elim (Bool-cases (ltb (length n.value) dlen)) [
          | inl f ↦
              rw (memhash_store, e, f)
                (new_node_lem (h.nodes - 1) before next bytes w (omega (arith, count, chain_fits)))
          | inr f ↦
              rw (memhash_store, e, f, streq-true n.key k has)
                (replaced crc h v k (some bytes) h.nodes
                  (before ++ record { key = k; value = bytes } ∷ next)
                  (put-ChainOk at k chain before next w bytes)
                  (omega (
                    arith,
                    count,
                    length-append before (record { key = k; value = bytes } ∷ next),
                    length-append before next,
                  ))
                  (put-lookup at k chain before next w bytes))
        ]

    found : Link k chain before (find_nodep crc h k).1 × HasKey k (find_nodep crc h k).1
    unfolding find_nodep
    found = (find_link-Link k chain, find_link-HasKey k chain)

    -- memhash_store leaves the table in order, gives the key its new value, and every other key keeps
    -- what it had.
    pub memhash_store-Changed :
        (dptr : Option Bytes) (dlen : ℕ)
        → Changed crc h (memhash_store crc h k dptr dlen).0 k (some (payload dptr dlen))
    memhash_store-Changed dptr dlen =
        store_cases dptr dlen (find_nodep crc h k).1 found.0 found.1 refl

    -- The outcome of memhash_insert on a key that the table has, and on one that it has not.
    abbrev pub Inserted : Option Bytes → Bytes → MemHash × Option Bytes → Type 0
    Inserted (some old) d out = out ≡ (h, none)
    Inserted none d out = (out.1 ≡ some d) × Changed crc h out.0 k (some d)

    insert_cases :
        (dptr : Option Bytes) (dlen : ℕ) (rest : List Node)
        → Link k chain before rest
        → HasKey k rest
        → (find_nodep crc h k).1 ≡ rest
        → Inserted (memhash_fetch crc h k) (payload dptr dlen) (memhash_insert crc h k dptr dlen)
    unfolding memhash_insert memhash_fetch
    insert_cases dptr dlen [] link has e =
        rw (memhash_insert, memhash_fetch, e)
          (
            refl,
            new_node_lem h.nodes before [] (payload dptr dlen)
                (no_node-Without at k chain before chain_ok link)
                (omega (arith, ap length link.joined)),
          )
    insert_cases dptr dlen (n ∷ next) link has e = rw (memhash_insert, memhash_fetch, e) refl

    -- memhash_insert leaves a table alone that has the key, and returns the null pointer; otherwise it
    -- adds the key with the new value, every other key keeping what it had.
    pub memhash_insert-Inserted :
        (dptr : Option Bytes) (dlen : ℕ)
        → Inserted (memhash_fetch crc h k) (payload dptr dlen) (memhash_insert crc h k dptr dlen)
    memhash_insert-Inserted dptr dlen =
        insert_cases dptr dlen (find_nodep crc h k).1 found.0 found.1 refl

    -- The outcome of memhash_delete on a key that the table has, and on one that it has not.
    abbrev pub Deleted : Option Bytes → MemHash × Bool → Type 0
    Deleted (some old) out = (out.1 ≡ true) × Changed crc h out.0 k none
    Deleted none out = out ≡ (h, false)

    delete_cases :
        (rest : List Node)
        → Link k chain before rest
        → HasKey k rest
        → (find_nodep crc h k).1 ≡ rest
        → Returns (memhash_delete crc h k) (Deleted (memhash_fetch crc h k))
    unfolding memhash_delete memhash_fetch
    delete_cases [] link has e = rw (memhash_delete, memhash_fetch, e) (_, refl, refl)
    delete_cases (n ∷ next) link has e =
        let w = node-Without at k chain before n next chain_ok link has in
        let count = fetch_found n before next link in
        let pos : ltb 0 h.nodes ≡ true = ltb-true 0 h.nodes (omega (arith, count, chain_fits)) in
        rw (memhash_delete, memhash_fetch, e, pos)
          (
            _,
            refl,
            (
              refl,
              replaced crc h v k none (h.nodes - 1) (before ++ next) w.chain_ok
                  (omega (arith, count, chain_fits)) (gone-lookup at k chain before next w),
            ),
          )

    -- memhash_delete returns, its assertion holds: a key that the table has is gone, every other key
    -- keeping what it had, and a table without the key is left alone.
    pub memhash_delete-Deleted : Returns (memhash_delete crc h k) (Deleted (memhash_fetch crc h k))
    memhash_delete-Deleted = delete_cases (find_nodep crc h k).1 found.0 found.1 refl
