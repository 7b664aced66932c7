-- ===== src/MemHash/Split.antt =====
-- `memhash_split`, which moves its nodes into an array of twice the size.
use bksupport.Base.{
  get_or-set, ℕ, zero, suc, ◌+◌, ◌-◌, ◌*◌, ◌^◌, ◌%◌, bit_and, ◌<◌, ◌≡◌, ◌⊎◌, inl, inr, refl, sym,
  ap, ◌∙◌, subst, true, false, List, [], ◌∷◌, ◌++◌, none, some, arith, Bytes, length, length-set,
  length-replicate, get_or, replicate, ◌==◌, ==_iff, if◌then◌else◌, Bool-cases, Option-cases,
}
use bksupport.Base.Bits.{bit_and_mask, two_pow_pos}
use native.Mathlib.Nat.{mod-lt, pow-suc}
use bksupport.LineText.{streq}
use bksupport.MemHash.Chains.{streq_refl, streq-true, lookup}
use bksupport.MemHash.Buckets.{
  flat, total, total-set, ChainsOk, find, AllOnce, ChainsOk-at, ChainsOk-put, ChainsOk-replicate,
  lookup-flat, flat-AllOnce, lookup_same, lookup_other,
}
use bksupport.MemHash.{Node, MemHash, bucket, push_node, push_chain, push_all, memhash_split}

once_same :
    (k : Bytes) (n : Node) (c : List Node)
    → lookup n.key c ≡ none
    → streq n.key k ≡ true
    → lookup k c ≡ none
once_same k n c h e = rw (← streq-true n.key k e) h

module _ (crc : Bytes → ℕ) (mask : ℕ) where
  abbrev pub Fits : List (List Node) → Type 0
  Fits arr = (k : Bytes) → bucket crc mask k < length arr

  push_node-Fits : (n : Node) (arr : List (List Node)) → Fits arr → Fits (push_node crc mask n arr)
  unfolding push_node
  push_node-Fits n arr fits k = omega (
    arith,
    fits k,
    length-set arr (bucket crc mask n.key) (n ∷ get_or arr (bucket crc mask n.key) []),
  )

  push_node_lem :
      (n : Node) (arr : List (List Node)) (k : Bytes)
      → Fits arr
      → find (bucket crc mask) (push_node crc mask n arr) k
        ≡ (if streq n.key k then some n.value else find (bucket crc mask) arr k)
  unfolding push_node lookup
  push_node_lem n arr k fits =
      let b = bucket crc mask n.key in
      let got = get_or-set arr b (bucket crc mask k) (n ∷ get_or arr b []) [] (fits n.key) in
      elim (Bool-cases (b == bucket crc mask k)) [
        | inl e ↦ let e' : b ≡ bucket crc mask k = ground arith in rw (got, e) (rw e')
        | inr e ↦ elim (Bool-cases (streq n.key k)) [
          | inl f ↦
              cc (e, (==_iff b (bucket crc mask k)).1 (ap (bucket crc mask) (streq-true n.key k f)))
          | inr f ↦ rw (got, e, f)
        ]
      ]

  push_node-ChainsOk :
      (n : Node) (arr : List (List Node))
      → ChainsOk (bucket crc mask) 0 arr
      → find (bucket crc mask) arr n.key ≡ none
      → ChainsOk (bucket crc mask) 0 (push_node crc mask n arr)
  unfolding push_node
  push_node-ChainsOk n arr ok new =
      let b = bucket crc mask n.key in
      ChainsOk-put (bucket crc mask) b arr (n ∷ get_or arr b []) ok
        (refl, new, ChainsOk-at (bucket crc mask) b arr ok)

  push_node-total :
      (n : Node) (arr : List (List Node))
      → Fits arr
      → total (push_node crc mask n arr) ≡ suc (total arr)
  unfolding push_node
  push_node-total n arr fits =
      let b = bucket crc mask n.key in
      omega (arith, total-set arr b (n ∷ get_or arr b []) (fits n.key))

  push_chain-append :
      (c d : List Node) (arr : List (List Node))
      → push_chain crc mask (c ++ d) arr ≡ push_chain crc mask d (push_chain crc mask c arr)
  unfolding push_chain
  push_chain-append [] d arr = refl
  push_chain-append (n ∷ c) d arr = push_chain-append c d (push_node crc mask n arr)

  push_all-flat :
      (cs arr : List (List Node)) → push_all crc mask cs arr ≡ push_chain crc mask (flat cs) arr
  unfolding push_all
  push_all-flat [] arr = unfold push_chain in refl
  push_all-flat (c ∷ cs) arr =
      push_all-flat cs (push_chain crc mask c arr) ∙ sym (push_chain-append c (flat cs) arr)

  -- The array after the nodes went in.
  record Pushed (ns : List Node) (arr new : List (List Node)) : Type 0 where
    chains : ChainsOk (bucket crc mask) 0 new
    finds :
        (k : Bytes)
        → lookup k ns ≡ none
        → find (bucket crc mask) new k ≡ find (bucket crc mask) arr k
    gains : (k v : Bytes) → lookup k ns ≡ some v → find (bucket crc mask) new k ≡ some v
    size : length new ≡ length arr
    counts : total new ≡ total arr + length ns

  module _ (n : Node) (arr : List (List Node)) (fits : Fits arr) (k : Bytes) where
    find_same :
        streq n.key k ≡ true → find (bucket crc mask) (push_node crc mask n arr) k ≡ some n.value
    find_same e = rw e at (push_node_lem n arr k fits)

    find_other :
        streq n.key k ≡ false
        → find (bucket crc mask) (push_node crc mask n arr) k ≡ find (bucket crc mask) arr k
    find_other e = rw e at (push_node_lem n arr k fits)

    new_after :
        (ns : List Node)
        → lookup n.key ns ≡ none
        → (find (bucket crc mask) arr k ≡ none) ⊎ (lookup k (n ∷ ns) ≡ none)
        → (find (bucket crc mask) (push_node crc mask n arr) k ≡ none) ⊎ (lookup k ns ≡ none)
    new_after ns once new = elim (Bool-cases (streq n.key k)) [
      | inl e ↦ inr (once_same k n ns once e)
      | inr e ↦ elim new [
        | inl a ↦ inl (find_other e ∙ a)
        | inr b ↦ inr (sym (lookup_other k n ns e) ∙ b)
      ]
    ]

    module _ (ns : List Node) (new : List (List Node))
        (rest : Pushed ns (push_node crc mask n arr) new) where
      finds_after :
          lookup k (n ∷ ns) ≡ none → find (bucket crc mask) new k ≡ find (bucket crc mask) arr k
      finds_after h = elim (Bool-cases (streq n.key k)) [
        | inl e ↦ cc (h, lookup_same k n ns e)
        | inr e ↦ rest.finds k (sym (lookup_other k n ns e) ∙ h) ∙ find_other e
      ]

      gains_after :
          (v : Bytes)
          → lookup n.key ns ≡ none
          → lookup k (n ∷ ns) ≡ some v
          → find (bucket crc mask) new k ≡ some v
      gains_after v once h = elim (Bool-cases (streq n.key k)) [
        | inl e ↦
            rest.finds k (once_same k n ns once e) ∙ find_same e ∙ sym (lookup_same k n ns e) ∙ h
        | inr e ↦ rest.gains k v (sym (lookup_other k n ns e) ∙ h)
      ]

  push_chain-Pushed :
      (ns : List Node) (arr : List (List Node))
      → Fits arr
      → ChainsOk (bucket crc mask) 0 arr
      → AllOnce ns
      → ((k : Bytes) → (find (bucket crc mask) arr k ≡ none) ⊎ (lookup k ns ≡ none))
      → Pushed ns arr (push_chain crc mask ns arr)
  unfolding push_chain
  push_chain-Pushed [] arr fits ok once new = record {
    chains = ok;
    finds = λ k h. refl;
    gains = λ k v h. unfold lookup in cc h;
    size = refl;
    counts = omega arith;
  }
  push_chain-Pushed (n ∷ ns) arr fits ok once new =
      let arr' = push_node crc mask n arr in
      let absent : find (bucket crc mask) arr n.key ≡ none = elim (new n.key) [
        | inl a ↦ a
        | inr b ↦ cc (b, lookup_same n.key n ns (streq_refl n.key))
      ] in
      let rest =
        push_chain-Pushed ns arr' (push_node-Fits n arr fits) (push_node-ChainsOk n arr ok absent)
          once.1 (λ k. new_after n arr fits k ns once.0 (new k)) in
      record {
        chains = rest.chains;
        finds = λ k h. finds_after n arr fits k ns _ rest h;
        gains = λ k v h. gains_after n arr fits k ns _ rest v once.0 h;
        size =
            rest.size
            ∙ unfold push_node in
              length-set arr (bucket crc mask n.key) (n ∷ get_or arr (bucket crc mask n.key) []);
        counts = omega (arith, rest.counts, push_node-total n arr fits);
      }

pub get_or-replicate : (n i : ℕ) → get_or (replicate {A = List Node} n []) i [] ≡ []
get_or-replicate zero i = refl
get_or-replicate (suc n) zero = refl
get_or-replicate (suc n) (suc i) = get_or-replicate n i

total-replicate : (n : ℕ) → total (replicate n []) ≡ 0
total-replicate zero = refl
total-replicate (suc n) = total-replicate n

-- The mask is one below the size of the array, a power of two; each chain is in order, and
-- `nodes` counts the nodes.
pub record Valid (crc : Bytes → ℕ) (h : MemHash) : Type 0 where
  pub log : ℕ
  pub mask_is : h.mask ≡ 2 ^ log - 1
  pub size : length h.arr ≡ 2 ^ log
  pub chains : ChainsOk (bucket crc h.mask) 0 h.arr
  pub counts : h.nodes ≡ total h.arr

module _ (crc : Bytes → ℕ) where
  bucket_low : (mask log : ℕ) (k : Bytes) → mask ≡ 2 ^ log - 1 → bucket crc mask k < 2 ^ log
  unfolding bucket
  bucket_low mask log k e =
      let b : bit_and (crc k) mask ≡ crc k % 2 ^ log = rw e (bit_and_mask log (crc k)) in
      rw b (mod-lt (crc k) (two_pow_pos log))

  pub Valid-Fits : (h : MemHash) → Valid crc h → Fits crc h.mask h.arr
  Valid-Fits h v k = omega (arith, bucket_low h.mask v.log k v.mask_is, v.size)

  module _ (h : MemHash) (v : Valid crc h) where
    newmask_is : (h.mask + 1) * 2 - 1 ≡ 2 ^ suc v.log - 1
    newmask_is = omega (arith, v.mask_is, two_pow_pos v.log, pow-suc 2 v.log)

    newsize : (h.mask + 1) * 2 - 1 + 1 ≡ 2 ^ suc v.log
    newsize = omega (arith, newmask_is, two_pow_pos (suc v.log))

    abbrev empty_arr : List (List Node)
    empty_arr = replicate ((h.mask + 1) * 2 - 1 + 1) []

    empty_find : (k : Bytes) → find (bucket crc ((h.mask + 1) * 2 - 1)) empty_arr k ≡ none
    empty_find k =
        let e = get_or-replicate ((h.mask + 1) * 2 - 1 + 1) (bucket crc ((h.mask + 1) * 2 - 1) k) in
        ap (lookup k) e ∙ unfold lookup in refl

    moved :
        Pushed crc
          ((h.mask + 1) * 2 - 1)
          (flat h.arr)
          empty_arr
          (push_all crc ((h.mask + 1) * 2 - 1) h.arr empty_arr)
    moved =
        let m = (h.mask + 1) * 2 - 1 in
        let low : Fits crc m empty_arr = λ k. omega (
          arith,
          bucket_low m (suc v.log) k newmask_is,
          newsize,
          length-replicate {A = List Node} (m + 1) [],
        ) in
        subst (Pushed crc m (flat h.arr) empty_arr) (sym (push_all-flat crc m h.arr empty_arr)) (
          push_chain-Pushed crc m (flat h.arr) empty_arr low
            (ChainsOk-replicate (bucket crc m) 0 (m + 1))
            (flat-AllOnce (bucket crc h.mask) 0 h.arr v.chains) (λ k. inl (empty_find k)))

    pub memhash_split-Valid : Valid crc (memhash_split crc h)
    unfolding memhash_split
    memhash_split-Valid = record {
      log = suc v.log;
      mask_is = newmask_is;
      size = moved.size ∙ length-replicate ((h.mask + 1) * 2 - 1 + 1) [] ∙ newsize;
      chains = moved.chains;
      counts = omega (arith, moved.counts, total-replicate ((h.mask + 1) * 2 - 1 + 1), v.counts);
    }

    -- The split leaves what the table says of each key.
    pub memhash_split-find :
        (k : Bytes)
        → find (bucket crc (memhash_split crc h).mask) (memhash_split crc h).arr k
          ≡ find (bucket crc h.mask) h.arr k
    unfolding memhash_split
    memhash_split-find k =
        let same =
          lookup-flat (bucket crc h.mask) 0 (bucket crc h.mask k) h.arr k v.chains (omega arith) in
        elim (Option-cases (lookup k (flat h.arr))) [
          | inl e ↦ moved.finds k e ∙ empty_find k ∙ sym e ∙ same
          | inr (d, e) ↦ moved.gains k d e ∙ sym e ∙ same
        ]
