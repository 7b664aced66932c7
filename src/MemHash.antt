-- ===== src/MemHash.antt =====
-- hash/memhash.c: a hash table with a chain of nodes for each bucket. `crc` stands for `crc32c(0, ...)`
-- of utils/crc32c.c. A node holds its key and its data; a pointer to a link of a chain is the chain
-- before it and the chain from it on. `hdr`, the copy of the last key and value, is only modelled by
-- what the functions return.
pub mod Chains
pub mod Buckets
pub mod Split
pub mod Change
pub mod Maps
pub mod Layout
pub mod Walk
use bksupport.Base.{
  ℕ, zero, suc, ◌+◌, ◌-◌, ◌*◌, ◌<◌, bit_and, Bool, true, false, not, ◌&&◌, List, [], ◌∷◌, ◌++◌,
  Option, none, some, Bytes, length, get_or, set, take, drop, replicate, ◌%◌, ltb, leb, ◌==◌,
  if◌then◌else◌, Run, ok, fault, assert_failed,
}
use bksupport.LineText.{streq}

pub record Node : Type 0 where
  pub key : Bytes
  pub value : Bytes

-- `lastidx` counts from one, so that 0 is the -1 of the source; `lastnode` is the chain from that
-- node on.
pub record MemHash : Type 0 where
  pub nodes : ℕ
  pub arr : List (List Node)
  pub mask : ℕ
  pub lastidx : ℕ
  pub lastnode : List Node

-- `pointer` stands for sizeof(void*)
unfoldable pub doff : ℕ → ℕ → ℕ → ℕ
doff pointer klen dlen =
    if pointer == 8 && leb 8 dlen
    then (klen + 7) - (klen + 7) % 8
    else if leb 4 dlen
    then (klen + 3) - (klen + 3) % 4
    else if leb 2 dlen
    then (klen + 1) - (klen + 1) % 2
    else klen

unfoldable pub memhash_new : MemHash
memhash_new = record { nodes = 0; arr = replicate 64 []; mask = 63; lastidx = 0; lastnode = [] }

-- the loop of find_nodep: the chain before the node with this key, and the chain from it on
unfoldable pub find_link : Bytes → List Node → List Node × List Node
find_link k [] = ([], [])
find_link k (n ∷ next) =
    let rest = find_link k next in if streq n.key k then ([], n ∷ next) else (n ∷ rest.0, rest.1)

-- `memcpy` of `dlen` bytes, or `memset` if there is no data
unfoldable pub payload : Option Bytes → ℕ → Bytes
payload none dlen = replicate dlen 0
payload (some d) dlen = take dlen d

-- the result of memhash_next, from the chain or the buckets that are left: the index of the bucket
-- found, counted from one, and the chain
unfoldable pub next_bucket : ℕ → List (List Node) → Option (ℕ × List Node)
next_bucket i [] = none
next_bucket i ([] ∷ cs) = next_bucket (suc i) cs
next_bucket i ((n ∷ c) ∷ cs) = some (suc i, n ∷ c)

unfoldable pub take_bucket : MemHash → Option (ℕ × List Node) → MemHash × Option Node
take_bucket h none = (record h { lastnode = [] }, none)
take_bucket h (some (i, [])) = (record h { lastnode = [] }, none)
take_bucket h (some (i, n ∷ c)) = (record h { lastidx = i; lastnode = n ∷ c }, some n)

unfoldable pub memhash_next : MemHash → MemHash × Option Node
unfolding next_bucket take_bucket
memhash_next h =
    let search = take_bucket h (next_bucket h.lastidx (drop h.lastidx h.arr)) in
    elim h.lastnode [
      | [] ↦ search
      | _ ∷ c ↦ elim c [ [] ↦ search | n ∷ c' ↦ (record h { lastnode = n ∷ c' }, some n) ]
    ]

unfoldable pub memhash_first : MemHash → MemHash × Option Node
unfolding memhash_next
memhash_first h = memhash_next (record h { lastidx = 0; lastnode = [] })

unfoldable pub memhash_count : MemHash → ℕ
memhash_count h = h.nodes

module _ (crc : Bytes → ℕ) where
  unfoldable pub bucket : ℕ → Bytes → ℕ
  bucket mask k = bit_and (crc k) mask

  -- `t->next = *p; *p = t`
  unfoldable pub push_node : ℕ → Node → List (List Node) → List (List Node)
  unfolding bucket
  push_node mask n arr = let i = bucket mask n.key in set arr i (n ∷ get_or arr i [])

  unfoldable pub push_chain : ℕ → List Node → List (List Node) → List (List Node)
  unfolding push_node
  push_chain mask [] arr = arr
  push_chain mask (n ∷ c) arr = push_chain mask c (push_node mask n arr)

  unfoldable pub push_all : ℕ → List (List Node) → List (List Node) → List (List Node)
  unfolding push_chain
  push_all mask [] arr = arr
  push_all mask (c ∷ cs) arr = push_all mask cs (push_chain mask c arr)

  unfoldable pub memhash_split : MemHash → MemHash
  unfolding push_all
  memhash_split h =
      let newmask = (h.mask + 1) * 2 - 1 in
      record h { arr = push_all newmask h.arr (replicate (newmask + 1) []); mask = newmask }

  unfoldable pub find_nodep : MemHash → Bytes → List Node × List Node
  unfolding bucket find_link
  find_nodep h k = find_link k (get_or h.arr (bucket h.mask k) [])

  unfoldable pub memhash_fetch : MemHash → Bytes → Option Bytes
  unfolding find_nodep
  memhash_fetch h k = elim (find_nodep h k).1 [ [] ↦ none | n ∷ next ↦ some n.value ]

  -- the node goes in at the link, the chain `before` in front of it and `next` behind it
  unfoldable pub new_node : MemHash → List Node → List Node → Node → MemHash
  unfolding bucket memhash_split
  new_node h before next n =
      let h' = record h {
        nodes = h.nodes + 1;
        arr = set h.arr (bucket h.mask n.key) (before ++ n ∷ next);
      } in
      if leb h'.mask h'.nodes then memhash_split h' else h'

  -- the new data, or the null pointer
  unfoldable pub memhash_insert : MemHash → Bytes → Option Bytes → ℕ → MemHash × Option Bytes
  unfolding find_nodep new_node payload
  memhash_insert h k dptr dlen =
      let before = (find_nodep h k).0 in
      elim (find_nodep h k).1 [
        | n ∷ next ↦ (h, none)
        | [] ↦ (
          new_node h before [] (record { key = k; value = payload dptr dlen }),
          some (payload dptr dlen),
        )
      ]

  unfoldable pub memhash_store : MemHash → Bytes → Option Bytes → ℕ → MemHash × Bytes
  unfolding find_nodep new_node payload
  memhash_store h k dptr dlen =
      let before = (find_nodep h k).0 in
      let bytes = payload dptr dlen in
      let new : Node = record { key = k; value = bytes } in
      elim (find_nodep h k).1 [
        | n ∷ next ↦ (
          if ltb (length n.value) dlen
              then new_node (record h { nodes = h.nodes - 1 }) before next new
              else record h {
                arr = set h.arr (bucket h.mask k) (before ++ record n { value = bytes } ∷ next);
              },
          bytes,
        )
        | [] ↦ (new_node h before [] new, bytes)
      ]

  -- whether it returns 0
  unfoldable pub memhash_delete : MemHash → Bytes → Run (MemHash × Bool)
  unfolding find_nodep
  memhash_delete h k =
      let before = (find_nodep h k).0 in
      elim (find_nodep h k).1 [
        | [] ↦ ok (h, false)
        | n ∷ next ↦
            if ltb 0 h.nodes
            then ok (
              record h { nodes = h.nodes - 1; arr = set h.arr (bucket h.mask k) (before ++ next) },
              true,
            )
            else fault assert_failed
      ]
