-- ===== src/MemHash/Layout.antt =====
-- Where a node keeps its data.
use bksupport.Base.{
  ℕ, ◌+◌, ◌%◌, ◌≤◌, ◌<◌, ◌≡◌, ◌&&◌, inl, inr, arith, leb, ◌==◌, if◌then◌else◌, Bool-cases,
}
use bksupport.MemHash.{doff}

-- The alignment for data of a length: eight bytes where a pointer has eight, four, two, or none.
abbrev pub alignment : ℕ → ℕ → ℕ
alignment pointer dlen =
    if pointer == 8 && leb 8 dlen
    then 8
    else (if leb 4 dlen then 4 else (if leb 2 dlen then 2 else 1))

-- doff gives the first place behind the key that has the alignment of the data.
doff-aligned :
    (pointer klen dlen : ℕ)
    → (klen ≤ doff pointer klen dlen)
      × (doff pointer klen dlen < klen + alignment pointer dlen)
      × (doff pointer klen dlen % alignment pointer dlen ≡ 0)
unfolding doff
doff-aligned pointer klen dlen = elim (Bool-cases (pointer == 8 && leb 8 dlen)) [
  | inl e ↦ rw e (omega arith, omega arith, omega arith)
  | inr e ↦ rw e (ground arith, ground arith, ground arith)
]

-- The offset of the data is the first place behind the key that is a multiple of 8 for data of eight
-- bytes or more where a pointer has eight bytes, else of 4 for four bytes or more, else of 2 for two
-- bytes or more; and data that is not longer than the old one fits the same node at its own offset.
pub doff-fits :
    (pointer klen dlen dlen' : ℕ)
    → dlen' ≤ dlen
    → (klen ≤ doff pointer klen dlen')
      × (doff pointer klen dlen' < klen + alignment pointer dlen')
      × (doff pointer klen dlen' % alignment pointer dlen' ≡ 0)
      × (doff pointer klen dlen' + dlen' ≤ doff pointer klen dlen + dlen)
unfolding doff
doff-fits pointer klen dlen dlen' h =
    let (a, b, c) = doff-aligned pointer klen dlen' in
    (
      a,
      b,
      c,
      elim (Bool-cases (pointer == 8)) [
        | inl e ↦ rw e (ground arith)
        | inr e ↦ rw e (ground arith)
      ],
    )
