-- ===== src/MemHash/Chains.antt =====
-- The chains of the buckets, and what a chain says of a key.
use bksupport.Base.{
  ℕ, ◌≡◌, inl, inr, refl, sym, ap, ◌∙◌, true, false, List, [], ◌∷◌, ◌++◌, Option, none, some, arith,
  Bytes, ◌==◌, ==_iff, if◌then◌else◌, Bool-cases,
}
use bksupport.LineText.{streq}
use bksupport.MemHash.{Node, find_link}

pub streq_refl : (s : Bytes) → streq s s ≡ true
unfolding streq
streq_refl [] = refl
streq_refl (c ∷ s) = let e : (c == c) ≡ true = ground arith in rw (e, streq_refl s) refl

pub streq-true : (s t : Bytes) → streq s t ≡ true → s ≡ t
unfolding streq
streq-true [] [] h = refl
streq-true [] (d ∷ t) h = cc
streq-true (c ∷ s) [] h = cc
streq-true (c ∷ s) (d ∷ t) h = elim (Bool-cases (c == d)) [
  | inl e ↦ let e' : c ≡ d = ground arith in cc (e', streq-true s t (rw e at h))
  | inr e ↦ cc (rw e at h)
]

-- The data of the first node with this key.
unfoldable pub lookup : Bytes → List Node → Option Bytes
lookup k [] = none
lookup k (n ∷ c) = if streq n.key k then some n.value else lookup k c

pub or_else : Option Bytes → Option Bytes → Option Bytes
or_else none b = b
or_else (some a) b = some a

module _ where
  pub lookup-append :
      (k : Bytes) (b c : List Node) → lookup k b ≡ none → lookup k (b ++ c) ≡ lookup k c
  unfolding lookup
  lookup-append k [] c h = refl
  lookup-append k (n ∷ b) c h = elim (Bool-cases (streq n.key k)) [
    | inl e ↦ cc (rw e at h)
    | inr e ↦ rw e (lookup-append k b c (rw e at h))
  ]

  -- Taking a node with another key out of the chain.
  pub lookup-skip :
      (k : Bytes) (b c : List Node) (n : Node)
      → streq n.key k ≡ false
      → lookup k (b ++ n ∷ c) ≡ lookup k (b ++ c)
  unfolding lookup
  lookup-skip k [] c n e = rw e
  lookup-skip k (m ∷ b) c n e = elim (Bool-cases (streq m.key k)) [
    | inl f ↦ rw f
    | inr f ↦ rw f (lookup-skip k b c n e)
  ]

  pub lookup-head :
      (k : Bytes) (b c : List Node) (n : Node)
      → lookup k b ≡ none
      → streq n.key k ≡ true
      → lookup k (b ++ n ∷ c) ≡ some n.value
  lookup-head k b c n h e = lookup-append k b (n ∷ c) h ∙ unfold lookup in rw e

-- What the search loop finds.
pub record Link (k : Bytes) (chain before rest : List Node) : Type 0 where
  pub joined : before ++ rest ≡ chain
  pub absent : lookup k before ≡ none

pub find_link-Link : (k : Bytes) (c : List Node) → Link k c (find_link k c).0 (find_link k c).1
unfolding find_link lookup
find_link-Link k [] = record { joined = refl; absent = refl }
find_link-Link k (n ∷ c) = elim (Bool-cases (streq n.key k)) [
  | inl e ↦ rw e (record { joined = refl; absent = refl })
  | inr e ↦
      let l = find_link-Link k c in
      rw e (record { joined = ap (λ r. n ∷ r) l.joined; absent = rw e l.absent })
]

abbrev pub HasKey : Bytes → List Node → Type 0
HasKey k [] = Unit
HasKey k (n ∷ c) = streq n.key k ≡ true

pub find_link-HasKey : (k : Bytes) (c : List Node) → HasKey k (find_link k c).1
unfolding find_link
find_link-HasKey k [] = tt
find_link-HasKey k (n ∷ c) = elim (Bool-cases (streq n.key k)) [
  | inl e ↦ rw e e
  | inr e ↦ rw e (find_link-HasKey k c)
]

-- Each node is in its own bucket, and no key stands in the chain twice.
abbrev pub ChainOk : (Bytes → ℕ) → ℕ → List Node → Type 0
ChainOk at i [] = Unit
ChainOk at i (n ∷ c) = (at n.key ≡ i) × (lookup n.key c ≡ none) × ChainOk at i c

module _ (at : Bytes → ℕ) (i : ℕ) where
  pub ChainOk-elsewhere :
      (k : Bytes) (c : List Node) → ChainOk at i c → (at k == i) ≡ false → lookup k c ≡ none
  unfolding lookup
  ChainOk-elsewhere k [] ok h = refl
  ChainOk-elsewhere k (n ∷ c) ok h = elim (Bool-cases (streq n.key k)) [
    | inl e ↦ let f : at k ≡ i = cc (streq-true n.key k e, ok.0) in cc (h, (==_iff (at k) i).1 f)
    | inr e ↦ rw e (ChainOk-elsewhere k c ok.2 h)
  ]

  pub ChainOk-put :
      (b c : List Node) (n : Node)
      → at n.key ≡ i
      → lookup n.key (b ++ c) ≡ none
      → ChainOk at i (b ++ c)
      → ChainOk at i (b ++ n ∷ c)
  unfolding lookup
  ChainOk-put [] c n e h ok = (e, h, ok)
  ChainOk-put (m ∷ b) c n e h ok = elim (Bool-cases (streq m.key n.key)) [
    | inl f ↦ cc (rw f at h)
    | inr f ↦
        let g : streq n.key m.key ≡ false = elim (Bool-cases (streq n.key m.key)) [
          | inl g ↦ cc (f, g, streq-true n.key m.key g, streq_refl m.key)
          | inr g ↦ g
        ] in
        (ok.0, lookup-skip m.key b c n g ∙ ok.1, ChainOk-put b c n e (rw f at h) ok.2)
  ]

  absent_after :
      (k : Bytes) (b c : List Node) (n : Node)
      → streq n.key k ≡ true
      → lookup k (b ++ n ∷ c) ≡ none
      → lookup k (b ++ c) ≡ none
  unfolding lookup
  absent_after k [] c n g h = cc (rw g at h)
  absent_after k (m ∷ b) c n g h = elim (Bool-cases (streq m.key k)) [
    | inl f ↦ cc (rw f at h)
    | inr f ↦ rw f (absent_after k b c n g (rw f at h))
  ]

  pub ChainOk-take :
      (b c : List Node) (n : Node) → ChainOk at i (b ++ n ∷ c) → ChainOk at i (b ++ c)
  unfolding lookup
  ChainOk-take [] c n ok = ok.2
  ChainOk-take (m ∷ b) c n ok = elim (Bool-cases (streq n.key m.key)) [
    | inl g ↦ (ok.0, absent_after m.key b c n g ok.1, ChainOk-take b c n ok.2)
    | inr g ↦ (ok.0, sym (lookup-skip m.key b c n g) ∙ ok.1, ChainOk-take b c n ok.2)
  ]

  pub ChainOk-only :
      (k : Bytes) (b c : List Node) (n : Node)
      → ChainOk at i (b ++ n ∷ c)
      → streq n.key k ≡ true
      → lookup k b ≡ none
      → lookup k (b ++ c) ≡ none
  unfolding lookup
  ChainOk-only k [] c n ok e h = rw (← streq-true n.key k e) ok.1
  ChainOk-only k (m ∷ b) c n ok e h = elim (Bool-cases (streq m.key k)) [
    | inl f ↦ cc (rw f at h)
    | inr f ↦ rw f (ChainOk-only k b c n ok.2 e (rw f at h))
  ]
