-- ===== src/MemHash/Buckets.antt =====
-- The array of chains: what it says of a key, and how one of its chains is replaced.
use bksupport.Base.{
  ℕ, zero, suc, ◌+◌, ◌<◌, ◌≡◌, inl, inr, refl, sym, ◌∙◌, subst, true, false, List, [], ◌∷◌, ◌++◌,
  Option, none, some, arith, Bytes, length, length-append, get_or, set, replicate, ◌==◌, Bool-cases,
  Option-cases,
}
use bksupport.LineText.{streq}
use bksupport.MemHash.Chains.{lookup, lookup-append, ChainOk, ChainOk-elsewhere}
use bksupport.MemHash.{Node}

abbrev pub flat : List (List Node) → List Node
flat [] = []
flat (c ∷ cs) = c ++ flat cs

abbrev pub total : List (List Node) → ℕ
total cs = length (flat cs)

pub total-set :
    (cs : List (List Node)) (j : ℕ) (c : List Node)
    → j < length cs
    → total (set cs j c) + length (get_or cs j []) ≡ total cs + length c
total-set [] j c h = absurd (omega arith)
total-set (b ∷ cs) zero c h = omega (arith, length-append b (flat cs), length-append c (flat cs))
total-set (b ∷ cs) (suc j) c h = omega (
  arith,
  total-set cs j c (omega arith),
  length-append b (flat cs),
  length-append b (flat (set cs j c)),
)

-- The chains of the buckets from number `i` on.
abbrev pub ChainsOk : (Bytes → ℕ) → ℕ → List (List Node) → Type 0
ChainsOk at i [] = Unit
ChainsOk at i (c ∷ cs) = ChainOk at i c × ChainsOk at (suc i) cs

-- What the table says of a key.
abbrev pub find : (Bytes → ℕ) → List (List Node) → Bytes → Option Bytes
find at arr k = lookup k (get_or arr (at k) [])

abbrev pub AllOnce : List Node → Type 0
AllOnce [] = Unit
AllOnce (n ∷ c) = (lookup n.key c ≡ none) × AllOnce c

lookup-append_some :
    (k v : Bytes) (b c : List Node) → lookup k b ≡ some v → lookup k (b ++ c) ≡ some v
unfolding lookup
lookup-append_some k v [] c h = cc h
lookup-append_some k v (n ∷ b) c h = elim (Bool-cases (streq n.key k)) [
  | inl e ↦ rw e (rw e at h)
  | inr e ↦ rw e (lookup-append_some k v b c (rw e at h))
]

module _ (at : Bytes → ℕ) where
  pub ChainsOk-get :
      (i j : ℕ) (cs : List (List Node)) → ChainsOk at i cs → ChainOk at (i + j) (get_or cs j [])
  ChainsOk-get i j [] ok = tt
  ChainsOk-get i zero (c ∷ cs) ok = let e : i + 0 ≡ i = omega arith in rw e ok.0
  ChainsOk-get i (suc j) (c ∷ cs) ok =
      let e : i + suc j ≡ suc i + j = omega arith in rw e (ChainsOk-get (suc i) j cs ok.1)

  pub ChainsOk-set :
      (i j : ℕ) (cs : List (List Node)) (c : List Node)
      → ChainsOk at i cs
      → ChainOk at (i + j) c
      → ChainsOk at i (set cs j c)
  ChainsOk-set i j [] c ok new = tt
  ChainsOk-set i zero (b ∷ cs) c ok new = let e : i + 0 ≡ i = omega arith in (rw e at new, ok.1)
  ChainsOk-set i (suc j) (b ∷ cs) c ok new =
      let e : i + suc j ≡ suc i + j = omega arith in
      (ok.0, ChainsOk-set (suc i) j cs c ok.1 (rw e at new))

  pub ChainsOk-at :
      (j : ℕ) (cs : List (List Node)) → ChainsOk at 0 cs → ChainOk at j (get_or cs j [])
  ChainsOk-at j cs ok =
      let z : 0 + j ≡ j = omega arith in
      subst (λ r. ChainOk at r (get_or cs j [])) z (ChainsOk-get 0 j cs ok)

  pub ChainsOk-put :
      (j : ℕ) (cs : List (List Node)) (c : List Node)
      → ChainsOk at 0 cs
      → ChainOk at j c
      → ChainsOk at 0 (set cs j c)
  ChainsOk-put j cs c ok new =
      let z : j ≡ 0 + j = omega arith in
      ChainsOk-set 0 j cs c ok (subst (λ r. ChainOk at r c) z new)

  pub ChainsOk-replicate : (i n : ℕ) → ChainsOk at i (replicate n [])
  ChainsOk-replicate i zero = tt
  ChainsOk-replicate i (suc n) = (tt, ChainsOk-replicate (suc i) n)

  lookup-flat_before :
      (i : ℕ) (cs : List (List Node)) (k : Bytes)
      → ChainsOk at i cs
      → at k < i
      → lookup k (flat cs) ≡ none
  lookup-flat_before i [] k ok h = unfold lookup in refl
  lookup-flat_before i (c ∷ cs) k ok h =
      let away : (at k == i) ≡ false = ground arith in
      lookup-append k c (flat cs) (ChainOk-elsewhere at i k c ok.0 away)
      ∙ lookup-flat_before (suc i) cs k ok.1 (omega arith)

  pub lookup-flat :
      (i j : ℕ) (cs : List (List Node)) (k : Bytes)
      → ChainsOk at i cs
      → at k ≡ i + j
      → lookup k (flat cs) ≡ lookup k (get_or cs j [])
  lookup-flat i j [] k ok h = refl
  lookup-flat i zero (c ∷ cs) k ok h = elim (Option-cases (lookup k c)) [
    | inl e ↦
        lookup-append k c (flat cs) e ∙ lookup-flat_before (suc i) cs k ok.1 (omega arith) ∙ sym e
    | inr (v, e) ↦ lookup-append_some k v c (flat cs) e ∙ sym e
  ]
  lookup-flat i (suc j) (c ∷ cs) k ok h =
      let away : (at k == i) ≡ false = ground arith in
      lookup-append k c (flat cs) (ChainOk-elsewhere at i k c ok.0 away)
      ∙ lookup-flat (suc i) j cs k ok.1 (omega arith)

  AllOnce-append :
      (i : ℕ) (c r : List Node)
      → ChainOk at i c
      → ((k : Bytes) → at k ≡ i → lookup k r ≡ none)
      → AllOnce r
      → AllOnce (c ++ r)
  AllOnce-append i [] r ok away once = once
  AllOnce-append i (n ∷ c) r ok away once =
      (lookup-append n.key c r ok.1 ∙ away n.key ok.0, AllOnce-append i c r ok.2 away once)

  pub flat-AllOnce : (i : ℕ) (cs : List (List Node)) → ChainsOk at i cs → AllOnce (flat cs)
  flat-AllOnce i [] ok = tt
  flat-AllOnce i (c ∷ cs) ok =
      AllOnce-append i c (flat cs) ok.0 (λ k e. lookup-flat_before (suc i) cs k ok.1 (omega arith))
        (flat-AllOnce (suc i) cs ok.1)

pub lookup_same :
    (k : Bytes) (n : Node) (c : List Node) → streq n.key k ≡ true → lookup k (n ∷ c) ≡ some n.value
unfolding lookup
lookup_same k n c e = rw e

pub lookup_other :
    (k : Bytes) (n : Node) (c : List Node) → streq n.key k ≡ false → lookup k (n ∷ c) ≡ lookup k c
unfolding lookup
lookup_other k n c e = rw e
