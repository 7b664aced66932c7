-- ===== src/U32Hash/Assoc.antt =====
-- The table as a list of pairs, whatever the hash function: what it says of a key, and how many of its
-- slots are in use.
use bksupport.Base.{
  ℕ, zero, suc, ◌<◌, ◌≡◌, ◌≢◌, refl, true, false, List, [], ◌∷◌, Option, none, some, arith, length,
  set, replicate, ◌==◌, if◌then◌else◌, Bool-cases, inl, inr,
}
use bksupport.U32Hash.{KeyVal, empty_slot, key_at, val_at}

abbrev pub assoc : List KeyVal → ℕ → Option ℕ
assoc [] k = none
assoc (s ∷ t) k = if s.key == k then some s.val else assoc t k

abbrev pub used : List KeyVal → ℕ
used [] = 0
used (s ∷ t) = if s.key == 0 then used t else suc (used t)

pub assoc-absent : (t : List KeyVal) (k m : ℕ) → assoc t k ≡ none → m < length t → key_at t m ≢ k
assoc-absent [] k m h le = λ e. absurd (omega arith)
assoc-absent (s ∷ t) k zero h le = ground arith
assoc-absent (s ∷ t) k (suc m) h le = elim (Bool-cases (s.key == k)) [
  | inl e ↦ cc (rw e at h)
  | inr e ↦ assoc-absent t k m (rw e at h) (omega arith)
]

pub assoc-found :
    (t : List KeyVal) (k v : ℕ)
    → assoc t k ≡ some v
    → (m : ℕ) × (m < length t) × (key_at t m ≡ k) × (val_at t m ≡ v)
assoc-found [] k v h = cc h
assoc-found (s ∷ t) k v h = elim (Bool-cases (s.key == k)) [
  | inl e ↦ (0, omega arith, ground arith, cc (rw e at h))
  | inr e ↦ let (m, le, a, b) = assoc-found t k v (rw e at h) in (suc m, omega arith, a, b)
]

pub free_slot : (t : List KeyVal) → used t < length t → (e : ℕ) × (e < length t) × (key_at t e ≡ 0)
free_slot [] h = absurd (omega arith)
free_slot (s ∷ t) h = elim (Bool-cases (s.key == 0)) [
  | inl e ↦ (0, omega arith, ground arith)
  | inr e ↦ let (m, le, a) = free_slot t (ground arith) in (suc m, omega arith, a)
]

-- A new key in an empty slot.
module _ (s : KeyVal) (new : s.key ≢ 0) where
  pub used-put :
      (t : List KeyVal) (w : ℕ) → w < length t → key_at t w ≡ 0 → used (set t w s) ≡ suc (used t)
  used-put [] w h e = absurd (omega arith)
  used-put (x ∷ t) zero h e = ground arith
  used-put (x ∷ t) (suc w) h e = ground (arith, used-put t w (omega arith) e)

  pub assoc-put :
      (t : List KeyVal) (w k : ℕ)
      → w < length t
      → key_at t w ≡ 0
      → assoc t s.key ≡ none
      → k ≢ 0
      → assoc (set t w s) k ≡ (if s.key == k then some s.val else assoc t k)
  assoc-put [] w k h e f g = absurd (omega arith)
  assoc-put (x ∷ t) zero k h e f g = let away : (x.key == k) ≡ false = ground arith in rw away refl
  assoc-put (x ∷ t) (suc w) k h e f g = elim (Bool-cases (x.key == k)) [
    | inl a ↦ elim (Bool-cases (s.key == k)) [
      | inl b ↦ let c : (x.key == s.key) ≡ true = ground arith in cc (rw c at f)
      | inr b ↦ rw (a, b) refl
    ]
    | inr a ↦ elim (Bool-cases (x.key == s.key)) [
      | inl c ↦ cc (rw c at f)
      | inr c ↦ rw a (assoc-put t w k (omega arith) e (rw c at f) g)
    ]
  ]

-- A new value in the slot of a key that stands in no other.
pub assoc-over :
    (s : KeyVal) (t : List KeyVal) (w k : ℕ)
    → w < length t
    → key_at t w ≡ s.key
    → ((m : ℕ) → m < length t → key_at t m ≡ s.key → m ≡ w)
    → assoc (set t w s) k ≡ (if s.key == k then some s.val else assoc t k)
assoc-over s [] w k h e u = absurd (omega arith)
assoc-over s (x ∷ t) zero k h e u = elim (Bool-cases (s.key == k)) [
  | inl a ↦ rw a refl
  | inr a ↦ let b : (x.key == k) ≡ false = ground arith in rw (a, b) refl
]
assoc-over s (x ∷ t) (suc w) k h e u =
    let ih =
      assoc-over s t w k (omega arith) e (λ m le f. omega (arith, u (suc m) (omega arith) f)) in
    let away : x.key ≢ s.key = λ f. absurd (omega (arith, u 0 (omega arith) f)) in
    elim (Bool-cases (x.key == k)) [
      | inl a ↦ let b : (s.key == k) ≡ false = ground (arith, away) in rw (a, b) refl
      | inr a ↦ rw a ih
    ]

pub used-over :
    (s : KeyVal) (t : List KeyVal) (w : ℕ)
    → w < length t
    → key_at t w ≡ s.key
    → used (set t w s) ≡ used t
used-over s [] w h e = absurd (omega arith)
used-over s (x ∷ t) zero h e = ground arith
used-over s (x ∷ t) (suc w) h e = ground (arith, used-over s t w (omega arith) e)

pub used-replicate : (n : ℕ) → used (replicate n empty_slot) ≡ 0
used-replicate zero = refl
used-replicate (suc n) = used-replicate n

pub assoc-replicate : (n k : ℕ) → k ≢ 0 → assoc (replicate n empty_slot) k ≡ none
assoc-replicate zero k h = refl
assoc-replicate (suc n) k h =
    let e : (0 == k) ≡ false = ground arith in rw e (assoc-replicate n k h)

pub key-replicate : (n m : ℕ) → key_at (replicate n empty_slot) m ≡ 0
key-replicate zero m = refl
key-replicate (suc n) zero = refl
key-replicate (suc n) (suc m) = key-replicate n m
