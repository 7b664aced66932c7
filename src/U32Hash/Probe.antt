-- ===== src/U32Hash/Probe.antt =====
-- The path that a lookup takes through the table.
use native.Mathlib.Nat.{mod-eq_of_lt, mod_self}
use bksupport.Base.Bits.{bit_and_mask}
use bksupport.Base.{
  ℕ, zero, suc, ◌+◌, ◌-◌, ◌%◌, ◌^◌, ◌<◌, ◌≡◌, ◌≢◌, refl, sym, ap, ◌∙◌, Bool, true, false, not, ◌&&◌,
  List, arith, length, get_or, get_or-set, set, ltb, ◌==◌, if◌then◌else◌, Bool-cases, ok, Returns,
  inl, inr, bit_and,
}
use bksupport.U32Hash.{KeyVal, empty_slot, key_at, next_slot, lookup_loop}

pub slot-set :
    (t : List KeyVal) (w n : ℕ) (s : KeyVal)
    → w < length t
    → get_or (set t w s) n empty_slot ≡ (if w == n then s else get_or t n empty_slot)
slot-set t w n s h = get_or-set t w n s empty_slot h

pub slot-set_other :
    (t : List KeyVal) (w n : ℕ) (s : KeyVal)
    → w < length t
    → n ≢ w
    → get_or (set t w s) n empty_slot ≡ get_or t n empty_slot
slot-set_other t w n s h g =
    let e : (w == n) ≡ false = ground arith in slot-set t w n s h ∙ rw e refl

pub slot-set_same :
    (t : List KeyVal) (w : ℕ) (s : KeyVal) → w < length t → get_or (set t w s) w empty_slot ≡ s
slot-set_same t w s h = let e : (w == w) ≡ true = ground arith in slot-set t w w s h ∙ rw e refl

abbrev pub goes_on : List KeyVal → ℕ → ℕ → Bool
goes_on t key n = not (key_at t n == 0) && not (key_at t n == key)

goes_on-key :
    (t t' : List KeyVal) (key n : ℕ) → key_at t' n ≡ key_at t n → goes_on t' key n ≡ goes_on t key n
goes_on-key t t' key n e = ap (λ k. not (k == 0) && not (k == key)) e

pub key-set_other :
    (t : List KeyVal) (w n : ℕ) (s : KeyVal)
    → w < length t
    → n ≢ w
    → key_at (set t w s) n ≡ key_at t n
key-set_other t w n s h g = ap (λ (r : KeyVal). r.key) (slot-set_other t w n s h g)

pub key-set_same :
    (t : List KeyVal) (w : ℕ) (s : KeyVal) → w < length t → key_at (set t w s) w ≡ s.key
key-set_same t w s h = ap (λ (r : KeyVal). r.key) (slot-set_same t w s h)

-- From slot `n` on a lookup of `key` ends at slot `m`.
pub data Probe (t : List KeyVal) (size key m : ℕ) : ℕ → Type 0 where
  stop : (n : ℕ) → n ≡ m → goes_on t key n ≡ false → Probe t size key m n
  step :
      (n : ℕ)
      → goes_on t key n ≡ true
      → Probe t size key m (next_slot size n)
      → Probe t size key m n

pub Probe-unique :
    (t : List KeyVal) (size key m m' n : ℕ) → Probe t size key m n → Probe t size key m' n → m ≡ m'
Probe-unique t size key m m' n (stop _ e f) (stop _ e' f') = cc (e, e')
Probe-unique t size key m m' n (stop _ e f) (step _ g p) = cc (f, g)
Probe-unique t size key m m' n (step _ g p) (stop _ e f) = cc (f, g)
Probe-unique t size key m m' n (step _ g p) (step _ g' p') =
    Probe-unique t size key m m' (next_slot size n) p p'

pub Probe-end :
    (t : List KeyVal) (size key m n : ℕ) → Probe t size key m n → goes_on t key m ≡ false
Probe-end t size key m n (stop _ e f) = rw (← e) f
Probe-end t size key m n (step _ g p) = Probe-end t size key m (next_slot size n) p

-- A write into an empty slot that the path does not end at leaves the path alone.
pub Probe-set :
    (t : List KeyVal) (size key m n w : ℕ) (s : KeyVal)
    → w < length t
    → key_at t w ≡ 0
    → m ≢ w
    → Probe t size key m n
    → Probe (set t w s) size key m n
Probe-set t size key m n w s h e g (stop _ a f) =
    stop n a (goes_on-key t (set t w s) key n (key-set_other t w n s h (λ b. g (sym a ∙ b))) ∙ f)
Probe-set t size key m n w s h e g (step _ f p) =
    let other : n ≢ w = λ b. away (rw b at f) in
    step n (goes_on-key t (set t w s) key n (key-set_other t w n s h other) ∙ f)
      (Probe-set t size key m (next_slot size n) w s h e g p)
  where
    away : goes_on t key w ≡ true → ⊥
    away f' = cc (rw e at f')

-- A path that ends at an empty slot ends there when the key stands in it.
pub Probe-put :
    (t : List KeyVal) (size key w n : ℕ) (s : KeyVal)
    → w < length t
    → key_at t w ≡ 0
    → s.key ≡ key
    → Probe t size key w n
    → Probe (set t w s) size key w n
Probe-put t size key w n s h e k (stop _ a f) = stop n a (
    ap (goes_on (set t w s) key) a
    ∙ ap (λ r. not (r == 0) && not (r == key)) (key-set_same t w s h ∙ k)
    ∙ here)
  where
    here : (not (key == 0) && not (key == key)) ≡ false
    here = ground arith
Probe-put t size key w n s h e k (step _ f p) =
    let other : n ≢ w = λ b. away (rw b at f) in
    step n (goes_on-key t (set t w s) key n (key-set_other t w n s h other) ∙ f)
      (Probe-put t size key w (next_slot size n) s h e k p)
  where
    away : goes_on t key w ≡ true → ⊥
    away f' = cc (rw e at f')

-- The path depends on the keys alone.
pub Probe-same :
    (t t' : List KeyVal) (size key m : ℕ)
    → ((i : ℕ) → key_at t' i ≡ key_at t i)
    → (n : ℕ) → Probe t size key m n
    → Probe t' size key m n
Probe-same t t' size key m same n (stop _ e f) = stop n e (goes_on-key t t' key n (same n) ∙ f)
Probe-same t t' size key m same n (step _ g p) =
    step n (goes_on-key t t' key n (same n) ∙ g)
      (Probe-same t t' size key m same (next_slot size n) p)

pub Probe-of_loop :
    (fuel : ℕ) (t : List KeyVal) (size key m n : ℕ)
    → lookup_loop fuel t size key n ≡ ok m
    → Probe t size key m n
unfolding lookup_loop
Probe-of_loop zero t size key m n h = cc h
Probe-of_loop (suc fuel) t size key m n h = elim (Bool-cases (goes_on t key n)) [
  | inl e ↦ step n e (Probe-of_loop fuel t size key m (next_slot size n) (rw e at h))
  | inr e ↦ stop n (cc (rw e at h)) e
]

module _ (size log : ℕ) (power : size ≡ 2 ^ log) where
  next_slot_lem : (n : ℕ) → n < size → next_slot size n ≡ (if n + 1 == size then 0 else n + 1)
  next_slot_lem n h =
      ap (λ r. bit_and (n + 1) (r - 1)) power
      ∙ bit_and_mask log (n + 1)
      ∙ ap (λ r. (n + 1) % r) (sym power)
      ∙ by_size
    where
      by_size : (n + 1) % size ≡ (if n + 1 == size then 0 else n + 1)
      by_size = elim (Bool-cases (n + 1 == size)) [
        | inl e ↦
            let e' : n + 1 ≡ size = ground arith in rw e (ap (λ r. r % size) e' ∙ mod_self size)
        | inr e ↦ rw e (mod-eq_of_lt (ground arith))
      ]

  -- the steps from slot `n` to slot `e`
  abbrev steps : ℕ → ℕ → ℕ
  steps n e = if ltb e n then e + size - n else e - n

  -- With an empty slot in the table each lookup ends.
  pub lookup_loop-Probe :
      (fuel : ℕ) (t : List KeyVal) (key n e : ℕ)
      → n < size
      → e < size
      → key_at t e ≡ 0
      → steps n e < fuel
      → Returns (lookup_loop fuel t size key n) (λ m. Probe t size key m n × (m < size))
  unfolding lookup_loop
  lookup_loop-Probe zero t key n e h g z le = absurd (omega arith)
  lookup_loop-Probe (suc fuel) t key n e h g z le = elim (Bool-cases (goes_on t key n)) [
    | inr f ↦ rw f (n, refl, (stop n refl f, h))
    | inl f ↦
        let next = next_slot_lem n h in
        let other : n ≢ e = λ b. away (rw b at f) in
        let (m, run, both) =
          lookup_loop-Probe fuel t key (next_slot size n) e (ground (arith, next)) g z
            (ground (arith, next, other)) in
        rw f (m, run, (step n f both.0, both.1))
  ]
    where
      away : goes_on t key e ≡ true → ⊥
      away f' = cc (rw z at f')
