-- ===== src/U32Hash/Lookup.antt =====
-- Tables in which each key is found, and what a lookup there ends with.
use native.Mathlib.Nat.{mod-lt}
use bksupport.Base.Bits.{bit_and_mask, two_pow_pos}
use bksupport.Base.{
  ℕ, ◌+◌, ◌-◌, ◌^◌, ◌<◌, ◌≡◌, ◌≢◌, ◌⊎◌, refl, sym, ap, ◌∙◌, subst, List, Option, none, some,
  Option-cases, arith, length, length-set, set, ◌==◌, Bool-cases, Returns, inl, inr, bit_and,
}
use bksupport.U32Hash.Assoc.{assoc, used, assoc-absent, assoc-found, free_slot}
use bksupport.U32Hash.Probe.{
  key-set_other, key-set_same, Probe, Probe-unique, Probe-end, Probe-set, Probe-put, Probe-same,
  lookup_loop-Probe,
}
use bksupport.U32Hash.{KeyVal, key_at, val_at, lookup_slot}

module _ (crc : ℕ → ℕ) where
  abbrev pub home : ℕ → ℕ → ℕ
  home size key = bit_and (crc key) (size - 1)

  -- The size is a power of two, and a lookup of each key in use ends at its slot.
  pub record Reachable (t : List KeyVal) (size : ℕ) : Type 0 where
    pub log : ℕ
    pub power : size ≡ 2 ^ log
    pub full : length t ≡ size
    pub reach :
        (m : ℕ) → m < size → key_at t m ≢ 0 → Probe t size (key_at t m) m (home size (key_at t m))

  home_low : (size log key : ℕ) → size ≡ 2 ^ log → home size key < size
  home_low size log key e =
      let b = ap (λ r. bit_and (crc key) (r - 1)) e ∙ bit_and_mask log (crc key) in
      omega (arith, b, e, mod-lt (crc key) (two_pow_pos log))

  -- The slot at which a lookup of `key` ends, and what the table says of the key.
  pub record Ends (t : List KeyVal) (size key m : ℕ) : Type 0 where
    pub inside : m < size
    pub path : Probe t size key m (home size key)
    pub outcome :
        ((key_at t m ≡ 0) × (assoc t key ≡ none))
        ⊎ ((key_at t m ≡ key) × (assoc t key ≡ some (val_at t m)))

  module _ (t : List KeyVal) (size : ℕ) (r : Reachable t size) where
    -- A key stands in the slot only where its lookup ends.
    pub only_slot :
        (key m m' : ℕ)
        → key ≢ 0
        → Probe t size key m (home size key)
        → m' < length t
        → key_at t m' ≡ key
        → m' ≡ m
    only_slot key m m' filled p le e =
        let p' = r.reach m' (omega (arith, r.full)) (λ z. filled (sym e ∙ z)) in
        Probe-unique t size key m' m (home size key)
          (subst (λ k. Probe t size k m' (home size k)) e p') p

    ends_outcome :
        (key m : ℕ)
        → key ≢ 0
        → m < size
        → Probe t size key m (home size key)
        → ((key_at t m ≡ 0) × (assoc t key ≡ none))
          ⊎ ((key_at t m ≡ key) × (assoc t key ≡ some (val_at t m)))
    ends_outcome key m filled le p = elim (Option-cases (assoc t key)) [
      | inl e ↦
          let other : key_at t m ≢ key = assoc-absent t key m e (omega (arith, r.full)) in
          let end = Probe-end t size key m (home size key) p in
          let z : key_at t m ≡ 0 = ground (arith, other, end) in inl (z, e)
      | inr (v, e) ↦
          let (m', le', a, b) = assoc-found t key v e in
          let same = only_slot key m m' filled p le' a in
          inr (
            subst (λ x. key_at t x ≡ key) same a,
            e ∙ ap (λ x. Option.some x) (sym b ∙ ap (val_at t) same),
          )
    ]

    pub lookup_slot-Ends :
        (key : ℕ) → key ≢ 0 → used t < size → Returns (lookup_slot crc t size key) (Ends t size key)
    unfolding lookup_slot
    lookup_slot-Ends key filled room =
        let (e, le, z) = free_slot t (omega (arith, r.full)) in
        let low = home_low size r.log key r.power in
        let (m, run, both) =
          lookup_loop-Probe size r.log r.power (size + 1) t key (home size key) e low
            (omega (arith, r.full)) z (ground arith) in
        (
          m,
          run,
          record {
            inside = both.1;
            path = both.0;
            outcome = ends_outcome key m filled both.1 both.0;
          },
        )

    -- A new key goes into the empty slot at which its lookup ended.
    pub put-Reachable :
        (s : KeyVal) (m : ℕ)
        → s.key ≢ 0
        → m < size
        → Probe t size s.key m (home size s.key)
        → key_at t m ≡ 0
        → Reachable (set t m s) size
    put-Reachable s m filled le p z = record {
      log = r.log;
      power = r.power;
      full = length-set t m s ∙ r.full;
      reach = λ i low there. by_slot i low there;
    }
      where
        by_slot :
            (i : ℕ)
            → i < size
            → key_at (set t m s) i ≢ 0
            → Probe (set t m s) size (key_at (set t m s) i) i (home size (key_at (set t m s) i))
        by_slot i low there = elim (Bool-cases (i == m)) [
          | inl e ↦
              let e' : i ≡ m = ground arith in
              let k = key-set_same t m s (omega (arith, le, r.full)) in
              let p' =
                Probe-put t size s.key m (home size s.key) s (omega (arith, le, r.full)) z refl p in
              rw (e', k) p'
          | inr e ↦
              let other : i ≢ m = ground arith in
              let k = key-set_other t m i s (omega (arith, le, r.full)) other in
              let p' = r.reach i low (λ zero_key. there (k ∙ zero_key)) in
              rw k (
                Probe-set t size (key_at t i) i (home size (key_at t i)) m s
                  (omega (arith, le, r.full)) z other p')
        ]

    -- A new value in the slot of a key leaves each path alone.
    pub over-Reachable :
        (s : KeyVal) (n : ℕ)
        → key_at t n ≢ 0
        → n < size
        → s.key ≡ key_at t n
        → Reachable (set t n s) size
    over-Reachable s n there low e =
        let keys = keys_same s n low e in
        record {
          log = r.log;
          power = r.power;
          full = length-set t n s ∙ r.full;
          reach = λ m le filled. rw (keys m) (
              Probe-same t (set t n s) size (key_at t m) m keys (home size (key_at t m))
                (r.reach m le (λ z. filled (keys m ∙ z))));
        }
      where
        keys_same :
            (s : KeyVal) (n : ℕ)
            → n < size
            → s.key ≡ key_at t n
            → (m : ℕ) → key_at (set t n s) m ≡ key_at t m
        keys_same s n low e m = elim (Bool-cases (m == n)) [
          | inl f ↦
              let f' : m ≡ n = ground arith in
              rw f' (key-set_same t n s (omega (arith, low, r.full)) ∙ e)
          | inr f ↦ key-set_other t n m s (omega (arith, low, r.full)) (ground arith)
        ]
