-- ===== src/U32Hash/Resize.antt =====
-- `resize` moves each pair of the table into one of twice the size.
use bksupport.Base.{
  ℕ, suc, ◌+◌, ◌<◌, ◌≡◌, ◌≢◌, ◌⊎◌, refl, sym, ap, ◌∙◌, subst, true, false, List, [], ◌∷◌, Option,
  none, some, Option-cases, arith, length, set, ◌==◌, if◌then◌else◌, Bool-cases, Returns, inl, inr,
}
use bksupport.U32Hash.Assoc.{assoc, used, assoc-found, used-put, assoc-put}
use bksupport.U32Hash.Lookup.{Reachable, Ends, only_slot, lookup_slot-Ends, put-Reachable}
use bksupport.U32Hash.{KeyVal, key_at, move_slots}

abbrev pub or_else : Option ℕ → Option ℕ → Option ℕ
or_else none b = b
or_else (some a) b = some a

pub or_else-none : (a : Option ℕ) → or_else a none ≡ a
or_else-none none = refl
or_else-none (some a) = refl

-- no key in use stands twice
abbrev pub AllOnce : List KeyVal → Type 0
AllOnce [] = Unit
AllOnce (s ∷ t) = (s.key ≢ 0 → assoc t s.key ≡ none) × AllOnce t

AllOnce-of_unique :
    (t : List KeyVal)
    → ((m m' : ℕ)
        → m < length t
        → m' < length t
        → key_at t m ≢ 0
        → key_at t m ≡ key_at t m'
        → m ≡ m')
    → AllOnce t
AllOnce-of_unique [] u = tt
AllOnce-of_unique (s ∷ t) u = (
  λ filled. elim (Option-cases (assoc t s.key)) [
    | inl e ↦ e
    | inr (v, e) ↦
        let (m, le, a, b) = assoc-found t s.key v e in
        absurd (omega (arith, u 0 (suc m) (omega arith) (omega arith) filled (sym a)))
  ],
  AllOnce-of_unique t λ m m' le le' filled e.
      omega (arith, u (suc m) (suc m') (omega arith) (omega arith) filled e),
)

module _ (crc : ℕ → ℕ) where
  pub Reachable-AllOnce : (t : List KeyVal) (size : ℕ) → Reachable crc t size → AllOnce t
  Reachable-AllOnce t size r = AllOnce-of_unique t λ m m' le le' filled e. sym (
      only_slot crc t size r (key_at t m) m m' filled (r.reach m (omega (arith, r.full)) filled) le'
        (sym e))

  -- The table after the pairs of `old` went into `t`.
  pub record Moved (old t : List KeyVal) (size : ℕ) (new : List KeyVal) : Type 0 where
    pub reachable : Reachable crc new size
    pub counts : used new ≡ used t + used old
    pub says : (k : ℕ) → k ≢ 0 → assoc new k ≡ or_else (assoc old k) (assoc t k)

  abbrev pub Apart : List KeyVal → List KeyVal → Type 0
  Apart old t = (k : ℕ) → k ≢ 0 → (assoc old k ≡ none) ⊎ (assoc t k ≡ none)

  module _ (s : KeyVal) (old t : List KeyVal) (size : ℕ) (r : Reachable crc t size)
      (apart : Apart (s ∷ old) t) where
    head_absent : s.key ≢ 0 → assoc t s.key ≡ none
    head_absent filled = elim (apart s.key filled) [
      | inl e ↦ let same : (s.key == s.key) ≡ true = ground arith in cc (rw same at e)
      | inr e ↦ e
    ]

    skipped_assoc : (k : ℕ) → s.key ≡ 0 → k ≢ 0 → assoc (s ∷ old) k ≡ assoc old k
    skipped_assoc k z filled = let e : (s.key == k) ≡ false = ground arith in rw e refl

    module _ (filled : s.key ≢ 0) (once : assoc old s.key ≡ none) (m : ℕ)
        (ends : Ends crc t size s.key m) where
      ends_empty : key_at t m ≡ 0
      ends_empty = elim ends.outcome [ inl e ↦ e.0 | inr e ↦ cc (head_absent filled, e.1) ]

      low : m < length t
      low = omega (arith, r.full, ends.inside)

      put_assoc :
          (k : ℕ) → k ≢ 0 → assoc (set t m s) k ≡ (if s.key == k then some s.val else assoc t k)
      put_assoc k h = assoc-put s filled t m k low ends_empty (head_absent filled) h

      put-Apart : Apart old (set t m s)
      put-Apart k h = elim (Bool-cases (s.key == k)) [
        | inl e ↦ let e' : s.key ≡ k = ground arith in inl (rw (← e') once)
        | inr e ↦ elim (apart k h) [
          | inl a ↦ inl (rw e at a)
          | inr b ↦ inr (put_assoc k h ∙ rw e b)
        ]
      ]

      Moved-put : (new : List KeyVal) → Moved old (set t m s) size new → Moved (s ∷ old) t size new
      Moved-put new moved = record {
        reachable = moved.reachable;
        counts = ground (arith, moved.counts, used-put s filled t m low ends_empty);
        says = λ k h. moved.says k h ∙ by_key k h;
      }
        where
          by_key :
              (k : ℕ)
              → k ≢ 0
              → or_else (assoc old k) (assoc (set t m s) k)
                ≡ or_else (assoc (s ∷ old) k) (assoc t k)
          by_key k h = elim (Bool-cases (s.key == k)) [
            | inl e ↦
                let e' : s.key ≡ k = ground arith in
                let gone : assoc old k ≡ none = rw (← e') once in
                rw (gone, e) (put_assoc k h ∙ rw e refl)
            | inr e ↦ rw e (ap (or_else (assoc old k)) (put_assoc k h ∙ rw e refl))
          ]

  Moved-skip :
      (s : KeyVal) (old t : List KeyVal) (size : ℕ) (new : List KeyVal)
      → s.key ≡ 0
      → Moved old t size new
      → Moved (s ∷ old) t size new
  Moved-skip s old t size new z moved = record {
    reachable = moved.reachable;
    counts = ground (arith, moved.counts);
    says = λ k h. let e : (s.key == k) ≡ false = ground arith in rw e (moved.says k h);
  }

  pub move_slots-Moved :
      (old t : List KeyVal) (size : ℕ)
      → Reachable crc t size
      → AllOnce old
      → Apart old t
      → used t + used old < size
      → Returns (move_slots crc old t size) (Moved old t size)
  unfolding move_slots
  move_slots-Moved [] t size r once apart room =
      (t, refl, record { reachable = r; counts = omega arith; says = λ k h. refl })
  move_slots-Moved (s ∷ old) t size r once apart room = elim (Bool-cases (s.key == 0)) [
    | inl e ↦
        let z : s.key ≡ 0 = ground arith in
        let (new, run, moved) =
          move_slots-Moved old t size r once.1
            (λ k h.
              subst (λ x. (x ≡ none) ⊎ (assoc t k ≡ none))
                (skipped_assoc s old t size r apart k z h) (apart k h))
            (ground arith) in
        rw e (new, run, Moved-skip s old t size new z moved)
    | inr e ↦
        let filled : s.key ≢ 0 = ground arith in
        let (m, found, ends) = lookup_slot-Ends crc t size r s.key filled (ground arith) in
        let empty = ends_empty s old t size r apart filled (once.0 filled) m ends in
        let (new, run, moved) =
          move_slots-Moved old (set t m s) size
            (put-Reachable crc t size r s m filled ends.inside ends.path empty) once.1
            (put-Apart s old t size r apart filled (once.0 filled) m ends)
            (ground (arith, used-put s filled t m (omega (arith, ends.inside, r.full)) empty)) in
        rw (e, found)
          (new, run, Moved-put s old t size r apart filled (once.0 filled) m ends new moved)
  ]
