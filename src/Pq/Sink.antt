-- ===== src/Pq/Sink.antt =====
-- `sink` puts the item at the root of a heap in its place.
use mathlib.Core.List.Perm
use bksupport.Base.{
  ℕ, zero, suc, ◌+◌, ◌*◌, ◌/◌, ◌≤◌, ◌<◌, ◌≡◌, ◌≢◌, ◌⊎◌, refl, ◌∙◌, Bool, true, false, List, arith,
  length, ltb, leb, ◌==◌, Bool-cases, ok, Returns, inl, inr,
}
use bksupport.Pq.Order.{
  IsOrder, IsOrder-irrefl, at, load-ok, swapped, swap-ok, length-swapped, at-swapped, swapped-perm,
  IsBridged,
}
use bksupport.Pq.Swim.{Sifted}
use bksupport.Pq.{larger_child, sink}

module _ {ℓ} {A : Type ℓ} (below : A → A → Bool) (d : A) where
  -- only the edges below `k` may be out of order
  pub record SinkInv (a : List A) (k : ℕ) : Type ℓ where
    pub first : 1 ≤ k
    pub edges :
        (c : ℕ) → 1 < c → c ≤ length a → c / 2 ≢ k → below (at d a (c / 2)) (at d a c) ≡ false
    pub bridged : IsBridged below d a k

  record IsLargerChild (a : List A) (k j : ℕ) : Type ℓ where
    inside : j ≤ length a
    child : (j ≡ 2 * k) ⊎ (j ≡ 2 * k + 1)
    greatest : (c : ℕ) → c ≤ length a → c / 2 ≡ k → below (at d a j) (at d a c) ≡ false

  larger_child-IsLargerChild :
      (a : List A) (k : ℕ)
      → IsOrder below
      → 1 ≤ k
      → 2 * k ≤ length a
      → Returns (larger_child below a k (length a)) (IsLargerChild a k)
  unfolding larger_child
  larger_child-IsLargerChild a k o pos le =
      let same = IsOrder-irrefl (at d a (2 * k)) o in
      let same' = IsOrder-irrefl (at d a (2 * k + 1)) o in
      elim (Bool-cases (ltb (2 * k) (length a))) [
        | inr e ↦ rw e (
          2 * k,
          refl,
          record {
            inside = le;
            child = inl refl;
            greatest = λ c p q. let c' : c ≡ 2 * k = ground arith in rw c' same;
          },
        )
        | inl e ↦
            let right : 2 * k + 1 ≤ length a = ground arith in
            elim (Bool-cases (below (at d a (2 * k)) (at d a (2 * k + 1)))) [
              | inl f ↦
                  rw
                    (
                      e,
                      load-ok d a (2 * k) (omega arith) le,
                      load-ok d a (2 * k + 1) (omega arith) right,
                      f,
                    )
                    (
                      2 * k + 1,
                      refl,
                      record {
                        inside = right;
                        child = inr refl;
                        greatest = λ c p q. of_two c q same' (o.asym _ _ f);
                      },
                    )
              | inr f ↦
                  rw
                    (
                      e,
                      load-ok d a (2 * k) (omega arith) le,
                      load-ok d a (2 * k + 1) (omega arith) right,
                      f,
                    )
                    (
                      2 * k,
                      refl,
                      record {
                        inside = le;
                        child = inl refl;
                        greatest = λ c p q. of_two' c q same f;
                      },
                    )
            ]
      ]
    where
      of_two :
          (c : ℕ)
          → c / 2 ≡ k
          → below (at d a (2 * k + 1)) (at d a (2 * k + 1)) ≡ false
          → below (at d a (2 * k + 1)) (at d a (2 * k)) ≡ false
          → below (at d a (2 * k + 1)) (at d a c) ≡ false
      of_two c q e f = elim (Bool-cases (c == 2 * k)) [
        | inl g ↦ let c' : c ≡ 2 * k = ground arith in rw c' f
        | inr g ↦ let c' : c ≡ 2 * k + 1 = ground arith in rw c' e
      ]

      of_two' :
          (c : ℕ)
          → c / 2 ≡ k
          → below (at d a (2 * k)) (at d a (2 * k)) ≡ false
          → below (at d a (2 * k)) (at d a (2 * k + 1)) ≡ false
          → below (at d a (2 * k)) (at d a c) ≡ false
      of_two' c q e f = elim (Bool-cases (c == 2 * k)) [
        | inl g ↦ let c' : c ≡ 2 * k = ground arith in rw c' e
        | inr g ↦ let c' : c ≡ 2 * k + 1 = ground arith in rw c' f
      ]

  swapped-SinkInv :
      (a : List A) (k j : ℕ)
      → IsOrder below
      → SinkInv a k
      → IsLargerChild a k j
      → below (at d a k) (at d a j) ≡ true
      → SinkInv (swapped d a k j) j
  swapped-SinkInv a k j o v s up =
      let pos : 1 ≤ j = omega (arith, v.first, s.child) in
      let low : k ≤ length a = omega (arith, s.child, s.inside) in
      let size = length-swapped d a k j v.first low pos s.inside in
      let get = at-swapped d a k j v.first low pos s.inside in
      let back = o.asym (at d a k) (at d a j) up in
      record {
        first = pos;
        edges = λ c p q r.
            ground (
              arith,
              size,
              s.child,
              get c,
              get (c / 2),
              back,
              v.edges c,
              v.bridged j,
              s.greatest c,
            );
        bridged = λ c p q r. ground (arith, size, s.child, get c, get (j / 2), v.edges c);
      }

  sink_round :
      (fuel n : ℕ) (a : List A) (k j : ℕ)
      → IsOrder below
      → SinkInv a k
      → IsLargerChild a k j
      → leb (2 * k) n ≡ true
      → larger_child below a k n ≡ ok j
      → ((b : List A)
          → SinkInv b j
          → length b ≡ length a
          → Returns (sink below fuel b j n) (Sifted below d b))
      → Returns (sink below (suc fuel) a k n) (Sifted below d a)
  unfolding sink
  sink_round fuel n a k j o v s inner found next =
      let pos : 1 ≤ j = omega (arith, v.first, s.child) in
      let low : k ≤ length a = omega (arith, s.child, s.inside) in
      let size = length-swapped d a k j v.first low pos s.inside in
      elim (Bool-cases (below (at d a k) (at d a j))) [
        | inl down ↦
            let (b, run, both) = next (swapped d a k j) (swapped-SinkInv a k j o v s down) size in
            rw
              (
                inner,
                found,
                load-ok d a k v.first low,
                load-ok d a j pos s.inside,
                down,
                swap-ok d a k j v.first low pos s.inside,
              )
              (b, run, (both.0, Perm.trans both.1 (swapped-perm d a k j v.first low pos s.inside)))
        | inr settled ↦
            rw (inner, found, load-ok d a k v.first low, load-ok d a j pos s.inside, settled)
              (
                a,
                refl,
                (
                  (λ c p q. ground (
                    arith,
                    v.edges c,
                    s.greatest c,
                    o.chain (at d a k) (at d a j) (at d a c),
                    settled,
                  )),
                  Perm.refl a,
                ),
              )
      ]

  pub sink_restores :
      (fuel n : ℕ) (a : List A) (k : ℕ)
      → IsOrder below
      → SinkInv a k
      → length a ≡ n
      → n < k + fuel
      → 0 < fuel
      → Returns (sink below fuel a k n) (Sifted below d a)
  sink_restores zero n a k o v e le some = absurd (omega arith)
  sink_restores (suc fuel) n a k o v e le some = elim (Bool-cases (leb (2 * k) n)) [
    | inr leaf ↦
        unfold sink in rw leaf (a, refl, ((λ c p q. v.edges c p q (ground arith)), Perm.refl a))
    | inl inner ↦
        let (j, found, s) = larger_child-IsLargerChild a k o v.first (ground arith) in
        sink_round fuel n a k j o v s inner (rw e at found) λ b w size.
          sink_restores fuel n b j o w (size ∙ e) (omega (arith, s.child, v.first, le))
            (omega (arith, le, s.inside, s.child, e))
  ]
