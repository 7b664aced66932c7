-- ===== src/Pq/Swim.antt =====
-- `swim` puts the last item of a heap in its place.
use mathlib.Core.List.{Perm}
use mathlib.Core.List.Perm
use bksupport.Base.{
  ℕ, zero, suc, ◌/◌, ◌≤◌, ◌<◌, ◌≡◌, ◌≢◌, refl, Bool, true, false, List, arith, length, ltb, ◌==◌,
  Bool-cases, Returns, inl, inr,
}
use bksupport.Pq.Order.{
  IsOrder, at, load-ok, swapped, swap-ok, length-swapped, at-swapped, swapped-perm, IsHeap,
  IsBridged,
}
use bksupport.Pq.{swim}

module _ {ℓ} {A : Type ℓ} (below : A → A → Bool) (d : A) where
  -- only the edge above `k` may be out of order
  pub record SwimInv (a : List A) (k : ℕ) : Type ℓ where
    pub first : 1 ≤ k
    pub inside : k ≤ length a
    pub edges : (c : ℕ) → 1 < c → c ≤ length a → c ≢ k → below (at d a (c / 2)) (at d a c) ≡ false
    pub bridged : IsBridged below d a k

  swapped-SwimInv :
      (a : List A) (k : ℕ)
      → IsOrder below
      → SwimInv a k
      → 1 < k
      → below (at d a (k / 2)) (at d a k) ≡ true
      → SwimInv (swapped d a (k / 2) k) (k / 2)
  swapped-SwimInv a k o v pos up =
      let size =
        length-swapped d a (k / 2) k (omega arith) (omega (arith, v.inside)) v.first v.inside in
      let get = at-swapped d a (k / 2) k (omega arith) (omega (arith, v.inside)) v.first v.inside in
      let back = o.asym (at d a (k / 2)) (at d a k) up in
      record {
        first = omega arith;
        inside = omega (arith, size, v.inside);
        edges = λ c p q r. ground (
          arith,
          size,
          get c,
          get (c / 2),
          back,
          v.edges c,
          v.bridged c,
          o.chain (at d a k) (at d a (k / 2)) (at d a c),
        );
        bridged = λ c p q r. ground (
          arith,
          size,
          get c,
          get (k / 2 / 2),
          v.edges c,
          v.edges (k / 2),
          o.chain (at d a (k / 2 / 2)) (at d a (k / 2)) (at d a c),
        );
      }

  abbrev pub Sifted : List A → List A → Type ℓ
  Sifted a b = IsHeap below d b × Perm b a

  pub swim_restores :
      (fuel : ℕ) (a : List A) (k : ℕ)
      → IsOrder below
      → SwimInv a k
      → k < fuel
      → Returns (swim below fuel a k) (Sifted a)
  unfolding swim
  swim_restores zero a k o v le = absurd (omega arith)
  swim_restores (suc fuel) a k o v le = elim (Bool-cases (ltb 1 k)) [
    | inr root ↦ rw root (a, refl, ((λ c p q. v.edges c p q (ground arith)), Perm.refl a))
    | inl pos ↦
        let above : 1 ≤ k / 2 = ground arith in
        let above' : k / 2 ≤ length a = omega (arith, v.inside) in
        elim (Bool-cases (below (at d a (k / 2)) (at d a k))) [
          | inl up ↦
              let (b, run, both) =
                swim_restores fuel (swapped d a (k / 2) k) (k / 2) o
                  (swapped-SwimInv a k o v (ground arith) up) (ground arith) in
              rw
                (
                  pos,
                  load-ok d a (k / 2) above above',
                  load-ok d a k v.first v.inside,
                  up,
                  swap-ok d a (k / 2) k above above' v.first v.inside,
                )
                (
                  b,
                  run,
                  (
                    both.0,
                    Perm.trans both.1 (swapped-perm d a (k / 2) k above above' v.first v.inside),
                  ),
                )
          | inr settled ↦
              rw (pos, load-ok d a (k / 2) above above', load-ok d a k v.first v.inside, settled)
                (a, refl, ((λ c p q. all_edges settled c p q), Perm.refl a))
        ]
  ]
    where
      all_edges :
          below (at d a (k / 2)) (at d a k) ≡ false
          → (c : ℕ) → 1 < c
          → c ≤ length a
          → below (at d a (c / 2)) (at d a c) ≡ false
      all_edges settled c p q = elim (Bool-cases (c == k)) [
        | inl e ↦ let e' : c ≡ k = ground arith in rw e' settled
        | inr e ↦ v.edges c p q (ground arith)
      ]
