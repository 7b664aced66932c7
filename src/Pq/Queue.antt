-- ===== src/Pq/Queue.antt =====
-- The operations of a priority queue on a heap.
use mathlib.Core.List.{Perm, perm_middle}
use mathlib.Core.List.Perm
use bksupport.Base.{
  ℕ, suc, ◌+◌, ◌-◌, ◌/◌, ◌≤◌, ◌<◌, ◌≡◌, refl, ◌∙◌, Bool, false, List, [], ◌∷◌, ◌++◌, append-nil,
  arith, length, length-append, length-set, length-take, get_or, get_or-set, get_or-append,
  get_or-take, take-get_or_last, take, ltb-true, ◌==◌, Returns,
}
use bksupport.Pq.Order.{IsOrder, at, load-ok, IsHeap, root-IsMax}
use bksupport.Pq.Sink.{SinkInv, sink_restores}
use bksupport.Pq.Swim.{SwimInv, swim_restores}
use bksupport.Pq.{store, pq_insert, pq_pop}

module _ {ℓ} {A : Type ℓ} (below : A → A → Bool) (d : A) where
  append-SwimInv :
      (q : List A) (x : A) → IsHeap below d q → SwimInv below d (q ++ x ∷ []) (length (q ++ x ∷ []))
  append-SwimInv q x h =
      let size = length-append q (x ∷ []) in
      record {
        first = omega (arith, size);
        inside = omega arith;
        edges = λ c p r s.
            let near : c - 1 < length q = omega (arith, size) in
            let near' : c / 2 - 1 < length q = omega (arith, size) in
            rw
              (
                get_or-append q (x ∷ []) (c - 1) d near,
                get_or-append q (x ∷ []) (c / 2 - 1) d near',
              )
              (h c p (omega (arith, size)));
        bridged = λ c p r s. absurd (omega arith);
      }

  -- On a heap pq_insert ends with a heap that has the new item and those of before.
  pub pq_insert-Sifted :
      (q : List A) (x : A)
      → IsOrder below
      → IsHeap below d q
      → Returns (pq_insert below q x) (λ b. IsHeap below d b × Perm b (x ∷ q))
  unfolding pq_insert
  pq_insert-Sifted q x o h =
      let q' = q ++ x ∷ [] in
      let (b, run, both) =
        swim_restores below d (length q' + 1) q' (length q') o (append-SwimInv q x h)
          (omega arith) in
      (b, run, (both.0, Perm.trans both.1 (rw append-nil at (perm_middle {a = x} q []))))

  -- the array that pq_pop hands to `sink`
  abbrev cut : List A → List A
  cut q = store (take (length q - 1) q) 1 (at d q (length q))

  length-cut : (q : List A) → length (cut q) ≡ length q - 1
  length-cut q = omega (
    arith,
    length-set (take (length q - 1) q) (1 - 1) (at d q (length q)),
    length-take (length q - 1) q,
  )

  at-cut : (q : List A) (c : ℕ) → 1 < c → c ≤ length (cut q) → at d (cut q) c ≡ at d q c
  at-cut q c p r =
      let front = take (length q - 1) q in
      let last = at d q (length q) in
      let low : 1 - 1 < length front = omega (arith, length-take (length q - 1) q, length-cut q) in
      let e : (1 - 1 == c - 1) ≡ false = ground arith in
      get_or-set front (1 - 1) (c - 1) last d low
      ∙ rw e (get_or-take (length q - 1) q (c - 1) d (omega (arith, length-cut q)))

  cut-SinkInv : (q : List A) → IsHeap below d q → SinkInv below d (cut q) 1
  cut-SinkInv q h = record {
    first = omega arith;
    edges = λ c p r s.
        let big : 1 < c / 2 = omega (arith) in
        rw (at-cut q c p r, at-cut q (c / 2) big (omega arith))
          (h c p (omega (arith, length-cut q)));
    bridged = λ c p r s. absurd (omega arith);
  }

  cut-perm : (q : List A) → 0 < length q → Perm (at d q 1 ∷ cut q) q
  cut-perm [] h = absurd (omega arith)
  cut-perm (x ∷ []) h = Perm.refl (x ∷ [])
  cut-perm (x ∷ y ∷ q) h =
      let r = y ∷ q in
      let e : length (x ∷ y ∷ q) - 1 ≡ suc (length q) = omega arith in
      let front = take (length q) r in
      let last = get_or r (length q) d in
      let turned : Perm (front ++ last ∷ []) (last ∷ front) =
        rw append-nil at (perm_middle {a = last} front []) in
      rw e (Perm.cons x (rw (take-get_or_last (length q) r d refl) at (Perm.symm turned)))

  -- What pq_pop gives: an item that is below no other, and a heap of the others.
  pub record Popped (q : List A) (r : A × List A) : Type ℓ where
    pub heap : IsHeap below d r.1
    pub same : Perm (r.0 ∷ r.1) q
    pub greatest : (c : ℕ) → 1 ≤ c → c ≤ length q → below r.0 (at d q c) ≡ false

  -- On a heap with an item pq_pop ends, its assertion holds, and it takes out an item that is below no
  -- other; what is left is a heap of the others.
  pub pq_pop-Popped :
      (q : List A)
      → IsOrder below
      → IsHeap below d q
      → 0 < length q
      → Returns (pq_pop below q) (Popped q)
  unfolding pq_pop
  pq_pop-Popped q o h some =
      let n = length q in
      let (b, run, both) =
        sink_restores below d (n + 1) (n - 1) (cut q) 1 o (cut-SinkInv q h) (length-cut q)
          (omega arith) (omega arith) in
      rw
        (ltb-true 0 n some, load-ok d q 1 (omega arith) some, load-ok d q n some (omega arith), run)
        (
          (at d q 1, b),
          refl,
          record {
            heap = both.0;
            same = Perm.trans (Perm.cons (at d q 1) both.1) (cut-perm q some);
            greatest = λ c p r. root-IsMax below d q c o h p r;
          },
        )
