-- ===== src/Tests/QueueRuns.antt =====
-- Runs of the priority queues.
use mathlib.Core.List.{Perm}
use bksupport.Base.{ℕ, ◌≡◌, refl, List, [], ◌∷◌, arith, ok, Returns, ltb}
use bksupport.Pq.Order.{IsHeap, ltb-IsOrder}
use bksupport.Pq.Queue.{Popped, pq_insert-Sifted, pq_pop-Popped}
use bksupport.Pq.Numbers.{pq32-pq}
use bksupport.Pq.{load, pq_insert, pq_pop, pq32_insert, pq32_del_max, swap32, swim32, sink32}

abbrev heap : List ℕ
heap = 9 ∷ 5 ∷ 8 ∷ 1 ∷ 4 ∷ []

heap-IsHeap : IsHeap ltb 0 heap
heap-IsHeap c p q = ground arith

pq_insert-Sifted_example : Returns (pq_insert ltb heap 7) (λ b. IsHeap ltb 0 b × Perm b (7 ∷ heap))
pq_insert-Sifted_example = pq_insert-Sifted ltb 0 heap 7 ltb-IsOrder heap-IsHeap

pq_pop-Popped_example : Returns (pq_pop ltb heap) (Popped ltb 0 heap)
pq_pop-Popped_example = pq_pop-Popped ltb 0 heap ltb-IsOrder heap-IsHeap (omega arith)

pq32-pq_example :
    (pq32_insert heap 10 ≡ pq_insert ltb heap 10) × (pq32_del_max heap ≡ pq_pop ltb heap)
pq32-pq_example = pq32-pq heap 10

insert_run : pq32_insert heap 10 ≡ ok (10 ∷ 5 ∷ 9 ∷ 1 ∷ 4 ∷ 8 ∷ [])
unfolding pq32_insert swim32 swap32 load
insert_run = refl

pop_run : pq32_del_max heap ≡ ok (9, 8 ∷ 5 ∷ 4 ∷ 1 ∷ [])
unfolding pq32_del_max sink32 swap32 load
pop_run = refl
