-- ===== src/Pq/Numbers.antt =====
-- The queue of 32-bit numbers runs as the queue of items does with the order of the numbers.
use bksupport.Base.{
  ℕ, zero, suc, ◌*◌, ◌/◌, ◌≡◌, refl, ap, ◌∙◌, Bool, true, false, not, List, [], ◌∷◌, set, take, ltb,
  leb, if◌then◌else◌, Run, ok, ◌>>=◌,
}
use bksupport.Pq.{
  load, swap, sink, larger_child, swim, pq_pop, pq_insert, swap32, swim32, sink32, pq32_insert,
  pq32_del_max,
}

take-set {ℓ} : {A : Type ℓ} (n i : ℕ) (v : A) (q : List A) → take n (set q i v) ≡ set (take n q) i v
take-set zero i v q = refl
take-set (suc n) i v [] = refl
take-set (suc n) zero v (x ∷ q) = refl
take-set (suc n) (suc i) v (x ∷ q) = ap (λ r. x ∷ r) (take-set n i v q)

-- Two continuations that agree on each value agree behind the same run.
after_same {ℓ κ} :
    {A : Type ℓ} {B : Type κ} (r : Run A) (f g : A → Run B)
    → ((a : A) → f a ≡ g a)
    → r >>= f ≡ r >>= g
after_same (ok a) f g h = h a
after_same (Run.fault e) f g h = refl

if_not {ℓ} :
    {A : Type ℓ} (b : Bool) (x y z : A) → x ≡ z → (if not b then y else x) ≡ (if b then z else y)
if_not true x y z h = h
if_not false x y z h = refl

if_same {ℓ} :
    {A : Type ℓ} (b : Bool) (x y z : A) → x ≡ z → (if b then x else y) ≡ (if b then z else y)
if_same true x y z h = h
if_same false x y z h = refl

swap32-swap : (q : List ℕ) (i j : ℕ) → swap32 q i j ≡ swap q i j
unfolding swap32 swap
swap32-swap q i j = refl

swap_first :
    (q : List ℕ) (i j : ℕ) (f g : List ℕ → Run (List ℕ))
    → ((b : List ℕ) → f b ≡ g b)
    → swap32 q i j >>= f ≡ swap q i j >>= g
swap_first q i j f g h = ap (λ r. r >>= f) (swap32-swap q i j) ∙ after_same (swap q i j) f g h

sink32-sink : (fuel : ℕ) (q : List ℕ) (k n : ℕ) → sink32 fuel q k n ≡ sink ltb fuel q k n
unfolding sink32 sink larger_child
sink32-sink zero q k n = refl
sink32-sink (suc fuel) q k n = if_same (leb (2 * k) n) _ (ok q) _ (
    after_same (larger_child ltb q k n) _ _ λ j. after_same (load q k) _ _ λ x.
      after_same (load q j) _ _ λ child.
        if_not (ltb x child) (swap32 q k j >>= λ b. sink32 fuel b j n) (ok q)
          (swap q k j >>= λ b. sink ltb fuel b j n)
          (swap_first q k j (λ b. sink32 fuel b j n) (λ b. sink ltb fuel b j n)
            λ b. sink32-sink fuel b j n))

swim32-swim : (fuel : ℕ) (q : List ℕ) (k : ℕ) → swim32 fuel q k ≡ swim ltb fuel q k
unfolding swim32 swim
swim32-swim zero q k = refl
swim32-swim (suc fuel) q k = if_same (ltb 1 k) _ (ok q) _ (
    after_same (load q (k / 2)) _ _ λ parent. after_same (load q k) _ _ λ x.
      if_same (ltb parent x) (swap32 q (k / 2) k >>= λ b. swim32 fuel b (k / 2)) (ok q)
        (swap q (k / 2) k >>= λ b. swim ltb fuel b (k / 2))
        (swap_first q (k / 2) k (λ b. swim32 fuel b (k / 2)) (λ b. swim ltb fuel b (k / 2))
          λ b. swim32-swim fuel b (k / 2)))

-- The queue of 32-bit numbers, with loops of its own and its own order of steps, inserts a number and
-- takes out the greatest one just as the queue of items does with `<` for its comparison.
pub pq32-pq :
    (q : List ℕ) (item : ℕ)
    → (pq32_insert q item ≡ pq_insert ltb q item) × (pq32_del_max q ≡ pq_pop ltb q)
unfolding pq32_insert pq_insert pq32_del_max pq_pop
pq32-pq q item = (swim32-swim _ _ _, simp (take-set, sink32-sink))
