-- ===== src/Pq.antt =====
-- utils/pq.c: binary heaps of 32-bit numbers and of items with a comparison function. `below x y` is
-- the test that both compare by: `x < y`, or `cmp(x, y) < 0`. The array is the list that it stands for,
-- its first item at index 1 as in the source; an index without an item is `wild`.
pub mod Order
pub mod Swim
pub mod Sink
pub mod Queue
pub mod Numbers
use bksupport.Base.{
  ℕ, zero, suc, ◌+◌, ◌-◌, ◌*◌, ◌/◌, Bool, true, false, not, List, [], ◌∷◌, ◌++◌, Option, none, some,
  length, set, take, ltb, leb, if◌then◌else◌, Run, ok, fault, wild, no_fuel, assert_failed, ◌>>=◌,
}

-- `d[i]`
unfoldable pub load {ℓ} : {A : Type ℓ} → List A → ℕ → Run A
load a zero = fault wild
load [] (suc i) = fault wild
load (x ∷ a) (suc zero) = ok x
load (x ∷ a) (suc (suc i)) = load a (suc i)

abbrev pub store {ℓ} : {A : Type ℓ} → List A → ℕ → A → List A
store a i v = set a (i - 1) v

module _ {ℓ} {A : Type ℓ} where
  unfoldable pub swap : List A → ℕ → ℕ → Run (List A)
  swap a i j = do tmp ← load a i; x ← load a j; ok (store (store a i x) j tmp)

module _ {ℓ} {A : Type ℓ} (below : A → A → Bool) where
  unfoldable pub swim : ℕ → List A → ℕ → Run (List A)
  swim zero a k = fault no_fuel
  swim (suc fuel) a k =
      let rise = swap a (k / 2) k >>= λ b. swim fuel b (k / 2) in
      let round = (do
        parent ← load a (k / 2)
        x ← load a k
        if below parent x then rise else ok a) in
      if ltb 1 k then round else ok a

  -- `j = 2*k`, and `j++` if the other child is there and this one is below it
  unfoldable pub larger_child : List A → ℕ → ℕ → Run ℕ
  larger_child a k size =
      let j = 2 * k in
      let other = (do
        left ← load a j
        right ← load a (j + 1)
        ok (if below left right then j + 1 else j)) in
      if ltb j size then other else ok j

  unfoldable pub sink : ℕ → List A → ℕ → ℕ → Run (List A)
  sink zero a k size = fault no_fuel
  sink (suc fuel) a k size =
      let round : Run (List A) = do
        j ← larger_child a k size
        x ← load a k
        child ← load a j
        let fall = swap a k j >>= λ b. sink fuel b j size
        if below x child then fall else ok a
      in if leb (2 * k) size then round else ok a

  unfoldable pub pq_insert : List A → A → Run (List A)
  pq_insert d item = let d' = d ++ item ∷ [] in swim (length d' + 1) d' (length d')

  -- the item, and the queue after the call
  unfoldable pub pq_pop : List A → Run (A × List A)
  pq_pop d =
      let n = length d in
      let pop : Run (A × List A) = do
        ret ← load d 1
        last ← load d n
        b ← sink (n + 1) (store (take (n - 1) d) 1 last) 1 (n - 1)
        ok (ret, b)
      in if ltb 0 n then pop else fault assert_failed

unfoldable pub pq_peek {ℓ} : {A : Type ℓ} → List A → Option A
pq_peek [] = none
pq_peek (x ∷ d) = some x

-- the queue of 32-bit numbers, which compares them in place
unfoldable pub swap32 : List ℕ → ℕ → ℕ → Run (List ℕ)
swap32 pq i j = do tmp ← load pq i; x ← load pq j; ok (store (store pq i x) j tmp)

unfoldable pub swim32 : ℕ → List ℕ → ℕ → Run (List ℕ)
swim32 zero pq k = fault no_fuel
swim32 (suc fuel) pq k =
    let round : Run (List ℕ) = do
      parent ← load pq (k / 2)
      x ← load pq k
      let rise = swap32 pq (k / 2) k >>= λ b. swim32 fuel b (k / 2)
      if ltb parent x then rise else ok pq
    in if ltb 1 k then round else ok pq

unfoldable pub sink32 : ℕ → List ℕ → ℕ → ℕ → Run (List ℕ)
sink32 zero pq k n = fault no_fuel
sink32 (suc fuel) pq k n =
    let next : Run ℕ = do
      left ← load pq (2 * k)
      right ← load pq (2 * k + 1)
      ok (if ltb left right then 2 * k + 1 else 2 * k)
    in let round : Run (List ℕ) = do
      j ← if ltb (2 * k) n then next else ok (2 * k)
      x ← load pq k
      child ← load pq j
      let fall = swap32 pq k j >>= λ b. sink32 fuel b j n
      if not (ltb x child) then ok pq else fall
      in if leb (2 * k) n then round else ok pq

unfoldable pub pq32_insert : List ℕ → ℕ → Run (List ℕ)
pq32_insert pq item = let pq' = pq ++ item ∷ [] in swim32 (length pq' + 1) pq' (length pq')

-- here the last item is copied before the array is cut
unfoldable pub pq32_del_max : List ℕ → Run (ℕ × List ℕ)
pq32_del_max pq =
    let n = length pq in
    let pop : Run (ℕ × List ℕ) = do
      ret ← load pq 1
      last ← load pq n
      b ← sink32 (n + 1) (take (n - 1) (store pq 1 last)) 1 (n - 1)
      ok (ret, b)
    in if ltb 0 n then pop else fault assert_failed
