-- ===== src/LineWalk.antt =====
-- `parallelLines` of lines/lines.c. The arrays are the lists that they stand for. `cmp` is the sign of
-- `compar`, and `walk` is the function of the caller with the state behind its token; it gives up with
-- a negative number, or gives a number to add. The sum stays an int.
pub mod Merge
use bksupport.Base.{
  ℕ, zero, suc, ◌+◌, Bool, true, false, ◌||◌, List, Option, none, some, Bytes, length, ltb, leb,
  if◌then◌else◌, Run, ok, fault, no_fuel, ◌>>=◌,
}
use bksupport.LineEdit.{line_at}

pub data Sign : Type 0 where
  less same more : Sign

-- `abort r` is the number -r
pub data Step : Type 0 where
  abort add : ℕ → Step

abbrev pub takes_left : Sign → Bool
takes_left more = false
takes_left _ = true

abbrev pub takes_right : Sign → Bool
takes_right less = false
takes_right _ = true

unfoldable pub line_if : Bool → List Bytes → ℕ → Run (Option Bytes)
unfolding line_at
line_if taken lines i =
    let line = line_at lines i >>= λ x. ok (some x) in if taken then line else ok none

abbrev pub next : Bool → ℕ → ℕ
next taken i = if taken then i + 1 else i

module _ (cmp : Bytes → Bytes → Sign) where
  unfoldable pub choose : List Bytes → List Bytes → ℕ → ℕ → Run Sign
  unfolding line_at
  choose a b i j =
      let both = (do x ← line_at a i; y ← line_at b j; ok (cmp x y)) in
      if ltb (length a) i then ok more else if ltb (length b) j then ok less else both

module _ {S : Type 0} (cmp : Bytes → Bytes → Sign)
    (walk : S → Option Bytes → Option Bytes → S × Step) where
  unfoldable pub walk_loop : ℕ → List Bytes → List Bytes → ℕ → ℕ → ℕ → S → Run (S × Step)
  unfolding choose line_if
  walk_loop zero a b i j sum st = fault no_fuel
  walk_loop (suc fuel) a b i j sum st =
      let round : Run (S × Step) = do
        c ← choose cmp a b i j
        aa ← line_if (takes_left c) a i
        bb ← line_if (takes_right c) b j
        let st' = (walk st aa bb).0
        let rest = λ (r : ℕ).
            walk_loop fuel a b (next (takes_left c) i) (next (takes_right c) j) (sum + r) st'
        elim (walk st aa bb).1 [ abort r ↦ ok (st', abort r) | add r ↦ rest r ]
      in if leb i (length a) || leb j (length b) then round else ok (st, add sum)

  unfoldable pub parallel_lines : List Bytes → List Bytes → S → Run (S × Step)
  unfolding walk_loop
  parallel_lines a b st = walk_loop (length a + length b + 1) a b 1 1 0 st
