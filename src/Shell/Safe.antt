-- ===== src/Shell/Safe.antt =====
-- `shellSplit` ends on every line and never writes outside its work buffer.
use bksupport.Base.{
  ℕ, zero, suc, ◌+◌, ◌*◌, ◌≤◌, ◌<◌, ◌≡◌, ◌⊎◌, inl, inr, true, List, ◌++◌, arith, Bytes, length, ltb,
  leb-true, Bool-cases, Run, ok, fault, exited, Returns,
}
use bksupport.Shell.{Work, Item, double_buf, buf_resize, put_all}

double_buf_lem :
    (fuel need size : ℕ)
    → 0 < size
    → 0 < fuel
    → need < fuel + size
    → need ≤ 1073741824
    → Returns (double_buf fuel need size) λ r. (need ≤ r) × (size ≤ r)
unfolding double_buf
double_buf_lem zero need size p q h small = absurd (omega arith)
double_buf_lem (suc fuel) need size p q h small = elim (Bool-cases (ltb size need)) [
  | inr out ↦ (size, rw out, (ground arith, omega arith))
  | inl more ↦
      let (r, run, b) =
        double_buf_lem fuel need (2 * size) (omega arith) (ground arith) (ground arith) small in
      let fits : ltb (2 * size) 2147483648 ≡ true = ground arith in
      (r, rw (more, fits) run, (b.0, omega arith))
]

-- BUF_RESIZE changes only the size, and gives at least what it is asked for, up to a gigabyte.
pub buf_resize_lem :
    (w : Work) (extra : ℕ)
    → 0 < w.bufsize
    → length w.out + extra ≤ 1073741824
    → (size : ℕ) × (buf_resize w extra ≡ ok (record w { bufsize = size }))
      × (length w.out + extra ≤ size)
      × (w.bufsize ≤ size)
unfolding buf_resize
buf_resize_lem w extra p small =
    let need = length w.out + extra in
    let (size, run, (b₁, b₂)) =
      double_buf_lem (suc need) need w.bufsize p (omega arith) (omega arith) small in
    (size, rw run, b₁, b₂)

-- The contents fit the buffer.
abbrev pub IsStored : Work → Type 0
IsStored w = (length w.out ≤ w.bufsize) × (0 < w.bufsize)

-- They fit with two bytes to spare, as the end of each round leaves them.
abbrev pub IsRoomy : Work → Type 0
IsRoomy w = length w.out + 2 ≤ w.bufsize

-- The step leaves at most `n` bytes of input, `m` with the contents of the buffer, and a sound buffer, or
-- the program ends by `exit`.
abbrev IsSafe : ℕ → ℕ → Run (Bytes × Work) → Type 0
IsSafe n m (ok (pin, w)) = (length pin ≤ n) × (length w.out + length pin ≤ m) × IsStored w
IsSafe n m (fault e) = e ≡ exited

pub put_safe :
    (w : Work) (s : Bytes)
    → length w.out + length s ≤ w.bufsize
    → put_all w s ≡ ok (record w { out = w.out ++ s })
unfolding put_all
put_safe w s h = rw (leb-true (length w.out + length s) w.bufsize h)

abbrev pub IsItemsOrExit : Run (List Item) → Type 0
IsItemsOrExit r = (r ≡ fault exited) ⊎ ((items : List Item) × (r ≡ ok items))
