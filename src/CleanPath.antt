-- ===== src/CleanPath.antt =====
-- cleanPath of utils/cleanpath.c, on the systems other than Windows. `p` goes backward from the end of the
-- path, so it is the bytes from `*p` back to `*top`; the text that ends the buffer grows to the front,
-- and is what `r` points in front of.
pub mod Walk
pub mod Parts
pub mod Loop
pub mod Result
use mathlib.Core.List.{reverse}
use bksupport.Base.{
  ℕ, zero, suc, ◌+◌, ◌-◌, Bool, true, false, not, ◌&&◌, ◌||◌, List, [], ◌∷◌, ◌++◌, Option, none,
  some, Bytes, length, ltb, ◌==◌, if◌then◌else◌, Run, ok, fault, wild, no_fuel, ◌>>=◌,
}

-- `while ((p >= top) && (*p == '/')) p--`
unfoldable pub skip_slashes : Bytes → Bytes
skip_slashes [] = []
skip_slashes (c ∷ p) = let rest = skip_slashes p in if c == b'/' then rest else c ∷ p

-- `while ((p >= top) && (*p != '/')) p--`
unfoldable pub skip_name : Bytes → Bytes
skip_name [] = []
skip_name (c ∷ p) = let rest = skip_name p in if c == b'/' then c ∷ p else rest

-- `while ((p >= top) && (*p != '/')) *r-- = *p--`
unfoldable pub copy_name : Bytes → Bytes → Bytes × Bytes
copy_name [] r = ([], r)
copy_name (c ∷ p) r = let rest = copy_name p (c ∷ r) in if c == b'/' then (c ∷ p, r) else rest

abbrev pub is_empty : Bytes → Bool
is_empty [] = true
is_empty (c ∷ r) = false

-- "." in the front
abbrev pub front_dot : Bytes → Bool
front_dot (a ∷ []) = a == b'.'
front_dot _ = false

-- ".." in the front
abbrev pub front_dots : Bytes → Bool
front_dots (a ∷ b ∷ []) = b == b'.' && a == b'.'
front_dots _ = false

-- "/..", and what is before it
abbrev pub dots : Bytes → Option Bytes
dots (a ∷ b ∷ c ∷ p) = if c == b'/' && (b == b'.' && a == b'.') then some p else none
dots _ = none

-- "/.", and what is before it
abbrev pub dot : Bytes → Option Bytes
dot (a ∷ b ∷ p) = if b == b'/' && a == b'.' then some p else none
dot _ = none

-- while (p >= top)
unfoldable pub clean_loop : ℕ → Bytes → Bytes → ℕ → Run (Bytes × ℕ)
unfolding skip_slashes skip_name copy_name
clean_loop zero p r dot_cnt = fault no_fuel
clean_loop (suc fuel) [] r dot_cnt = ok (r, dot_cnt)
clean_loop (suc fuel) (c ∷ s) r dot_cnt =
    let p = c ∷ s in
    let skipped = clean_loop fuel (skip_slashes (skip_name p)) r (dot_cnt - 1) in
    let (rest, r₁) = copy_name p (if is_empty r then r else b'/' ∷ r) in
    let copied = clean_loop fuel (skip_slashes rest) r₁ dot_cnt in
    let name = if not (dot_cnt == 0) then skipped else copied in
    let inner : Run (Bytes × ℕ) = elim (dots p) [
      | some q ↦ clean_loop fuel (skip_slashes q) r (dot_cnt + 1)
      | none ↦ elim (dot p) [ some q ↦ clean_loop fuel (skip_slashes q) r dot_cnt | none ↦ name ]
    ] in
    if front_dot p then ok (r, dot_cnt) else (if front_dots p then ok (r, dot_cnt + 1) else inner)

-- `*r == '/'` of the text
abbrev pub begins_slash : Bytes → Bool
begins_slash [] = false
begins_slash (c ∷ r) = c == b'/'

-- while (dotCnt--)
unfoldable pub put_dots : ℕ → Bytes → Bytes
put_dots zero r = r
put_dots (suc dot_cnt) r =
    let sep = if not (is_empty r) && not (begins_slash r) then b'/' ∷ r else r in
    put_dots dot_cnt (b'.' ∷ b'.' ∷ sep)

-- the drive in front of a path, and what `top` points at
abbrev pub split_drive : Bytes → Bytes × Bytes
split_drive (a ∷ c ∷ top) = if c == b':' then (a ∷ c ∷ [], top) else ([], a ∷ c ∷ top)
split_drive path = ([], path)

-- `(r[1] == ':') && (r[2] == '\0')`
abbrev pub is_drive : Bytes → Bool
is_drive (a ∷ c ∷ []) = c == b':'
is_drive _ = false

-- the text that is copied to cleanPath
unfoldable pub put_result : Bytes → Bytes
put_result [] = b'.' ∷ []
put_result (c ∷ r) = if is_drive (c ∷ r) then (c ∷ r) ++ b'/' ∷ [] else c ∷ r

-- `maxpath` stands for MAXPATH. The buffer takes the text and a null; as the text only grows, its
-- length is looked at once, at the end.
unfoldable pub clean_path : ℕ → Bytes → Run Bytes
unfolding clean_loop put_dots put_result
clean_path maxpath path = do
  let (drive, top) = split_drive path
  (r, dot_cnt) ← clean_loop (length top + 2) (skip_slashes (reverse top)) [] 0
  let r₁ = if is_empty r || not (begins_slash top) then put_dots dot_cnt r else r
  let r₂ = if begins_slash top then b'/' ∷ r₁ else r₁
  if ltb (length (drive ++ r₂)) maxpath then ok (put_result (drive ++ r₂)) else fault wild
