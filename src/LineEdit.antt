-- ===== src/LineEdit.antt =====
-- `removeLine` and `uniqLines` of lines/lines.c, which move the lines that stay to the front of the
-- array, one after the other, and cut it. The array is the list that it stands for; a line without a
-- place there is `wild`. The lines that went to `freep` are part of the result. `sort` stands for sortLines.
pub mod Shift
pub mod Remove
pub mod Unique
pub mod Strict
use bksupport.Base.{
  ℕ, zero, suc, ◌+◌, ◌-◌, Bool, true, false, ◌&&◌, List, [], ◌∷◌, ◌++◌, Option, none, some, Bytes,
  length, set, take, ltb, leb, ◌==◌, if◌then◌else◌, Run, ok, fault, wild, no_fuel, ◌>>=◌,
}
use bksupport.LineText.{streq}

-- `space[i]`
unfoldable pub line_at : List Bytes → ℕ → Run Bytes
line_at space zero = fault wild
line_at [] (suc i) = fault wild
line_at (x ∷ space) (suc zero) = ok x
line_at (x ∷ space) (suc (suc i)) = line_at space (suc i)

-- from the first match on: the array after the call, the number of matches, the matches
unfoldable pub remove_loop :
    ℕ → Bytes → List Bytes → ℕ → ℕ → ℕ → List Bytes → Run (List Bytes × ℕ × List Bytes)
remove_loop zero s space src dst n freed = fault no_fuel
remove_loop (suc fuel) s space src dst n freed =
    let round : Run (List Bytes × ℕ × List Bytes) = do
      x ← line_at space src
      let gone = remove_loop fuel s space (src + 1) dst (n + 1) (freed ++ x ∷ [])
      let kept = remove_loop fuel s (set space dst x) (src + 1) (dst + 1) n freed
      if streq x s then gone else kept
    in if leb src (length space) then round else ok (take dst space, n, freed)

-- the first line that is `s`, or 0
unfoldable pub first_match : ℕ → Bytes → List Bytes → ℕ
first_match src s [] = 0
first_match src s (x ∷ space) =
    let rest = first_match (src + 1) s space in if streq x s then src else rest

unfoldable pub remove_line : List Bytes → Bytes → Run (List Bytes × ℕ × List Bytes)
unfolding remove_loop first_match
remove_line space s =
    let src = first_match 1 s space in
    let rest = remove_loop (length space + 1) s space src (src - 1) 0 [] in
    if src == 0 then ok (space, 0, []) else rest

-- the first line that is the same as the one before it, or 0
unfoldable pub first_dup : ℕ → List Bytes → ℕ
first_dup src [] = 0
first_dup src (x ∷ []) = 0
first_dup src (x ∷ y ∷ space) =
    let rest = first_dup (src + 1) (y ∷ space) in if streq x y then src + 1 else rest

-- from the first such line on: the array after the call, and the lines that went
unfoldable pub uniq_loop : ℕ → List Bytes → ℕ → ℕ → List Bytes → Run (List Bytes × List Bytes)
uniq_loop zero space src dst freed = fault no_fuel
uniq_loop (suc fuel) space src dst freed =
    let round : Run (List Bytes × List Bytes) = do
      x ← line_at space src
      y ← line_at space dst
      let gone = uniq_loop fuel space (src + 1) dst (freed ++ x ∷ [])
      let kept = uniq_loop fuel (set space dst x) (src + 1) (dst + 1) freed
      if streq x y then gone else kept
    in if leb src (length space) then round else ok (take dst space, freed)

module _ (sort : List Bytes → List Bytes) where
  unfoldable pub uniq_lines : List Bytes → Run (List Bytes × List Bytes)
  unfolding uniq_loop first_dup
  uniq_lines lines =
      let space = sort lines in
      let src = first_dup 1 space in
      let rest = uniq_loop (length space + 1) space src (src - 1) [] in
      if src == 0 then ok (space, []) else rest
