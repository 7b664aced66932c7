-- ===== src/LineText.antt =====
-- The functions of lines/lines.c on arrays of strings that build new values: `joinLines`,
-- `splitLine`, `findLine`, `sameLines` and `parallelLines`. An array is the list of its strings, in
-- the order in which EACH reads them; the array code itself is in Lines.
pub mod Join
use bksupport.Base.{
  ℕ, zero, suc, ◌+◌, ◌-◌, Bool, true, false, List, [], ◌∷◌, ◌++◌, Option, none, some, Bytes, one_of,
  length, take, drop, ◌==◌, ltb, leb, if◌then◌else◌,
}

-- streq
unfoldable pub streq : Bytes → Bytes → Bool
streq [] [] = true
streq [] (d ∷ t) = false
streq (c ∷ s) [] = false
streq (c ∷ s) (d ∷ t) = if c == d then streq s t else false

-- the result is a position from 1, or 0
unfoldable pub find_from : ℕ → Bytes → List Bytes → ℕ
find_from i needle [] = 0
find_from i needle (s ∷ haystack) =
    let rest = find_from (i + 1) needle haystack in if streq needle s then i else rest

unfoldable pub find_line : List Bytes → Bytes → ℕ
unfolding find_from
find_line haystack needle = find_from 1 needle haystack

unfoldable pub same_from : List Bytes → List Bytes → Bool
same_from [] q = true
same_from (s ∷ p) [] = false
same_from (s ∷ p) (t ∷ q) = if streq s t then same_from p q else false

-- a null array is `none`, and is the same as no array
unfoldable pub same_lines : Option (List Bytes) → Option (List Bytes) → Bool
unfolding same_from
same_lines (some p) (some q) = if length p == length q then same_from p q else false
same_lines _ _ = false

-- each string with the separator behind it
unfoldable pub join_loop : Option Bytes → List Bytes → Bytes
join_loop sep [] = []
join_loop none (s ∷ lines) = s ++ join_loop none lines
join_loop (some sep) (s ∷ lines) = s ++ (sep ++ join_loop (some sep) lines)

-- `p -= slen; *p = 0`
unfoldable pub cut_end : Option Bytes → Bytes → Bytes
cut_end none buf = buf
cut_end (some sep) buf = take (length buf - length sep) buf

-- the null pointer for an empty array
unfoldable pub join_lines : Option Bytes → List Bytes → Option Bytes
unfolding join_loop cut_end
join_lines sep [] = none
join_lines sep (s ∷ lines) = some (cut_end sep (join_loop sep (s ∷ lines)))

-- strspn and strcspn
unfoldable pub strspn : Bytes → Bytes → ℕ
strspn delim [] = 0
strspn delim (c ∷ s) = if one_of delim c then suc (strspn delim s) else 0

unfoldable pub strcspn : Bytes → Bytes → ℕ
strcspn delim [] = 0
strcspn delim (c ∷ s) = if one_of delim c then 0 else suc (strcspn delim s)

-- `none` when the rounds run out
unfoldable pub split_from : ℕ → Bytes → Bytes → List Bytes → Option (List Bytes)
unfolding strspn strcspn
split_from zero line delim tokens = none
split_from (suc fuel) line delim tokens =
    let line' = drop (strspn delim line) line in
    let len = strcspn delim line' in
    let rest = split_from fuel (drop len line') delim (tokens ++ take len line' ∷ []) in
    if len == 0 then some tokens else rest

unfoldable pub split_line : Bytes → Bytes → List Bytes → Option (List Bytes)
unfolding split_from
split_line line delim tokens = split_from (suc (length line)) line delim tokens
