-- ===== src/Strings.antt =====
-- String helpers of utils: strcnt.c, trim.c and str_subst.c. A C string is its bytes, with no null
-- among them; `isspace` is that of the C locale. The output buffer of `str_subst` is given, apart from
-- the string, and long enough.
pub mod Substituted
pub mod Trimmed
use bksupport.Base.{
  ℕ, zero, suc, ◌+◌, ◌≡◌, Bool, true, false, ◌&&◌, ◌||◌, List, [], ◌∷◌, ◌++◌, Option, none, some,
  Bytes, length, ltb, leb, ◌==◌, if◌then◌else◌, Run, ok, fault, no_fuel, ◌>>=◌,
}

unfoldable pub strcnt : Bytes → ℕ → ℕ
strcnt [] ch = 0
strcnt (c ∷ p) ch = let n = strcnt p ch in if c == ch then n + 1 else n

abbrev pub isspace : ℕ → Bool
isspace c = c == b' ' || (leb 9 c && leb c 13)

-- `while (*s && isspace(*s)) s++`
unfoldable pub skip_spaces : Bytes → Bytes
skip_spaces [] = []
skip_spaces (c ∷ s) = let rest = skip_spaces s in if isspace c then rest else c ∷ s

-- The copying loop: the text copied so far, and the part of it that ends in its last byte that is no
-- space, if there is one; `*trailing = 0` cuts the text there.
unfoldable pub copy_loop : Bytes → Bytes → Option Bytes → Bytes
copy_loop [] copied none = copied
copy_loop [] copied (some kept) = kept
copy_loop (c ∷ s) copied trailing =
    let t = copied ++ c ∷ [] in if isspace c then copy_loop s t trailing else copy_loop s t (some t)

unfoldable pub trim : Bytes → Bytes
unfolding skip_spaces copy_loop
trim buf = copy_loop (skip_spaces buf) [] none

-- What follows `search`, if the text starts with it.
unfoldable pub strip_prefix : Bytes → Bytes → Option Bytes
strip_prefix [] s = some s
strip_prefix (d ∷ search) [] = none
strip_prefix (d ∷ search) (c ∷ s) = if d == c then strip_prefix search s else none

unfoldable pub later : ℕ → Option (Bytes × Bytes) → Option (Bytes × Bytes)
later c none = none
later c (some (lead, rest)) = some (c ∷ lead, rest)

unfoldable pub at_or_later : Option Bytes → Option (Bytes × Bytes) → Option (Bytes × Bytes)
at_or_later (some rest) after = some ([], rest)
at_or_later none after = after

-- `strstr(s, search)`: the text before the first match, and the text behind it
unfoldable pub strstr : Bytes → Bytes → Option (Bytes × Bytes)
unfolding strip_prefix later at_or_later
strstr [] search = at_or_later (strip_prefix search []) none
strstr (c ∷ s) search = at_or_later (strip_prefix search (c ∷ s)) (later c (strstr s search))

unfoldable pub subst_loop : ℕ → Bytes → Bytes → Bytes → Run Bytes
unfolding strstr
subst_loop zero s search replace = fault no_fuel
subst_loop (suc fuel) s search replace = elim (strstr s search) [
  | none ↦ ok s
  | some (lead, rest) ↦
      subst_loop fuel rest search replace >>= λ output. ok (lead ++ replace ++ output)
]

unfoldable pub str_subst : Bytes → Bytes → Bytes → Run Bytes
unfolding subst_loop
str_subst str search replace = subst_loop (suc (length str)) str search replace
