-- ===== src/Glob.antt =====
-- utils/glob.c: shell patterns. A C string is its bytes with the terminating null, and a pointer the
-- bytes from its place on, so that reading behind the null is an access outside the object. `lower`
-- stands for the macro C: tolower where case is ignored, and nothing else otherwise. `equals` stands
-- for glob_equals, a variable of the environment. What is printed of a bad pattern is left out.
pub mod Pattern
pub mod Class
pub mod Rounds
pub mod Stars
pub mod Match
pub mod Search
pub mod Wildcards
use bksupport.Base.{
  ℕ, zero, suc, ◌+◌, Bool, true, false, not, ◌&&◌, ◌||◌, List, [], ◌∷◌, Option, none, some, Bytes,
  length, drop, leb, ◌==◌, if◌then◌else◌, Run, ok, fault, wild, no_fuel, ◌>>=◌,
}

-- *p
abbrev pub at : Bytes → Run ℕ
at [] = fault wild
at (c ∷ p) = ok c

-- `strchr(g, ']') != 0`
abbrev pub has_close : Bytes → Bool
has_close [] = false
has_close (c ∷ g) = if c == 0 then false else (if c == b']' then true else has_close g)

-- how one round of the switch ends: a return, `goto star`, or the break in front of `p++; g++`
pub data Next : Type 0 where
  returned : Bool → Next
  goto_star : Bytes → Next
  matched : Bytes → Next

module _ (equals : Bool) (lower : ℕ → ℕ) where
  -- the do loop behind `[` for a byte `c` of the string, and what follows its `]`
  unfoldable pub class_loop : ℕ → Bytes → Bool → Run (Bool × Bytes)
  class_loop c [] found = fault wild
  class_loop c (a ∷ []) found = fault wild
  class_loop c (a ∷ d ∷ []) found =
      let found' = found || lower a == lower c in
      if d == b'-' then fault wild else if d == b']' then ok (found', []) else fault wild
  class_loop c (a ∷ d ∷ e ∷ g) found =
      let one = found || lower a == lower c in
      let many = found || (leb (lower a) (lower c) && leb (lower c) (lower e)) in
      let range = at g >>= λ x. if x == b']' then ok (many, drop 1 g) else class_loop c g many in
      let single = if d == b']' then ok (one, e ∷ g) else class_loop c (d ∷ e ∷ g) one in
      if d == b'-' then range else single

  -- case '['
  unfoldable pub bracket : Bytes → Bytes → Run Next
  bracket p g = do
    d ← at g
    let invert = d == b'^'
    let class = if invert then drop 1 g else g
    let inside : Run Next = do
      c ← at p
      (found, after) ← class_loop c class false
      ok (if (if invert then not found else found) then matched after else returned false)
    if has_close class then inside else ok (returned false)

  -- default
  unfoldable pub literal : Bytes → ℕ → Bytes → Run Next
  literal p c g = do x ← at p; ok (if lower x == lower c then matched g else returned false)

  -- case '*'
  unfoldable pub star_case : Bytes → Run Next
  star_case g = do d ← at g; ok (if d == 0 then returned true else goto_star g)

  -- the switch on `*g`, which is `c`; `g` is what follows it
  unfoldable pub switch : Bytes → ℕ → Bytes → Run Next
  unfolding bracket literal star_case
  switch p c g =
      let any : Run Next = at p >>= λ x. ok (if x == 0 then returned false else matched g) in
      if c == b'?'
      then any
      else if c == b'['
      then bracket p g
      else if c == b'='
      then (if equals then star_case g else literal p c g)
      else if c == b'*'
      then star_case g
      else if c == b'\\'
      then (at g >>= λ d. literal p d (drop 1 g))
      else literal p c g

  -- `*g == '\\' || ...`, where the next place is not looked for
  abbrev pub is_meta : ℕ → Bool
  is_meta d = d == b'\\' || (d == b'[' || (d == b'?' || d == b'*'))

  -- behind the label `star`; `match` is the call of match_one. A byte that the inner loop passes over
  -- is a round of this one, which tests the same and makes no call.
  unfoldable pub star_loop : (Bytes → Bytes → Run Bool) → Bytes → Bytes → Run Bool
  star_loop match [] g = fault wild
  star_loop match (c ∷ p) g =
      let later = star_loop match p g in
      let try : Run Bool = match (c ∷ p) g >>= λ m. if m then ok true else later in
      let round : Run Bool = do
        d ← at g
        if is_meta d then try else (if lower c == lower d then try else later)
      in if c == 0 then ok false else round

  unfoldable pub match_loop : ℕ → Bytes → Bytes → Run Bool
  unfolding switch star_loop
  match_loop zero p g = fault no_fuel
  match_loop (suc fuel) p [] = fault wild
  match_loop (suc fuel) p (c ∷ g) =
      let end : Run Bool = at p >>= λ x. ok (x == 0) in
      let round : Run Bool = do
        next ← switch p c g
        elim next [
          | returned b ↦ ok b
          | goto_star g' ↦ star_loop (match_loop fuel) p g'
          | matched g' ↦ match_loop fuel (drop 1 p) g'
        ]
      in if c == 0 then end else round

  unfoldable pub match_one : Bytes → Bytes → Run Bool
  unfolding match_loop
  match_one string glob = match_loop (length glob + 1) string glob

  -- the globs of an array, or NULL
  unfoldable pub match_globs : Bytes → Option (List Bytes) → Run (Option Bytes)
  unfolding match_one
  match_globs string none = ok none
  match_globs string (some []) = ok none
  match_globs string (some (glob ∷ globs)) = do
    m ← match_one string glob
    if m then ok (some glob) else match_globs string (some globs)

-- the loop of is_glob from `glob` on: what `p` is at the first wildcard
unfoldable pub glob_loop : Bool → Bool → Bytes → Bytes → Option Bytes
glob_loop equals escape p [] = none
glob_loop equals escape p (c ∷ glob) =
    let slash = glob_loop equals escape (c ∷ glob) glob in
    let backslash = glob_loop equals (not escape) p glob in
    let on = glob_loop equals false p glob in
    let wildcard = (c == b'=' && equals) || (c == b'?' || (c == b'*' || c == b'[')) in
    if c == b'/'
    then slash
    else if c == b'\\'
    then backslash
    else if escape
    then on
    else (if wildcard then some p else on)

-- on the bytes without the null
unfoldable pub is_glob : Bool → Bytes → Option Bytes
unfolding glob_loop
is_glob equals glob = glob_loop equals false glob glob
