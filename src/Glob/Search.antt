-- ===== src/Glob/Search.antt =====
-- match_globs finds the first pattern that matches, and a class that excludes bytes lets match_one run
-- past the end of the string.
use bksupport.Base.{
  ℕ, zero, suc, ◌+◌, ◌<◌, ◌≡◌, refl, sym, ap, subst, ◌∙◌, Bool, true, false, List, [], ◌∷◌, ◌++◌,
  append_assoc, map, Option, none, some, arith, Bytes, length, length-append, ◌==◌, if◌then◌else◌,
  Run, Returns, ok, fault, wild,
}
use bksupport.Glob.{match_loop, match_one, match_globs, switch, bracket}
use bksupport.Glob.Class.{class_loop-class, has_close-class}
use bksupport.Glob.Pattern.{
  Part, Item, text, part_text, parts_text, Matches, double_star, special, IsPart, AreParts,
  AreItems, IsText, null,
}
use bksupport.Glob.Rounds.{Holds, byte_round, part_end, parts_end}
use bksupport.Glob.Match.{match_one-Matches}

abbrev pub globs_of : List (List Item) → List Bytes
globs_of patterns = map (λ items. null (text items)) patterns

module _ (lower : ℕ → ℕ) where
  abbrev pub NoMatch : List (List Item) → Bytes → Type 0
  NoMatch [] s = Unit
  NoMatch (items ∷ patterns) s = (¬ Matches lower items s) × NoMatch patterns s

  -- The answer is the first pattern that matches, or NULL, when there is none.
  pub data First (s : Bytes) : List (List Item) → Option Bytes → Type 0 where
    no_glob : (patterns : List (List Item)) → NoMatch patterns s → First s patterns none
    first :
        (before after : List (List Item)) (items : List Item)
        → NoMatch before s
        → Matches lower items s
        → First s (before ++ items ∷ after) (some (null (text items)))

  First-later :
      (s : Bytes) (items : List Item) (patterns : List (List Item)) (o : Option Bytes)
      → ¬ Matches lower items s
      → First s patterns o
      → First s (items ∷ patterns) o
  First-later s items _ _ miss (no_glob patterns missed) = no_glob (items ∷ patterns) (miss, missed)
  First-later s items _ _ miss (first before after found missed m) =
      first (items ∷ before) after found (miss, missed) m

abbrev pub AllItems : Bool → List (List Item) → Type 0
AllItems equals [] = Unit
AllItems equals (items ∷ patterns) =
    (AreItems equals items × (double_star items ≡ false)) × AllItems equals patterns

abbrev pub AllPlain : Bool → Bytes → Type 0
AllPlain equals [] = Unit
AllPlain equals (c ∷ s) = (special equals c ≡ false) × AllPlain equals s

-- the text of a class that excludes bytes
abbrev pub inverted : Part → List Part → Bytes
inverted part parts = b'[' ∷ b'^' ∷ (part_text part ++ (parts_text parts ++ b']' ∷ []))

null-inverted :
    (part : Part) (parts : List Part)
    → null (inverted part parts)
      ≡ b'[' ∷ b'^' ∷ (part_text part ++ (parts_text parts ++ b']' ∷ (0 ∷ [])))
null-inverted part parts =
    ap (λ r. b'[' ∷ b'^' ∷ r)
      (append_assoc (part_text part) (parts_text parts ++ b']' ∷ []) (0 ∷ [])
        ∙ ap (λ r. part_text part ++ r) (append_assoc (parts_text parts) (b']' ∷ []) (0 ∷ [])))

module _ (equals : Bool) (lower : ℕ → ℕ)
    (low : (c : ℕ) → (c == 0) ≡ false → lower 0 < lower c) where
  answer-First :
      (found : Bool) (s : Bytes) (items : List Item) (patterns : List (List Item))
      (o : Option Bytes) (rest : Run (Option Bytes))
      → Holds found (Matches lower items s)
      → rest ≡ ok o
      → First lower s patterns o
      → Returns
          (if found then ok (some (null (text items))) else rest)
          (First lower s (items ∷ patterns))
  answer-First true s items patterns o rest m run f =
      (some (null (text items)), refl, first [] patterns items tt m)
  answer-First false s items patterns o rest miss run f =
      (o, run, First-later lower s items patterns o miss f)

  -- match_globs on an array of patterns, of bytes that mean themselves, escaped bytes, `?`, `*` and classes
  -- without `^`, in which no `*` follows another, returns the first of them that matches the string, or
  -- NULL when none does, where `*` stands for any bytes. This holds when `lower` keeps the null below
  -- every other byte.
  pub match_globs-First :
      (patterns : List (List Item)) (s : Bytes)
      → AllItems equals patterns
      → IsText s
      → Returns
          (match_globs equals lower (null s) (some (globs_of patterns)))
          (First lower s patterns)
  unfolding match_globs
  match_globs-First [] s k full = (none, refl, no_glob [] tt)
  match_globs-First (items ∷ patterns) s k full =
      let (found, run, answer) = match_one-Matches equals lower low items s k.0.0 k.0.1 full in
      let (o, later, f) = match_globs-First patterns s k.1 full in
      rw run (answer-First found s items patterns o _ answer later f)

  same_byte : (c : ℕ) → (c == c) ≡ true
  same_byte c = ground arith

  inverted-wild :
      (fuel : ℕ) (part : Part) (parts : List Part)
      → IsPart part
      → AreParts parts
      → match_loop equals lower
          (suc (suc fuel))
          (null [])
          (b'[' ∷ b'^' ∷ (part_text part ++ (parts_text parts ++ b']' ∷ (0 ∷ []))))
        ≡ fault wild
  unfolding match_loop switch bracket
  inverted-wild fuel part parts h hs =
      rw
        (
          has_close-class part parts (0 ∷ []) h hs,
          class_loop-class lower equals 0 part parts (0 ∷ []) false h hs,
          part_end equals lower low part h,
          parts_end equals lower low parts hs,
        )
        refl

  plain-wild :
      (s : Bytes) (part : Part) (parts : List Part) (fuel : ℕ)
      → AllPlain equals s
      → IsPart part
      → AreParts parts
      → 1 + length s < fuel
      → match_loop equals lower fuel (null s) (null (s ++ inverted part parts)) ≡ fault wild
  plain-wild s part parts zero k h hs le = absurd (omega arith)
  plain-wild s part parts (suc zero) k h hs le = absurd (omega arith)
  plain-wild [] part parts (suc (suc fuel)) k h hs le =
      subst (λ glob. match_loop equals lower (suc (suc fuel)) (null []) glob ≡ fault wild)
        (sym (null-inverted part parts)) (inverted-wild fuel part parts h hs)
  plain-wild (c ∷ s) part parts (suc fuel) (k, ks) h hs le =
      byte_round equals lower low fuel c c s (null (s ++ inverted part parts)) k
      ∙ rw (same_byte (lower c)) (plain-wild s part parts fuel ks h hs (omega arith))

  -- When the pattern is the string, of bytes that mean themselves, with a class of the form `[^...]` behind,
  -- match_one reads past the terminating null of the string.
  pub match_one_past_end :
      (s : Bytes) (part : Part) (parts : List Part)
      → AllPlain equals s
      → IsPart part
      → AreParts parts
      → match_one equals lower (null s) (null (s ++ inverted part parts)) ≡ fault wild
  unfolding match_one
  match_one_past_end s part parts k h hs =
      plain-wild s part parts (length (null (s ++ inverted part parts)) + 1) k h hs (
        omega (
          arith,
          length-append (s ++ inverted part parts) (0 ∷ []),
          length-append s (inverted part parts),
        ))
