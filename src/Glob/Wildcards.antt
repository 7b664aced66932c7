-- ===== src/Glob/Wildcards.antt =====
-- is_glob tells the patterns with a wildcard from those without.
use bksupport.Base.{
  ℕ, ◌≡◌, refl, inl, inr, Bool, true, false, not, ◌&&◌, ◌||◌, List, [], ◌∷◌, Option, none, some,
  Bytes, ◌==◌, Bool-cases, or-false,
}
use bksupport.Glob.{glob_loop, is_glob}
use bksupport.Glob.Pattern.{Item, any, many, byte, escaped, class, text, special, AreItems}

abbrev pub has_wildcard : List Item → Bool
has_wildcard [] = false
has_wildcard (byte c ∷ items) = has_wildcard items
has_wildcard (escaped c ∷ items) = has_wildcard items
has_wildcard (_ ∷ items) = true

-- No slash is escaped.
abbrev pub NoEscapedSlash : List Item → Type 0
NoEscapedSlash [] = Unit
NoEscapedSlash (escaped c ∷ items) = ((c == b'/') ≡ false) × NoEscapedSlash items
NoEscapedSlash (_ ∷ items) = NoEscapedSlash items

abbrev pub is_none : Option Bytes → Bool
is_none none = true
is_none (some p) = false

-- The tests of the loop on a byte that means itself.
byte_tests :
    (equals : Bool) (c : ℕ)
    → special equals c ≡ false
    → ((c == b'\\') ≡ false)
      × (((c == b'=' && equals) || (c == b'?' || (c == b'*' || c == b'['))) ≡ false)
byte_tests equals c h =
    let (_, h₁) = or-false (c == 0) _ h in
    let (no_any, h₂) = or-false (c == b'?') _ h₁ in
    let (no_class, h₃) = or-false (c == b'[') _ h₂ in
    let (no_equal, h₄) = or-false (c == b'=' && equals) _ h₃ in
    let (no_star, back) = or-false (c == b'*') _ h₄ in
    (back, rw (no_equal, no_any, no_star, no_class) refl)

glob_loop-text :
    (equals : Bool) (items : List Item) (p : Bytes)
    → AreItems equals items
    → NoEscapedSlash items
    → is_none (glob_loop equals false p (text items)) ≡ not (has_wildcard items)
unfolding glob_loop
glob_loop-text equals [] p k h = refl
glob_loop-text equals (any ∷ items) p k h = refl
glob_loop-text equals (many ∷ items) p k h = refl
glob_loop-text equals (class part parts ∷ items) p k h = refl
glob_loop-text equals (byte c ∷ items) p k h =
    let (back, plain) = byte_tests equals c k.0 in
    elim (Bool-cases (c == b'/')) [
      | inl e ↦ rw e (glob_loop-text equals items (c ∷ text items) k.1 h)
      | inr e ↦ rw (e, back, plain) (glob_loop-text equals items p k.1 h)
    ]
glob_loop-text equals (escaped c ∷ items) p k h = elim (Bool-cases (c == b'\\')) [
  | inl e ↦ rw (h.0, e) (glob_loop-text equals items p k.1 h.1)
  | inr e ↦ rw (h.0, e) (glob_loop-text equals items p k.1 h.1)
]

-- On the text of a pattern in which no slash is escaped, is_glob returns NULL just when the pattern
-- has no wildcard.
pub is_glob-has_wildcard :
    (equals : Bool) (items : List Item)
    → AreItems equals items
    → NoEscapedSlash items
    → is_none (is_glob equals (text items)) ≡ not (has_wildcard items)
unfolding is_glob
is_glob-has_wildcard equals items k h = glob_loop-text equals items (text items) k h
