-- ===== src/Strings/Trimmed.antt =====
-- `trim` takes the spaces off both ends.
use bksupport.Base.{
  ℕ, ◌≡◌, inl, inr, refl, sym, ap, ◌∙◌, subst, ◌≢◌, true, false, [], ◌∷◌, ◌++◌, append_assoc,
  append-nil, none, some, Bool-cases, Bytes,
}
use bksupport.Strings.{isspace, skip_spaces, copy_loop, trim}

abbrev pub AllSpaces : Bytes → Type 0
AllSpaces [] = Unit
AllSpaces (c ∷ s) = (isspace c ≡ true) × AllSpaces s

-- A text with a byte at its head, and one at its end, that is no space; or the empty text.
pub data IsTrim : Bytes → Type 0 where
  empty : IsTrim []
  single : (c : ℕ) → isspace c ≡ false → IsTrim (c ∷ [])
  ends : (c d : ℕ) (s : Bytes) → isspace c ≡ false → isspace d ≡ false → IsTrim (c ∷ (s ++ d ∷ []))

-- The text is the trimmed one with spaces around it.
pub record Trimmed (buf kept : Bytes) : Type 0 where
  pub left : Bytes
  pub right : Bytes
  pub left_spaces : AllSpaces left
  pub right_spaces : AllSpaces right
  pub joined : buf ≡ left ++ (kept ++ right)
  pub is_trim : IsTrim kept

AllSpaces-append : (s : Bytes) (c : ℕ) → AllSpaces s → isspace c ≡ true → AllSpaces (s ++ c ∷ [])
AllSpaces-append [] c a e = (e, tt)
AllSpaces-append (d ∷ s) c a e = (a.0, AllSpaces-append s c a.1 e)

IsTrim-append :
    (kept spaces : Bytes) (d : ℕ)
    → IsTrim kept
    → kept ≢ []
    → isspace d ≡ false
    → IsTrim (kept ++ spaces ++ d ∷ [])
IsTrim-append _ spaces d empty some_byte e = absurd (some_byte refl)
IsTrim-append _ spaces d (single c f) some_byte e = ends c d spaces f e
IsTrim-append _ spaces d (ends c b s f g) some_byte e =
    subst IsTrim (ap (λ r. c ∷ r) refl) (ends c d (s ++ b ∷ [] ++ spaces) f e)

snoc-Filled : (t : Bytes) (c : ℕ) → t ++ c ∷ [] ≢ []
snoc-Filled [] c = λ e. cc e
snoc-Filled (d ∷ t) c = λ e. cc e

-- The text with the spaces at its end cut off.
record Cut (whole out : Bytes) : Type 0 where
  right : Bytes
  spaces : AllSpaces right
  is_trim : IsTrim out
  joined : whole ≡ out ++ right

copy_loop-Cut :
    (s copied kept spaces whole : Bytes)
    → IsTrim kept
    → kept ≢ []
    → AllSpaces spaces
    → copied ≡ kept ++ spaces
    → whole ≡ copied ++ s
    → Cut whole (copy_loop s copied (some kept))
unfolding copy_loop
copy_loop-Cut [] copied kept spaces whole t p a e w = record {
  right = spaces;
  spaces = a;
  is_trim = t;
  joined = w ∙ append-nil copied ∙ e;
}
copy_loop-Cut (c ∷ s) copied kept spaces whole t p a e w =
    let w' : whole ≡ (copied ++ c ∷ []) ++ s = w ∙ sym (append_assoc copied (c ∷ []) s) in
    elim (Bool-cases (isspace c)) [
      | inl f ↦ rw (f) (
          copy_loop-Cut s (copied ++ c ∷ []) kept (spaces ++ c ∷ []) whole t p
            (AllSpaces-append spaces c a f)
            (ap (λ r. r ++ c ∷ []) e ∙ append_assoc kept spaces (c ∷ [])) w')
      | inr f ↦ rw (f) (
          copy_loop-Cut s (copied ++ c ∷ []) (copied ++ c ∷ []) [] whole
            (subst (λ r. IsTrim (r ++ c ∷ [])) (sym e) (IsTrim-append kept spaces c t p f))
            (snoc-Filled copied c) tt (sym (append-nil (copied ++ c ∷ []))) w')
    ]

abbrev HeadOk : Bytes → Type 0
HeadOk [] = Unit
HeadOk (c ∷ s) = isspace c ≡ false

record Skipped (buf rest : Bytes) : Type 0 where
  left : Bytes
  spaces : AllSpaces left
  head_ok : HeadOk rest
  joined : buf ≡ left ++ rest

skip_spaces-Skipped : (buf : Bytes) → Skipped buf (skip_spaces buf)
unfolding skip_spaces
skip_spaces-Skipped [] = record { left = []; spaces = tt; head_ok = tt; joined = refl }
skip_spaces-Skipped (c ∷ buf) = elim (Bool-cases (isspace c)) [
  | inl e ↦
      let r = skip_spaces-Skipped buf in
      rw (e) (record {
        left = c ∷ r.left;
        spaces = (e, r.spaces);
        head_ok = r.head_ok;
        joined = ap (λ x. c ∷ x) r.joined;
      })
  | inr e ↦ rw (e) (record { left = []; spaces = tt; head_ok = e; joined = refl })
]

copy_start : (rest : Bytes) → HeadOk rest → Cut rest (copy_loop rest [] none)
unfolding copy_loop
copy_start [] h = record { right = []; spaces = tt; is_trim = empty; joined = refl }
copy_start (c ∷ s) h =
    rw (h)
      (copy_loop-Cut s (c ∷ []) (c ∷ []) [] (c ∷ s) (single c h) (snoc-Filled [] c) tt refl refl)

-- trim gives the string without spaces around it: it is empty, or starts and ends with a byte that is
-- no space.
pub trim-Trimmed : (buf : Bytes) → Trimmed buf (trim buf)
unfolding trim
trim-Trimmed buf =
    let r = skip_spaces-Skipped buf in
    let c = copy_start (skip_spaces buf) r.head_ok in
    record {
      left = r.left;
      right = c.right;
      left_spaces = r.spaces;
      right_spaces = c.spaces;
      joined = r.joined ∙ ap (λ x. r.left ++ x) c.joined;
      is_trim = c.is_trim;
    }
