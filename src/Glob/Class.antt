-- ===== src/Glob/Class.antt =====
-- The loop over a class reads its text.
use mathlib.Core.Bool.{or_assoc}
use bksupport.Base.{
  ℕ, ◌≡◌, refl, ◌∙◌, append_assoc, Bool, true, false, ◌||◌, List, [], ◌∷◌, ◌++◌, arith, Bytes, ◌==◌,
  if◌then◌else◌, ok,
}
use bksupport.Glob.{class_loop, has_close}
use bksupport.Glob.Pattern.{
  Part, one, range, part_text, parts_text, in_part, in_parts, class_special, IsPart, AreParts,
}

or_last : (a b : Bool) → (a || b) ≡ (a || (b || false))
or_last true b = refl
or_last false true = refl
or_last false false = refl

no_mark : (a : ℕ) → class_special a ≡ false → ((a == b']') ≡ false) × ((a == b'-') ≡ false)
no_mark a h = ground arith

pub no_null : (a : ℕ) → class_special a ≡ false → (a == 0) ≡ false
no_null a h = ground arith

module _ (lower : ℕ → ℕ) (equals : Bool) (c : ℕ) where
  single :
      (a d : ℕ) (t : Bytes) (found : Bool)
      → (d == b'-') ≡ false
      → class_loop equals lower c (a ∷ d ∷ t) found ≡ (
          if d == b']'
          then ok (found || lower a == lower c, t)
          else class_loop equals lower c (d ∷ t) (found || lower a == lower c))
  unfolding class_loop
  single a d [] found h = rw h refl
  single a d (e ∷ t) found h = rw h refl

  pub class_loop-class :
      (part : Part) (parts : List Part) (rest : Bytes) (found : Bool)
      → IsPart part
      → AreParts parts
      → class_loop equals lower c (part_text part ++ (parts_text parts ++ b']' ∷ rest)) found
        ≡ ok (found || (in_part lower part c || in_parts lower parts c), rest)
  unfolding class_loop
  class_loop-class (one a) [] rest found h hs =
      single a b']' rest found refl ∙ rw (or_last found (lower a == lower c)) refl
  class_loop-class (one a) (one d ∷ parts) rest found h (k, hs) =
      single a d (parts_text parts ++ b']' ∷ rest) found (no_mark d k).1
      ∙ rw (no_mark d k).0 (
          class_loop-class (one d) parts rest (found || lower a == lower c) k hs
          ∙ rw
              (or_assoc found (lower a == lower c)
                (in_part lower (one d) c || in_parts lower parts c))
              refl)
  class_loop-class (one a) (range d e ∷ parts) rest found h (k, hs) =
      single a d (b'-' ∷ e ∷ (parts_text parts ++ b']' ∷ rest)) found (no_mark d k.0).1
      ∙ rw (no_mark d k.0).0 (
          class_loop-class (range d e) parts rest (found || lower a == lower c) k hs
          ∙ rw
              (or_assoc found (lower a == lower c)
                (in_part lower (range d e) c || in_parts lower parts c))
              refl)
  class_loop-class (range a b) [] rest found h hs =
      rw (or_last found (in_part lower (range a b) c)) refl
  class_loop-class (range a b) (one d ∷ parts) rest found h (k, hs) = rw (no_mark d k).0 (
      class_loop-class (one d) parts rest (found || in_part lower (range a b) c) k hs
      ∙ rw
          (or_assoc found (in_part lower (range a b) c)
            (in_part lower (one d) c || in_parts lower parts c))
          refl)
  class_loop-class (range a b) (range d e ∷ parts) rest found h (k, hs) = rw (no_mark d k.0).0 (
      class_loop-class (range d e) parts rest (found || in_part lower (range a b) c) k hs
      ∙ rw
          (or_assoc found (in_part lower (range a b) c)
            (in_part lower (range d e) c || in_parts lower parts c))
          refl)

pub has_close-class :
    (part : Part) (parts : List Part) (rest : Bytes)
    → IsPart part
    → AreParts parts
    → has_close (part_text part ++ (parts_text parts ++ b']' ∷ rest)) ≡ true
has_close-class (one a) [] rest h hs = rw (no_null a h, (no_mark a h).0) refl
has_close-class (one a) (q ∷ parts) rest h (k, hs) =
    rw (no_null a h, (no_mark a h).0)
      (rw (append_assoc (part_text q) (parts_text parts) (b']' ∷ rest))
        (has_close-class q parts rest k hs))
has_close-class (range a b) [] rest h hs =
    rw (no_null a h.0, (no_mark a h.0).0, no_null b h.1, (no_mark b h.1).0) refl
has_close-class (range a b) (q ∷ parts) rest h (k, hs) =
    rw (no_null a h.0, (no_mark a h.0).0, no_null b h.1, (no_mark b h.1).0)
      (rw (append_assoc (part_text q) (parts_text parts) (b']' ∷ rest))
        (has_close-class q parts rest k hs))
