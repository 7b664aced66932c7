-- ===== src/Getopt/NoArgument.antt =====
-- An option letter whose argument is missing.
use bksupport.Base.{
  ℕ, suc, ◌+◌, ◌≡◌, refl, sym, ap, ◌∙◌, false, List, [], ◌∷◌, Option, none, some, arith, Bytes,
  length, drop, ◌==◌, ok, fault, assert_failed,
}
use bksupport.Getopt.Word.{scan, char_at-drop, char_at-behind, drop-behind, getopt-letters}
use bksupport.Getopt.{
  LongOpt, no_argument, char_at, find_letter, short_option, letter_found, letter_argument,
  letter_alone, getopt,
}

char_at-end : (w : Bytes) → char_at w (length w) ≡ ok 0
unfolding char_at
char_at-end [] = refl
char_at-end (c ∷ w) = char_at-end w

-- When an option with `;` ends a word and has no argument, getopt reports that and moves to the
-- next word, but keeps its place in the word: when the next word is an option word as long as that place, the next call fails
-- its assertion.
pub no_argument_next :
    (av : List Bytes) (opts : Bytes) (lopts : Option (List LongOpt)) (d d' c : ℕ)
    (w w' behind : Bytes) (ws : List Bytes) (i : ℕ) (arg : Option Bytes) (k last opt : ℕ)
    → (d == 0) ≡ false
    → (d == b'-') ≡ false
    → (d' == 0) ≡ false
    → (d' == b'-') ≡ false
    → (c == 0) ≡ false
    → drop (suc i) av ≡ (b'-' ∷ d ∷ w) ∷ (b'-' ∷ d' ∷ w') ∷ ws
    → drop k (b'-' ∷ d ∷ w) ≡ c ∷ []
    → find_letter c opts ≡ some (b';' ∷ behind)
    → length (b'-' ∷ d' ∷ w') ≡ k
    → (getopt av opts lopts (scan (suc i) arg k last opt)
        ≡ ok (scan (suc (suc i)) none k last c, no_argument))
      × (getopt av opts lopts (scan (suc (suc i)) none k last c) ≡ fault assert_failed)
unfolding short_option letter_found letter_argument letter_alone
no_argument_next av opts lopts d d' c w w' behind ws i arg k last opt dp dl d'p d'l cp at here
      found_at long =
    let h : suc i + 1 ≡ suc (suc i) = omega arith in
    let next : drop (suc (suc i)) av ≡ (b'-' ∷ d' ∷ w') ∷ ws =
      ap (λ m. drop m av) (sym h) ∙ drop-behind (suc i) av _ _ at in
    (
      getopt-letters av opts lopts d w _ i arg k last opt dp dl at
          ∙ rw
              (
                char_at-drop k (b'-' ∷ d ∷ w) c [] here,
                cp,
                found_at,
                char_at-behind k (b'-' ∷ d ∷ w) c [] here,
                h,
              )
              refl,
      getopt-letters av opts lopts d' w' ws (suc i) none k last c d'p d'l next
          ∙ rw (← long, char_at-end w') refl,
    )
