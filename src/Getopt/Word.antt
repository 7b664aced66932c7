-- ===== src/Getopt/Word.antt =====
-- One call of getopt on a word of option letters.
use bksupport.Base.{
  ℕ, zero, suc, ◌+◌, ◌<◌, ◌≡◌, refl, inl, inr, Bool, true, false, not, List, [], ◌∷◌, Option, none,
  some, arith, Bytes, length, drop, leb, leb-false, ◌==◌, Option-cases, Bool-cases, Run, ok,
}
use bksupport.LineText.{streq}
use bksupport.Getopt.{
  Scan, Answer, LongOpt, found, bad_option, char_at, arg_at, head_byte, find_letter, takes_argument,
  step_letter, short_option, scan_word, getopt, letter_found, letter_argument, letter_alone,
  letter_apart, letter_word, no_word_left,
}

pub arg_at-drop :
    (i : ℕ) (av : List Bytes) (w : Bytes) (ws : List Bytes)
    → drop i av ≡ w ∷ ws
    → arg_at av i ≡ ok w
unfolding arg_at
arg_at-drop zero [] w ws e = cc e
arg_at-drop (suc i) [] w ws e = cc e
arg_at-drop zero (v ∷ av) w ws e = cc e
arg_at-drop (suc i) (v ∷ av) w ws e = arg_at-drop i av w ws e

pub char_at-drop : (k : ℕ) (w : Bytes) (c : ℕ) (r : Bytes) → drop k w ≡ c ∷ r → char_at w k ≡ ok c
unfolding char_at
char_at-drop zero [] c r e = cc e
char_at-drop (suc k) [] c r e = cc e
char_at-drop zero (d ∷ w) c r e = cc e
char_at-drop (suc k) (d ∷ w) c r e = char_at-drop k w c r e

pub char_at-behind :
    (k : ℕ) (w : Bytes) (c : ℕ) (r : Bytes)
    → drop k w ≡ c ∷ r
    → char_at w (k + 1) ≡ ok (head_byte r)
unfolding char_at
char_at-behind zero [] c r e = cc e
char_at-behind (suc k) [] c r e = cc e
char_at-behind zero (d ∷ []) c [] e = refl
char_at-behind zero (d ∷ []) c (x ∷ r) e = cc e
char_at-behind zero (d ∷ x ∷ w) c [] e = cc e
char_at-behind zero (d ∷ x ∷ w) c (y ∷ r) e = cc e
char_at-behind (suc k) (d ∷ w) c r e =
    let f : suc k + 1 ≡ suc (k + 1) = omega arith in rw f (char_at-behind k w c r e)

pub drop-behind {ℓ} :
    {A : Type ℓ} (k : ℕ) (w : List A) (c : A) (r : List A) → drop k w ≡ c ∷ r → drop (k + 1) w ≡ r
drop-behind zero [] c r e = cc e
drop-behind (suc k) [] c r e = cc e
drop-behind zero (d ∷ w) c r e = cc e
drop-behind (suc k) (d ∷ w) c r e =
    let f : suc k + 1 ≡ suc (k + 1) = omega arith in rw f (drop-behind k w c r e)

pub drop-inside {ℓ} :
    {A : Type ℓ} (k : ℕ) (w : List A) (c : A) (r : List A) → drop k w ≡ c ∷ r → k < length w
drop-inside zero [] c r e = cc e
drop-inside (suc k) [] c r e = cc e
drop-inside zero (d ∷ w) c r e = omega arith
drop-inside (suc k) (d ∷ w) c r e = omega (arith, drop-inside k w c r e)

-- The state of a scan at the letter `n` of the word `optind`.
abbrev pub scan : ℕ → Option Bytes → ℕ → ℕ → ℕ → Scan
scan i arg k last opt = record { optopt = opt; optind = i; optarg = arg; n = k; lastn = last }

scan_letters :
    (av : List Bytes) (opts : Bytes) (lopts : Option (List LongOpt)) (d : ℕ) (w : Bytes) (st : Scan)
    → (d == 0) ≡ false
    → (d == b'-') ≡ false
    → scan_word av opts lopts (b'-' ∷ d ∷ w) st ≡ short_option av opts (b'-' ∷ d ∷ w) st
unfolding scan_word streq
scan_letters av opts lopts d w st pos letter = rw (pos, letter) refl

-- The call reads the letter `n` of the word.
pub getopt-letters :
    (av : List Bytes) (opts : Bytes) (lopts : Option (List LongOpt)) (d : ℕ) (w : Bytes)
    (ws : List Bytes) (i : ℕ) (arg : Option Bytes) (k last opt : ℕ)
    → (d == 0) ≡ false
    → (d == b'-') ≡ false
    → drop (suc i) av ≡ (b'-' ∷ d ∷ w) ∷ ws
    → getopt av opts lopts (scan (suc i) arg k last opt)
      ≡ short_option av opts (b'-' ∷ d ∷ w) (scan (suc i) none k last 0)
unfolding getopt
getopt-letters av opts lopts d w ws i arg k last opt pos letter at =
    let begun : (suc i == 0) ≡ false = ground arith in
    let inside : leb (length av) (suc i) ≡ false =
      leb-false (length av) (suc i) (drop-inside (suc i) av _ ws at) in
    rw (begun, inside, arg_at-drop (suc i) av _ ws at) (scan_letters av opts lopts d w _ pos letter)

-- What a call tells its caller.
pub record Event : Type 0 where
  pub answer : Answer
  pub value : Option Bytes
  pub letter : ℕ

-- A letter that takes no argument, or that is no option.
unfoldable pub is_plain : Bytes → ℕ → Bool
is_plain opts c = elim (find_letter c opts) [
  | none ↦ true
  | some behind ↦ not (takes_argument (head_byte behind))
]

unfoldable pub plain_event : Bytes → ℕ → Event
plain_event opts c = elim (find_letter c opts) [
  | none ↦ record { answer = bad_option; value = none; letter = c }
  | some _ ↦ record { answer = found c; value = none; letter = 0 }
]

-- A call that returns, with the state and the event.
abbrev pub Tells : Run (Scan × Answer) → Event → Scan → Type 0
Tells call e st = (call ≡ ok (st, e.answer)) × (st.optarg ≡ e.value) × (st.optopt ≡ e.letter)

is_plain_at :
    (opts : Bytes) (c : ℕ) (behind : Bytes)
    → find_letter c opts ≡ some behind
    → is_plain opts c ≡ not (takes_argument (head_byte behind))
unfolding is_plain
is_plain_at opts c behind f = rw (is_plain, f) refl

plain_takes :
    (opts : Bytes) (c : ℕ) (behind : Bytes)
    → find_letter c opts ≡ some behind
    → is_plain opts c ≡ true
    → takes_argument (head_byte behind) ≡ false
plain_takes opts c behind f e = elim (Bool-cases (takes_argument (head_byte behind))) [
  | inl g ↦ (let h = is_plain_at opts c behind f in ground (arith, h))
  | inr g ↦ g
]

plain_event-none :
    (opts : Bytes) (c : ℕ)
    → find_letter c opts ≡ none
    → plain_event opts c ≡ record { answer = bad_option; value = none; letter = c }
unfolding plain_event
plain_event-none opts c f = rw (plain_event, f) refl

plain_event-some :
    (opts : Bytes) (c : ℕ) (behind : Bytes)
    → find_letter c opts ≡ some behind
    → plain_event opts c ≡ record { answer = found c; value = none; letter = 0 }
unfolding plain_event
plain_event-some opts c behind f = rw (plain_event, f) refl

module _ (av : List Bytes) (opts w : Bytes) (i k last c : ℕ) (pos : (c == 0) ≡ false) where
  pub plain_last :
      drop k w ≡ c ∷ []
      → is_plain opts c ≡ true
      → Tells
          (short_option av opts w (scan i none k last 0))
          (plain_event opts c)
          (scan (i + 1) none 1 k (plain_event opts c).letter)
  unfolding short_option letter_found step_letter
  plain_last at e =
      rw (char_at-drop k w c [] at, pos)
        elim (Option-cases (find_letter c opts)) [
          | inl f ↦ rw (plain_event-none opts c f, f, char_at-behind k w c [] at) (refl, refl, refl)
          | inr (behind, f) ↦
              rw
                (
                  plain_event-some opts c behind f,
                  f,
                  plain_takes opts c behind f e,
                  char_at-behind k w c [] at,
                )
                (refl, refl, refl)
        ]

  pub plain_next :
      (d : ℕ) (r : Bytes)
      → drop k w ≡ c ∷ d ∷ r
      → (d == 0) ≡ false
      → is_plain opts c ≡ true
      → Tells
          (short_option av opts w (scan i none k last 0))
          (plain_event opts c)
          (scan i none (k + 1) k (plain_event opts c).letter)
  unfolding short_option letter_found step_letter
  plain_next d r at f e =
      rw (char_at-drop k w c (d ∷ r) at, pos)
        elim (Option-cases (find_letter c opts)) [
          | inl g ↦
              rw (plain_event-none opts c g, g, char_at-behind k w c (d ∷ r) at, f)
                (refl, refl, refl)
          | inr (behind, g) ↦
              rw
                (
                  plain_event-some opts c behind g,
                  g,
                  plain_takes opts c behind g e,
                  char_at-behind k w c (d ∷ r) at,
                  f,
                )
                (refl, refl, refl)
        ]

  pub joined :
      (d : ℕ) (r behind : Bytes)
      → drop k w ≡ c ∷ d ∷ r
      → (d == 0) ≡ false
      → find_letter c opts ≡ some behind
      → takes_argument (head_byte behind) ≡ true
      → short_option av opts w (scan i none k last 0)
        ≡ ok (scan (i + 1) (some (d ∷ r)) 1 k 0, found c)
  unfolding short_option letter_found letter_argument
  joined d r behind at f found_at takes =
      rw
        (
          char_at-drop k w c (d ∷ r) at,
          pos,
          found_at,
          takes,
          char_at-behind k w c (d ∷ r) at,
          f,
          drop-behind k w c (d ∷ r) at,
        )
        refl

  pub alone :
      (behind : Bytes)
      → drop k w ≡ c ∷ []
      → find_letter c opts ≡ some (b'|' ∷ behind)
      → short_option av opts w (scan i none k last 0) ≡ ok (scan (i + 1) none 1 k 0, found c)
  unfolding short_option letter_found letter_argument letter_alone
  alone behind at found_at =
      rw (char_at-drop k w c [] at, pos, found_at, char_at-behind k w c [] at) refl

  pub apart :
      (behind v : Bytes) (ws : List Bytes)
      → drop k w ≡ c ∷ []
      → find_letter c opts ≡ some (b':' ∷ behind)
      → drop (i + 1) av ≡ v ∷ ws
      → (head_byte v == b'-') ≡ false
      → short_option av opts w (scan i none k last 0) ≡ ok (scan (i + 2) (some v) 1 k 0, found c)
  unfolding short_option letter_found letter_argument letter_alone letter_apart letter_word
      no_word_left
  apart behind v ws at found_at next word =
      let more : (i + 1 == length av) ≡ false =
        (let h = drop-inside (i + 1) av v ws next in ground arith) in
      rw
        (
          char_at-drop k w c [] at,
          pos,
          found_at,
          char_at-behind k w c [] at,
          more,
          arg_at-drop (i + 1) av v ws next,
          word,
        )
        refl
