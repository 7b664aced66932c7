-- ===== src/Getopt/Long.antt =====
-- One call of getopt on a long option.
use bksupport.Base.{
  ℕ, suc, ◌+◌, ◌≡◌, refl, sym, ap, ◌∙◌, ◌⊎◌, inl, inr, true, false, List, [], ◌∷◌, ◌++◌, Option,
  none, some, append-nil, arith, Bytes, codes, one_of, length, drop, take_append, drop_append, leb,
  leb-false, ◌==◌, ok,
}
use bksupport.Cells.Overwrite.{drop-drop}
use bksupport.LineText.{streq}
use bksupport.Shell.{cspan, is_free_of}
use bksupport.Getopt.Word.{scan, arg_at-drop, drop-behind, drop-inside}
use bksupport.Getopt.{
  Scan, LongOpt, found, head_byte, option_length, find_long, long_found, long_apart, do_long,
  scan_word, getopt, no_word_left,
}

-- The value of a long option: none, behind `=`, or the next word.
pub data Given : Type 0 where
  no_value : Given
  behind_sign in_next : Bytes → Given

abbrev pub given_text : Given → Bytes
given_text (behind_sign v) = b'=' ∷ v
given_text _ = []

abbrev pub given_words : Given → List Bytes
given_words (in_next v) = v ∷ []
given_words _ = []

abbrev pub given_value : Given → Option Bytes
given_value no_value = none
given_value (behind_sign v) = some v
given_value (in_next v) = some v

-- The suffix of the option's name allows the value.
abbrev pub Allows : Bytes → Given → Type 0
Allows suffix no_value = (suffix ≡ []) ⊎ (suffix ≡ codes "|")
Allows suffix (behind_sign v) = (k : ℕ) × (r : Bytes) × (suffix ≡ k ∷ r)
Allows suffix (in_next v) = (r : Bytes) × (suffix ≡ b':' ∷ r) × ((head_byte v == b'-') ≡ false)

-- A name that is not empty, without `=` and `:`.
abbrev pub IsName : Bytes → Type 0
IsName name = (is_free_of (codes "=") name ≡ true) × (is_free_of (codes ":") name ≡ true)

cspan-free : (set s : Bytes) → is_free_of set s ≡ true → cspan set s ≡ (s, [])
unfolding cspan is_free_of
cspan-free set [] e = refl
cspan-free set (c ∷ s) e = ground (arith, cspan-free set s)

cspan-stop :
    (set s : Bytes) (c : ℕ) (t : Bytes)
    → is_free_of set s ≡ true
    → one_of set c ≡ true
    → cspan set (s ++ c ∷ t) ≡ (s, c ∷ t)
unfolding cspan is_free_of
cspan-stop set [] c t e f = rw f refl
cspan-stop set (d ∷ s) c t e f = ground (arith, cspan-stop set s c t)

option_length-name :
    (name : Bytes) (g : Given) → IsName name → option_length (name ++ given_text g) ≡ length name
unfolding option_length
option_length-name name no_value (e, f) =
    rw
      (
        append-nil name,
        option_length,
        cspan-free (codes "=") name e,
        append-nil name,
        cspan-free (codes ":") name f,
      )
      refl
option_length-name name (in_next v) (e, f) =
    rw
      (
        append-nil name,
        option_length,
        cspan-free (codes "=") name e,
        append-nil name,
        cspan-free (codes ":") name f,
      )
      refl
option_length-name name (behind_sign v) (e, f) =
    rw
      (
        option_length,
        cspan-stop (codes "=") name b'=' v e refl,
        cspan-stop (codes "=") name b'=' v e refl,
      )
      refl

-- Behind the words of a long option.
pub given_end :
    (av : List Bytes) (i : ℕ) (w : Bytes) (g : Given) (ws : List Bytes)
    → drop (suc i) av ≡ w ∷ (given_words g ++ ws)
    → drop (suc (suc i + length (given_words g))) av ≡ ws
given_end av i w g ws at =
    let h : suc (suc i + length (given_words g)) ≡ suc i + 1 + length (given_words g) =
      omega arith in
    ap (λ m. drop m av) h
    ∙ sym (drop-drop (length (given_words g)) (suc i + 1) av)
    ∙ ap (drop (length (given_words g))) (drop-behind (suc i) av w (given_words g ++ ws) at)
    ∙ drop_append (given_words g) ws

module _ (av : List Bytes) (opts : Bytes) (ls : List LongOpt) (name : Bytes) (ws : List Bytes)
    (i : ℕ) where
  -- The call looks up the name, and then its suffix and the value.
  do_long-name :
      (g : Given) (st : Scan) (l : LongOpt) (suffix : Bytes)
      → IsName name
      → find_long name ls ≡ ok (some (l, suffix))
      → do_long av (b'-' ∷ b'-' ∷ (name ++ given_text g)) st (some ls)
        ≡ long_found av (given_text g) st l.ret suffix
  unfolding do_long
  do_long-name g st l suffix is found_at =
      rw
        (
          option_length-name name g is,
          take_append name (given_text g),
          found_at,
          option_length-name name g is,
          drop_append name (given_text g),
        )
        refl

  long_given :
      (g : Given) (last ret : ℕ) (suffix : Bytes)
      → Allows suffix g
      → drop (suc i + 1) av ≡ given_words g ++ ws
      → long_found av (given_text g) (scan (suc i) none 1 last 0) ret suffix
        ≡ ok (scan (suc (suc i + length (given_words g))) (given_value g) 1 last 0, found ret)
  unfolding long_found long_apart no_word_left
  long_given no_value last ret suffix (inl e) at =
      let h : suc i + 1 ≡ suc (suc i + 0) = omega arith in rw (e, h) refl
  long_given no_value last ret suffix (inr e) at =
      let h : suc i + 1 ≡ suc (suc i + 0) = omega arith in rw (e, h) refl
  long_given (behind_sign v) last ret suffix (k, r, e) at =
      let h : suc i + 1 ≡ suc (suc i + 0) = omega arith in rw (e, h) refl
  long_given (in_next v) last ret suffix (r, e, f) at =
      let more : (suc i + 1 == length av) ≡ false =
        (let h = drop-inside (suc i + 1) av v ws at in ground arith) in
      let h : suc i + 2 ≡ suc (suc i + 1) = omega arith in
      rw (e, more, arg_at-drop (suc i + 1) av v ws at, f, h) refl

  scan_long :
      (text : Bytes) (st : Scan)
      → (d : ℕ) × (r : Bytes) × (text ≡ d ∷ r)
      → streq text (codes "usage") ≡ false
      → scan_word av opts (some ls) (b'-' ∷ b'-' ∷ text) st
        ≡ do_long av (b'-' ∷ b'-' ∷ text) st (some ls)
  unfolding scan_word streq
  scan_long text st (d, r, e) f = rw (f, e) refl

  -- A call that reads a long option, and moves behind its words.
  pub getopt-long :
      (g : Given) (arg : Option Bytes) (last opt : ℕ) (l : LongOpt) (suffix : Bytes)
      → IsName name
      → (d : ℕ) × (r : Bytes) × (name ≡ d ∷ r)
      → streq (name ++ given_text g) (codes "usage") ≡ false
      → find_long name ls ≡ ok (some (l, suffix))
      → Allows suffix g
      → drop (suc i) av ≡ (b'-' ∷ b'-' ∷ (name ++ given_text g)) ∷ (given_words g ++ ws)
      → getopt av opts (some ls) (scan (suc i) arg 1 last opt)
        ≡ ok (scan (suc (suc i + length (given_words g))) (given_value g) 1 last 0, found l.ret)
  unfolding getopt
  getopt-long g arg last opt l suffix is (d, r, e) usage found_at allows at =
      let begun : (suc i == 0) ≡ false = ground arith in
      let inside : leb (length av) (suc i) ≡ false =
        leb-false (length av) (suc i) (drop-inside (suc i) av _ _ at) in
      rw (begun, inside, arg_at-drop (suc i) av _ _ at)
        (scan_long (name ++ given_text g) _ (d, r ++ given_text g, ap (λ s. s ++ given_text g) e)
            usage
          ∙ do_long-name g _ l suffix is found_at
          ∙ long_given g last l.ret suffix allows (drop-behind (suc i) av _ _ at))
