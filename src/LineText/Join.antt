-- ===== src/LineText/Join.antt =====
-- `joinLines` puts the separator between the strings, and `splitLine` takes them apart again.
use bksupport.Base.{
  ℕ, zero, suc, ◌-◌, ◌<◌, ◌≡◌, refl, ap, ◌∙◌, true, false, List, [], ◌∷◌, ◌++◌, append_assoc,
  append-nil, some, arith, Bytes, one_of, length, length-append, take, drop, take_append,
  drop_append,
}
use bksupport.LineText.{join_loop, join_lines, strspn, strcspn, split_from, split_line}

-- Each string with the separator in front.
abbrev pub led_by : Bytes → List Bytes → Bytes
led_by sep [] = []
led_by sep (s ∷ lines) = sep ++ (s ++ led_by sep lines)

join_loop-led_by :
    (sep s : Bytes) (lines : List Bytes)
    → join_loop (some sep) (s ∷ lines) ≡ (s ++ led_by sep lines) ++ sep
unfolding join_loop
join_loop-led_by sep s [] = simp (append-nil, append_assoc)
join_loop-led_by sep s (t ∷ lines) =
    ap (λ x. s ++ (sep ++ x)) (join_loop-led_by sep t lines) ∙ simp append_assoc

cut_append : (s sep : Bytes) → take (length (s ++ sep) - length sep) (s ++ sep) ≡ s
cut_append s sep =
    let e : length (s ++ sep) - length sep ≡ length s = rw length-append (omega arith) in
    rw e (take_append s sep)

-- With a separator `joinLines` gives the strings with it between each two of them.
pub join_lines_lem :
    (sep s : Bytes) (lines : List Bytes)
    → join_lines (some sep) (s ∷ lines) ≡ some (s ++ led_by sep lines)
unfolding join_lines
join_lines_lem sep s lines =
    ap (λ b. some (take (length b - length sep) b)) (join_loop-led_by sep s lines)
    ∙ ap some (cut_append (s ++ led_by sep lines) sep)

-- No byte of the string is a delimiter.
abbrev pub IsFree : Bytes → Bytes → Type 0
IsFree delim [] = Unit
IsFree delim (c ∷ s) = (one_of delim c ≡ false) × IsFree delim s

-- A string that `splitLine` can return.
abbrev pub IsToken : Bytes → Bytes → Type 0
IsToken delim [] = ⊥
IsToken delim (c ∷ s) = (one_of delim c ≡ false) × IsFree delim s

abbrev pub AllTokens : Bytes → List Bytes → Type 0
AllTokens delim [] = Unit
AllTokens delim (s ∷ lines) = IsToken delim s × AllTokens delim lines

module _ (delim : Bytes) (d : ℕ) (isd : one_of delim d ≡ true) where
  strcspn_free :
      (s : Bytes) (lines : List Bytes)
      → IsFree delim s
      → strcspn delim (s ++ led_by (d ∷ []) lines) ≡ length s
  unfolding strcspn
  strcspn_free [] [] h = refl
  strcspn_free [] (t ∷ lines) h = rw isd
  strcspn_free (c ∷ s) lines h = rw h.0 (ap suc (strcspn_free s lines h.1))

  skip_delim :
      (c : ℕ) (s : Bytes)
      → one_of delim c ≡ false
      → drop (strspn delim (d ∷ c ∷ s)) (d ∷ c ∷ s) ≡ c ∷ s
  unfolding strspn
  skip_delim c s h = rw (isd, h)

  no_delim :
      (c : ℕ) (s : Bytes) → one_of delim c ≡ false → drop (strspn delim (c ∷ s)) (c ∷ s) ≡ c ∷ s
  unfolding strspn
  no_delim c s h = rw h

  -- One token is taken from the front.
  split_token :
      (fuel c : ℕ) (s : Bytes) (lines tokens : List Bytes) (line : Bytes)
      → IsToken delim (c ∷ s)
      → drop (strspn delim line) line ≡ (c ∷ s) ++ led_by (d ∷ []) lines
      → split_from (suc fuel) line delim tokens
        ≡ split_from fuel (led_by (d ∷ []) lines) delim (tokens ++ (c ∷ s) ∷ [])
  unfolding split_from
  split_token fuel c s lines tokens line h e =
      let len = strcspn_free (c ∷ s) lines h in
      rw
        (
          e,
          len,
          take_append (c ∷ s) (led_by (d ∷ []) lines),
          drop_append (c ∷ s) (led_by (d ∷ []) lines),
        )
        (ground arith)

  split_led :
      (fuel : ℕ) (lines tokens : List Bytes)
      → AllTokens delim lines
      → length (led_by (d ∷ []) lines) < fuel
      → split_from fuel (led_by (d ∷ []) lines) delim tokens ≡ some (tokens ++ lines)
  split_led zero lines tokens h f = absurd (omega arith)
  split_led (suc fuel) [] tokens h f = rw append-nil (unfold split_from in refl)
  split_led (suc fuel) ([] ∷ lines) tokens h f = absurd h.0
  split_led (suc fuel) ((c ∷ s) ∷ lines) tokens h f =
      split_token fuel c s lines tokens (led_by (d ∷ []) ((c ∷ s) ∷ lines)) h.0
        (skip_delim c (s ++ led_by (d ∷ []) lines) h.0.0)
      ∙ split_led fuel lines (tokens ++ (c ∷ s) ∷ []) h.1
          (omega (arith, length-append s (led_by (d ∷ []) lines)))
      ∙ ap some (append_assoc tokens ((c ∷ s) ∷ []) lines)

  split_start :
      (line : Bytes) (tokens : List Bytes)
      → split_line line delim tokens ≡ split_from (suc (length line)) line delim tokens
  unfolding split_line
  split_start line tokens = refl

  -- `splitLine` gives back the tokens that `joinLines` put together with a delimiter between them,
  -- behind those that the array had: the tokens are not empty and hold no delimiter.
  pub split_line-join_lines :
      (s : Bytes) (lines tokens : List Bytes)
      → AllTokens delim (s ∷ lines)
      → {line : Bytes} → join_lines (some (d ∷ [])) (s ∷ lines) ≡ some line
      → split_line line delim tokens ≡ some (tokens ++ s ∷ lines)
  split_line-join_lines [] lines tokens h e = absurd h.0
  split_line-join_lines (c ∷ s) lines tokens h {line} e =
      let whole : line ≡ (c ∷ s) ++ led_by (d ∷ []) lines =
        cc (join_lines_lem (d ∷ []) (c ∷ s) lines) in
      let text = (c ∷ s) ++ led_by (d ∷ []) lines in
      ap (λ t. split_line t delim tokens) whole
      ∙ split_start text tokens
      ∙ split_token (length text) c s lines tokens text h.0
          (no_delim c (s ++ led_by (d ∷ []) lines) h.0.0)
      ∙ split_led (length text) lines (tokens ++ (c ∷ s) ∷ []) h.1
          (omega (arith, length-append s (led_by (d ∷ []) lines)))
      ∙ ap some (append_assoc tokens ((c ∷ s) ∷ []) lines)
