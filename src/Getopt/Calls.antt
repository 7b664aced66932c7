-- ===== src/Getopt/Calls.antt =====
-- The calls of getopt on a word of letters, one after the other.
use bksupport.Base.{
  ℕ, suc, ◌+◌, ◌≡◌, refl, sym, ap, ◌∙◌, subst, inl, inr, List-cases, List, [], ◌∷◌, ◌++◌, Option,
  none, some, arith, Bytes, drop, ok,
}
use bksupport.Getopt.Word.{
  Event, scan, Tells, getopt-letters, plain_last, plain_next, joined, alone, apart, drop-behind,
}
use bksupport.Getopt.{Scan, LongOpt, eof, getopt}
use bksupport.Getopt.Render.{
  Tail, nothing, with_value, without, with_word, tail_text, tail_words, tail_events, letters_events,
  IsLetter, AreLetters, IsTail, head-IsLetter, ended,
}

module _ (av : List Bytes) (opts : Bytes) (lopts : Option (List LongOpt)) where
  -- Call after call of getopt, until it returns EOF: the events, and the place of the first argument.
  pub data Scans : Scan → List Event → ℕ → Type 0 where
    stop : (st st' : Scan) → getopt av opts lopts st ≡ ok (st', eof) → Scans st [] st'.optind
    call :
        (st st' : Scan) (e : Event) (es : List Event) (m : ℕ)
        → Tells (getopt av opts lopts st) e st'
        → Scans st' es m
        → Scans st (e ∷ es) m

  -- The calls give the events, and then the arguments are left.
  abbrev pub Ends : List Bytes → Scan → List Event → Type 0
  Ends args st es = (m : ℕ) × Scans st es m × (drop m av ≡ args)

  pub call-Ends :
      (args : List Bytes) (st st' : Scan) (e : Event) (es : List Event)
      → Tells (getopt av opts lopts st) e st'
      → Ends args st' es
      → Ends args st (e ∷ es)
  call-Ends args st st' e es told (m, scans, at) = (m, call st st' e es m told scans, at)

  pub restart :
      (args : List Bytes) (st st₁ : Scan) (es : List Event)
      → getopt av opts lopts st ≡ getopt av opts lopts st₁
      → Ends args st₁ es
      → Ends args st es
  restart args st st₁ es e (_, stop _ st' h, at) = (st'.optind, stop st st' (e ∙ h), at)
  restart args st st₁ es e (m, call _ st' ev es' _ (h, value, letter) scans, at) =
      (m, call st st' ev es' m (e ∙ h, value, letter) scans, at)

  -- Whatever the last call left behind, what follows is scanned from the word `j`.
  abbrev pub Goes : List Bytes → List Event → List Bytes → Type 0
  Goes rest es args =
      (j last opt : ℕ) (arg : Option Bytes)
      → drop (suc j) av ≡ rest
      → Ends args (scan (suc j) arg 1 last opt) es

  next_word_scanned :
      (i : ℕ) (rest : List Bytes) (es : List Event) (args : List Bytes) (last opt : ℕ)
      (arg : Option Bytes)
      → Goes rest es args
      → drop (suc i + 1) av ≡ rest
      → Ends args (scan (suc i + 1) arg 1 last opt) es
  next_word_scanned i rest es args last opt arg more e =
      let h : suc i + 1 ≡ suc (suc i) = omega arith in
      subst (λ m. Ends args (scan m arg 1 last opt) es) (sym h)
        (more (suc i) last opt arg (ap (λ m. drop m av) (sym h) ∙ e))

  module _ (d : ℕ) (w : Bytes) (rest : List Bytes) (i : ℕ) (es : List Event) (args : List Bytes)
      (letter : IsLetter d) (more : Goes rest es args) where
    abbrev word : Bytes
    word = b'-' ∷ d ∷ w

    -- The end of a word.
    tail_scanned :
        (t : Tail) (c : ℕ) (r : Bytes) (k : ℕ)
        → IsTail opts t
        → tail_text t ≡ c ∷ r
        → drop (suc i) av ≡ word ∷ (tail_words t ++ rest)
        → drop k word ≡ tail_text t
        → (last opt : ℕ) (arg : Option Bytes)
        → Ends args (scan (suc i) arg k last opt) (tail_events t ++ es)
    tail_scanned nothing c r k is e at at' last opt arg = absurd (cc e)
    tail_scanned (with_value c []) _ _ k (_, _, _, _, g) e at at' last opt arg = absurd (cc g)
    tail_scanned (with_value c (x ∷ v)) _ _ k (l, behind, f, takes, g) e at at' last opt arg =
        call-Ends args _ _ _ _
          (
            getopt-letters av opts lopts d w rest i arg k last opt letter.0 letter.1 at
                ∙ joined av opts word (suc i) k last c l.0 x v behind at' g f takes,
            refl,
            refl,
          )
          (next_word_scanned i rest es args k 0 (some (x ∷ v)) more
            (drop-behind (suc i) av word rest at))
    tail_scanned (without c) _ _ k (l, behind, f) e at at' last opt arg =
        call-Ends args _ _ _ _
          (
            getopt-letters av opts lopts d w rest i arg k last opt letter.0 letter.1 at
                ∙ alone av opts word (suc i) k last c l.0 behind at' f,
            refl,
            refl,
          )
          (next_word_scanned i rest es args k 0 none more (drop-behind (suc i) av word rest at))
    tail_scanned (with_word c v) _ _ k (l, behind, f, g) e at at' last opt arg =
        let next : drop (suc i + 1) av ≡ v ∷ rest = drop-behind (suc i) av word (v ∷ rest) at in
        let h : suc i + 2 ≡ suc (suc (suc i)) = omega arith in
        let h' : suc i + 1 ≡ suc (suc i) = omega arith in
        let h'' : suc (suc (suc i)) ≡ suc (suc i) + 1 = omega arith in
        call-Ends args _ _ _ _
          (
            getopt-letters av opts lopts d w (v ∷ rest) i arg k last opt letter.0 letter.1 at
                ∙ apart av opts word (suc i) k last c l.0 behind v rest at' f next g,
            refl,
            refl,
          )
          (subst (λ m. Ends args (scan m (some v) 1 k 0) es) (sym h)
            (more (suc (suc i)) k 0 (some v) (
              ap (λ m. drop m av) h''
              ∙ drop-behind (suc (suc i)) av v rest (ap (λ m. drop m av) (sym h') ∙ next))))

    -- A word from one of its letters on.
    pub letters_scanned :
        (cs : Bytes) (t : Tail) (c : ℕ) (r : Bytes) (k : ℕ)
        → AreLetters opts cs
        → IsTail opts t
        → cs ++ tail_text t ≡ c ∷ r
        → drop (suc i) av ≡ word ∷ (tail_words t ++ rest)
        → drop k word ≡ cs ++ tail_text t
        → (last opt : ℕ) (arg : Option Bytes)
        → Ends args (scan (suc i) arg k last opt) ((letters_events opts cs ++ tail_events t) ++ es)
    letters_scanned [] t c r k are is e at at' last opt arg =
        tail_scanned t c r k is e at at' last opt arg
    letters_scanned (c ∷ cs) t _ _ k (l, plain, are) is e at at' last opt arg =
        let calls =
          getopt-letters av opts lopts d w (tail_words t ++ rest) i arg k last opt letter.0 letter.1
            at in
        elim (List-cases (cs ++ tail_text t)) [
          | inl g ↦
              let told =
                plain_last av opts word (suc i) k last c l.0 (at' ∙ ap (λ r. c ∷ r) g) plain in
              let none_left = ended opts cs t g in
              call-Ends args _ _ _ _ (calls ∙ told.0, told.1, told.2)
                (rw (none_left.0, none_left.1)
                  (next_word_scanned i rest es args k _ none more (
                    drop-behind (suc i) av word rest
                      (at ∙ ap (λ ws. word ∷ (ws ++ rest)) none_left.2))))
          | inr (x, r, g) ↦
              let told =
                plain_next av opts word (suc i) k last c l.0 x r (at' ∙ ap (λ r. c ∷ r) g)
                  (head-IsLetter opts cs t x r are is g).0 plain in
              call-Ends args _ _ _ _ (calls ∙ told.0, told.1, told.2)
                (letters_scanned cs t x r (k + 1) are is g at (drop-behind k word c _ at') k _ none)
        ]
