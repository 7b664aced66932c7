-- ===== src/Getopt/CommandLine.antt =====
-- getopt reads back a whole command line.
use bksupport.Base.{
  not, ◌||◌, ◌≤◌, leb, leb-true, leb-false, length-drop, ℕ, suc, ◌+◌, ◌≡◌, refl, sym, ap, ◌∙◌, true,
  false, List, [], ◌∷◌, ◌++◌, Option, none, append_assoc, arith, Bytes, codes, length, drop, ◌==◌,
  ok,
}
use bksupport.LineText.{streq}
use bksupport.Getopt.Long.{getopt-long, given_end, given_text, given_words, given_value}
use bksupport.Getopt.Word.{scan, drop-behind, drop-inside, arg_at-drop}
use bksupport.Getopt.{Scan, LongOpt, found, head_byte, getopt, getopt_reset, scan_word}
use bksupport.Getopt.Render.{Item, tail_words, render, events, word, long, AreItems, head-IsLetter}
use bksupport.Getopt.Calls.{Ends, stop, Goes, call-Ends, restart, letters_scanned}

-- What stands behind the options, and the arguments that are left: all that is behind `--`, or
-- from a word on that does not begin with `-`, or is `-`, or none.
pub data Stops : List Bytes → List Bytes → Type 0 where
  dashes : (args : List Bytes) → Stops (codes "--" ∷ args) args
  nothing_left : Stops [] []
  plain_word :
      (w : Bytes) (args : List Bytes)
      → (not (head_byte w == b'-') || head_byte (drop 1 w) == 0) ≡ true
      → Stops (w ∷ args) (w ∷ args)

drop_empty {ℓ} : {A : Type ℓ} (i : ℕ) (xs : List A) → drop i xs ≡ [] → length xs ≤ i
drop_empty i xs e =
    (let h = length-drop i xs in let g : length (drop i xs) ≡ 0 = ap length e in omega arith)

module _ (av : List Bytes) (opts : Bytes) (lopts : Option (List LongOpt)) where
  -- With no option left, one call returns EOF.
  rest_scanned : (rest args : List Bytes) → Stops rest args → Goes av opts lopts rest [] args
  unfolding getopt scan_word streq
  rest_scanned _ _ (dashes args) j last opt arg at =
      let begun : (suc j == 0) ≡ false = ground arith in
      let inside : leb (length av) (suc j) ≡ false =
        leb-false (length av) (suc j) (drop-inside (suc j) av _ args at) in
      (
        suc j + 1,
        stop _ (scan (suc j + 1) none 1 1 0)
            (rw (begun, inside, arg_at-drop (suc j) av _ args at) refl),
        drop-behind (suc j) av _ args at,
      )
  rest_scanned _ _ nothing_left j last opt arg at =
      let begun : (suc j == 0) ≡ false = ground arith in
      let outside : leb (length av) (suc j) ≡ true =
        leb-true (length av) (suc j) (drop_empty (suc j) av at) in
      (suc j, stop _ (scan (suc j) none 1 last 0) (rw (begun, outside) refl), at)
  rest_scanned _ _ (plain_word w args g) j last opt arg at =
      let begun : (suc j == 0) ≡ false = ground arith in
      let inside : leb (length av) (suc j) ≡ false =
        leb-false (length av) (suc j) (drop-inside (suc j) av _ args at) in
      (
        suc j,
        stop _ (scan (suc j) none 1 last 0)
            (rw (begun, inside, arg_at-drop (suc j) av _ args at, g) refl),
        at,
      )

  items_scanned :
      (rest args : List Bytes) (xs : List Item)
      → Stops rest args
      → AreItems opts lopts xs
      → Goes av opts lopts (render xs ++ rest) (events opts xs) args
  items_scanned rest args [] stops are j last opt arg at =
      rest_scanned rest args stops j last opt arg at
  items_scanned rest args (word cs t ∷ xs) stops ((letters, tail, (d, w, e)), are) j last opt arg
        at =
      let at' : drop (suc j) av ≡ (b'-' ∷ d ∷ w) ∷ (tail_words t ++ (render xs ++ rest)) =
        at
        ∙ ap (λ v. (b'-' ∷ v) ∷ ((tail_words t ++ render xs) ++ rest)) e
        ∙ ap (λ ws. (b'-' ∷ d ∷ w) ∷ ws) (append_assoc (tail_words t) (render xs) rest) in
      letters_scanned av opts lopts d w (render xs ++ rest) j (events opts xs) args
        (head-IsLetter opts cs t d w letters tail e) (items_scanned rest args xs stops are) cs t d w
        1 letters tail e at' (sym e) last opt arg
  items_scanned rest args (long name ret g ∷ xs) stops
        ((ls, l, suffix, is_some, is, usage, found_at, same, allows, named), are) j last opt arg
        at =
      let at' =
        at
        ∙ ap (λ ws. (b'-' ∷ b'-' ∷ (name ++ given_text g)) ∷ ws)
            (append_assoc (given_words g) (render xs) rest) in
      let called =
        getopt-long av opts ls name (render xs ++ rest) j g arg last opt l suffix is named usage
          found_at allows at' in
      call-Ends av opts lopts args _
        (scan (suc (suc j + length (given_words g))) (given_value g) 1 last 0) _ _
        (
          ap (λ lo. getopt av opts lo (scan (suc j) arg 1 last opt)) is_some
              ∙ called
              ∙ ap
                  (λ n.
                    ok (
                      scan (suc (suc j + length (given_words g))) (given_value g) 1 last 0,
                      found n,
                    ))
                  same,
          refl,
          refl,
        )
        (items_scanned rest args xs stops are (suc j + length (given_words g)) last 0
          (given_value g) (given_end av j _ g (render xs ++ rest) at'))

  first_call :
      (st : Scan)
      → getopt av opts lopts (getopt_reset st) ≡ getopt av opts lopts (scan 1 none 1 st.n 0)
  unfolding getopt getopt_reset
  first_call st = refl

-- From a reset on, the calls of getopt read the options of a command line one after the other,
-- each with its argument, report the letters that are no option, and leave the arguments.
pub getopt-render :
    (prog : Bytes) (opts : Bytes) (lopts : Option (List LongOpt)) (xs : List Item)
    (rest args : List Bytes) (st : Scan)
    → AreItems opts lopts xs
    → Stops rest args
    → Ends (prog ∷ (render xs ++ rest)) opts lopts args (getopt_reset st) (events opts xs)
getopt-render prog opts lopts xs rest args st are stops =
    restart (prog ∷ (render xs ++ rest)) opts lopts args (getopt_reset st) (scan 1 none 1 st.n 0)
      (events opts xs) (first_call (prog ∷ (render xs ++ rest)) opts lopts st)
      (items_scanned (prog ∷ (render xs ++ rest)) opts lopts rest args xs stops are 0 st.n 0 none
        refl)
