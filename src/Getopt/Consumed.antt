-- ===== src/Getopt/Consumed.antt =====
-- getoptConsumed: a caller that used up only the head of an argument.
use bksupport.Base.{
  ℕ, suc, ◌+◌, ◌-◌, ◌≡◌, refl, sym, ap, ◌∙◌, subst, true, false, List, [], ◌∷◌, ◌++◌, Option, some,
  arith, Bytes, length, drop, drop_append, ◌==◌, ok,
}
use bksupport.Cells.Overwrite.{drop-drop}
use bksupport.Shell.{is_free_of}
use bksupport.Getopt.Word.{
  Tells, scan, is_plain, plain_event, plain_last, plain_next, joined, getopt-letters,
}
use bksupport.Getopt.{
  Scan, LongOpt, found, head_byte, find_letter, takes_argument, getopt, getopt_consumed,
}

consumed :
    (i k n opt : ℕ) (arg : Option Bytes)
    → getopt_consumed (scan (suc i + 1) arg 1 k opt) n ≡ scan (suc i) arg (k + n) k opt
unfolding getopt_consumed
consumed i k n opt arg =
    let h : suc i + 1 - 1 ≡ suc i = omega arith in
    let g : (suc i == 0) ≡ false = ground arith in rw (h, g) refl

behind_used :
    (k : ℕ) (w u : Bytes) (c x : ℕ) (r : Bytes)
    → drop k w ≡ c ∷ (u ++ x ∷ r)
    → drop (k + suc (length u)) w ≡ x ∷ r
behind_used k w u c x r e =
    sym (drop-drop (suc (length u)) k w) ∙ ap (drop (suc (length u))) e ∙ drop_append u (x ∷ r)

head_used : (z : ℕ) (r : Bytes) → is_free_of (0 ∷ []) (z ∷ r) ≡ true → (z == 0) ≡ false
unfolding is_free_of
head_used z r e = ground arith

module _ (av : List Bytes) (opts : Bytes) (lopts : Option (List LongOpt)) (d x : ℕ) (w : Bytes)
    (ws : List Bytes) (i : ℕ) (dp : (d == 0) ≡ false) (dl : (d == b'-') ≡ false)
    (xp : (x == 0) ≡ false) (at : drop (suc i) av ≡ (b'-' ∷ d ∷ w) ∷ ws)
    (plain : is_plain opts x ≡ true) where
  -- The call at a letter that takes no argument.
  plain_call :
      (k last opt : ℕ) (arg : Option Bytes) (r : Bytes)
      → is_free_of (0 ∷ []) r ≡ true
      → drop k (b'-' ∷ d ∷ w) ≡ x ∷ r
      → (st' : Scan) × Tells
          (getopt av opts lopts (scan (suc i) arg k last opt))
          (plain_event opts x)
          st'
  plain_call k last opt arg [] free here =
      let told = plain_last av opts (b'-' ∷ d ∷ w) (suc i) k last x xp here plain in
      (_, (getopt-letters av opts lopts d w ws i arg k last opt dp dl at ∙ told.0, told.1, told.2))
  plain_call k last opt arg (z ∷ r) free here =
      let told =
        plain_next av opts (b'-' ∷ d ∷ w) (suc i) k last x xp z r here (head_used z r free) plain in
      (_, (getopt-letters av opts lopts d w ws i arg k last opt dp dl at ∙ told.0, told.1, told.2))

-- When getopt gave a letter the rest of the word for its argument, and the caller says that it
-- used the letter and the first bytes of the argument, the next call reads the letter behind
-- these, when that letter takes no argument, or reports it, when it is no option.
pub getopt-getopt_consumed :
    (av : List Bytes) (opts : Bytes) (lopts : Option (List LongOpt)) (d c y x : ℕ)
    (w u r behind : Bytes) (ws : List Bytes) (i : ℕ) (arg : Option Bytes) (k last opt : ℕ)
    → (d == 0) ≡ false
    → (d == b'-') ≡ false
    → (c == 0) ≡ false
    → (y == 0) ≡ false
    → (x == 0) ≡ false
    → is_free_of (0 ∷ []) r ≡ true
    → drop (suc i) av ≡ (b'-' ∷ d ∷ w) ∷ ws
    → drop k (b'-' ∷ d ∷ w) ≡ c ∷ ((y ∷ u) ++ x ∷ r)
    → find_letter c opts ≡ some behind
    → takes_argument (head_byte behind) ≡ true
    → is_plain opts x ≡ true
    → (st st' : Scan) × (getopt av opts lopts (scan (suc i) arg k last opt) ≡ ok (st, found c))
      × (st.optarg ≡ some ((y ∷ u) ++ x ∷ r))
      × Tells
          (getopt av opts lopts (getopt_consumed st (suc (length (y ∷ u)))))
          (plain_event opts x)
          st'
getopt-getopt_consumed av opts lopts d c y x w u r behind ws i arg k last opt dp dl cp yp xp rp at
      here f takes plain =
    let call =
      plain_call av opts lopts d x w ws i dp dl xp at plain (k + suc (suc (length u))) k 0
        (some (y ∷ (u ++ x ∷ r))) r rp (behind_used k (b'-' ∷ d ∷ w) (y ∷ u) c x r here) in
    (
      scan (suc i + 1) (some (y ∷ (u ++ x ∷ r))) 1 k 0,
      call.0,
      getopt-letters av opts lopts d w ws i arg k last opt dp dl at
          ∙ joined av opts (b'-' ∷ d ∷ w) (suc i) k last c cp y (u ++ x ∷ r) behind here yp f takes,
      refl,
      subst (λ st. Tells (getopt av opts lopts st) (plain_event opts x) call.0)
          (sym (consumed i k (suc (suc (length u))) 0 (some (y ∷ (u ++ x ∷ r))))) call.1,
    )
