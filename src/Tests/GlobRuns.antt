-- ===== src/Tests/GlobRuns.antt =====
-- Runs of the patterns.
use bksupport.Base.{
  ℕ, ◌≡◌, refl, ◌<◌, true, false, List, [], ◌∷◌, none, some, arith, codes, ◌==◌, Returns, ok, fault,
  wild,
}
use bksupport.Glob.{match_one, match_globs, is_glob, class_loop}
use bksupport.Glob.Pattern.{Item, any, many, byte, class, one, range, null, Matches}
use bksupport.Glob.Rounds.{Holds}
use bksupport.Glob.Match.{match_one-Matches}
use bksupport.Glob.Search.{First, match_globs-First, match_one_past_end}

abbrev same : ℕ → ℕ
same c = c

null_least : (c : ℕ) → (c == 0) ≡ false → 0 < c
null_least c h = ground arith

-- `*.[ch]`, `a?` and `x*y`
abbrev sources : List Item
sources = many ∷ byte b'.' ∷ class (one b'c') (one b'h' ∷ []) ∷ []

abbrev two_bytes : List Item
two_bytes = byte b'a' ∷ any ∷ []

abbrev ends : List Item
ends = byte b'x' ∷ many ∷ byte b'y' ∷ []

match_one-Matches_example :
    Returns
      (match_one false same (null (codes "glob.c")) (null (codes "*.[ch]")))
      (λ b. Holds b (Matches same sources (codes "glob.c")))
match_one-Matches_example =
    match_one-Matches false same null_least sources (codes "glob.c")
      (tt, (refl, ((refl, (refl, tt)), tt))) refl (refl, (refl, (refl, (refl, (refl, (refl, tt))))))

match_globs-First_example :
    Returns
      (match_globs false same
        (null (codes "xzy"))
        (some (null (codes "a?") ∷ null (codes "x*y") ∷ [])))
      (First same (codes "xzy") (two_bytes ∷ ends ∷ []))
match_globs-First_example =
    match_globs-First false same null_least (two_bytes ∷ ends ∷ []) (codes "xzy")
      (((refl, (tt, tt)), refl), (((refl, (tt, (refl, tt))), refl), tt)) (refl, (refl, (refl, tt)))

match_one_past_end_example :
    match_one false same (null (codes "ab")) (null (codes "ab[^0-9]")) ≡ fault wild
match_one_past_end_example =
    match_one_past_end false same null_least (codes "ab") (range b'0' b'9') [] (refl, (refl, tt))
      (refl, refl) tt

match_run : match_one false same (null (codes "glob.c")) (null (codes "*.[ch]")) ≡ ok true
unfolding match_one class_loop
match_run = refl

-- a star behind a star takes a byte
stars_run : match_one false same (null (codes "a")) (null (codes "a**")) ≡ ok false
unfolding match_one
stars_run = refl

-- a slash behind a backslash hides the wildcard that follows
slash_run : is_glob false (codes "a\\/*") ≡ none
unfolding is_glob
slash_run = refl
