-- ===== src/Tests/CleanRuns.antt =====
-- Runs of cleanPath.
use bksupport.Base.{◌≡◌, refl, [], ◌∷◌, arith, codes, ok}
use bksupport.CleanPath.{clean_path}
use bksupport.CleanPath.Result.{clean_path-forward}

clean_path-forward_example : clean_path 1024 (codes "../a/b//../c/.") ≡ ok (codes "../a/c")
clean_path-forward_example =
    clean_path-forward 1024 (codes "..")
      (codes "a" ∷ codes "b" ∷ codes "" ∷ codes ".." ∷ codes "c" ∷ codes "." ∷ [])
      (
        (refl, (refl, tt)),
        ((refl, tt), ((refl, tt), (tt, ((refl, (refl, tt)), ((refl, tt), ((refl, tt), tt)))))),
      )
      refl (λ e. cc e) (λ e. cc e) refl (omega arith)

-- the root, `..` in front of a name, and alone
root_run : clean_path 1024 (codes "/../a/") ≡ ok (codes "/a")
unfolding clean_path
root_run = refl

above_root_run : clean_path 1024 (codes "/..") ≡ ok (codes "/..")
unfolding clean_path
above_root_run = refl

empty_run : clean_path 1024 [] ≡ ok (codes ".")
unfolding clean_path
empty_run = refl

-- a file whose name is taken for a drive
drive_run : clean_path 1024 (codes "./x:") ≡ ok (codes "x:/")
unfolding clean_path
drive_run = refl
