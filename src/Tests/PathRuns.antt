-- ===== src/Tests/PathRuns.antt =====
-- Runs of the path helpers.
use bksupport.Base.{◌≡◌, refl, some, codes, ok}
use bksupport.Paths.Joined.{dirname-concat_path}
use bksupport.Paths.{dirname, concat_path, concat_before, ends_slash_dot}

dirname_run : dirname (codes "/usr//lib/") ≡ codes "/usr"
unfolding dirname
dirname_run = refl

dirname_root : dirname (codes "//") ≡ codes "/"
unfolding dirname
dirname_root = refl

dirname_name : dirname (codes "name") ≡ codes "."
unfolding dirname
dirname_name = refl

concat_path_run : concat_path (some (codes "a/.")) (some (codes "/b")) ≡ ok (codes "a/b")
unfolding concat_path
concat_path_run = refl

concat_before_run : concat_before (some (codes "a")) (codes "b") ≡ codes "a/b"
unfolding concat_before
concat_before_run = refl

dirname-concat_path_example :
    (concat_path (some (codes "a/b")) (some (codes "cd")) ≡ ok (codes "a/b/cd"))
    × (dirname (codes "a/b/cd") ≡ codes "a/b")
unfolding ends_slash_dot
dirname-concat_path_example =
    dirname-concat_path (codes "a/") b'b' b'c' (codes "d") refl refl (refl, (refl, tt))
