-- ===== src/Tests/StringRuns.antt =====
-- Runs of the string helpers.
use bksupport.Base.{◌≡◌, refl, [], codes, ok, Returns}
use bksupport.Strings.Substituted.{Substituted, str_subst-Substituted}
use bksupport.Strings.{strcnt, trim, str_subst}

str_subst_run : str_subst (codes "a--b-c--") (codes "--") (codes "/") ≡ ok (codes "a/b-c/")
unfolding str_subst
str_subst_run = refl

trim_run : trim (codes "  a b ") ≡ codes "a b"
unfolding trim
trim_run = refl

trim_spaces : trim (codes "   ") ≡ []
unfolding trim
trim_spaces = refl

strcnt_run : strcnt (codes "a,b,,c") b',' ≡ 3
unfolding strcnt
strcnt_run = refl

str_subst-Substituted_example :
    Returns
      (str_subst (codes "a--b-c--") (codes "--") (codes "/"))
      (Substituted (codes "a--b-c--") (codes "--") (codes "/"))
str_subst-Substituted_example =
    str_subst-Substituted (codes "a--b-c--") b'-' (codes "-") (codes "/")
