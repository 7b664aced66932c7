-- ===== src/Tests/ShellRuns.antt =====
-- Runs of `shellquote` and `shellSplit`.
use bksupport.Base.{arith, ◌≡◌, refl, [], ◌∷◌, true, false, Bytes, codes, ok, fault, exited}
use bksupport.LineText.{join_lines}
use bksupport.Shell.RoundTrip.{
  AllQuotable, shell_split-shellquote, shell_split-shellquote_backquote,
}
use bksupport.Shell.{Item, shellquote, shell_split, is_free_of, double_quoted_step}

abbrev word : Bytes → Item
word s = record { text = s; meta = false }

abbrev meta_item : Bytes → Item
meta_item s = record { text = s; meta = true }

split_mixed :
    shell_split (codes "a 'b c' \"d\\\"e\\f\" 2>&1 >> x\\ y")
    ≡ ok (
        word (codes "a")
        ∷ word (codes "b c")
        ∷ word (codes "d\"e\\f")
        ∷ meta_item (codes "2>&1")
        ∷ meta_item (codes ">>")
        ∷ word (codes "x y")
        ∷ [])
unfolding shell_split double_quoted_step
split_mixed = refl

split_unmatched : shell_split (codes "a 'b") ≡ fault exited
unfolding shell_split
split_unmatched = refl

-- An escaped digit before `>` still makes a shell function.
split_escaped_digit :
    shell_split (codes "\\2>x") ≡ ok (meta_item (codes "2>") ∷ word (codes "x") ∷ [])
unfolding shell_split
split_escaped_digit = refl

-- The empty string is quoted to nothing, and no word comes back.
split_empty : shell_split (shellquote []) ≡ ok []
unfolding shell_split shellquote
split_empty = refl

abbrev first : Bytes
first = codes "say \"hi\""

abbrev second : Bytes
second = codes "plain"

both-AllQuotable : AllQuotable (first ∷ second ∷ [])
unfolding is_free_of
both-AllQuotable = (
  record { filled = λ e. cc e; no_backquote = λ e. cc e },
  (record { filled = λ e. cc e; no_backquote = λ e. refl }, tt),
)

shell_split-shellquote_example :
    shell_split (codes "\"say \\\"hi\\\"\" plain") ≡ ok (word first ∷ word second ∷ [])
unfolding join_lines shellquote
shell_split-shellquote_example =
    shell_split-shellquote first (second ∷ []) both-AllQuotable refl (omega arith)

shell_split-shellquote_backquote_example : shell_split (shellquote (codes "a`b")) ≡ fault exited
unfolding is_free_of
shell_split-shellquote_backquote_example =
    shell_split-shellquote_backquote (codes "a") (codes "b") refl refl (omega arith)
