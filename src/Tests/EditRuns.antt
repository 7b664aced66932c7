-- ===== src/Tests/EditRuns.antt =====
-- Runs of removeLine, uniqLines and parallelLines.
use mathlib.Core.List.{Perm}
use mathlib.Core.List.Perm
use bksupport.Base.{
  ℕ, ◌≡◌, ◌<◌, ◌⊎◌, inl, inr, ==_iff, Bool-cases, subst, ◌∙◌, arith, refl, Bool, true, false, List,
  [], Option, some, none, ◌∷◌, ◌++◌, Bytes, codes, length, ltb, ◌==◌, if◌then◌else◌, Returns, ok,
}
use bksupport.LineText.{streq}
use bksupport.LineEdit.Remove.{others, matches, remove_line-others}
use bksupport.LineEdit.Unique.{AreIn}
use bksupport.LineEdit.Strict.{AreStrict, IsLineOrder, uniq_lines-AreStrict}
use bksupport.LineEdit.{
  remove_loop, first_match, remove_line, uniq_loop, first_dup, uniq_lines, line_at,
}
use bksupport.LineWalk.Merge.{Merge, lefts, rights, visit, parallel_lines-Merge}
use bksupport.LineWalk.{
  Sign, less, same, more, Step, abort, add, parallel_lines, walk_loop, choose, line_if,
}

abbrev lines : List Bytes
lines = codes "b" ∷ codes "a" ∷ codes "b" ∷ []

-- the order of strcmp
abbrev at_most : Bytes → Bytes → Bool
at_most [] t = true
at_most (c ∷ s) [] = false
at_most (c ∷ s) (d ∷ t) = if c == d then at_most s t else ltb c d

abbrev insert : Bytes → List Bytes → List Bytes
insert x [] = x ∷ []
insert x (y ∷ ys) = if at_most x y then x ∷ y ∷ ys else y ∷ insert x ys

abbrev sort : List Bytes → List Bytes
sort [] = []
sort (x ∷ xs) = insert x (sort xs)

remove_line-others_example :
    remove_line lines (codes "b")
    ≡ ok (others (codes "b") lines, length (matches (codes "b") lines), matches (codes "b") lines)
remove_line-others_example = remove_line-others lines (codes "b")

at_most_head :
    (c d : ℕ) (s t : Bytes)
    → at_most (c ∷ s) (d ∷ t) ≡ true
    → ((c ≡ d) × (at_most s t ≡ true)) ⊎ (c < d)
at_most_head c d s t h = elim (Bool-cases (c == d)) [
  | inl e ↦ inl ((==_iff c d).0 e, rw e at h)
  | inr e ↦ inr (below c d (rw e at h))
]
  where
    below : (c d : ℕ) → ltb c d ≡ true → c < d
    below c d h = ground arith

at_most_tail : (c : ℕ) (s t : Bytes) → at_most s t ≡ true → at_most (c ∷ s) (c ∷ t) ≡ true
at_most_tail c s t h = let e : (c == c) ≡ true = ground arith in rw e h

at_most_less : (c d : ℕ) (s t : Bytes) → c < d → at_most (c ∷ s) (d ∷ t) ≡ true
at_most_less c d s t h = ground arith

at_most_trans : (a b c : Bytes) → at_most a b ≡ true → at_most b c ≡ true → at_most a c ≡ true
at_most_trans [] b c h k = refl
at_most_trans (x ∷ a) [] c h k = cc (h, k)
at_most_trans (x ∷ a) (y ∷ b) [] h k = cc (h, k)
at_most_trans (x ∷ a) (y ∷ b) (z ∷ c) h k = elim (at_most_head x y a b h) [
  | inl (e, f) ↦ elim (at_most_head y z b c k) [
    | inl (e', f') ↦
        subst (λ w. at_most (x ∷ a) (w ∷ c) ≡ true) (e ∙ e')
          (at_most_tail x a c (at_most_trans a b c f f'))
    | inr m ↦ at_most_less x z a c (omega arith)
  ]
  | inr m ↦ elim (at_most_head y z b c k) [
    | inl (e', f') ↦ at_most_less x z a c (omega arith)
    | inr m' ↦ at_most_less x z a c (omega arith)
  ]
]

at_most_antisym : (a b : Bytes) → at_most a b ≡ true → at_most b a ≡ true → a ≡ b
at_most_antisym [] [] h k = refl
at_most_antisym [] (y ∷ b) h k = cc k
at_most_antisym (x ∷ a) [] h k = cc h
at_most_antisym (x ∷ a) (y ∷ b) h k = elim (at_most_head x y a b h) [
  | inl (e, f) ↦ elim (at_most_head y x b a k) [
    | inl (e', f') ↦ rw (e, at_most_antisym a b f f') refl
    | inr m ↦ absurd (omega arith)
  ]
  | inr m ↦ elim (at_most_head y x b a k) [
    | inl (e', f') ↦ absurd (omega arith)
    | inr m' ↦ absurd (omega arith)
  ]
]

at_most-IsLineOrder : IsLineOrder at_most
at_most-IsLineOrder = record { transitive = at_most_trans; antisymmetric = at_most_antisym }

uniq_lines-AreStrict_example :
    Returns
      (uniq_lines sort lines)
      (λ r. AreStrict at_most r.0 × Perm (r.0 ++ r.1) lines × AreIn r.1 r.0)
uniq_lines-AreStrict_example =
    uniq_lines-AreStrict at_most at_most-IsLineOrder sort lines (refl, (refl, tt))
      (Perm.swap (codes "b") (codes "a") (codes "b" ∷ []))

remove_run : remove_line lines (codes "b") ≡ ok (codes "a" ∷ [], 2, codes "b" ∷ codes "b" ∷ [])
unfolding remove_line remove_loop first_match line_at streq
remove_run = refl

uniq_run : uniq_lines sort lines ≡ ok (codes "a" ∷ codes "b" ∷ [], codes "b" ∷ [])
unfolding uniq_lines uniq_loop first_dup line_at streq
uniq_run = refl

abbrev sign : Bytes → Bytes → Sign
sign s t = if at_most s t then (if at_most t s then same else less) else more

-- keeps what stands on both sides, and gives up at a line that is only on the right
abbrev keep_common : List Bytes → Option Bytes → Option Bytes → List Bytes × Step
keep_common st (some x) (some y) = (x ∷ st, add 1)
keep_common st (some x) none = (st, add 0)
keep_common st none (some y) = (st, abort 7)
keep_common st none none = (st, add 0)

abbrev abc : List Bytes
abc = codes "a" ∷ codes "b" ∷ codes "c" ∷ []

abbrev bd : List Bytes
bd = codes "b" ∷ codes "d" ∷ []

parallel_lines-Merge_example :
    (ps : List (Option Bytes × Option Bytes)) × Merge sign keep_common abc bd ps
    × (lefts ps ≡ abc)
    × (rights ps ≡ bd)
    × ((st : List Bytes)
        → parallel_lines sign keep_common abc bd st ≡ ok (visit sign keep_common ps st 0))
parallel_lines-Merge_example = parallel_lines-Merge sign keep_common abc bd

walk_run : parallel_lines sign keep_common abc bd [] ≡ ok (codes "b" ∷ [], abort 7)
unfolding parallel_lines walk_loop choose line_if line_at
walk_run = refl
