-- ===== src/LineEdit/Remove.antt =====
-- removeLine keeps the other lines.
use bksupport.Base.{
  ℕ, zero, suc, ◌+◌, ◌-◌, ◌<◌, ◌≡◌, refl, ap, ◌∙◌, inl, inr, ◌⊎◌, true, false, List, [], ◌∷◌, ◌++◌,
  append_assoc, append-nil, arith, Bytes, length, length-append, leb, leb-true, leb-false, ◌==◌,
  if◌then◌else◌, Bool-cases, ok,
}
use bksupport.LineText.{streq}
use bksupport.LineEdit.Shift.{
  array, next_index, line_at-array, length-array, take-array, array-drop, moved, set-array,
  next_index-drop, next_index-moved, length-snoc,
}
use bksupport.LineEdit.{remove_loop, first_match, remove_line}

-- The lines that are not `s`, and those that are.
abbrev pub others : Bytes → List Bytes → List Bytes
others s [] = []
others s (x ∷ lines) = if streq x s then others s lines else x ∷ others s lines

abbrev pub matches : Bytes → List Bytes → List Bytes
matches s [] = []
matches s (x ∷ lines) = if streq x s then x ∷ matches s lines else matches s lines

remove_loop-rest :
    (s : Bytes) (rest done gap : List Bytes) (fuel n : ℕ) (freed : List Bytes)
    → length rest < fuel
    → remove_loop fuel s (array done gap rest) (next_index done gap) (length done) n freed
      ≡ ok (done ++ others s rest, n + length (matches s rest), freed ++ matches s rest)
unfolding remove_loop
remove_loop-rest s rest done gap zero n freed h = absurd (omega arith)
remove_loop-rest s [] done gap (suc fuel) n freed h =
    let past : leb (next_index done gap) (length (array done gap [])) ≡ false =
      leb-false _ _ (omega (arith, length-array done gap [])) in
    let e : n + 0 ≡ n = omega arith in
    rw (past, take-array done gap [], append-nil done, append-nil freed, e) refl
remove_loop-rest s (x ∷ rest) done gap (suc fuel) n freed h =
    let inside : leb (next_index done gap) (length (array done gap (x ∷ rest))) ≡ true =
      leb-true _ _ (omega (arith, length-array done gap (x ∷ rest))) in
    let one_more : n + 1 + length (matches s rest) ≡ n + suc (length (matches s rest)) =
      omega arith in
    elim (Bool-cases (streq x s)) [
      | inl e ↦
          rw (inside, line_at-array done gap rest x, e)
            (rw (array-drop done gap rest x, next_index-drop done gap x)
              (remove_loop-rest s rest done (gap ++ x ∷ []) fuel (n + 1) (freed ++ x ∷ [])
                  (omega arith)
                ∙ rw (append_assoc freed (x ∷ []) (matches s rest), one_more) refl))
      | inr e ↦
          rw (inside, line_at-array done gap rest x, e)
            (rw (set-array done gap rest x, next_index-moved done gap x, length-snoc done x)
              (remove_loop-rest s rest (done ++ x ∷ []) (moved gap x) fuel n freed (omega arith)
                ∙ rw (append_assoc done (x ∷ []) (others s rest)) refl))
    ]

-- The lines before the first match.
first_match-cases :
    (s : Bytes) (lines : List Bytes) (k : ℕ)
    → ((first_match (suc k) s lines ≡ 0) × (others s lines ≡ lines) × (matches s lines ≡ []))
      ⊎ ((before after : List Bytes) × (lines ≡ before ++ after)
          × (first_match (suc k) s lines ≡ suc (k + length before))
          × (others s lines ≡ before ++ others s after)
          × (matches s lines ≡ matches s after))
unfolding first_match
first_match-cases s [] k = inl (refl, refl, refl)
first_match-cases s (x ∷ lines) k = elim (Bool-cases (streq x s)) [
  | inl e ↦ inr ([], x ∷ lines, refl, rw e (omega arith), refl, refl)
  | inr e ↦
      let h : suc k + 1 ≡ suc (suc k) = omega arith in
      elim (first_match-cases s lines (suc k)) [
        | inl (f, g, m) ↦ inl (rw (e, h) f, rw e (ap (λ r. x ∷ r) g), rw e m)
        | inr (before, after, same, f, g, m) ↦
            let shift : suc k + length before ≡ k + suc (length before) = omega arith in
            inr (
              x ∷ before,
              after,
              ap (λ r. x ∷ r) same,
              rw (e, h) (f ∙ ap suc shift),
              rw e (ap (λ r. x ∷ r) g),
              rw e m,
            )
      ]
]

-- removeLine leaves the lines that are not `s`, in their order, frees the others, and returns
-- their number.
pub remove_line-others :
    (lines : List Bytes) (s : Bytes)
    → remove_line lines s ≡ ok (others s lines, length (matches s lines), matches s lines)
unfolding remove_line
remove_line-others lines s = elim (first_match-cases s lines 0) [
  | inl (f, g, m) ↦ rw (f, g, m) refl
  | inr (before, after, same, f, g, m) ↦
      let start : 0 + length before ≡ length before + 0 = omega arith in
      let begun : (suc (length before + 0) == 0) ≡ false = ground arith in
      let counted : 0 + length (matches s after) ≡ length (matches s after) = omega arith in
      let last : suc (length before + 0) - 1 ≡ length before = omega arith in
      let enough : length after < length lines + 1 =
        omega (arith, ap length same ∙ length-append before after) in
      rw (f, start, begun, last, g, m)
        (ap (λ l. remove_loop (length lines + 1) s l (suc (length before + 0)) (length before) 0 [])
            same
          ∙ remove_loop-rest s after before [] (length lines + 1) 0 [] enough
          ∙ rw counted refl)
]
