-- ===== src/LineEdit/Unique.antt =====
-- uniqLines keeps one of each run of lines that are the same.
use bksupport.Base.{
  ℕ, zero, suc, ◌+◌, ◌-◌, ◌<◌, ◌≡◌, refl, sym, ap, ◌∙◌, subst, inl, inr, ◌⊎◌, Bool, true, false,
  List, [], ◌∷◌, ◌++◌, append_assoc, append-nil, arith, Bytes, length, length-append, leb, leb-true,
  leb-false, ◌==◌, if◌then◌else◌, Bool-cases, ok,
}
use mathlib.Core.List.{Perm, perm_middle, Mem, mem-cons_self, mem-cons_of_mem}
use mathlib.Core.List.Perm
use bksupport.LineText.{streq}
use bksupport.MemHash.Chains.{streq-true}
use bksupport.LineEdit.Shift.{
  array, next_index, line_at-array, length-array, take-array, array-drop, moved, set-array,
  next_index-drop, next_index-moved, length-snoc, line_at-append,
}
use bksupport.LineEdit.{line_at, uniq_loop, first_dup, uniq_lines}

-- Of the lines behind the line `y`, those that are not the same as the one before, and those that are.
abbrev pub changes : Bytes → List Bytes → List Bytes
changes y [] = []
changes y (x ∷ lines) = if streq x y then changes y lines else x ∷ changes x lines

abbrev pub repeats : Bytes → List Bytes → List Bytes
repeats y [] = []
repeats y (x ∷ lines) = if streq x y then x ∷ repeats y lines else repeats x lines

abbrev kept : List Bytes → Bytes → List Bytes
kept done y = done ++ y ∷ []

last_line :
    (done gap rest : List Bytes) (y : Bytes)
    → line_at (array (kept done y) gap rest) (length (kept done y)) ≡ ok y
last_line done gap rest y =
    rw (← length-snoc done y, append_assoc done (y ∷ []) (gap ++ rest))
      (let h : length done + 1 ≡ suc (length done) = omega arith in
        rw h (line_at-append done (gap ++ rest) y))

uniq_loop-rest :
    (rest done gap : List Bytes) (y : Bytes) (fuel : ℕ) (freed : List Bytes)
    → length rest < fuel
    → uniq_loop fuel
        (array (kept done y) gap rest)
        (next_index (kept done y) gap)
        (length (kept done y))
        freed
      ≡ ok (kept done y ++ changes y rest, freed ++ repeats y rest)
unfolding uniq_loop
uniq_loop-rest rest done gap y zero freed h = absurd (omega arith)
uniq_loop-rest [] done gap y (suc fuel) freed h =
    let past : leb (next_index (kept done y) gap) (length (array (kept done y) gap [])) ≡ false =
      leb-false _ _ (omega (arith, length-array (kept done y) gap [])) in
    rw (past, take-array (kept done y) gap [], append-nil (kept done y), append-nil freed) refl
uniq_loop-rest (x ∷ rest) done gap y (suc fuel) freed h =
    let inside : leb (next_index (kept done y) gap) (length (array (kept done y) gap (x ∷ rest)))
        ≡ true =
      leb-true _ _ (omega (arith, length-array (kept done y) gap (x ∷ rest))) in
    elim (Bool-cases (streq x y)) [
      | inl e ↦
          rw (inside, line_at-array (kept done y) gap rest x, last_line done gap (x ∷ rest) y, e)
            (rw (array-drop (kept done y) gap rest x, next_index-drop (kept done y) gap x)
              (uniq_loop-rest rest done (gap ++ x ∷ []) y fuel (freed ++ x ∷ []) (omega arith)
                ∙ rw (append_assoc freed (x ∷ []) (repeats y rest)) refl))
      | inr e ↦
          rw (inside, line_at-array (kept done y) gap rest x, last_line done gap (x ∷ rest) y, e)
            (rw
              (
                set-array (kept done y) gap rest x,
                next_index-moved (kept done y) gap x,
                length-snoc (kept done y) x,
              )
              (uniq_loop-rest rest (kept done y) (moved gap x) x fuel freed (omega arith)
                ∙ rw (append_assoc (kept done y) (x ∷ []) (changes x rest)) refl))
    ]

streq_sym : (s t : Bytes) → streq s t ≡ streq t s
unfolding streq
streq_sym [] [] = refl
streq_sym [] (d ∷ t) = refl
streq_sym (c ∷ s) [] = refl
streq_sym (c ∷ s) (d ∷ t) = let e : (c == d) ≡ (d == c) = ground arith in rw (e, streq_sym s t) refl

-- The lines before the first one that is the same as the line before it.
first_dup-cases :
    (x : Bytes) (lines : List Bytes) (k : ℕ)
    → ((first_dup (suc k) (x ∷ lines) ≡ 0) × (changes x lines ≡ lines) × (repeats x lines ≡ []))
      ⊎ ((before after : List Bytes) × (y : Bytes) × (x ∷ lines ≡ kept before y ++ after)
          × (first_dup (suc k) (x ∷ lines) ≡ suc (suc (k + length before)))
          × (x ∷ changes x lines ≡ kept before y ++ changes y after)
          × (repeats x lines ≡ repeats y after))
unfolding first_dup
first_dup-cases x [] k = inl (refl, refl, refl)
first_dup-cases x (z ∷ lines) k = elim (Bool-cases (streq x z)) [
  | inl e ↦ inr ([], z ∷ lines, x, refl, rw e (omega arith), refl, refl)
  | inr e ↦
      let e' : streq z x ≡ false = streq_sym z x ∙ e in
      let h : suc k + 1 ≡ suc (suc k) = omega arith in
      elim (first_dup-cases z lines (suc k)) [
        | inl (f, g, m) ↦ inl (rw (e, h) f, rw e' (ap (λ r. z ∷ r) g), rw e' m)
        | inr (before, after, y, same, f, g, m) ↦
            let shift : suc k + length before ≡ k + suc (length before) = omega arith in
            inr (
              x ∷ before,
              after,
              y,
              ap (λ r. x ∷ r) same,
              rw (e, h) (f ∙ ap (λ i. suc (suc i)) shift),
              rw e' (ap (λ r. x ∷ r) g),
              rw e' m,
            )
      ]
]

abbrev pub firsts : List Bytes → List Bytes
firsts [] = []
firsts (x ∷ lines) = x ∷ changes x lines

abbrev pub copies : List Bytes → List Bytes
copies [] = []
copies (x ∷ lines) = repeats x lines

pub uniq_lines-sorted :
    (sort : List Bytes → List Bytes) (lines : List Bytes)
    → (space : List Bytes) → sort lines ≡ space
    → uniq_lines sort lines ≡ ok (firsts space, copies space)
unfolding uniq_lines
uniq_lines-sorted sort lines [] e = rw (uniq_lines, e) refl
uniq_lines-sorted sort lines (x ∷ space) e = elim (first_dup-cases x space 0) [
  | inl (f, g, m) ↦ rw (uniq_lines, e, f, g, m) refl
  | inr (before, after, y, same, f, g, m) ↦
      let start : suc (suc (0 + length before)) ≡ next_index (kept before y) [] =
        omega (arith, length-snoc before y) in
      let begun : (next_index (kept before y) [] == 0) ≡ false = ground arith in
      let last : next_index (kept before y) [] - 1 ≡ length (kept before y) = omega arith in
      let enough : length after < length (x ∷ space) + 1 =
        omega (arith, ap length same ∙ length-append (kept before y) after) in
      rw (uniq_lines, e, f, start, begun, last, m)
        (ap
            (λ l.
              uniq_loop (length (x ∷ space) + 1) l (next_index (kept before y) [])
                (length (kept before y)) [])
            same
          ∙ uniq_loop-rest after before [] y (length (x ∷ space) + 1) [] enough
          ∙ ap (λ r. ok (r, repeats y after)) (sym g))
]

module _ (le : Bytes → Bytes → Bool) where
  -- The lines behind `y` are in order; with no two next to each other the same.
  abbrev pub Ordered : Bytes → List Bytes → Type 0
  Ordered y [] = Unit
  Ordered y (x ∷ lines) = (le y x ≡ true) × Ordered x lines

  abbrev pub Rising : Bytes → List Bytes → Type 0
  Rising y [] = Unit
  Rising y (x ∷ lines) = (le y x ≡ true) × (streq y x ≡ false) × Rising x lines

  changes-Rising : (y : Bytes) (lines : List Bytes) → Ordered y lines → Rising y (changes y lines)
  changes-Rising y [] o = tt
  changes-Rising y (x ∷ lines) (h, o) = elim (Bool-cases (streq x y)) [
    | inl e ↦ rw e (changes-Rising y lines (subst (λ z. Ordered z lines) (streq-true x y e) o))
    | inr e ↦ rw e (h, streq_sym y x ∙ e, changes-Rising x lines o)
  ]

  abbrev pub AreOrdered : List Bytes → Type 0
  AreOrdered [] = Unit
  AreOrdered (x ∷ lines) = Ordered x lines

  abbrev pub AreRising : List Bytes → Type 0
  AreRising [] = Unit
  AreRising (x ∷ lines) = Rising x lines

  pub firsts-AreRising : (space : List Bytes) → AreOrdered space → AreRising (firsts space)
  firsts-AreRising [] o = tt
  firsts-AreRising (x ∷ space) o = changes-Rising x space o

changes-perm : (y : Bytes) (lines : List Bytes) → Perm (changes y lines ++ repeats y lines) lines
changes-perm y [] = Perm.refl []
changes-perm y (x ∷ lines) = elim (Bool-cases (streq x y)) [
  | inl e ↦ rw e (
      Perm.trans (perm_middle {a = x} (changes y lines) (repeats y lines))
        (Perm.cons x (changes-perm y lines)))
  | inr e ↦ rw e (Perm.cons x (changes-perm x lines))
]

pub firsts-perm : (space : List Bytes) → Perm (firsts space ++ copies space) space
firsts-perm [] = Perm.refl []
firsts-perm (x ∷ space) = Perm.cons x (changes-perm x space)

-- Each of the lines is among the others.
abbrev pub AreIn : List Bytes → List Bytes → Type 0
AreIn [] lines = Unit
AreIn (x ∷ xs) lines = Mem x lines × AreIn xs lines

AreIn-cons : (xs lines : List Bytes) (y : Bytes) → AreIn xs lines → AreIn xs (y ∷ lines)
AreIn-cons [] lines y h = tt
AreIn-cons (x ∷ xs) lines y (m, h) = (mem-cons_of_mem y m, AreIn-cons xs lines y h)

repeats-AreIn : (y : Bytes) (lines : List Bytes) → AreIn (repeats y lines) (y ∷ changes y lines)
repeats-AreIn y [] = tt
repeats-AreIn y (x ∷ lines) = elim (Bool-cases (streq x y)) [
  | inl e ↦ rw e (
    subst (λ z. Mem x (z ∷ changes y lines)) (streq-true x y e) mem-cons_self,
    repeats-AreIn y lines,
  )
  | inr e ↦ rw e (AreIn-cons (repeats x lines) (x ∷ changes x lines) y (repeats-AreIn x lines))
]

pub firsts-AreIn : (space : List Bytes) → AreIn (copies space) (firsts space)
firsts-AreIn [] = tt
firsts-AreIn (x ∷ space) = repeats-AreIn x space
