-- ===== src/LineEdit/Shift.antt =====
-- The array while lines move to its front: those that stay, a gap, and those still to come.
use bksupport.Base.{
  ℕ, suc, ◌+◌, ◌≡◌, refl, sym, ap, ◌∙◌, List, [], ◌∷◌, ◌++◌, append_assoc, arith, Bytes, length,
  length-append, set, take, take_append, ok,
}
use bksupport.LineEdit.{line_at}

pub line_at-append :
    (done rest : List Bytes) (x : Bytes) → line_at (done ++ x ∷ rest) (suc (length done)) ≡ ok x
unfolding line_at
line_at-append [] rest x = refl
line_at-append (y ∷ done) rest x = line_at-append done rest x

pub set-append :
    (done rest : List Bytes) (x y : Bytes)
    → set (done ++ y ∷ rest) (length done) x ≡ done ++ x ∷ rest
set-append [] rest x y = refl
set-append (z ∷ done) rest x y = ap (λ r. z ∷ r) (set-append done rest x y)

abbrev pub array : List Bytes → List Bytes → List Bytes → List Bytes
array done gap rest = done ++ (gap ++ rest)

-- the index of the next line
abbrev pub next_index : List Bytes → List Bytes → ℕ
next_index done gap = suc (length done + length gap)

pub line_at-array :
    (done gap rest : List Bytes) (x : Bytes)
    → line_at (array done gap (x ∷ rest)) (next_index done gap) ≡ ok x
line_at-array done gap rest x =
    let h : length done + length gap ≡ length (done ++ gap) =
      omega (arith, length-append done gap) in
    rw (h, ← append_assoc done gap (x ∷ rest)) (line_at-append (done ++ gap) rest x)

pub length-array :
    (done gap rest : List Bytes)
    → length (array done gap rest) ≡ length done + length gap + length rest
length-array done gap rest = omega (arith, length-append done (gap ++ rest), length-append gap rest)

pub take-array : (done gap rest : List Bytes) → take (length done) (array done gap rest) ≡ done
take-array done gap rest = take_append done (gap ++ rest)

-- The line goes into the gap.
pub array-drop :
    (done gap rest : List Bytes) (x : Bytes)
    → array done gap (x ∷ rest) ≡ array done (gap ++ x ∷ []) rest
array-drop done gap rest x = ap (λ r. done ++ r) (sym (append_assoc gap (x ∷ []) rest))

-- The line moves to the front of the gap; the gap moves on.
abbrev pub moved : List Bytes → Bytes → List Bytes
moved [] x = []
moved (g ∷ gap) x = gap ++ x ∷ []

pub length-moved : (gap : List Bytes) (x : Bytes) → length (moved gap x) ≡ length gap
length-moved [] x = refl
length-moved (g ∷ gap) x =
    let h = length-append gap (x ∷ []) in let g : length (x ∷ []) ≡ 1 = refl in omega arith

pub set-array :
    (done gap rest : List Bytes) (x : Bytes)
    → set (array done gap (x ∷ rest)) (length done) x ≡ array (done ++ x ∷ []) (moved gap x) rest
set-array done [] rest x = set-append done rest x x ∙ sym (append_assoc done (x ∷ []) rest)
set-array done (g ∷ gap) rest x =
    set-append done (gap ++ x ∷ rest) x g
    ∙ ap (λ r. done ++ x ∷ r) (sym (append_assoc gap (x ∷ []) rest))
    ∙ sym (append_assoc done (x ∷ []) ((gap ++ x ∷ []) ++ rest))

pub next_index-drop :
    (done gap : List Bytes) (x : Bytes) → next_index done gap + 1 ≡ next_index done (gap ++ x ∷ [])
next_index-drop done gap x =
    let h = length-append gap (x ∷ []) in let g : length (x ∷ []) ≡ 1 = refl in omega arith

pub next_index-moved :
    (done gap : List Bytes) (x : Bytes)
    → next_index done gap + 1 ≡ next_index (done ++ x ∷ []) (moved gap x)
next_index-moved done gap x =
    let h = length-append done (x ∷ []) in
    let g : length (x ∷ []) ≡ 1 = refl in let f = length-moved gap x in omega arith

pub length-snoc : (done : List Bytes) (x : Bytes) → length done + 1 ≡ length (done ++ x ∷ [])
length-snoc done x =
    let h = length-append done (x ∷ []) in let g : length (x ∷ []) ≡ 1 = refl in omega arith
