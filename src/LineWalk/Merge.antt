-- ===== src/LineWalk/Merge.antt =====
-- parallelLines visits the merge of its arrays.
use bksupport.Base.{
  ℕ, zero, suc, ◌+◌, ◌<◌, ◌≤◌, ◌≡◌, refl, sym, ap, ◌∙◌, inl, inr, ◌⊎◌, Bool, true, false, ◌||◌,
  List, [], ◌∷◌, ◌++◌, append_assoc, append-nil, arith, Option, none, some, Bytes, length,
  length-append, ltb, leb, ltb-true, ltb-false, leb-true, leb-false, ok,
}
use bksupport.LineEdit.Shift.{line_at-append, length-snoc}
use bksupport.LineWalk.{
  Sign, less, same, more, Step, abort, add, takes_left, takes_right, line_if, next, choose,
  walk_loop, parallel_lines,
}

abbrev pub Pairs : Type 0
Pairs = List (Option Bytes × Option Bytes)

Sign-cases : (c : Sign) → (c ≡ less) ⊎ (c ≡ same) ⊎ (c ≡ more)
Sign-cases less = inl refl
Sign-cases same = inr (inl refl)
Sign-cases more = inr (inr refl)

Step-cases : (r : Step) → ((n : ℕ) × (r ≡ abort n)) ⊎ ((n : ℕ) × (r ≡ add n))
Step-cases (abort n) = inl (n, refl)
Step-cases (add n) = inr (n, refl)

abbrev pub lefts : Pairs → List Bytes
lefts [] = []
lefts ((some x, bb) ∷ ps) = x ∷ lefts ps
lefts ((none, bb) ∷ ps) = lefts ps

abbrev pub rights : Pairs → List Bytes
rights [] = []
rights ((aa, some y) ∷ ps) = y ∷ rights ps
rights ((aa, none) ∷ ps) = rights ps

or_right : (p q : Bool) → q ≡ true → (p || q) ≡ true
or_right true q e = refl
or_right false q e = e

module _ {S : Type 0} (cmp : Bytes → Bytes → Sign)
    (walk : S → Option Bytes → Option Bytes → S × Step) where
  -- `x` comes before the lines `b`, or `y` before the lines `a`.
  abbrev pub IsBefore : Bytes → List Bytes → Type 0
  IsBefore x [] = Unit
  IsBefore x (y ∷ b) = cmp x y ≡ less

  abbrev pub IsBehind : List Bytes → Bytes → Type 0
  IsBehind [] y = Unit
  IsBehind (x ∷ a) y = cmp x y ≡ more

  -- The merge of two lists: a line alone, or two that compare as the same.
  pub data Merge : List Bytes → List Bytes → Pairs → Type 0 where
    merged : Merge [] [] []
    left :
        (x : Bytes) (a b : List Bytes) (ps : Pairs)
        → IsBefore x b
        → Merge a b ps
        → Merge (x ∷ a) b ((some x, none) ∷ ps)
    right :
        (y : Bytes) (a b : List Bytes) (ps : Pairs)
        → IsBehind a y
        → Merge a b ps
        → Merge a (y ∷ b) ((none, some y) ∷ ps)
    both :
        (x y : Bytes) (a b : List Bytes) (ps : Pairs)
        → cmp x y ≡ same
        → Merge a b ps
        → Merge (x ∷ a) (y ∷ b) ((some x, some y) ∷ ps)

  Merge-lefts : (a b : List Bytes) (ps : Pairs) → Merge a b ps → lefts ps ≡ a
  Merge-lefts _ _ _ merged = refl
  Merge-lefts _ _ _ (left x a b ps _ m) = ap (λ r. x ∷ r) (Merge-lefts a b ps m)
  Merge-lefts _ _ _ (right y a b ps _ m) = Merge-lefts a b ps m
  Merge-lefts _ _ _ (both x y a b ps _ m) = ap (λ r. x ∷ r) (Merge-lefts a b ps m)

  Merge-rights : (a b : List Bytes) (ps : Pairs) → Merge a b ps → rights ps ≡ b
  Merge-rights _ _ _ merged = refl
  Merge-rights _ _ _ (left x a b ps _ m) = Merge-rights a b ps m
  Merge-rights _ _ _ (right y a b ps _ m) = ap (λ r. y ∷ r) (Merge-rights a b ps m)
  Merge-rights _ _ _ (both x y a b ps _ m) = ap (λ r. y ∷ r) (Merge-rights a b ps m)

  -- The calls of `walk` on the pairs, up to one that gives up.
  abbrev pub visit : Pairs → S → ℕ → S × Step
  visit [] st sum = (st, add sum)
  visit ((aa, bb) ∷ ps) st sum = elim (walk st aa bb).1 [
    | abort r ↦ ((walk st aa bb).0, abort r)
    | add r ↦ visit ps (walk st aa bb).0 (sum + r)
  ]

  -- One round of the loop.
  walk_round :
      (fuel i j sum : ℕ) (a b : List Bytes) (st : S) (c : Sign) (aa bb : Option Bytes) (ps : Pairs)
      → (leb i (length a) || leb j (length b)) ≡ true
      → choose cmp a b i j ≡ ok c
      → line_if (takes_left c) a i ≡ ok aa
      → line_if (takes_right c) b j ≡ ok bb
      → ((sum' : ℕ) (st' : S)
          → walk_loop cmp walk fuel a b (next (takes_left c) i) (next (takes_right c) j) sum' st'
            ≡ ok (visit ps st' sum'))
      → walk_loop cmp walk (suc fuel) a b i j sum st ≡ ok (visit ((aa, bb) ∷ ps) st sum)
  unfolding walk_loop
  walk_round fuel i j sum a b st c aa bb ps inside chosen l r rest =
      rw (inside, chosen, l, r)
        elim (Step-cases (walk st aa bb).1) [
          | inl (n, e) ↦ rw (visit, e) refl
          | inr (n, e) ↦ rw (visit, e) (rest (sum + n) (walk st aa bb).0)
        ]

  -- The array behind its lines that are done.
  grow_left : (done a : List Bytes) (x : Bytes) → done ++ x ∷ a ≡ (done ++ x ∷ []) ++ a
  grow_left done a x = sym (append_assoc done (x ∷ []) a)

  grow_index :
      (done : List Bytes) (x : Bytes) → suc (length done) + 1 ≡ suc (length (done ++ x ∷ []))
  grow_index done x = omega (arith, length-snoc done x)

  -- From any place in the two arrays on, the loop visits a merge of what is left.
  abbrev Visits : ℕ → List Bytes → List Bytes → List Bytes → List Bytes → Pairs → Type 0
  Visits fuel da a db b ps =
      (sum : ℕ) (st : S)
      → walk_loop cmp walk fuel (da ++ a) (db ++ b) (suc (length da)) (suc (length db)) sum st
        ≡ ok (visit ps st sum)

  walk_ended : (fuel : ℕ) (da db : List Bytes) → Visits (suc fuel) da [] db [] []
  unfolding walk_loop
  walk_ended fuel da db sum st =
      let l : leb (suc (length da)) (length da) ≡ false = leb-false _ _ (omega arith) in
      let r : leb (suc (length db)) (length db) ≡ false = leb-false _ _ (omega arith) in
      rw (append-nil da, append-nil db, l, r) refl

  lines_left : (da a : List Bytes) (x : Bytes) → suc (length da) ≤ length (da ++ x ∷ a)
  lines_left da a x =
      (let h = length-append da (x ∷ a) in
        let g : length (x ∷ a) ≡ suc (length a) = refl in omega arith)

  choose-both :
      (da a db b : List Bytes) (x y : Bytes)
      → choose cmp (da ++ x ∷ a) (db ++ y ∷ b) (suc (length da)) (suc (length db)) ≡ ok (cmp x y)
  unfolding choose
  choose-both da a db b x y =
      rw
        (
          ltb-false _ _ (lines_left da a x),
          ltb-false _ _ (lines_left db b y),
          line_at-append da a x,
          line_at-append db b y,
        )
        refl

  choose-left :
      (da a db b : List Bytes) (x : Bytes)
      → IsBefore x b
      → choose cmp (da ++ x ∷ a) (db ++ b) (suc (length da)) (suc (length db)) ≡ ok less
  unfolding choose
  choose-left da a db [] x before =
      let r : ltb (length db) (suc (length db)) ≡ true = ltb-true _ _ (omega arith) in
      rw (ltb-false _ _ (lines_left da a x), append-nil db, r) refl
  choose-left da a db (y ∷ b) x before = choose-both da a db b x y ∙ ap (λ c. ok c) before

  choose-right :
      (da a db b : List Bytes) (y : Bytes)
      → IsBehind a y
      → choose cmp (da ++ a) (db ++ y ∷ b) (suc (length da)) (suc (length db)) ≡ ok more
  unfolding choose
  choose-right da [] db b y behind =
      let l : ltb (length da) (suc (length da)) ≡ true = ltb-true _ _ (omega arith) in
      rw (append-nil da, l) refl
  choose-right da (x ∷ a) db b y behind = choose-both da a db b x y ∙ ap (λ c. ok c) behind

  line_if-true :
      (da a : List Bytes) (x : Bytes) → line_if true (da ++ x ∷ a) (suc (length da)) ≡ ok (some x)
  unfolding line_if
  line_if-true da a x = rw (line_at-append da a x) refl

  line_if-false : (lines : List Bytes) (i : ℕ) → line_if false lines i ≡ ok none
  unfolding line_if
  line_if-false lines i = refl

  walk_left :
      (fuel : ℕ) (da a db b : List Bytes) (x : Bytes) (ps : Pairs)
      → IsBefore x b
      → Visits fuel (da ++ x ∷ []) a db b ps
      → Visits (suc fuel) da (x ∷ a) db b ((some x, none) ∷ ps)
  walk_left fuel da a db b x ps before rest sum st =
      walk_round fuel (suc (length da)) (suc (length db)) sum (da ++ x ∷ a) (db ++ b) st less
        (some x) none ps (rw (leb-true _ _ (lines_left da a x)) refl)
        (choose-left da a db b x before) (line_if-true da a x)
        (line_if-false (db ++ b) (suc (length db)))
        (λ sum' st'. rw (grow_left da a x, grow_index da x) (rest sum' st'))

  walk_right :
      (fuel : ℕ) (da a db b : List Bytes) (y : Bytes) (ps : Pairs)
      → IsBehind a y
      → Visits fuel da a (db ++ y ∷ []) b ps
      → Visits (suc fuel) da a db (y ∷ b) ((none, some y) ∷ ps)
  walk_right fuel da a db b y ps behind rest sum st =
      walk_round fuel (suc (length da)) (suc (length db)) sum (da ++ a) (db ++ y ∷ b) st more none
        (some y) ps
        (or_right (leb (suc (length da)) (length (da ++ a))) _ (leb-true _ _ (lines_left db b y)))
        (choose-right da a db b y behind) (line_if-false (da ++ a) (suc (length da)))
        (line_if-true db b y) (λ sum' st'. rw (grow_left db b y, grow_index db y) (rest sum' st'))

  walk_both :
      (fuel : ℕ) (da a db b : List Bytes) (x y : Bytes) (ps : Pairs)
      → cmp x y ≡ same
      → Visits fuel (da ++ x ∷ []) a (db ++ y ∷ []) b ps
      → Visits (suc fuel) da (x ∷ a) db (y ∷ b) ((some x, some y) ∷ ps)
  walk_both fuel da a db b x y ps e rest sum st =
      walk_round fuel (suc (length da)) (suc (length db)) sum (da ++ x ∷ a) (db ++ y ∷ b) st same
        (some x) (some y) ps (rw (leb-true _ _ (lines_left da a x)) refl)
        (choose-both da a db b x y ∙ ap (λ c. ok c) e) (line_if-true da a x) (line_if-true db b y)
        (λ sum' st'.
          rw (grow_left da a x, grow_index da x, grow_left db b y, grow_index db y) (rest sum' st'))

  Visits-Merge :
      (fuel : ℕ) (da a db b : List Bytes)
      → length a + length b < fuel
      → (ps : Pairs) × Merge a b ps × Visits fuel da a db b ps
  Visits-Merge zero da a db b h = absurd (omega arith)
  Visits-Merge (suc fuel) da [] db [] h = ([], merged, walk_ended fuel da db)
  Visits-Merge (suc fuel) da (x ∷ a) db [] h =
      let (ps, m, v) = Visits-Merge fuel (da ++ x ∷ []) a db [] (omega arith) in
      ((some x, none) ∷ ps, left x a [] ps tt m, walk_left fuel da a db [] x ps tt v)
  Visits-Merge (suc fuel) da [] db (y ∷ b) h =
      let (ps, m, v) = Visits-Merge fuel da [] (db ++ y ∷ []) b (omega arith) in
      ((none, some y) ∷ ps, right y [] b ps tt m, walk_right fuel da [] db b y ps tt v)
  Visits-Merge (suc fuel) da (x ∷ a) db (y ∷ b) h = elim (Sign-cases (cmp x y)) [
    | inl e ↦
        let (ps, m, v) = Visits-Merge fuel (da ++ x ∷ []) a db (y ∷ b) (omega arith) in
        ((some x, none) ∷ ps, left x a (y ∷ b) ps e m, walk_left fuel da a db (y ∷ b) x ps e v)
    | inr (inl e) ↦
        let (ps, m, v) = Visits-Merge fuel (da ++ x ∷ []) a (db ++ y ∷ []) b (omega arith) in
        ((some x, some y) ∷ ps, both x y a b ps e m, walk_both fuel da a db b x y ps e v)
    | inr (inr e) ↦
        let (ps, m, v) = Visits-Merge fuel da (x ∷ a) (db ++ y ∷ []) b (omega arith) in
        ((none, some y) ∷ ps, right y (x ∷ a) b ps e m, walk_right fuel da (x ∷ a) db b y ps e v)
  ]

-- parallelLines ends, and its calls are those of `walk` on a merge of the two arrays, in which
-- each line stands once and in the order of its array, up to the first call that gives up.
pub parallel_lines-Merge :
    {S : Type 0}
    → (cmp : Bytes → Bytes → Sign) (walk : S → Option Bytes → Option Bytes → S × Step)
      (a b : List Bytes)
    → (ps : Pairs) × Merge cmp walk a b ps
      × (lefts ps ≡ a)
      × (rights ps ≡ b)
      × ((st : S) → parallel_lines cmp walk a b st ≡ ok (visit cmp walk ps st 0))
unfolding parallel_lines
parallel_lines-Merge cmp walk a b =
    let (ps, m, v) = Visits-Merge cmp walk (length a + length b + 1) [] a [] b (omega arith) in
    (ps, m, Merge-lefts cmp walk a b ps m, Merge-rights cmp walk a b ps m, λ st. v 0 st)
