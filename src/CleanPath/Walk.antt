-- ===== src/CleanPath/Walk.antt =====
-- What a path means: a walk over its components, forward with the names that are kept, and backward
-- with the number of names to leave out.
use mathlib.Core.List.{reverse, reverse-cons}
use bksupport.Base.{
  ℕ, zero, suc, ◌+◌, ◌-◌, ◌≡◌, refl, sym, ap, ◌∙◌, ◌&&◌, List, [], ◌∷◌, ◌++◌, append_assoc, arith,
  Bytes, length, drop, ◌==◌, if◌then◌else◌,
}

pub data Kind : Type 0 where
  nothing up name : Kind

-- An empty component and `.` mean nothing, `..` goes up, and all else is a name.
abbrev pub kind : Bytes → Kind
kind [] = nothing
kind (a ∷ []) = if a == b'.' then nothing else name
kind (a ∷ b ∷ []) = if a == b'.' && b == b'.' then up else name
kind (a ∷ b ∷ c ∷ s) = name

-- One component for a reader, who goes up or to a name; `next` is the rest of the walk.
abbrev pub forward_at :
    Kind → Bytes → (ℕ → List Bytes → ℕ × List Bytes) → ℕ → List Bytes → ℕ × List Bytes
forward_at nothing c next ups names = next ups names
forward_at up c next ups [] = next (ups + 1) []
forward_at up c next ups (_ ∷ names) = next ups names
forward_at name c next ups names = next ups (c ∷ names)

-- The walk of a reader: how often it goes up from the start, and the names since, the last one first.
abbrev pub forward : List Bytes → ℕ → List Bytes → ℕ × List Bytes
forward [] ups names = (ups, names)
forward (c ∷ cs) ups names = forward_at (kind c) c (forward cs) ups names

-- One component on the way back: how many names to leave out, and the names that stay.
abbrev pub back_at : Kind → Bytes → ℕ → List Bytes → ℕ × List Bytes
back_at nothing c d names = (d, names)
back_at up c d names = (d + 1, names)
back_at name c zero names = (0, c ∷ names)
back_at name c (suc d) names = (d, names)

abbrev pub back_step : Bytes → ℕ → List Bytes → ℕ × List Bytes
back_step c d names = back_at (kind c) c d names

-- The components are given from the last to the first.
abbrev pub walk_back : List Bytes → ℕ → List Bytes → ℕ × List Bytes
walk_back [] d names = (d, names)
walk_back (c ∷ cs) d names = let (d', names') = back_step c d names in walk_back cs d' names'

walk_back-append :
    (xs ys : List Bytes) (d : ℕ) (names : List Bytes)
    → walk_back (xs ++ ys) d names ≡ walk_back ys (walk_back xs d names).0 (walk_back xs d names).1
walk_back-append [] ys d names = refl
walk_back-append (c ∷ xs) ys d names =
    walk_back-append xs ys (back_step c d names).0 (back_step c d names).1

-- The walk back over the whole path.
abbrev pub back : List Bytes → ℕ × List Bytes
back cs = walk_back (reverse cs) 0 []

back-cons : (c : Bytes) (cs : List Bytes) → back (c ∷ cs) ≡ back_step c (back cs).0 (back cs).1
back-cons c cs = rw (reverse-cons c cs) (walk_back-append (reverse cs) (c ∷ []) 0 [])

-- the pair that the walk forward gives from the one of the walk back
abbrev met : ℕ → List Bytes → ℕ × List Bytes → ℕ × List Bytes
met ups names (d, kept) = (ups + (d - length names), reverse kept ++ drop d names)

drop_none : (d : ℕ) → drop {A = Bytes} d [] ≡ drop (d + 1) []
drop_none zero = refl
drop_none (suc d) = let e : suc d + 1 ≡ suc (d + 1) = omega arith in rw e refl

pair : (a b : ℕ) (xs ys : List Bytes) → a ≡ b → xs ≡ ys → ◌≡◌ {A = ℕ × List Bytes} (a, xs) (b, ys)
pair a b xs ys e f = rw (e, f) refl

met_at :
    (k : Kind) (c : Bytes) (next : ℕ → List Bytes → ℕ × List Bytes) (d : ℕ) (kept : List Bytes)
    → ((ups : ℕ) (names : List Bytes) → next ups names ≡ met ups names (d, kept))
    → (ups : ℕ) (names : List Bytes)
    → forward_at k c next ups names ≡ met ups names (back_at k c d kept)
met_at nothing c next d kept h ups names = h ups names
met_at up c next d kept h ups [] =
    h (ups + 1) [] ∙ pair _ _ _ _ (omega arith) (ap (λ r. reverse kept ++ r) (drop_none d))
met_at up c next d kept h ups (n ∷ names) =
    let e : d + 1 ≡ suc d = omega arith in h ups names ∙ rw e (pair _ _ _ _ (omega arith) refl)
met_at name c next zero kept h ups names =
    h ups (c ∷ names)
    ∙ pair _ _ _ _ (omega arith)
        (rw (reverse-cons c kept) (sym (append_assoc (reverse kept) (c ∷ []) names)))
met_at name c next (suc d) kept h ups names = h ups (c ∷ names) ∙ pair _ _ _ _ (omega arith) refl

-- The walk forward ends with what the walk back leaves.
pub forward-back :
    (cs : List Bytes) (ups : ℕ) (names : List Bytes)
    → forward cs ups names ≡ met ups names (back cs)
forward-back [] ups names = pair _ _ _ _ (omega arith) refl
forward-back (c ∷ cs) ups names =
    rw (back-cons c cs)
      (met_at (kind c) c (forward cs) (back cs).0 (back cs).1 (forward-back cs) ups names)
