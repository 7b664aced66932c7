-- ===== src/CleanPath/Result.antt =====
-- cleanPath gives the path that a walk over the components ends with.
use mathlib.Core.List.{reverse, reverse_aux, reverse-reverse}
use bksupport.Base.{
  ℕ, zero, suc, ◌+◌, ◌-◌, ◌<◌, ◌≤◌, ◌≡◌, ◌≢◌, refl, sym, ap, ◌∙◌, subst, Bool, true, false, not,
  ◌||◌, List, [], ◌∷◌, ◌++◌, map, replicate, arith, Bytes, length, length-append, append-nil, drop,
  ltb-true, ◌==◌, if◌then◌else◌, ok,
}
use bksupport.CleanPath.{
  skip_slashes, is_empty, clean_loop, put_dots, put_result, begins_slash, split_drive, is_drive,
  clean_path,
}
use bksupport.CleanPath.Walk.{
  Kind, nothing, up, name, kind, back_at, walk_back, back, forward, forward-back,
}
use bksupport.CleanPath.Parts.{after, join, NoSlash, AllNoSlash, reverse-join}
use bksupport.CleanPath.Loop.{separated, text_at, go, round}

skip_slashes-reverse :
    (s : Bytes) (x : ℕ) (w t : Bytes)
    → NoSlash s
    → (x == b'/') ≡ false
    → skip_slashes (reverse_aux s (x ∷ w) ++ t) ≡ reverse_aux s (x ∷ w) ++ t
unfolding skip_slashes
skip_slashes-reverse [] x w t h e = rw e refl
skip_slashes-reverse (u ∷ s) x w t h e = skip_slashes-reverse s u (x ∷ w) t h.1 h.0

skip_slashes-after : (cs : List Bytes) → skip_slashes (after cs) ≡ skip_slashes (join cs)
unfolding skip_slashes
skip_slashes-after [] = refl
skip_slashes-after (c ∷ cs) = refl

-- Components with a byte.
abbrev AreNames : List Bytes → Type 0
AreNames [] = Unit
AreNames (c ∷ cs) = ((c ≢ []) × NoSlash c) × AreNames cs

abbrev swapped : ℕ × List Bytes → Bytes × ℕ
swapped (d, names) = (join names, d)

join_name :
    (c : Bytes) (names : List Bytes)
    → AreNames names
    → c ++ separated (join names) ≡ join (c ∷ names)
join_name c [] f = refl
join_name c ([] ∷ names) f = absurd (f.0.0 refl)
join_name c ((x ∷ n) ∷ names) f = refl

text-back :
    (k : Kind) (c : Bytes) (d : ℕ) (names : List Bytes)
    → AreNames names
    → text_at k c (join names) d ≡ swapped (back_at k c d names)
text-back nothing c d names f = refl
text-back up c d names f = refl
text-back name c zero names f = ap (λ r. (r, 0)) (join_name c names f)
text-back name c (suc d) names f = refl

back_at-AreNames :
    (k : Kind) (c : Bytes) (d : ℕ) (names : List Bytes)
    → (c ≢ []) × NoSlash c
    → AreNames names
    → AreNames (back_at k c d names).1
back_at-AreNames nothing c d names h f = f
back_at-AreNames up c d names h f = f
back_at-AreNames name c zero names h f = (h, f)
back_at-AreNames name c (suc d) names h f = f

clean_loop-walk_back :
    (cs names : List Bytes) (fuel d : ℕ)
    → length cs < fuel
    → AllNoSlash cs
    → AreNames names
    → clean_loop fuel (skip_slashes (join (map reverse cs))) (join names) d
      ≡ ok (swapped (walk_back cs d names))
clean_loop-walk_back cs names zero d h k f = absurd (omega arith)
clean_loop-walk_back [] names (suc fuel) d h k f = unfold clean_loop in refl
clean_loop-walk_back ([] ∷ cs) names (suc fuel) d h k f =
    rw (skip_slashes-after (map reverse cs))
      (clean_loop-walk_back cs names (suc fuel) d (omega arith) k.1 f)
clean_loop-walk_back ((a ∷ c) ∷ cs) names (suc zero) d h k f = absurd (omega arith)
clean_loop-walk_back ((a ∷ c) ∷ cs) names (suc (suc fuel)) d h k f =
    let rest = back_at (kind (a ∷ c)) (a ∷ c) d names in
    ap (λ p. clean_loop (suc (suc fuel)) p (join names) d)
      (skip_slashes-reverse c a [] (after (map reverse cs)) k.0.1 k.0.0)
    ∙ round fuel a c (map reverse cs) (join names) d k.0
    ∙ ap (go (suc fuel) (map reverse cs)) (text-back (kind (a ∷ c)) (a ∷ c) d names f)
    ∙ ap (λ p. clean_loop (suc fuel) p (join rest.1) rest.0) (skip_slashes-after (map reverse cs))
    ∙ clean_loop-walk_back cs rest.1 (suc fuel) rest.0 (omega arith) k.1
        (back_at-AreNames (kind (a ∷ c)) (a ∷ c) d names (λ e. cc e, k.0) f)

walk_back-AreNames :
    (cs : List Bytes) (d : ℕ) (names : List Bytes)
    → AllNoSlash cs
    → AreNames names
    → AreNames (walk_back cs d names).1
walk_back-AreNames [] d names k f = f
walk_back-AreNames ([] ∷ cs) d names k f = walk_back-AreNames cs d names k.1 f
walk_back-AreNames ((a ∷ c) ∷ cs) d names k f =
    let rest = back_at (kind (a ∷ c)) (a ∷ c) d names in
    walk_back-AreNames cs rest.0 rest.1 k.1
      (back_at-AreNames (kind (a ∷ c)) (a ∷ c) d names (λ e. cc e, k.0) f)

reverse_aux-AllNoSlash :
    (cs done : List Bytes) → AllNoSlash cs → AllNoSlash done → AllNoSlash (reverse_aux cs done)
reverse_aux-AllNoSlash [] done k h = h
reverse_aux-AllNoSlash (c ∷ cs) done k h = reverse_aux-AllNoSlash cs (c ∷ done) k.1 (k.0, h)

abbrev dot_dot : Bytes
dot_dot = b'.' ∷ b'.' ∷ []

replicate-cons :
    (d : ℕ) (names : List Bytes)
    → replicate d dot_dot ++ dot_dot ∷ names ≡ dot_dot ∷ (replicate d dot_dot ++ names)
replicate-cons zero names = refl
replicate-cons (suc d) names = ap (λ r. dot_dot ∷ r) (replicate-cons d names)

put_dots-join :
    (d : ℕ) (names : List Bytes)
    → AreNames names
    → put_dots d (join names) ≡ join (replicate d dot_dot ++ names)
unfolding put_dots
put_dots-join zero names f = refl
put_dots-join (suc d) [] f =
    put_dots-join d (dot_dot ∷ []) ((λ e. cc e, (refl, (refl, tt))), tt)
    ∙ ap join (replicate-cons d [])
put_dots-join (suc d) ([] ∷ names) f = absurd (f.0.0 refl)
put_dots-join (suc d) ((a ∷ n) ∷ names) f = rw (f.0.1.0) (
    put_dots-join d (dot_dot ∷ (a ∷ n) ∷ names) ((λ e. cc e, (refl, (refl, tt))), f)
    ∙ ap join (replicate-cons d ((a ∷ n) ∷ names)))

-- The path for a walk that goes up from the start and then to the names. Above the root is the root.
abbrev pub cleaned : Bool → ℕ × List Bytes → Bytes
cleaned true (ups, names) = b'/' ∷ join (reverse names)
cleaned false (ups, names) = join (replicate ups dot_dot ++ reverse names)

-- Where the walk goes up from the root it ends at a name.
abbrev pub KeepsName : Bool → ℕ × List Bytes → Type 0
KeepsName absolute (ups, names) = absolute ≡ true → names ≡ [] → ups ≡ 0

abbrev pub or_dot : Bytes → Bytes
or_dot [] = b'.' ∷ []
or_dot (c ∷ r) = c ∷ r

put_result-or_dot : (r : Bytes) → is_drive r ≡ false → put_result r ≡ or_dot r
unfolding put_result
put_result-or_dot [] h = refl
put_result-or_dot (c ∷ r) h = rw h refl

-- what clean_path makes of the text of the loop
abbrev assembled : Bool → Bytes → ℕ → Bytes
assembled absolute r d =
    let r₁ = if is_empty r || not absolute then put_dots d r else r in
    if absolute then b'/' ∷ r₁ else r₁

or_true : (b : Bool) → (b || true) ≡ true
or_true true = refl
or_true false = refl

assembled-cleaned :
    (absolute : Bool) (d : ℕ) (names : List Bytes)
    → AreNames names
    → KeepsName absolute (d, reverse names)
    → assembled absolute (join names) d ≡ cleaned absolute (d, reverse names)
assembled-cleaned true d [] f keeps = unfold put_dots in rw (keeps refl refl) refl
assembled-cleaned true d ([] ∷ names) f keeps = absurd (f.0.0 refl)
assembled-cleaned true d ((a ∷ n) ∷ names) f keeps =
    ap (λ r. b'/' ∷ join r) (sym (reverse-reverse ((a ∷ n) ∷ names)))
assembled-cleaned false d names f keeps =
    rw (or_true (is_empty (join names)), reverse-reverse names) (put_dots-join d names f)

drop_none : (d : ℕ) → drop {A = Bytes} d [] ≡ []
drop_none zero = refl
drop_none (suc d) = refl

forward_start : (cs : List Bytes) → forward cs 0 [] ≡ ((back cs).0, reverse (back cs).1)
forward_start cs =
    let e : 0 + ((back cs).0 - 0) ≡ (back cs).0 = omega arith in
    forward-back cs 0 [] ∙ rw (e, drop_none (back cs).0, append-nil (reverse (back cs).1)) refl

length-after : (cs : List Bytes) → length cs ≤ length (after cs)
length-after [] = omega arith
length-after (c ∷ cs) = omega (arith, length-append c (after cs), length-after cs)

length-reverse_aux : (xs ys : List Bytes) → length (reverse_aux xs ys) ≡ length xs + length ys
length-reverse_aux [] ys = omega arith
length-reverse_aux (x ∷ xs) ys = omega (arith, length-reverse_aux xs (x ∷ ys))

components_bound :
    (c : Bytes) (cs : List Bytes) → length (reverse (c ∷ cs)) < length (join (c ∷ cs)) + 2
components_bound c cs =
    omega (arith, length-reverse_aux (c ∷ cs) [], length-append c (after cs), length-after cs)

-- What cleanPath gives for the path of the components `c ∷ cs`.
abbrev pub cleaned_path : Bytes → List Bytes → Bytes
cleaned_path c cs = cleaned (begins_slash (join (c ∷ cs))) (forward (c ∷ cs) 0 [])

-- On components with slashes between them that are not the empty path, cleanPath gives the path that a walk
-- over them ends with: the names that the walk keeps, behind the root or behind a `..` for each time that
-- it goes up from the start, or `.` for nothing at all. This holds when the path has no drive, a walk
-- that goes up from the root ends at a name, and the result is not taken for a drive and has room.
pub clean_path-forward :
    (maxpath : ℕ) (c : Bytes) (cs : List Bytes)
    → AllNoSlash (c ∷ cs)
    → split_drive (join (c ∷ cs)) ≡ ([], join (c ∷ cs))
    → join (c ∷ cs) ≢ []
    → KeepsName (begins_slash (join (c ∷ cs))) (forward (c ∷ cs) 0 [])
    → is_drive (cleaned_path c cs) ≡ false
    → length (cleaned_path c cs) < maxpath
    → clean_path maxpath (join (c ∷ cs)) ≡ ok (or_dot (cleaned_path c cs))
unfolding clean_path
clean_path-forward maxpath c cs k no_drive filled keeps plain room =
    let path = join (c ∷ cs) in
    let (d, names) = back (c ∷ cs) in
    let loop : clean_loop (length path + 2) (skip_slashes (reverse path)) [] 0
        ≡ ok (join names, d) =
      ap (λ p. clean_loop (length path + 2) (skip_slashes p) [] 0) (reverse-join c cs)
      ∙ clean_loop-walk_back (reverse (c ∷ cs)) [] (length path + 2) 0 (components_bound c cs)
          (reverse_aux-AllNoSlash (c ∷ cs) [] k tt) tt in
    let text : assembled (begins_slash path) (join names) d ≡ cleaned_path c cs =
      assembled-cleaned (begins_slash path) d names
        (walk_back-AreNames (reverse (c ∷ cs)) 0 [] (reverse_aux-AllNoSlash (c ∷ cs) [] k tt) tt)
        (subst (KeepsName (begins_slash path)) (forward_start (c ∷ cs)) keeps)
      ∙ ap (cleaned (begins_slash path)) (sym (forward_start (c ∷ cs))) in
    rw (no_drive, loop)
      (rw (text, ltb-true (length (cleaned_path c cs)) maxpath room)
        (ap ok (put_result-or_dot (cleaned_path c cs) plain)))
