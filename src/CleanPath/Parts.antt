-- ===== src/CleanPath/Parts.antt =====
-- Paths as components with slashes between them, read from either end.
use mathlib.Core.List.{reverse, reverse-cons, reverse-append, map-append}
use bksupport.Base.{
  ◌≡◌, refl, sym, ap, ◌∙◌, false, List, [], ◌∷◌, ◌++◌, append_assoc, append-nil, map, Bytes, ◌==◌,
}

abbrev pub after : List Bytes → Bytes
after [] = []
after (c ∷ cs) = b'/' ∷ (c ++ after cs)

abbrev pub join : List Bytes → Bytes
join [] = []
join (c ∷ cs) = c ++ after cs

abbrev pub NoSlash : Bytes → Type 0
NoSlash [] = Unit
NoSlash (a ∷ c) = ((a == b'/') ≡ false) × NoSlash c

abbrev pub AllNoSlash : List Bytes → Type 0
AllNoSlash [] = Unit
AllNoSlash (c ∷ cs) = NoSlash c × AllNoSlash cs

before : List Bytes → Bytes
before [] = []
before (c ∷ cs) = c ++ b'/' ∷ before cs

before-snoc : (cs : List Bytes) (c : Bytes) → before (cs ++ c ∷ []) ≡ before cs ++ (c ++ b'/' ∷ [])
unfolding before
before-snoc [] c = refl
before-snoc (d ∷ cs) c =
    ap (λ r. d ++ b'/' ∷ r) (before-snoc cs c)
    ∙ sym (append_assoc d (b'/' ∷ before cs) (c ++ b'/' ∷ []))

join-snoc : (cs : List Bytes) (c : Bytes) → join (cs ++ c ∷ []) ≡ before cs ++ c
unfolding before
join-snoc [] c = append-nil c
join-snoc (d ∷ cs) c = ap (λ r. d ++ r) (slash cs) ∙ sym (append_assoc d (b'/' ∷ before cs) c)
  where
    slash : (cs : List Bytes) → after (cs ++ c ∷ []) ≡ b'/' ∷ (before cs ++ c)
    slash [] = ap (λ r. b'/' ∷ r) (append-nil c)
    slash (e ∷ cs) =
        ap (λ r. b'/' ∷ (e ++ r)) (slash cs)
        ∙ ap (λ r. b'/' ∷ r) (sym (append_assoc e (b'/' ∷ before cs) c))

-- The components from the end, each from its end.
abbrev pub backward : List Bytes → List Bytes
backward cs = map reverse (reverse cs)

backward-cons : (c : Bytes) (cs : List Bytes) → backward (c ∷ cs) ≡ backward cs ++ reverse c ∷ []
backward-cons c cs = ap (map reverse) (reverse-cons c cs) ∙ map-append reverse (reverse cs) (c ∷ [])

before-backward : (cs : List Bytes) → before (backward cs) ≡ reverse (after cs)
unfolding before
before-backward [] = refl
before-backward (c ∷ cs) =
    ap before (backward-cons c cs)
    ∙ before-snoc (backward cs) (reverse c)
    ∙ ap (λ r. r ++ (reverse c ++ b'/' ∷ [])) (before-backward cs)
    ∙ sym (append_assoc (reverse (after cs)) (reverse c) (b'/' ∷ []))
    ∙ ap (λ r. r ++ b'/' ∷ []) (sym (reverse-append c (after cs)))
    ∙ sym (reverse-cons b'/' (c ++ after cs))

pub reverse-join :
    (c : Bytes) (cs : List Bytes) → reverse (join (c ∷ cs)) ≡ join (backward (c ∷ cs))
reverse-join c cs =
    reverse-append c (after cs)
    ∙ ap (λ r. r ++ reverse c) (sym (before-backward cs))
    ∙ sym (join-snoc (backward cs) (reverse c))
    ∙ ap join (sym (backward-cons c cs))
