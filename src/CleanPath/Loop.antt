-- ===== src/CleanPath/Loop.antt =====
-- The loop of cleanPath takes the components one after the other, from the last on.
use mathlib.Core.List.{reverse, reverse_aux, reverse-reverse, reverse_aux-eq}
use bksupport.Base.{
  ℕ, zero, suc, ◌+◌, ◌-◌, ◌≡◌, refl, sym, ap, ◌∙◌, inl, inr, Bool, true, false, ◌&&◌, List, [], ◌∷◌,
  ◌++◌, none, some, Bool-cases, arith, Bytes, ◌==◌, if◌then◌else◌, Run,
}
use bksupport.CleanPath.{
  skip_slashes, skip_name, copy_name, is_empty, front_dot, front_dots, dot, dots, clean_loop,
}
use bksupport.CleanPath.Walk.{Kind, nothing, up, name, kind}
use bksupport.CleanPath.Parts.{after, NoSlash}

skip_name-after : (w : Bytes) (cs : List Bytes) → NoSlash w → skip_name (w ++ after cs) ≡ after cs
unfolding skip_name
skip_name-after [] [] h = refl
skip_name-after [] (c ∷ cs) h = refl
skip_name-after (a ∷ w) cs h = rw h.0 (skip_name-after w cs h.1)

copy_name-after :
    (w : Bytes) (cs : List Bytes) (r : Bytes)
    → NoSlash w
    → copy_name (w ++ after cs) r ≡ (after cs, reverse_aux w r)
unfolding copy_name
copy_name-after [] [] r h = refl
copy_name-after [] (c ∷ cs) r h = refl
copy_name-after (a ∷ w) cs r h = rw h.0 (copy_name-after w cs (a ∷ r) h.1)

-- What a component does to the text and the count.
abbrev pub separated : Bytes → Bytes
separated r = if is_empty r then r else b'/' ∷ r

abbrev pub text_at : Kind → Bytes → Bytes → ℕ → Bytes × ℕ
text_at nothing c r d = (r, d)
text_at up c r d = (r, d + 1)
text_at name c r zero = (c ++ separated r, 0)
text_at name c r (suc d) = (r, d)

abbrev pub go : ℕ → List Bytes → Bytes × ℕ → Run (Bytes × ℕ)
go fuel cs (r, d) = clean_loop fuel (skip_slashes (after cs)) r d

reverse_onto : (c r : Bytes) → reverse_aux (reverse c) r ≡ c ++ r
reverse_onto c r = reverse_aux-eq (reverse c) r ∙ ap (λ l. l ++ r) (reverse-reverse c)

name_round :
    (fuel a : ℕ) (c s : Bytes) (cs : List Bytes) (r : Bytes) (d : ℕ)
    → reverse c ≡ a ∷ s
    → NoSlash (a ∷ s)
    → front_dot (a ∷ (s ++ after cs)) ≡ false
    → front_dots (a ∷ (s ++ after cs)) ≡ false
    → dots (a ∷ (s ++ after cs)) ≡ none
    → dot (a ∷ (s ++ after cs)) ≡ none
    → clean_loop (suc fuel) (a ∷ (s ++ after cs)) r d ≡ go fuel cs (text_at name c r d)
unfolding clean_loop
name_round fuel a c s cs r zero e h f₁ f₂ f₃ f₄ =
    rw (f₁, f₂, f₃, f₄, copy_name-after (a ∷ s) cs (separated r) h)
      (ap (λ t. clean_loop fuel (skip_slashes (after cs)) t 0)
        (ap (λ w. reverse_aux w (separated r)) (sym e) ∙ reverse_onto c (separated r)))
name_round fuel a c s cs r (suc d) e h f₁ f₂ f₃ f₄ =
    let one_less : suc d - 1 ≡ d = omega arith in
    let some_left : (suc d == 0) ≡ false = ground arith in
    rw (f₁, f₂, f₃, f₄, skip_name-after (a ∷ s) cs h) (rw (some_left, one_less) refl)

loop_dot :
    (fuel a : ℕ) (s q r : Bytes) (d : ℕ)
    → front_dot (a ∷ s) ≡ false
    → front_dots (a ∷ s) ≡ false
    → dots (a ∷ s) ≡ none
    → dot (a ∷ s) ≡ some q
    → clean_loop (suc fuel) (a ∷ s) r d ≡ clean_loop fuel (skip_slashes q) r d
unfolding clean_loop
loop_dot fuel a s q r d f₁ f₂ f₃ f₄ = rw (f₁, f₂, f₃, f₄) refl

loop_dots :
    (fuel a : ℕ) (s q r : Bytes) (d : ℕ)
    → front_dot (a ∷ s) ≡ false
    → front_dots (a ∷ s) ≡ false
    → dots (a ∷ s) ≡ some q
    → clean_loop (suc fuel) (a ∷ s) r d ≡ clean_loop fuel (skip_slashes q) r (d + 1)
unfolding clean_loop
loop_dots fuel a s q r d f₁ f₂ f₃ = rw (f₁, f₂, f₃) refl

abbrev pub Round : ℕ → Bytes → List Bytes → Bytes → ℕ → Type 0
Round fuel c cs r d =
    clean_loop (suc (suc fuel)) (reverse c ++ after cs) r d
    ≡ go (suc fuel) cs (text_at (kind c) c r d)

as_name :
    (fuel : ℕ) (c : Bytes) (cs : List Bytes) (r : Bytes) (d : ℕ)
    → kind c ≡ name
    → clean_loop (suc (suc fuel)) (reverse c ++ after cs) r d
      ≡ go (suc fuel) cs (text_at name c r d)
    → Round fuel c cs r d
as_name fuel c cs r d k h = rw k h

slash-front_dots : (a : ℕ) (t : Bytes) → front_dots (a ∷ b'/' ∷ t) ≡ false
slash-front_dots a [] = refl
slash-front_dots a (z ∷ t) = refl

and_false : (x : Bool) → (x && false) ≡ false
and_false true = refl
and_false false = refl

slash-dots : (a : ℕ) (t : Bytes) → dots (a ∷ b'/' ∷ t) ≡ none
slash-dots a [] = refl
slash-dots a (z ∷ t) = rw (and_false (z == b'/')) refl

Round-one :
    (fuel a : ℕ) (cs : List Bytes) (r : Bytes) (d : ℕ)
    → NoSlash (a ∷ [])
    → Round fuel (a ∷ []) cs r d
unfolding skip_slashes
Round-one fuel a [] r d h = elim (Bool-cases (a == b'.')) [
  | inl e ↦ unfold clean_loop in rw e refl
  | inr e ↦
      as_name fuel (a ∷ []) [] r d (rw e refl)
        (name_round (suc fuel) a (a ∷ []) [] [] r d refl h e refl refl refl)
]
Round-one fuel a (c ∷ cs) r d h = elim (Bool-cases (a == b'.')) [
  | inl e ↦
      loop_dot (suc fuel) a (after (c ∷ cs)) (c ++ after cs) r d refl
        (slash-front_dots a (c ++ after cs)) (slash-dots a (c ++ after cs)) (rw e refl)
      ∙ rw e refl
  | inr e ↦ as_name fuel (a ∷ []) (c ∷ cs) r d (rw e refl) (
      name_round (suc fuel) a (a ∷ []) [] (c ∷ cs) r d refl h refl
        (slash-front_dots a (c ++ after cs)) (slash-dots a (c ++ after cs)) (rw e refl))
]

Round-two :
    (fuel a b : ℕ) (cs : List Bytes) (r : Bytes) (d : ℕ)
    → NoSlash (a ∷ b ∷ [])
    → Round fuel (a ∷ b ∷ []) cs r d
unfolding skip_slashes
Round-two fuel a b [] r d h = elim (Bool-cases (a == b'.' && b == b'.')) [
  | inl e ↦ unfold clean_loop in rw e refl
  | inr e ↦ as_name fuel (a ∷ b ∷ []) [] r d (rw e refl) (
      name_round (suc fuel) b (a ∷ b ∷ []) (a ∷ []) [] r d refl (h.1.0, (h.0, tt)) refl e refl
        (rw (h.0) refl))
]
Round-two fuel a b (c ∷ cs) r d h = elim (Bool-cases (a == b'.' && b == b'.')) [
  | inl e ↦
      loop_dots (suc fuel) b (a ∷ after (c ∷ cs)) (c ++ after cs) r d refl refl (rw e refl)
      ∙ rw e refl
  | inr e ↦ as_name fuel (a ∷ b ∷ []) (c ∷ cs) r d (rw e refl) (
      name_round (suc fuel) b (a ∷ b ∷ []) (a ∷ []) (c ∷ cs) r d refl (h.1.0, (h.0, tt)) refl refl
        (rw e refl) (rw (h.0) refl))
]

-- Three bytes or more, from the end.
Long : Bytes → Type 0
Long w = (x y z : ℕ) × (t : Bytes) × (w ≡ x ∷ y ∷ z ∷ t) × NoSlash (x ∷ y ∷ z ∷ t)

reverse_aux-Long :
    (s : Bytes) (x y z : ℕ) (t : Bytes)
    → NoSlash s
    → NoSlash (x ∷ y ∷ z ∷ t)
    → Long (reverse_aux s (x ∷ y ∷ z ∷ t))
unfolding Long
reverse_aux-Long [] x y z t h k = (x, y, z, t, refl, k)
reverse_aux-Long (u ∷ s) x y z t h k = reverse_aux-Long s u x y (z ∷ t) h.1 (h.0, k)

Round-long :
    (fuel a b e : ℕ) (s : Bytes) (cs : List Bytes) (r : Bytes) (d : ℕ)
    → NoSlash (a ∷ b ∷ e ∷ s)
    → Round fuel (a ∷ b ∷ e ∷ s) cs r d
unfolding Long
Round-long fuel a b e s cs r d h =
    let (x, y, z, t, w, k) = reverse_aux-Long s e b a [] h.1.1.1 (h.1.1.0, (h.1.0, (h.0, tt))) in
    rw w (
      name_round (suc fuel) x (a ∷ b ∷ e ∷ s) (y ∷ z ∷ t) cs r d w k refl refl (rw (k.1.1.0) refl)
        (rw (k.1.0) refl))

pub round :
    (fuel : ℕ) (a : ℕ) (c : Bytes) (cs : List Bytes) (r : Bytes) (d : ℕ)
    → NoSlash (a ∷ c)
    → Round fuel (a ∷ c) cs r d
round fuel a [] cs r d h = Round-one fuel a cs r d h
round fuel a (b ∷ []) cs r d h = Round-two fuel a b cs r d h
round fuel a (b ∷ e ∷ s) cs r d h = Round-long fuel a b e s cs r d h
