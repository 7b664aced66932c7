-- ===== src/Shell/Words.antt =====
-- The loop of `shellSplit` over one word that `shellquote` wrote, quoted or as it is.
use bksupport.Base.{
  ℕ, zero, suc, ◌+◌, ◌≤◌, ◌<◌, ◌≡◌, refl, ap, ◌∙◌, inl, inr, Bool, true, false, ◌&&◌, List, [], ◌∷◌,
  ◌++◌, append_assoc, arith, Bytes, codes, one_of, length, length-append, ◌==◌, Bool-cases, ok,
  ◌>>=◌,
}
use bksupport.Shell.Quoted.{work, double_quoted_escape}
use bksupport.Shell.Safe.{buf_resize_lem, put_safe}
use bksupport.Shell.{
  Work, Item, quote_set, is_free_of, escape_quoted, close_quote, switch, split_loop, is_digit,
  is_angle, is_space, head_or_null,
}

-- The tests of the switch fail at a byte that needs no quotes.
pub record IsPlain (c : ℕ) : Type 0 where
  pub space : is_space c ≡ false
  pub single : (c == b'\'') ≡ false
  pub double : (c == b'"') ≡ false
  pub angle : one_of (codes "><|") c ≡ false
  pub shell : one_of (codes "`$&;[]*()") c ≡ false
  pub escape : (c == b'\\') ≡ false
  pub redirect : is_angle c ≡ false

IsPlain-byte : (c : ℕ) → one_of quote_set c ≡ false → (c == b'`') ≡ false → IsPlain c
IsPlain-byte c h k = record {
  space = ground arith;
  single = ground arith;
  double = ground arith;
  angle = ground arith;
  shell = ground arith;
  escape = ground arith;
  redirect = ground arith;
}

-- A string that `shellquote` leaves alone, without a backquote.
abbrev pub AllPlain : Bytes → Type 0
AllPlain [] = Unit
AllPlain (c ∷ s) = IsPlain c × AllPlain s

pub free_AllPlain :
    (s : Bytes) → is_free_of quote_set s ≡ true → is_free_of (codes "`") s ≡ true → AllPlain s
unfolding is_free_of
free_AllPlain [] h k = tt
free_AllPlain (c ∷ s) h k = elim (Bool-cases (one_of quote_set c)) [
  | inl e ↦ absurd (cc (rw e at h))
  | inr e ↦ elim (Bool-cases (c == b'`')) [
    | inl e' ↦ absurd (cc (rw e' at k))
    | inr e' ↦ (IsPlain-byte c e e', free_AllPlain s (rw e at h) (rw e' at k))
  ]
]

-- What may follow a word: the end, a space or a backquote.
pub data Ends : Bytes → Type 0 where
  stop : Ends []
  back : (s : Bytes) → Ends (b'`' ∷ s)
  space : (s : Bytes) → Ends (b' ' ∷ s)

next_not_angle :
    (s tail : Bytes) → AllPlain s → Ends tail → is_angle (head_or_null (s ++ tail)) ≡ false
next_not_angle [] _ p stop = refl
next_not_angle [] _ p (space t) = refl
next_not_angle [] _ p (back t) = refl
next_not_angle (c ∷ s) tail p e = p.0.redirect

-- One byte of a plain word goes into the buffer.
switch_plain :
    (c : ℕ) (s out : Bytes) (size : ℕ) (item : Bool) (ret : List Item)
    → IsPlain c
    → is_angle (head_or_null s) ≡ false
    → length out + 1 ≤ size
    → switch c s (work out size item ret) ≡ ok (s, work (out ++ c ∷ []) size true ret)
unfolding switch
switch_plain c s out size item ret p next fit =
    let e : (is_digit c && is_angle (head_or_null s)) ≡ false = ground arith in
    rw
      (
        p.space,
        p.single,
        p.double,
        p.angle,
        p.shell,
        p.escape,
        e,
        put_safe (work out size item ret) (c ∷ []) fit,
      )
      refl

-- One round of the loop.
pub split_next :
    (fuel c : ℕ) (s : Bytes) (w : Work) (pin out : Bytes) (size : ℕ) (item : Bool) (ret : List Item)
    → switch c s w ≡ ok (pin, work out size item ret)
    → 0 < size
    → length out + 2 ≤ 1073741824
    → (size' : ℕ) × (split_loop (suc fuel) (c ∷ s) w
        ≡ split_loop fuel pin (work out size' item ret))
      × (length out + 2 ≤ size')
unfolding split_loop
split_next fuel c s w pin out size item ret step pos small =
    let (size', run, room, _) = buf_resize_lem (work out size item ret) 2 pos small in
    (size', rw (step, run), room)

length-escape_quoted : (s : Bytes) → length s ≤ length (escape_quoted s)
unfolding escape_quoted
length-escape_quoted [] = omega arith
length-escape_quoted (c ∷ s) = ground (arith, length-escape_quoted s)

module _ (ret : List Item) where
  -- The loop has read `s` into the buffer, and goes on with `tail`.
  abbrev pub Reads : ℕ → Bytes → Bytes → Bytes → ℕ → Bool → Bytes → Type 0
  Reads fuel pin s tail size item out =
      (fuel' : ℕ) × (size' : ℕ) × (split_loop fuel pin (work out size item ret)
        ≡ split_loop fuel' tail (work (out ++ s) size' true ret))
      × (length tail < fuel')
      × (length (out ++ s) + 2 ≤ size')
      × (fuel' ≤ fuel)

  pub plain-Reads :
      (c : ℕ) (s tail out : Bytes) (fuel size : ℕ) (item : Bool)
      → AllPlain (c ∷ s)
      → Ends tail
      → length (c ∷ (s ++ tail)) < fuel
      → length out + 2 ≤ size
      → length out + length (c ∷ (s ++ tail)) + 2 ≤ 1073741824
      → Reads fuel (c ∷ (s ++ tail)) (c ∷ s) tail size item out
  plain-Reads c s tail out zero size item p e h fit small = absurd (omega arith)
  plain-Reads c [] tail out (suc fuel) size item p e h fit small =
      let step =
        switch_plain c tail out size item ret p.0 (next_not_angle [] tail tt e) (omega arith) in
      let (size', run, room) =
        split_next fuel c tail _ tail (out ++ c ∷ []) size true ret step (omega arith)
          (omega (arith, length-append out (c ∷ []))) in
      (fuel, size', run, omega arith, room, omega arith)
  plain-Reads c (d ∷ s) tail out (suc fuel) size item p e h fit small =
      let rest = d ∷ (s ++ tail) in
      let step = switch_plain c rest out size item ret p.0 p.1.0.redirect (omega arith) in
      let (size', run, room) =
        split_next fuel c rest _ rest (out ++ c ∷ []) size true ret step (omega arith)
          (omega (arith, length-append out (c ∷ []))) in
      let (fuel', size'', run', left, fit', less) =
        plain-Reads d s tail (out ++ c ∷ []) fuel size' true p.1 e (omega arith) room
          (omega (arith, length-append out (c ∷ []))) in
      let all : (out ++ c ∷ []) ++ (d ∷ s) ≡ out ++ (c ∷ d ∷ s) =
        append_assoc out (c ∷ []) (d ∷ s) in
      (
        fuel',
        size'',
        run ∙ run' ∙ ap (λ t. split_loop fuel' tail (work t size'' true ret)) all,
        left,
        rw (← all) fit',
        omega (arith, less),
      )

  -- The quotes and what stands between them.
  switch_quoted :
      (s tail : Bytes) (size : ℕ)
      → 0 < size
      → length s + 2 ≤ 1073741824
      → (size' : ℕ) × (switch b'"' (escape_quoted s ++ b'"' ∷ tail) (work [] size false ret)
          ≡ ok (tail, work s size' true ret))
        × (0 < size')
  unfolding switch close_quote
  switch_quoted s tail size pos small =
      let text = escape_quoted s ++ b'"' ∷ tail in
      let (size', run, _, pos') =
        double_quoted_escape tail false ret (suc (length text)) s [] size
          (omega (arith, length-append (escape_quoted s) (b'"' ∷ tail), length-escape_quoted s))
          (omega arith) pos (omega arith) in
      (size', ap (λ r. r >>= close_quote) run, pos')

  pub quoted-Reads :
      (s tail : Bytes) (fuel size : ℕ)
      → length (b'"' ∷ (escape_quoted s ++ b'"' ∷ tail)) < fuel
      → 0 < size
      → length (b'"' ∷ (escape_quoted s ++ b'"' ∷ tail)) + 2 ≤ 1073741824
      → Reads fuel (b'"' ∷ (escape_quoted s ++ b'"' ∷ tail)) s tail size false []
  quoted-Reads s tail zero size h pos small = absurd (omega arith)
  quoted-Reads s tail (suc fuel) size h pos small =
      let few : length s + 2 ≤ 1073741824 =
        omega (arith, length-append (escape_quoted s) (b'"' ∷ tail), length-escape_quoted s) in
      let (size₁, step, pos₁) = switch_quoted s tail size pos few in
      let (size', run, room) = split_next fuel b'"' _ _ tail s size₁ true ret step pos₁ few in
      (
        fuel,
        size',
        run,
        omega (arith, length-append (escape_quoted s) (b'"' ∷ tail)),
        room,
        omega arith,
      )
