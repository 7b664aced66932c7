-- ===== src/Shell/Quoted.antt =====
-- The loop between double quotes reads back what the escaping loop of `shellquote` wrote.
use bksupport.Base.{
  ℕ, zero, suc, ◌+◌, ◌≤◌, ◌<◌, ◌≡◌, refl, sym, ap, ◌∙◌, inl, inr, Bool, true, false, ◌||◌, List, [],
  ◌∷◌, ◌++◌, append_assoc, append-nil, arith, Bytes, codes, length, length-append, ◌==◌, Bool-cases,
  ok,
}
use bksupport.Shell.Safe.{buf_resize_lem, put_safe}
use bksupport.Shell.{
  Work, Item, escape_quoted, cspan, unescape_quoted, double_quoted_step, double_quoted,
}

abbrev pub work : Bytes → ℕ → Bool → List Item → Work
work out size item ret = record { out = out; bufsize = size; item = item; ret = ret }

abbrev stops : Bytes
stops = codes "\"\\"

abbrev part : Bytes → Bytes
part s = (cspan stops s).0

abbrev rest : Bytes → Bytes
rest s = (cspan stops s).1

part-append-rest : (s : Bytes) → part s ++ rest s ≡ s
unfolding cspan
part-append-rest [] = refl
part-append-rest (c ∷ s) = ground (arith, part-append-rest s)

cspan_escape :
    (s tail : Bytes)
    → cspan stops (escape_quoted s ++ b'"' ∷ tail) ≡ (part s, escape_quoted (rest s) ++ b'"' ∷ tail)
unfolding cspan escape_quoted
cspan_escape [] tail = refl
cspan_escape (c ∷ s) tail = ground (arith, cspan_escape s tail)

-- What is left after the part is empty or begins with an escaped byte.
data Left : Bytes → Type 0 where
  nothing : Left []
  stop : (c : ℕ) (r : Bytes) → (c == b'"' || c == b'\\') ≡ true → Left (c ∷ r)

rest-Left : (s : Bytes) → Left (rest s)
unfolding cspan
rest-Left [] = nothing
rest-Left (c ∷ s) = elim (Bool-cases (c == b'"')) [
  | inl e ↦ rw (e, rest) (stop c s (rw e))
  | inr e ↦ elim (Bool-cases (c == b'\\')) [
    | inl e' ↦ rw (e, e', rest) (stop c s (rw (e, e')))
    | inr e' ↦ rw (e, e', rest) (rest-Left s)
  ]
]

-- The escaped text of a string that is not empty does not begin with `"`.
escaped_head :
    (c : ℕ) (s tail : Bytes)
    → (d : ℕ) × (r : Bytes) × (escape_quoted (c ∷ s) ++ b'"' ∷ tail ≡ d ∷ r) × ((d == b'"') ≡ false)
unfolding escape_quoted
escaped_head c s tail = elim (Bool-cases (c == b'"' || c == b'\\')) [
  | inl e ↦ (b'\\', c ∷ (escape_quoted s ++ b'"' ∷ tail), rw e, refl)
  | inr e ↦ (c, escape_quoted s ++ b'"' ∷ tail, rw e, ground arith)
]

module _ (tail : Bytes) (item : Bool) (ret : List Item) where
  -- Between double quotes, the escaped text of `s` puts `s` into the buffer.
  abbrev pub ReadsBack : ℕ → Bytes → Bytes → ℕ → Type 0
  ReadsBack fuel s out size =
      (size' : ℕ) × (double_quoted fuel (escape_quoted s ++ b'"' ∷ tail) (work out size item ret)
        ≡ ok (b'"' ∷ tail, work (out ++ s) size' item ret))
      × (length (out ++ s) ≤ size')
      × (0 < size')

  step_escape :
      (s out : Bytes) (size : ℕ)
      → 0 < size
      → length out + length s < 1073741824
      → (size' : ℕ) × (double_quoted_step (escape_quoted s ++ b'"' ∷ tail) (work out size item ret)
          ≡ unescape_quoted
              (escape_quoted (rest s) ++ b'"' ∷ tail)
              (work (out ++ part s) size' item ret))
        × (length out + length (part s) + 1 ≤ size')
  unfolding double_quoted_step
  step_escape s out size pos small =
      let (size', run, fit, _) =
        buf_resize_lem (work out size item ret) (length (part s) + 1) pos
          (omega (arith, ap length (part-append-rest s), length-append (part s) (rest s))) in
      (
        size',
        rw (cspan_escape s tail, run, put_safe (work out size' item ret) (part s) (omega arith)),
        omega arith,
      )

  unescape_end : (w : Work) → unescape_quoted (b'"' ∷ tail) w ≡ ok (b'"' ∷ tail, w)
  unfolding unescape_quoted
  unescape_end w = elim tail as (λ t. unescape_quoted (b'"' ∷ t) w ≡ ok (b'"' ∷ t, w)) [
    | [] ↦ refl
    | c ∷ t ↦ refl
  ]

  unescape_last :
      (w : Work) → unescape_quoted (escape_quoted [] ++ b'"' ∷ tail) w ≡ ok (b'"' ∷ tail, w)
  unfolding escape_quoted
  unescape_last w = unescape_end w

  unescape_stop :
      (c : ℕ) (r out : Bytes) (size : ℕ)
      → (c == b'"' || c == b'\\') ≡ true
      → length out + 1 ≤ size
      → unescape_quoted (escape_quoted (c ∷ r) ++ b'"' ∷ tail) (work out size item ret)
        ≡ ok (escape_quoted r ++ b'"' ∷ tail, work (out ++ c ∷ []) size item ret)
  unfolding unescape_quoted escape_quoted
  unescape_stop c r out size e fit = rw e (
      let e' : (c == b'\\' || c == b'"') ≡ true = ground arith in
      rw (e', put_safe (work out size item ret) (c ∷ []) fit))

  double_quoted_next :
      (fuel c : ℕ) (s pin : Bytes) (w w' : Work)
      → double_quoted_step (escape_quoted (c ∷ s) ++ b'"' ∷ tail) w ≡ ok (pin, w')
      → double_quoted (suc fuel) (escape_quoted (c ∷ s) ++ b'"' ∷ tail) w
        ≡ double_quoted fuel pin w'
  unfolding double_quoted
  double_quoted_next fuel c s pin w w' step =
      let (d, r, e, inside) = escaped_head c s tail in rw e (rw (inside, rw e at step))

  double_quoted_end :
      (fuel : ℕ) (w : Work) → double_quoted (suc fuel) (b'"' ∷ tail) w ≡ ok (b'"' ∷ tail, w)
  unfolding double_quoted
  double_quoted_end fuel w = refl

  pub double_quoted_escape :
      (fuel : ℕ) (s out : Bytes) (size : ℕ)
      → length s < fuel
      → length out ≤ size
      → 0 < size
      → length out + length s < 1073741824
      → ReadsBack fuel s out size
  double_quoted_escape zero s out size h fit pos small = absurd (omega arith)
  double_quoted_escape (suc fuel) [] out size h fit pos small = (
    size,
    rw append-nil (unfold escape_quoted in double_quoted_end fuel _),
    rw append-nil fit,
    pos,
  )
  double_quoted_escape (suc zero) (c ∷ s) out size h fit pos small = absurd (omega arith)
  double_quoted_escape (suc (suc fuel)) (c ∷ s) out size h fit pos small =
      let (size', step, room) = step_escape (c ∷ s) out size pos small in
      after (rest (c ∷ s)) (rest-Left (c ∷ s)) (part-append-rest (c ∷ s)) size' step room
        (λ r out' fit' few small'.
          double_quoted_escape (suc fuel) r out' size' few fit' (omega arith) small')
    where
      after :
          (r : Bytes)
          → Left r
          → part (c ∷ s) ++ r ≡ c ∷ s
          → (size' : ℕ)
          → double_quoted_step (escape_quoted (c ∷ s) ++ b'"' ∷ tail) (work out size item ret)
            ≡ unescape_quoted
                (escape_quoted r ++ b'"' ∷ tail)
                (work (out ++ part (c ∷ s)) size' item ret)
          → length out + length (part (c ∷ s)) + 1 ≤ size'
          → ((r' out' : Bytes)
              → length out' ≤ size'
              → length r' < suc fuel
              → length out' + length r' < 1073741824
              → ReadsBack (suc fuel) r' out' size')
          → ReadsBack (suc (suc fuel)) (c ∷ s) out size
      after _ nothing whole size' step room ih =
          let p = part (c ∷ s) in
          let all : out ++ p ≡ out ++ (c ∷ s) = ap (λ t. out ++ t) (sym (append-nil p) ∙ whole) in
          let w = work (out ++ p) size' item ret in
          let step' = step ∙ unescape_last w in
          (
            size',
            double_quoted_next (suc fuel) c s _ _ w step'
                ∙ double_quoted_end fuel w
                ∙ ap (λ t. ok (b'"' ∷ tail, work t size' item ret)) all,
            rw (← all) (rw length-append (omega arith)),
            omega arith,
          )
      after _ (stop d r esc) whole size' step room ih =
          let p = part (c ∷ s) in
          let out' = (out ++ p) ++ d ∷ [] in
          let all : out' ++ r ≡ out ++ (c ∷ s) = simp append_assoc (ap (λ t. out ++ t) whole) in
          let grown : length (out ++ p) + 1 ≤ size' = rw length-append room in
          let step' = step ∙ unescape_stop d r (out ++ p) size' esc grown in
          let (size'', run, fit', pos') =
            ih r out' (omega (arith, length-append (out ++ p) (d ∷ [])))
              (omega (arith, ap length whole, length-append p (d ∷ r)))
              (omega
                (arith, small, ap length all, length-append out' r, length-append out (c ∷ s))) in
          (
            size'',
            double_quoted_next (suc fuel) c s _ _ _ step'
                ∙ run
                ∙ ap (λ t. ok (b'"' ∷ tail, work t size'' item ret)) all,
            rw (← all) fit',
            pos',
          )
