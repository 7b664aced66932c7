-- ===== src/WebEncode/RoundTrip.antt =====
-- `webdecode` reads back what `webencode` wrote.
use bksupport.Base.{
  ℕ, zero, suc, ◌+◌, ◌*◌, ◌/◌, ◌%◌, ◌≤◌, ◌<◌, ◌≡◌, refl, ap, ◌∙◌, inl, inr, Bool, true, false, ◌||◌,
  [], ◌∷◌, ◌++◌, append_assoc, append-nil, ◌-◌, some, arith, Bytes, codes, length, length-append,
  ◌==◌, if◌then◌else◌, Bool-cases, ok,
}
use bksupport.WebEncode.{
  is_encoded, hex_digit, encode_byte, webencode, HexScan, decode_loop, webdecode,
}

hex_digit_range : (d : ℕ) → d < 16 → (hex_digit d == b'F') ≡ false
hex_digit_range d h = ground arith

literal_tests :
    (c : ℕ)
    → (c == b' ') ≡ false
    → is_encoded c ≡ false
    → ((c == b'+') ≡ false) × ((c == b'%') ≡ false) × ((c == b'&' || c == b'=') ≡ false)
unfolding is_encoded
literal_tests c e h = ground arith

-- What may follow the text: the end of the string, `&` or `=`.
pub data Follows : Bytes → Type 0 where
  stop : Follows []
  mark : (c : ℕ) (s : Bytes) → (c == b'&' || c == b'=') ≡ true → Follows (c ∷ s)

module _ (h : HexScan) where
  pub decode_byte :
      (c : ℕ) (s out : Bytes) (bin : Bool) (fuel : ℕ)
      → c < 256
      → decode_loop h (suc fuel) (encode_byte c ++ s) out bin
        ≡ decode_loop h fuel s (out ++ c ∷ []) bin
  unfolding encode_byte decode_loop
  decode_byte c s out bin fuel small = elim (Bool-cases (c == b' ')) [
    | inl e ↦ let e' : c ≡ b' ' = ground arith in rw e' refl
    | inr e ↦ elim (Bool-cases (is_encoded c)) [
      | inl coded ↦
          let value : (c / 16 * 16 + c % 16) % 256 ≡ c = omega arith in
          rw
            (
              e,
              coded,
              hex_digit_range (c / 16) (omega arith),
              h.two_digits (c / 16) (c % 16) s (omega arith) (omega arith),
              value,
            )
            refl
      | inr plain ↦ let t = literal_tests c e plain in rw (e, plain, t.0, t.1, t.2)
    ]
  ]

  decode_stop :
      (t out : Bytes) (bin : Bool) (fuel : ℕ)
      → Follows t
      → decode_loop h (suc fuel) t out bin ≡ ok (some (t, if bin then out else out ++ 0 ∷ []))
  unfolding decode_loop
  decode_stop _ out bin fuel stop = refl
  decode_stop _ out bin fuel (mark c s e) =
      let e₁ : (c == b'+') ≡ false = ground arith in
      let e₂ : (c == b'%') ≡ false = ground arith in rw (e₁, e₂, e)

  decode_marker :
      (t out : Bytes) (fuel : ℕ) (bin : Bool)
      → Follows t
      → decode_loop h (suc (suc fuel)) (codes "%FF" ++ t) out bin ≡ ok (some (t, out))
  decode_marker t out fuel bin e = marked ∙ decode_stop t out true fuel e
    where
      marked :
          decode_loop h (suc (suc fuel)) (codes "%FF" ++ t) out bin
          ≡ decode_loop h (suc fuel) t out true
      marked = unfold decode_loop in refl

-- The rounds of the decoder.
rounds : Bytes → ℕ
rounds [] = 2
rounds (c ∷ []) = if c == 0 then 1 else 3
rounds (c ∷ d ∷ s) = suc (rounds (d ∷ s))

pub encode_byte_pos : (c : ℕ) → 1 ≤ length (encode_byte c)
unfolding encode_byte
encode_byte_pos c = ground arith

rounds-le : (s : Bytes) → rounds s ≤ suc (length (webencode s))
unfolding rounds webencode
rounds-le [] = omega arith
rounds-le (c ∷ []) = elim (Bool-cases (c == 0)) [
  | inl e ↦ rw e (omega arith)
  | inr e ↦ rw e (omega (arith, length-append (encode_byte c) (codes "%FF"), encode_byte_pos c))
]
rounds-le (c ∷ d ∷ s) =
    omega (
      arith,
      rounds-le (d ∷ s),
      length-append (encode_byte c) (webencode (d ∷ s)),
      encode_byte_pos c,
    )

abbrev pub AllBytes : Bytes → Type 0
AllBytes [] = Unit
AllBytes (c ∷ s) = (c < 256) × AllBytes s

module _ (h : HexScan) where
  decode_encoded :
      (s t out : Bytes) (fuel : ℕ)
      → AllBytes s
      → Follows t
      → rounds s ≤ fuel
      → decode_loop h fuel (webencode s ++ t) out false ≡ ok (some (t, out ++ s))
  unfolding webencode rounds
  decode_encoded [] t out zero all e le = absurd (omega arith)
  decode_encoded [] t out (suc zero) all e le = absurd (omega arith)
  decode_encoded [] t out (suc (suc fuel)) all e le =
      rw append-nil (decode_marker h t out fuel false e)
  decode_encoded (c ∷ []) t out zero all e le = ground arith
  decode_encoded (c ∷ []) t out (suc fuel) all e le = elim (Bool-cases (c == 0)) [
    | inl z ↦ let z' : c ≡ 0 = ground arith in rw z' (decode_stop h t out false fuel e)
    | inr z ↦ rw z (
        let three : 3 ≤ suc fuel = rw z at le in
        let e₁ : fuel ≡ suc (suc (fuel - 2)) = omega arith in
        rw e₁ (
          rw append_assoc (
            decode_byte h c (codes "%FF" ++ t) out false (suc (suc (fuel - 2))) all.0
            ∙ decode_marker h t (out ++ c ∷ []) (fuel - 2) false e)))
  ]
  decode_encoded (c ∷ d ∷ s) t out zero all e le = absurd (omega arith)
  decode_encoded (c ∷ d ∷ s) t out (suc fuel) all e le = rw append_assoc (
      decode_byte h c (webencode (d ∷ s) ++ t) out false fuel all.0
      ∙ decode_encoded (d ∷ s) t (out ++ c ∷ []) fuel all.1 e (omega arith)
      ∙ ap (λ r. ok (some (t, r))) (append_assoc out (c ∷ []) (d ∷ s)))

  -- `webdecode` gives back every row of bytes that `webencode` wrote, nulls and the trailing null
  -- included, and stops at the `&`, the `=` or the end that follows the text.
  pub webdecode-webencode :
      (s t : Bytes) → AllBytes s → Follows t → webdecode h (webencode s ++ t) ≡ ok (some (t, s))
  unfolding webdecode
  webdecode-webencode s t all e =
      decode_encoded s t [] (suc (length (webencode s ++ t))) all e
        (omega (arith, rounds-le s, length-append (webencode s) t))
