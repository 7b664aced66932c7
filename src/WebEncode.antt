-- ===== src/WebEncode.antt =====
-- utils/webencode.c: bytes as the text of a query string and back. The output stream of
-- `webencode` is the bytes written. A C string is its bytes, with no null among them; the buffer of
-- `webdecode` may hold nulls. `sscanf(p, "%2x", &c)` is a parameter, of which only its result on
-- one or two hexadecimal digits matters.
pub mod RoundTrip
pub mod Bounds
use bksupport.Base.{
  ℕ, zero, suc, ◌+◌, ◌-◌, ◌*◌, ◌/◌, ◌%◌, ◌<◌, ◌≡◌, Bool, true, false, ◌&&◌, ◌||◌, List, [], ◌∷◌,
  ◌++◌, Option, none, some, Bytes, codes, one_of, length, ltb, leb, ◌==◌, if◌then◌else◌, Run, ok,
  fault, wild, no_fuel, ◌>>=◌,
}

-- the table `binchars`
unfoldable pub is_encoded : ℕ → Bool
is_encoded c =
    if leb b'A' c && leb c b'Z'
    then false
    else if leb b'a' c && leb c b'z'
    then false
    else if leb b'0' c && leb c b'9'
    then false
    else if one_of (codes "-_.~/@") c
    then false
    else true

-- a digit of "%02x"
abbrev pub hex_digit : ℕ → ℕ
hex_digit d = if ltb d 10 then b'0' + d else b'a' + (d - 10)

unfoldable pub encode_byte : ℕ → Bytes
unfolding is_encoded
encode_byte c =
    if c == b' '
    then b'+' ∷ []
    else if is_encoded c
    then b'%' ∷ hex_digit (c / 16) ∷ hex_digit (c % 16) ∷ []
    else c ∷ []

-- a single null at the end is not written, and no null there is marked by "%FF"
unfoldable pub webencode : Bytes → Bytes
unfolding encode_byte
webencode [] = codes "%FF"
webencode (c ∷ []) = if c == 0 then [] else encode_byte c ++ codes "%FF"
webencode (c ∷ d ∷ s) = encode_byte c ++ webencode (d ∷ s)

-- What the decoder relies on: the conversion stops at the field width and at the first byte that
-- is no digit.
pub record HexScan : Type 0 where
  pub scan : Bytes → Option ℕ
  pub two_digits :
      (d e : ℕ) (s : Bytes)
      → d < 16
      → e < 16
      → scan (hex_digit d ∷ hex_digit e ∷ s) ≡ some (d * 16 + e)
  pub one_digit : (d : ℕ) → d < 16 → scan (hex_digit d ∷ []) ≡ some d

-- `p += 2` behind a `%`, and the `p++` of the loop: past the terminating null there is no string
abbrev pub skip_two : Bytes → Run Bytes
skip_two (x ∷ y ∷ s) = ok s
skip_two _ = fault wild

abbrev pub is_marker : Bytes → Bool
is_marker (x ∷ y ∷ s) = x == b'F' && y == b'F'
is_marker _ = false

module _ (h : HexScan) where
  -- The text left and the bytes of the buffer; `none` is the label `err`.
  unfoldable pub decode_loop : ℕ → Bytes → Bytes → Bool → Run (Option (Bytes × Bytes))
  decode_loop zero p out bin = fault no_fuel
  decode_loop (suc fuel) [] out bin = ok (some ([], if bin then out else out ++ 0 ∷ []))
  decode_loop (suc fuel) (c ∷ s) out bin =
      let stop = ok (some (c ∷ s, if bin then out else out ++ 0 ∷ [])) in
      let space = decode_loop fuel s (out ++ b' ' ∷ []) bin in
      let marker = (do s' ← skip_two s; decode_loop fuel s' out true) in
      let byte : Run (Option (Bytes × Bytes)) = elim (h.scan s) [
        | none ↦ ok none
        | some v ↦ skip_two s >>= λ s'. decode_loop fuel s' (out ++ v % 256 ∷ []) bin
      ] in
      let literal = decode_loop fuel s (out ++ c ∷ []) bin in
      if c == b'+'
      then space
      else if c == b'%'
      then (if is_marker s then marker else byte)
      else if c == b'&' || c == b'='
      then stop
      else literal

  unfoldable pub webdecode : Bytes → Run (Option (Bytes × Bytes))
  unfolding decode_loop
  webdecode p = decode_loop (suc (length p)) p [] false
