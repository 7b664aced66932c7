-- ===== src/Tests/TextRuns.antt =====
-- Runs of `webencode`, `webdecode` and of the hash strings.
use bksupport.Base.{
  ℕ, ◌+◌, ◌-◌, ◌*◌, ◌<◌, ◌≡◌, refl, List, [], ◌∷◌, ◌++◌, Option, none, some, arith, Bytes, codes,
  leb, if◌then◌else◌, true, ok, ◌&&◌,
}
use bksupport.HashText.Query.{hash_from_str-query}
use bksupport.HashText.{Entry, hash_from_str}
use bksupport.WebEncode.RoundTrip.{mark, webdecode-webencode}
use bksupport.WebEncode.{hex_digit, webencode, HexScan, webdecode}

digit_value : ℕ → Option ℕ
digit_value c =
    if leb b'0' c && leb c b'9'
    then some (c - b'0')
    else if leb b'a' c && leb c b'f'
    then some (c - b'a' + 10)
    else if leb b'A' c && leb c b'F'
    then some (c - b'A' + 10)
    else none

digit_value-hex_digit : (d : ℕ) → d < 16 → digit_value (hex_digit d) ≡ some d
unfolding digit_value
digit_value-hex_digit d low = ground arith

scan_more : ℕ → Bytes → Option ℕ
scan_more d [] = some d
scan_more d (c ∷ s) = elim (digit_value c) [ none ↦ some d | some e ↦ some (d * 16 + e) ]

scan_two : Bytes → Option ℕ
scan_two [] = none
scan_two (c ∷ s) = elim (digit_value c) [ none ↦ none | some d ↦ scan_more d s ]

scan_two-two_digits :
    (d e : ℕ) (s : Bytes)
    → d < 16
    → e < 16
    → scan_two (hex_digit d ∷ hex_digit e ∷ s) ≡ some (d * 16 + e)
unfolding scan_two scan_more
scan_two-two_digits d e s low low' =
    rw (scan_two, digit_value-hex_digit d low, scan_more, digit_value-hex_digit e low') refl

scan_two-one_digit : (d : ℕ) → d < 16 → scan_two (hex_digit d ∷ []) ≡ some d
unfolding scan_two scan_more
scan_two-one_digit d low = rw (scan_two, digit_value-hex_digit d low) refl

abbrev hex_scan : HexScan
hex_scan = record {
  scan = scan_two;
  two_digits = scan_two-two_digits;
  one_digit = scan_two-one_digit;
}

webencode_text : webencode (codes "a b%" ++ 0 ∷ []) ≡ codes "a+b%25"
unfolding webencode
webencode_text = refl

webencode_binary : webencode (b'x' ∷ 200 ∷ []) ≡ codes "x%c8%FF"
unfolding webencode
webencode_binary = refl

webdecode-webencode_example :
    webdecode hex_scan (codes "x%c8%FF&y") ≡ ok (some (codes "&y", b'x' ∷ 200 ∷ []))
unfolding webencode
webdecode-webencode_example =
    webdecode-webencode hex_scan (b'x' ∷ 200 ∷ []) (codes "&y") (omega arith, (omega arith, tt))
      (mark b'&' (codes "y") refl)

abbrev put : List Entry → Bytes → Bytes → List Entry
put h k v = (k, v) ∷ h

abbrev one : Entry
one = (codes "k" ++ 0 ∷ [], codes "v" ++ 0 ∷ [])

abbrev two : Entry
two = (codes "m", [])

hash_from_str-query_example :
    hash_from_str hex_scan put [] (codes "k=v&m%FF=%FF") ≡ ok (two ∷ one ∷ [], true)
unfolding webencode
hash_from_str-query_example = hash_from_str-query hex_scan put [] (one ∷ two ∷ []) (
  ((omega arith, (omega arith, tt)), (omega arith, (omega arith, tt))),
  (((omega arith, tt), tt), tt),
)
