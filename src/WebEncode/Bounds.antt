-- ===== src/WebEncode/Bounds.antt =====
-- Where the loop of `webdecode` reads past the end of its string.
use bksupport.Base.{
  ℕ, zero, suc, ◌≤◌, ◌<◌, ◌≡◌, ◌∙◌, false, [], ◌∷◌, ◌++◌, append_assoc, arith, Bytes, length,
  length-append, fault, wild,
}
use bksupport.WebEncode.RoundTrip.{AllBytes, decode_byte, encode_byte_pos}
use bksupport.WebEncode.{hex_digit, encode_byte, HexScan, decode_loop, webdecode}

-- The bytes, each in its encoded form.
abbrev pub encoded : Bytes → Bytes
encoded [] = []
encoded (c ∷ s) = encode_byte c ++ encoded s

module _ (h : HexScan) where
  decode_cut :
      (d fuel : ℕ) (out : Bytes)
      → d < 16
      → decode_loop h (suc fuel) (b'%' ∷ hex_digit d ∷ []) out false ≡ fault wild
  unfolding decode_loop
  decode_cut d fuel out low = rw (h.one_digit d low)

  decode_prefix :
      (s : Bytes) (d fuel : ℕ) (out : Bytes)
      → AllBytes s
      → d < 16
      → length s < fuel
      → decode_loop h fuel (encoded s ++ b'%' ∷ hex_digit d ∷ []) out false ≡ fault wild
  decode_prefix s d zero out all low le = absurd (omega arith)
  decode_prefix [] d (suc fuel) out all low le = decode_cut d fuel out low
  decode_prefix (c ∷ s) d (suc fuel) out all low le = rw append_assoc (
      decode_byte h c (encoded s ++ b'%' ∷ hex_digit d ∷ []) out false fuel all.0
      ∙ decode_prefix s d fuel (out ++ c ∷ []) all.1 low (omega arith))

  length-encoded : (s : Bytes) → length s ≤ length (encoded s)
  length-encoded [] = omega arith
  length-encoded (c ∷ s) =
      omega (arith, length-encoded s, encode_byte_pos c, length-append (encode_byte c) (encoded s))

  -- On a text that ends in `%` and one hexadecimal digit `webdecode` reads past the terminating
  -- null: it skips two bytes where there is one.
  pub webdecode_cut :
      (s : Bytes) (d : ℕ)
      → AllBytes s
      → d < 16
      → webdecode h (encoded s ++ b'%' ∷ hex_digit d ∷ []) ≡ fault wild
  unfolding webdecode
  webdecode_cut s d all low =
      decode_prefix s d (suc (length (encoded s ++ b'%' ∷ hex_digit d ∷ []))) [] all low
        (omega (arith, length-append (encoded s) (b'%' ∷ hex_digit d ∷ []), length-encoded s))
