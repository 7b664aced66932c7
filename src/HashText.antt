-- ===== src/HashText.antt =====
-- hash_fromStr of hash/hash_tostr.c, which reads a query string into a hash. The hash is a parameter with
-- its `hash_store`. hash_toStr is left out: its stream writes over the pointer `buf` itself.
pub mod Query
use bksupport.Base.{
  ℕ, zero, suc, Bool, true, false, List, [], ◌∷◌, ◌++◌, map, Option, none, some, Bytes, codes,
  length, ◌==◌, if◌then◌else◌, Run, ok, fault, no_fuel, ◌>>=◌,
}
use bksupport.WebEncode.{HexScan, webdecode}

abbrev pub Entry : Type 0
Entry = Bytes × Bytes

-- `*p++ == c`: what follows, if the byte is there
abbrev pub skip_byte : ℕ → Bytes → Option Bytes
skip_byte c [] = none
skip_byte c (d ∷ s) = if d == c then some s else none

module _ {ℓ} (scan : HexScan) {H : Type ℓ} (store : H → Bytes → Bytes → H) where
  -- one round: a key, `=`, a value; the result is the text behind the value
  unfoldable pub read_entry : H → Bytes → Run (Option (Bytes × H))
  read_entry h p = do
    key ← webdecode scan p
    elim key [
      | none ↦ ok none
      | some (p₁, k) ↦ elim (skip_byte b'=' p₁) [
        | none ↦ ok none
        | some p₂ ↦ webdecode scan p₂ >>= λ value. elim value [
          | none ↦ ok none
          | some (p₃, v) ↦ ok (some (p₃, store h k v))
        ]
      ]
    ]

  -- The hash after the call, and whether it returns 0.
  unfoldable pub from_str_loop : ℕ → H → Bytes → Run (H × Bool)
  unfolding read_entry
  from_str_loop zero h p = fault no_fuel
  from_str_loop (suc fuel) h [] = ok (h, true)
  from_str_loop (suc fuel) h (c ∷ s) = do
    entry ← read_entry h (c ∷ s)
    elim entry [
      | none ↦ ok (h, false)
      | some ([], h') ↦ ok (h', true)
      | some (d ∷ p, h') ↦ elim (d == b'&') [
        | true ↦ from_str_loop fuel h' p
        | false ↦ ok (h', false)
      ]
    ]

  unfoldable pub hash_from_str : H → Bytes → Run (H × Bool)
  unfolding from_str_loop
  hash_from_str h str = from_str_loop (suc (length str)) h str
