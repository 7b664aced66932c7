-- ===== src/HashText/Query.antt =====
-- hash_fromStr stores the entries of a query string.
use bksupport.Base.{
  ℕ, zero, suc, ◌<◌, ◌≤◌, ◌≡◌, refl, ◌∙◌, true, List, [], ◌∷◌, ◌++◌, append_assoc, some, arith,
  Bytes, length, length-append, ok,
}
use bksupport.HashText.{Entry, read_entry, from_str_loop, hash_from_str}
use bksupport.WebEncode.RoundTrip.{AllBytes, Follows, stop, mark, webdecode-webencode}
use bksupport.WebEncode.{webencode, HexScan}

abbrev pub AllEntries : List Entry → Type 0
AllEntries [] = Unit
AllEntries (e ∷ entries) = (AllBytes e.0 × AllBytes e.1) × AllEntries entries

-- The stores of a row of entries, the first one first.
abbrev pub store_all {ℓ} : {H : Type ℓ} → (H → Bytes → Bytes → H) → H → List Entry → H
store_all store h [] = h
store_all store h (e ∷ entries) = store_all store (store h e.0 e.1) entries

-- The text of an entry, and of a row of them behind another.
abbrev pub entry_text : Entry → Bytes
entry_text e = webencode e.0 ++ b'=' ∷ webencode e.1

abbrev pub rest_text : List Entry → Bytes
rest_text [] = []
rest_text (e ∷ entries) = b'&' ∷ (entry_text e ++ rest_text entries)

-- The query string of entries: `key=value` for each, with `&` between them.
abbrev pub query : List Entry → Bytes
query [] = []
query (e ∷ entries) = entry_text e ++ rest_text entries

rest-Follows : (entries : List Entry) → Follows (rest_text entries)
rest-Follows [] = stop
rest-Follows (e ∷ entries) = mark b'&' _ refl

entry_text_split :
    (e : Entry) (t : Bytes) → entry_text e ++ t ≡ webencode e.0 ++ b'=' ∷ (webencode e.1 ++ t)
entry_text_split e t = append_assoc (webencode e.0) (b'=' ∷ webencode e.1) t

entry_text_cons : (e : Entry) (t : Bytes) → (c : ℕ) × (s : Bytes) × (entry_text e ++ t ≡ c ∷ s)
entry_text_cons e t = cons_of (webencode e.0) (entry_text_split e t)
  where
    cons_of :
        (w : Bytes)
        → entry_text e ++ t ≡ w ++ b'=' ∷ (webencode e.1 ++ t)
        → (c : ℕ) × (s : Bytes) × (entry_text e ++ t ≡ c ∷ s)
    cons_of [] eq = (_, _, eq)
    cons_of (c ∷ w) eq = (_, _, eq)

module _ {ℓ} (scan : HexScan) {H : Type ℓ} (store : H → Bytes → Bytes → H) where
  read_entry_text :
      (h : H) (e : Entry) (t : Bytes)
      → AllBytes e.0
      → AllBytes e.1
      → Follows t
      → read_entry scan store h (entry_text e ++ t) ≡ ok (some (t, store h e.0 e.1))
  unfolding read_entry
  read_entry_text h e t a b f =
      rw
        (
          entry_text_split e t,
          webdecode-webencode scan e.0 (b'=' ∷ (webencode e.1 ++ t)) a (mark b'=' _ refl),
          webdecode-webencode scan e.1 t b f,
        )
        refl

  loop_last :
      (fuel : ℕ) (h h' : H) (p : Bytes)
      → read_entry scan store h p ≡ ok (some ([], h'))
      → ((c : ℕ) × (s : Bytes) × (p ≡ c ∷ s))
      → from_str_loop scan store (suc fuel) h p ≡ ok (h', true)
  unfolding from_str_loop
  loop_last fuel h h' p run (c, s, e) = rw e (rw (rw e at run))

  loop_next :
      (fuel : ℕ) (h h' : H) (p t : Bytes)
      → read_entry scan store h p ≡ ok (some (b'&' ∷ t, h'))
      → ((c : ℕ) × (s : Bytes) × (p ≡ c ∷ s))
      → from_str_loop scan store (suc fuel) h p ≡ from_str_loop scan store fuel h' t
  unfolding from_str_loop
  loop_next fuel h h' p t run (c, s, e) = rw e (rw (rw e at run))

  loop_entries :
      (entries : List Entry) (e : Entry) (h : H) (fuel : ℕ)
      → AllEntries (e ∷ entries)
      → length entries < fuel
      → from_str_loop scan store fuel h (entry_text e ++ rest_text entries)
        ≡ ok (store_all store h (e ∷ entries), true)
  loop_entries entries e h zero all le = absurd (omega arith)
  loop_entries [] e h (suc fuel) all le =
      loop_last fuel h _ _ (read_entry_text h e [] all.0.0 all.0.1 stop) (entry_text_cons e [])
  loop_entries (e' ∷ entries) e h (suc fuel) all le =
      let t = rest_text (e' ∷ entries) in
      loop_next fuel h _ _ (entry_text e' ++ rest_text entries)
        (read_entry_text h e t all.0.0 all.0.1 (rest-Follows (e' ∷ entries))) (entry_text_cons e t)
      ∙ loop_entries entries e' (store h e.0 e.1) fuel all.1 (omega arith)

  length-rest_text : (entries : List Entry) → length entries ≤ length (rest_text entries)
  length-rest_text [] = omega arith
  length-rest_text (e ∷ entries) =
      omega (arith, length-rest_text entries, length-append (entry_text e) (rest_text entries))

  -- hash_fromStr on the query string of entries, each key and each value as webencode writes it, stores
  -- each entry, the first one first, and returns 0.
  pub hash_from_str-query :
      (h : H) (entries : List Entry)
      → AllEntries entries
      → hash_from_str scan store h (query entries) ≡ ok (store_all store h entries, true)
  unfolding hash_from_str
  hash_from_str-query h [] all = unfold from_str_loop in refl
  hash_from_str-query h (e ∷ entries) all =
      loop_entries entries e h (suc (length (query (e ∷ entries)))) all
        (omega (arith, length-rest_text entries, length-append (entry_text e) (rest_text entries)))
