-- ===== src/Shell/RoundTrip.antt =====
-- `shellSplit` gives back the words that `shellquote` quoted.
use bksupport.Base.{
  ℕ, zero, suc, ◌+◌, ◌≤◌, ◌<◌, ◌≡◌, ◌≢◌, refl, ap, ◌∙◌, inl, inr, true, false, List, [], ◌∷◌, ◌++◌,
  map, some, fault, exited, append_assoc, arith, Bytes, codes, one_of, length, leb-true, Bool-cases,
  ok,
}
use bksupport.LineText.Join.{led_by, join_lines_lem}
use bksupport.LineText.{join_lines}
use bksupport.Shell.Quoted.{work}
use bksupport.Shell.Words.{
  AllPlain, free_AllPlain, Ends, stop, back, space, split_next, Reads, plain-Reads, quoted-Reads,
}
use bksupport.Shell.{
  Work, Item, quote_set, is_free_of, shellquote, save_item, switch, split_loop, shell_split,
}

-- A word that `shellSplit` can give back: it is not empty, and a backquote in it has company that
-- makes `shellquote` quote the word.
pub record IsQuotable (s : Bytes) : Type 0 where
  pub filled : s ≢ []
  pub no_backquote : is_free_of quote_set s ≡ true → is_free_of (codes "`") s ≡ true

abbrev pub AllQuotable : List Bytes → Type 0
AllQuotable [] = Unit
AllQuotable (s ∷ words) = IsQuotable s × AllQuotable words

word-Reads :
    (ret : List Item) (s tail : Bytes) (fuel size : ℕ)
    → IsQuotable s
    → Ends tail
    → length (shellquote s ++ tail) < fuel
    → 2 ≤ size
    → length (shellquote s ++ tail) + 2 ≤ 1073741824
    → Reads ret fuel (shellquote s ++ tail) s tail size false []
unfolding shellquote
word-Reads ret [] tail fuel size q e h fit small = absurd (q.filled refl)
word-Reads ret (c ∷ s) tail fuel size q e h fit small =
    elim (Bool-cases (is_free_of quote_set (c ∷ s))) [
      | inl free ↦
          let plain = free_AllPlain (c ∷ s) free (q.no_backquote free) in
          rw free (
            plain-Reads ret c s tail [] fuel size false plain e (rw free at h) (omega arith)
              (let few = rw free at small in omega (arith, few)))
      | inr busy ↦ rw busy (
          rw append_assoc (
            quoted-Reads ret (c ∷ s) tail fuel size (rw (busy, append_assoc) at h) (omega arith)
              (rw (busy, append_assoc) at small)))
    ]

-- The words of a row, quoted, each with a space in front.
abbrev quoted : List Bytes → Bytes
quoted words = led_by (b' ' ∷ []) (map shellquote words)

quoted-Ends : (words : List Bytes) → Ends (quoted words)
quoted-Ends [] = stop
quoted-Ends (s ∷ words) = space (shellquote s ++ quoted words)

abbrev word : Bytes → Item
word s = record { text = s; meta = false }

save_word :
    (s : Bytes) (size : ℕ) (ret : List Item)
    → length s + 2 ≤ size
    → save_item (work s size true ret) ≡ ok (work [] size false (ret ++ word s ∷ []))
unfolding save_item
save_word s size ret h = rw (leb-true (length s + 2) size h)

split_space :
    (s pin : Bytes) (fuel size : ℕ) (ret : List Item)
    → length s + 2 ≤ size
    → (size' : ℕ) × (split_loop (suc fuel) (b' ' ∷ pin) (work s size true ret)
        ≡ split_loop fuel pin (work [] size' false (ret ++ word s ∷ [])))
      × (2 ≤ size')
split_space s pin fuel size ret h =
    let (size', run, room) =
      split_next fuel b' ' pin (work s size true ret) pin [] size false (ret ++ word s ∷ [])
        (switch_space pin) (omega arith) (omega arith) in
    (size', run, room)
  where
    switch_space :
        (pin : Bytes)
        → switch b' ' pin (work s size true ret) ≡ ok (pin, work [] size false (ret ++ word s ∷ []))
    switch_space pin = unfold switch in rw (save_word s size ret h)

split_end :
    (s : Bytes) (fuel size : ℕ) (ret : List Item)
    → length s + 2 ≤ size
    → split_loop (suc fuel) [] (work s size true ret) ≡ ok (ret ++ word s ∷ [])
unfolding split_loop
split_end s fuel size ret h = rw (save_word s size ret h)

words_read :
    (words : List Bytes) (s : Bytes) (ret : List Item) (fuel size : ℕ)
    → AllQuotable (s ∷ words)
    → length (shellquote s ++ quoted words) < fuel
    → 2 ≤ size
    → fuel + 1 ≤ 1073741824
    → split_loop fuel (shellquote s ++ quoted words) (work [] size false ret)
      ≡ ok (ret ++ map word (s ∷ words))
words_read [] s ret fuel size q h fit small =
    let (fuel', size', run, left, room, _) =
      word-Reads ret s [] fuel size q.0 stop h fit (omega arith) in
    run ∙ last fuel' size' left room
  where
    last :
        (fuel' size' : ℕ)
        → 0 < fuel'
        → length s + 2 ≤ size'
        → split_loop fuel' [] (work s size' true ret) ≡ ok (ret ++ word s ∷ [])
    last zero size' left room = absurd (omega arith)
    last (suc fuel') size' left room = split_end s fuel' size' ret room
words_read (t ∷ words) s ret fuel size q h fit small =
    let (fuel', size', run, left, room, less) =
      word-Reads ret s (quoted (t ∷ words)) fuel size q.0 (quoted-Ends (t ∷ words)) h fit
        (omega arith) in
    run
    ∙ next fuel' size' left room (omega arith) λ fuel₁ size₁ h₁ fit₁ small₁.
      words_read words t (ret ++ word s ∷ []) fuel₁ size₁ q.1 h₁ fit₁ small₁
  where
    next :
        (fuel' size' : ℕ)
        → length (quoted (t ∷ words)) < fuel'
        → length s + 2 ≤ size'
        → fuel' + 1 ≤ 1073741824
        → ((fuel₁ size₁ : ℕ)
            → length (shellquote t ++ quoted words) < fuel₁
            → 2 ≤ size₁
            → fuel₁ + 1 ≤ 1073741824
            → split_loop fuel₁
                (shellquote t ++ quoted words)
                (work [] size₁ false (ret ++ word s ∷ []))
              ≡ ok ((ret ++ word s ∷ []) ++ map word (t ∷ words)))
        → split_loop fuel' (quoted (t ∷ words)) (work s size' true ret)
          ≡ ok (ret ++ map word (s ∷ t ∷ words))
    next zero size' left room few ih = absurd (omega arith)
    next (suc fuel₁) size' left room few ih =
        let (size₁, run, fit₁) =
          split_space s (shellquote t ++ quoted words) fuel₁ size' ret room in
        run
        ∙ ih fuel₁ size₁ (omega arith) fit₁ (omega arith)
        ∙ ap ok (append_assoc ret (word s ∷ []) (map word (t ∷ words)))

-- Words that are quoted by `shellquote` and joined by a space come back from `shellSplit`, each as
-- one item that is no shell function. The words are not empty, and a word with a backquote has
-- another character that needs quotes; the line is shorter than a gigabyte by two bytes or more.
pub shell_split-shellquote :
    (s : Bytes) (words : List Bytes) {line : Bytes}
    → AllQuotable (s ∷ words)
    → join_lines (some (codes " ")) (map shellquote (s ∷ words)) ≡ some line
    → length line + 2 ≤ 1073741824
    → shell_split line ≡ ok (map (λ w. record { text = w; meta = false }) (s ∷ words))
unfolding shell_split
shell_split-shellquote s words {line} q e small =
    let whole : line ≡ shellquote s ++ quoted words =
      cc (join_lines_lem (codes " ") (shellquote s) (map shellquote words)) in
    let few : suc (length line) + 1 ≤ 1073741824 = omega arith in
    rw whole (
      words_read words s [] (suc (length (shellquote s ++ quoted words))) 128 q (omega arith)
        (omega arith) (rw whole at few))

split_back : (fuel : ℕ) (s : Bytes) (w : Work) → split_loop (suc fuel) (b'`' ∷ s) w ≡ fault exited
unfolding split_loop switch
split_back fuel s w = refl

free_left : (set s t : Bytes) → is_free_of set (s ++ t) ≡ true → is_free_of set s ≡ true
unfolding is_free_of
free_left set [] t h = refl
free_left set (c ∷ s) t h = elim (Bool-cases (one_of set c)) [
  | inl e ↦ absurd (cc (rw e at h))
  | inr e ↦ rw e (free_left set s t (rw e at h))
]

back_reads :
    (s t : Bytes) (fuel size : ℕ)
    → AllPlain s
    → length (s ++ b'`' ∷ t) < fuel
    → 2 ≤ size
    → length (s ++ b'`' ∷ t) + 2 ≤ 1073741824
    → split_loop fuel (s ++ b'`' ∷ t) (work [] size false []) ≡ fault exited
back_reads s t zero size p h fit small = absurd (omega arith)
back_reads [] t (suc fuel) size p h fit small = split_back fuel t _
back_reads (c ∷ s) t (suc fuel) size p h fit small =
    let (fuel', size', run, left, _, _) =
      plain-Reads [] c s (b'`' ∷ t) [] (suc fuel) size false p (back t) h (omega arith)
        (omega (arith, small)) in
    run ∙ stopped fuel' size' left
  where
    stopped :
        (fuel' size' : ℕ)
        → length (b'`' ∷ t) < fuel'
        → split_loop fuel' (b'`' ∷ t) (work (c ∷ s) size' true []) ≡ fault exited
    stopped zero size' left = absurd (omega arith)
    stopped (suc fuel') size' left = split_back fuel' t _

-- A word with a backquote and nothing else that needs quotes does not come back: `shellquote`
-- leaves it as it is, and `shellSplit` ends the program. The word is shorter than a gigabyte by two
-- bytes or more.
pub shell_split-shellquote_backquote :
    (s t : Bytes)
    → is_free_of quote_set (s ++ b'`' ∷ t) ≡ true
    → is_free_of (codes "`") s ≡ true
    → length (s ++ b'`' ∷ t) + 2 ≤ 1073741824
    → shell_split (shellquote (s ++ b'`' ∷ t)) ≡ fault exited
unfolding shell_split shellquote
shell_split-shellquote_backquote s t h k small = rw h (
    back_reads s t (suc (length (s ++ b'`' ∷ t))) 128
      (free_AllPlain s (free_left quote_set s (b'`' ∷ t) h) k) (omega arith) (omega arith) small)
