-- ===== src/Getopt/Render.antt =====
-- Command lines, and what they say.
use bksupport.Base.{
  ℕ, ◌≡◌, refl, ap, subst, true, false, List, [], ◌∷◌, ◌++◌, Option, none, some, Bytes, codes, ◌==◌,
  ok,
}
use bksupport.LineText.{streq}
use bksupport.Getopt.Long.{Given, Allows, IsName, given_text, given_words, given_value}
use bksupport.Getopt.Word.{Event, is_plain, plain_event}
use bksupport.Getopt.{LongOpt, found, head_byte, find_letter, find_long, takes_argument}

-- What a word of letters may end with: nothing, a letter with its argument behind it, a letter
-- with an argument that may be left out, a letter with its argument in the next word.
pub data Tail : Type 0 where
  nothing : Tail
  with_value : ℕ → Bytes → Tail
  without : ℕ → Tail
  with_word : ℕ → Bytes → Tail

-- A word of letters, with what it ends with, or a long option: its name, what getopt returns for
-- it, and its value.
pub data Item : Type 0 where
  word : Bytes → Tail → Item
  long : Bytes → ℕ → Given → Item

abbrev pub tail_text : Tail → Bytes
tail_text nothing = []
tail_text (with_value c v) = c ∷ v
tail_text (without c) = c ∷ []
tail_text (with_word c v) = c ∷ []

abbrev pub tail_words : Tail → List Bytes
tail_words (with_word c v) = v ∷ []
tail_words _ = []

abbrev pub event : ℕ → Option Bytes → Event
event c v = record { answer = found c; value = v; letter = 0 }

abbrev pub tail_events : Tail → List Event
tail_events nothing = []
tail_events (with_value c v) = event c (some v) ∷ []
tail_events (without c) = event c none ∷ []
tail_events (with_word c v) = event c (some v) ∷ []

abbrev pub letters_events : Bytes → Bytes → List Event
letters_events opts [] = []
letters_events opts (c ∷ cs) = plain_event opts c ∷ letters_events opts cs

abbrev pub item_words : Item → List Bytes
item_words (word cs t) = (b'-' ∷ (cs ++ tail_text t)) ∷ tail_words t
item_words (long name ret g) = (b'-' ∷ b'-' ∷ (name ++ given_text g)) ∷ given_words g

abbrev pub item_events : Bytes → Item → List Event
item_events opts (word cs t) = letters_events opts cs ++ tail_events t
item_events opts (long name ret g) = event ret (given_value g) ∷ []

-- the command line behind the program's name, and what it says
abbrev pub render : List Item → List Bytes
render [] = []
render (x ∷ xs) = item_words x ++ render xs

abbrev pub events : Bytes → List Item → List Event
events opts [] = []
events opts (x ∷ xs) = item_events opts x ++ events opts xs

-- no null, and no `-`
abbrev pub IsLetter : ℕ → Type 0
IsLetter c = ((c == 0) ≡ false) × ((c == b'-') ≡ false)

abbrev pub AreLetters : Bytes → Bytes → Type 0
AreLetters opts [] = Unit
AreLetters opts (c ∷ cs) = IsLetter c × (is_plain opts c ≡ true) × AreLetters opts cs

abbrev pub IsTail : Bytes → Tail → Type 0
IsTail opts nothing = Unit
IsTail opts (with_value c v) =
    IsLetter c
    × (behind : Bytes) × (find_letter c opts ≡ some behind)
    × (takes_argument (head_byte behind) ≡ true)
    × ((head_byte v == 0) ≡ false)
IsTail opts (without c) =
    IsLetter c × (behind : Bytes) × (find_letter c opts ≡ some (b'|' ∷ behind))
IsTail opts (with_word c v) =
    IsLetter c
    × (behind : Bytes) × (find_letter c opts ≡ some (b':' ∷ behind))
    × ((head_byte v == b'-') ≡ false)

-- A word has a letter, and a long option is one of the list.
abbrev pub IsItem : Bytes → Option (List LongOpt) → Item → Type 0
IsItem opts lopts (word cs t) =
    AreLetters opts cs × IsTail opts t × ((d : ℕ) × (w : Bytes) × (cs ++ tail_text t ≡ d ∷ w))
IsItem opts lopts (long name ret g) =
    (ls : List LongOpt) × (l : LongOpt) × (suffix : Bytes) × (lopts ≡ some ls)
    × IsName name
    × (streq (name ++ given_text g) (codes "usage") ≡ false)
    × (find_long name ls ≡ ok (some (l, suffix)))
    × (l.ret ≡ ret)
    × Allows suffix g
    × ((d : ℕ) × (r : Bytes) × (name ≡ d ∷ r))

abbrev pub AreItems : Bytes → Option (List LongOpt) → List Item → Type 0
AreItems opts lopts [] = Unit
AreItems opts lopts (x ∷ xs) = IsItem opts lopts x × AreItems opts lopts xs

-- The text of a word begins with a letter.
pub head-IsLetter :
    (opts cs : Bytes) (t : Tail) (d : ℕ) (r : Bytes)
    → AreLetters opts cs
    → IsTail opts t
    → cs ++ tail_text t ≡ d ∷ r
    → IsLetter d
head-IsLetter opts (c ∷ cs) t d r (l, _, _) _ e = subst IsLetter (ap head_byte e) l
head-IsLetter opts [] nothing d r _ _ e = absurd (cc e)
head-IsLetter opts [] (with_value c v) d r _ (l, _, _, _, _) e = subst IsLetter (ap head_byte e) l
head-IsLetter opts [] (without c) d r _ (l, _, _) e = subst IsLetter (ap head_byte e) l
head-IsLetter opts [] (with_word c v) d r _ (l, _, _, _) e = subst IsLetter (ap head_byte e) l

-- Nothing is left of a word.
pub ended :
    (opts cs : Bytes) (t : Tail)
    → cs ++ tail_text t ≡ []
    → (letters_events opts cs ≡ []) × (tail_events t ≡ []) × (tail_words t ≡ [])
ended opts (c ∷ cs) t e = absurd (cc e)
ended opts [] nothing e = (refl, refl, refl)
ended opts [] (with_value c v) e = absurd (cc e)
ended opts [] (without c) e = absurd (cc e)
ended opts [] (with_word c v) e = absurd (cc e)
