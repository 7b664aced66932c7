-- ===== src/Getopt.antt =====
-- utils/getopt.c: the command-line scanner. The static variables are a state that each call takes and
-- returns. A word is its bytes; a byte past its null is `wild`. `--usage` prints and exits.
pub mod Word
pub mod Long
pub mod Render
pub mod Calls
pub mod CommandLine
pub mod NoArgument
pub mod Consumed
use bksupport.Base.{
  ℕ, zero, suc, ◌+◌, ◌-◌, ◌≡◌, Bool, true, false, not, ◌&&◌, ◌||◌, List, [], ◌∷◌, Option, none,
  some, Bytes, codes, one_of, length, take, drop, ltb, leb, ◌==◌, if◌then◌else◌, Run, ok, fault,
  wild, exited, no_fuel, assert_failed, ◌>>=◌, ◌>>◌,
}
use bksupport.LineText.{streq}
use bksupport.Shell.{cspan}

pub record Scan : Type 0 where
  pub optopt : ℕ
  pub optind : ℕ
  pub optarg : Option Bytes
  pub n : ℕ
  pub lastn : ℕ

-- EOF, GETOPT_ERR, GETOPT_NOARG, or the option
pub data Answer : Type 0 where
  eof bad_option no_argument : Answer
  found : ℕ → Answer

pub record LongOpt : Type 0 where
  pub name : Bytes
  pub ret : ℕ

abbrev pub assert : Bool → Run (Unit {0})
assert true = ok tt
assert false = fault assert_failed

-- `w[k]`, the terminating null included
unfoldable pub char_at : Bytes → ℕ → Run ℕ
char_at [] zero = ok 0
char_at [] (suc k) = fault wild
char_at (c ∷ w) zero = ok c
char_at (c ∷ w) (suc k) = char_at w k

-- `av[i]`
unfoldable pub arg_at : List Bytes → ℕ → Run Bytes
arg_at [] i = fault wild
arg_at (w ∷ av) zero = ok w
arg_at (w ∷ av) (suc i) = arg_at av i

unfoldable pub getopt_reset : Scan → Scan
getopt_reset st = record st { optopt = 0; optind = 0; optarg = none }

-- Only called behind a call of getopt, when `optind` is not 0.
unfoldable pub getopt_consumed : Scan → ℕ → Scan
getopt_consumed st n1 = record st {
  optind = if st.optind - 1 == 0 then 1 else st.optind - 1;
  n = st.lastn + n1;
}

-- behind an option letter: to the next letter, or to the next word
unfoldable pub step_letter : Bytes → Scan → Run Scan
step_letter w st = do
  c ← char_at w (st.n + 1)
  ok (
      if c == 0
      then record st { lastn = st.n; optind = st.optind + 1; n = 1 }
      else record st { lastn = st.n; n = st.n + 1 })

abbrev pub next_word : Scan → Scan
next_word st = record st { optind = st.optind + 1; lastn = st.n; n = 1 }

-- the letter in the option string, and what stands behind it there
unfoldable pub find_letter : ℕ → Bytes → Option Bytes
find_letter c [] = none
find_letter c (t ∷ opts) = if t == c then some opts else find_letter c opts

abbrev pub head_byte : Bytes → ℕ
head_byte [] = 0
head_byte (c ∷ s) = c

abbrev pub takes_argument : ℕ → Bool
takes_argument k = k == b':' || (k == b'|' || k == b';')

-- `(optind + 1 == ac) || (av[optind+1][0] == '-')`
unfoldable pub no_word_left : List Bytes → ℕ → Run Bool
no_word_left av i =
    let look = (do w ← arg_at av (i + 1); ok (head_byte w == b'-')) in
    if i + 1 == length av then ok true else look

-- the next word as the argument of an option letter
unfoldable pub letter_word : List Bytes → Scan → ℕ → Run (Scan × Answer)
letter_word av st c = do
  v ← arg_at av (st.optind + 1)
  ok (record st { optarg = some v; optind = st.optind + 2; lastn = st.n; n = 1 }, found c)

unfoldable pub letter_apart : List Bytes → Scan → ℕ → Run (Scan × Answer)
unfolding no_word_left letter_word
letter_apart av st c = do
  missing ← no_word_left av st.optind
  if missing then ok (record st { optopt = c }, no_argument) else letter_word av st c

-- an option that takes an argument, with no bytes behind it, by what stands behind its letter
unfoldable pub letter_alone : List Bytes → Scan → ℕ → ℕ → Run (Scan × Answer)
unfolding letter_apart
letter_alone av st c kind =
    if kind == b'|'
    then ok (next_word st, found c)
    else if kind == b';'
    then ok (record st { optind = st.optind + 1; optopt = c }, no_argument)
    else letter_apart av st c

unfoldable pub letter_argument : List Bytes → Bytes → Scan → ℕ → ℕ → Run (Scan × Answer)
unfolding letter_alone char_at
letter_argument av w st c kind = do
  next ← char_at w (st.n + 1)
  let value = some (drop (st.n + 1) w)
  if next == 0
      then letter_alone av st c kind
      else ok (record (next_word st) { optarg = value }, found c)

unfoldable pub letter_found : List Bytes → Bytes → Scan → ℕ → Bytes → Run (Scan × Answer)
letter_found av w st c behind =
    let flag = step_letter w st >>= λ st'. ok (st', found c) in
    if takes_argument (head_byte behind) then letter_argument av w st c (head_byte behind) else flag

unfoldable pub short_option : List Bytes → Bytes → Bytes → Scan → Run (Scan × Answer)
short_option av opts w st = do
  c ← char_at w st.n
  assert (not (c == 0))
  elim (find_letter c opts) [
    | none ↦ step_letter w (record st { optopt = c }) >>= λ st'. ok (st', bad_option)
    | some behind ↦ letter_found av w st c behind
  ]

-- the label `err` of doLong
abbrev pub long_error : Scan → Answer → Scan × Answer
long_error st answer = (record st { n = 1; optind = st.optind + 1; optopt = 0 }, answer)

-- the length of the option without its value
unfoldable pub option_length : Bytes → ℕ
option_length s = elim (cspan (codes "=") s).1 [
  | [] ↦ length (cspan (codes ":") s).0
  | _ ∷ _ ↦ length (cspan (codes "=") s).0
]

-- the name without a suffix of `:`, `;` or `|`, and the suffix; an empty name reads before its start
unfoldable pub split_name : Bytes → Run (Bytes × Bytes)
split_name [] = fault wild
split_name (c ∷ []) = ok (if one_of (codes ":;|") c then ([], c ∷ []) else (c ∷ [], []))
split_name (c ∷ d ∷ s) = do parts ← split_name (d ∷ s); ok (c ∷ parts.0, parts.1)

-- the option with this name, and its suffix
unfoldable pub find_long : Bytes → List LongOpt → Run (Option (LongOpt × Bytes))
find_long name [] = ok none
find_long name (l ∷ lopts) = do
  parts ← split_name l.name
  let rest = find_long name lopts
  if streq name parts.0 then ok (some (l, parts.1)) else rest

unfoldable pub long_apart : List Bytes → Scan → ℕ → Run (Scan × Answer)
unfolding no_word_left arg_at
long_apart av st ret =
    let word : Run (Scan × Answer) = do
      v ← arg_at av (st.optind + 1)
      ok (record st { optarg = some v; optind = st.optind + 2; n = 1 }, found ret)
    in do
      missing ← no_word_left av st.optind
      if missing then ok (long_error st no_argument) else word

unfoldable pub long_found : List Bytes → Bytes → Scan → ℕ → Bytes → Run (Scan × Answer)
unfolding long_apart
long_found av value st ret suffix =
    let given = head_byte value == b'=' || head_byte value == b':' in
    let done : Scan × Answer = (record st { optind = st.optind + 1; n = 1 }, found ret) in
    elim suffix [
      | [] ↦ ok (if given then long_error st bad_option else done)
      | k ∷ _ ↦
          if given
          then ok
              (record st { optarg = some (drop 1 value); optind = st.optind + 1; n = 1 }, found ret)
          else if k == b'|'
          then ok done
          else if k == b';'
          then ok (long_error st no_argument)
          else long_apart av st ret
    ]

unfoldable pub do_long : List Bytes → Bytes → Scan → Option (List LongOpt) → Run (Scan × Answer)
do_long av w st none = ok (long_error st bad_option)
do_long av w st (some lopts) = do
  let s = drop 2 w
  match ← find_long (take (option_length s) s) lopts
  elim match [
    | none ↦ ok (long_error st bad_option)
    | some (l, suffix) ↦ long_found av (drop (option_length s) s) st l.ret suffix
  ]

-- by the word at `optind`
unfoldable pub scan_word :
    List Bytes → Bytes → Option (List LongOpt) → Bytes → Scan → Run (Scan × Answer)
scan_word av opts lopts w st =
    if not (head_byte w == b'-') || (head_byte (drop 1 w) == 0)
    then ok (st, eof)
    else if streq w (codes "--")
    then ok (next_word st, eof)
    else if streq w (codes "--usage")
    then fault exited
    else if streq (take 2 w) (codes "--")
    then do_long av w st lopts
    else short_option av opts w st

unfoldable pub getopt : List Bytes → Bytes → Option (List LongOpt) → Scan → Run (Scan × Answer)
getopt av opts lopts st =
    let cleared : Scan = record st { optarg = none; optopt = 0 } in
    let start : Scan =
      if st.optind == 0 then record cleared { optind = 1; lastn = st.n; n = 1 } else cleared in
    let look = arg_at av start.optind >>= λ w. scan_word av opts lopts w start in
    if leb (length av) start.optind then ok (start, eof) else look
