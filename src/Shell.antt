-- ===== src/Shell.antt =====
-- `shellquote` and `shellSplit` of lines/lines.c. A C string is its bytes, with no null among them.
-- The result array is the list that it stands for, each item with the flag byte behind its null.
-- The work buffer is its contents and its size; a write that it has no place for is `wild`.
pub mod Safe
pub mod Quoted
pub mod Words
pub mod RoundTrip
use bksupport.Base.{
  ℕ, zero, suc, ◌+◌, ◌*◌, Bool, true, false, ◌&&◌, ◌||◌, List, [], ◌∷◌, ◌++◌, Option, none, some,
  Bytes, codes, one_of, length, take, drop, ltb, leb, ◌==◌, if◌then◌else◌, Run, ok, fault, exited,
  wild, no_fuel, ◌>>=◌,
}

-- " \t\n\r'\"<>|$&;[]*()\\"
abbrev pub quote_set : Bytes
quote_set = codes " \t\n\r'\"<>|$&;[]*()\\"

-- strcspn(s, set) == strlen(s)
unfoldable pub is_free_of : Bytes → Bytes → Bool
is_free_of set [] = true
is_free_of set (c ∷ s) = if one_of set c then false else is_free_of set s

-- the escaping loop of shellquote
unfoldable pub escape_quoted : Bytes → Bytes
escape_quoted [] = []
escape_quoted (c ∷ s) =
    if c == b'"' || c == b'\\' then b'\\' ∷ c ∷ escape_quoted s else c ∷ escape_quoted s

unfoldable pub shellquote : Bytes → Bytes
unfolding is_free_of escape_quoted
shellquote s = if is_free_of quote_set s then s else b'"' ∷ (escape_quoted s ++ b'"' ∷ [])

-- An item of the result, and whether it is a shell function such as `>`.
pub record Item : Type 0 where
  pub text : Bytes
  pub meta : Bool

pub record Work : Type 0 where
  pub out : Bytes
  pub bufsize : ℕ
  pub item : Bool
  pub ret : List Item

-- The loop of BUF_RESIZE, for `need` bytes in all. `2 * bufsize` is an int; where it overflows, the new
-- buffer has no room for what is copied.
unfoldable pub double_buf : ℕ → ℕ → ℕ → Run ℕ
double_buf zero need size = fault no_fuel
double_buf (suc fuel) need size =
    let rest = double_buf fuel need (2 * size) in
    let grown = if ltb (2 * size) 2147483648 then rest else fault wild in
    if ltb size need then grown else ok size

unfoldable pub buf_resize : Work → ℕ → Run Work
unfolding double_buf
buf_resize w extra = do
  let need = length w.out + extra
  size ← double_buf (suc need) need w.bufsize
  ok (record w { bufsize = size })

-- `*pout++ = c` for each byte
unfoldable pub put_all : Work → Bytes → Run Work
put_all w s =
    if leb (length w.out + length s) w.bufsize
    then ok (record w { out = w.out ++ s })
    else fault wild

unfoldable pub save_item : Work → Run Work
save_item w =
    if w.item
    then if leb (length w.out + 2) w.bufsize
      then ok (record w {
        out = [];
        item = false;
        ret = w.ret ++ record { text = w.out; meta = false } ∷ [];
      })
      else fault wild
    else ok w

-- `strcspn`: the part before the first byte of `set`, and what follows it
unfoldable pub cspan : Bytes → Bytes → Bytes × Bytes
cspan set [] = ([], [])
cspan set (c ∷ s) = if one_of set c then ([], c ∷ s) else (c ∷ (cspan set s).0, (cspan set s).1)

-- `\` between double quotes: it goes before `\` and `"`, and stays before anything else
unfoldable pub unescape_quoted : Bytes → Work → Run (Bytes × Work)
unfolding put_all
unescape_quoted [] w = ok ([], w)
unescape_quoted (c ∷ []) w =
    if c == b'\\' then (do w' ← put_all w (c ∷ []); ok ([], w')) else ok (c ∷ [], w)
unescape_quoted (c ∷ d ∷ s) w =
    if c == b'\\'
    then if d == b'\\' || d == b'"'
      then (do w' ← put_all w (d ∷ []); ok (s, w'))
      else (do w' ← put_all w (c ∷ []); ok (d ∷ s, w'))
    else ok (c ∷ d ∷ s, w)

-- one round of the loop between double quotes
unfoldable pub double_quoted_step : Bytes → Work → Run (Bytes × Work)
unfolding buf_resize put_all cspan unescape_quoted
double_quoted_step pin w = do
  let (part, rest) = cspan (codes "\"\\") pin
  w₁ ← buf_resize w (length part + 1)
  w₂ ← put_all w₁ part
  unescape_quoted rest w₂

-- while (*pin && *pin != '"')
unfoldable pub double_quoted : ℕ → Bytes → Work → Run (Bytes × Work)
double_quoted zero pin w = fault no_fuel
double_quoted (suc fuel) [] w = ok ([], w)
double_quoted (suc fuel) (c ∷ s) w =
    let more = (do (pin, w') ← double_quoted_step (c ∷ s) w; double_quoted fuel pin w') in
    if c == b'"' then ok (c ∷ s, w) else more

-- the closing `"`, which is skipped
unfoldable pub close_quote : Bytes × Work → Run (Bytes × Work)
close_quote ([], w) = fault exited
close_quote (c ∷ s, w) = if c == b'"' then ok (s, record w { item = true }) else fault exited

-- the closing `'` at the head of `rest`, behind `part`
unfoldable pub single_quoted : Bytes → Bytes → Work → Run (Bytes × Work)
unfolding buf_resize put_all
single_quoted part [] w = fault exited
single_quoted part (q ∷ rest) w = do
  w₁ ← buf_resize w (length part)
  w₂ ← put_all w₁ part
  ok (rest, record w₂ { item = true })

-- the label `sep`: an item for the `n` bytes of a shell function
unfoldable pub separator : ℕ → Bytes → Work → Run (Bytes × Work)
unfolding save_item
separator n pin w = do
  w' ← save_item w
  ok (drop n pin, record w' { ret = w'.ret ++ record { text = take n pin; meta = true } ∷ [] })

-- `*s`, which is the null at the end
abbrev pub head_or_null : Bytes → ℕ
head_or_null [] = 0
head_or_null (c ∷ s) = c

abbrev pub is_digit : ℕ → Bool
is_digit c = leb b'0' c && leb c b'9'

abbrev pub is_angle : ℕ → Bool
is_angle c = c == b'<' || c == b'>'

-- the `default` case, which an escaped character reaches too
unfoldable pub plain : Bytes → Work → Run (Bytes × Work)
unfolding separator put_all
plain [] w = ok ([], w)
plain (c ∷ s) w =
    if is_digit c && is_angle (head_or_null s)
    then if head_or_null (drop 1 s) == b'&' && is_digit (head_or_null (drop 2 s))
      then separator 4 (c ∷ s) w
      else separator 2 (c ∷ s) w
    else (do w' ← put_all w (c ∷ []); ok (s, record w' { item = true }))

abbrev pub is_space : ℕ → Bool
is_space = one_of (codes " \t\n\r")

-- the switch on `*pin`
unfoldable pub switch : ℕ → Bytes → Work → Run (Bytes × Work)
unfolding save_item cspan single_quoted double_quoted close_quote separator plain
switch c s w =
    if is_space c
    then (do w' ← save_item w; ok (s, w'))
    else if c == b'\''
    then single_quoted (cspan (codes "'") s).0 (cspan (codes "'") s).1 w
    else if c == b'"'
    then double_quoted (suc (length s)) s w >>= close_quote
    else if one_of (codes "><|") c
    then if c == b'|' && head_or_null s == b'|'
      then fault exited
      else if c == b'>' && head_or_null s == b'>'
      then separator 2 (c ∷ s) w
      else separator 1 (c ∷ s) w
    else if one_of (codes "`$&;[]*()") c
    then fault exited
    else if c == b'\\'
    then plain s w
    else plain (c ∷ s) w

-- the loop, with SAVE_ITEM behind it
unfoldable pub split_loop : ℕ → Bytes → Work → Run (List Item)
unfolding switch buf_resize save_item
split_loop zero pin w = fault no_fuel
split_loop (suc fuel) [] w = do w' ← save_item w; ok w'.ret
split_loop (suc fuel) (c ∷ s) w = do
  (pin, w₁) ← switch c s w
  w₂ ← buf_resize w₁ 2
  split_loop fuel pin w₂

unfoldable pub shell_split : Bytes → Run (List Item)
unfolding split_loop
shell_split line =
    split_loop (suc (length line)) line (record { out = []; bufsize = 128; item = false; ret = [] })
