-- ===== src/Paths.antt =====
-- Path helpers of utils: dirname.c and concat_path.c. A path is its bytes, with no null among them; the
-- loops that go backward through a path take bytes off its end.
pub mod Joined
use bksupport.Base.{
  ℕ, suc, ◌-◌, Bool, true, false, not, ◌&&◌, List, [], ◌∷◌, ◌++◌, Option, none, some, Bytes, codes,
  length, take, ◌==◌, if◌then◌else◌, Run, ok, fault, wild,
}

abbrev pub is_slash : ℕ → Bool
is_slash c = c == b'/'

abbrev pub no_slash : ℕ → Bool
no_slash c = not (c == b'/')

unfoldable pub keep_head : (ℕ → Bool) → ℕ → Bytes → Bytes
keep_head p c [] = if p c then [] else c ∷ []
keep_head p c (d ∷ s) = c ∷ d ∷ s

-- takes bytes off the end as long as they pass the test
unfoldable pub drop_end : (ℕ → Bool) → Bytes → Bytes
unfolding keep_head
drop_end p [] = []
drop_end p (c ∷ s) = keep_head p c (drop_end p s)

-- steps (7) and (8)
unfoldable pub dir_part : Bytes → Bytes
unfolding drop_end
dir_part [] = codes "."
dir_part (c ∷ s) = elim (drop_end is_slash (c ∷ s)) [ [] ↦ codes "/" | d ∷ r ↦ d ∷ r ]

-- steps (1) and (2), then (3) to (8)
unfoldable pub dirname_from : Bytes → Bytes → Bytes
unfolding dir_part
dirname_from path [] = elim path [ [] ↦ codes "." | _ ∷ _ ↦ codes "/" ]
dirname_from path (c ∷ s) =
    let rest = dirname_from path s in
    if is_slash c then rest else dir_part (drop_end no_slash (drop_end is_slash path))

unfoldable pub dirname : Bytes → Bytes
unfolding dirname_from
dirname path = dirname_from path path

unfoldable pub last_is : ℕ → Bytes → Bool
last_is c [] = false
last_is c (d ∷ []) = d == c
last_is c (d ∷ e ∷ s) = last_is c (e ∷ s)

unfoldable pub ends_slash_dot : Bytes → Bool
ends_slash_dot [] = false
ends_slash_dot (c ∷ []) = false
ends_slash_dot (c ∷ d ∷ []) = c == b'/' && d == b'.'
ends_slash_dot (c ∷ d ∷ e ∷ s) = ends_slash_dot (d ∷ e ∷ s)

-- both paths have a byte
unfoldable pub join_paths : Bytes → ℕ → Bytes → Bytes
unfolding last_is ends_slash_dot
join_paths first c second =
    let buf = if ends_slash_dot first then take (length first - 1) first else first in
    let tail = if c == b'/' then second else c ∷ second in
    if last_is b'/' buf then buf ++ tail else buf ++ b'/' ∷ tail

-- The buffer is not `second`; `strcpy` of a null pointer is `wild`.
unfoldable pub concat_path : Option Bytes → Option Bytes → Run Bytes
unfolding join_paths
concat_path none none = fault wild
concat_path (some []) none = fault wild
concat_path none (some second) = ok second
concat_path (some []) (some second) = ok second
concat_path (some (b ∷ first)) none = ok (b ∷ first)
concat_path (some (b ∷ first)) (some []) = ok (b ∷ first)
concat_path (some (b ∷ first)) (some (c ∷ second)) = ok (join_paths (b ∷ first) c second)

-- The buffer is `second`.
unfoldable pub concat_before : Option Bytes → Bytes → Bytes
concat_before none second = second
concat_before (some []) second = second
concat_before (some (b ∷ first)) [] = b ∷ first
concat_before (some (b ∷ first)) (c ∷ second) = b ∷ first ++ b'/' ∷ c ∷ second
