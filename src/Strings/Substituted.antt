-- ===== src/Strings/Substituted.antt =====
-- `str_subst` replaces each match of the search string and nothing else.
use bksupport.Base.{
  ℕ, zero, suc, ◌<◌, ◌≡◌, inl, inr, refl, sym, ap, ◌∙◌, List, [], ◌∷◌, ◌++◌, append_assoc,
  append-nil, Option, none, some, Option-cases, Bool-cases, arith, Bytes, length, length-append,
  ◌==◌, fault, no_fuel, Returns,
}
use bksupport.LineText.Join.{led_by}
use bksupport.Strings.{strip_prefix, later, at_or_later, strstr, subst_loop, str_subst}

strip_prefix_joined :
    (search s rest : Bytes) → strip_prefix search s ≡ some rest → s ≡ search ++ rest
unfolding strip_prefix
strip_prefix_joined [] s rest h = cc h
strip_prefix_joined (d ∷ search) [] rest h = cc h
strip_prefix_joined (d ∷ search) (c ∷ s) rest h = elim (Bool-cases (d == c)) [
  | inl e ↦ let e' : d ≡ c = ground arith in cc (e', strip_prefix_joined search s rest (rw e at h))
  | inr e ↦ cc (rw e at h)
]

strip_prefix-append :
    (search s rest t : Bytes)
    → strip_prefix search s ≡ some rest
    → strip_prefix search (s ++ t) ≡ some (rest ++ t)
unfolding strip_prefix
strip_prefix-append [] s rest t h = cc h
strip_prefix-append (d ∷ search) [] rest t h = cc h
strip_prefix-append (d ∷ search) (c ∷ s) rest t h = elim (Bool-cases (d == c)) [
  | inl e ↦ rw e (strip_prefix-append search s rest t (rw e at h))
  | inr e ↦ cc (rw e at h)
]

-- The first match: the text before it holds no match.
record Match (s search lead rest : Bytes) : Type 0 where
  joined : s ≡ lead ++ (search ++ rest)
  no_match : strstr lead search ≡ none

abbrev Found : Bytes → Bytes → Option (Bytes × Bytes) → Type 0
Found s search none = Unit
Found s search (some (lead, rest)) = Match s search lead rest

-- No match starts at the head of the longer text, so none starts at that of the shorter.
not_at_head :
    (search lead t : Bytes)
    → strip_prefix search (lead ++ t) ≡ none
    → strip_prefix search lead ≡ none
not_at_head search lead t h = elim (Option-cases (strip_prefix search lead)) [
  | inl e ↦ e
  | inr (rest, e) ↦ cc (h, strip_prefix-append search lead rest t e)
]

Match-later :
    (c : ℕ) (s search lead rest : Bytes)
    → strip_prefix search (c ∷ s) ≡ none
    → Match s search lead rest
    → Match (c ∷ s) search (c ∷ lead) rest
unfolding strstr
Match-later c s search lead rest head m =
    let e : c ∷ s ≡ c ∷ (lead ++ (search ++ rest)) = ap (λ r. c ∷ r) m.joined in
    let head' : strip_prefix search (c ∷ lead) ≡ none =
      not_at_head search (c ∷ lead) (search ++ rest) (rw e at head) in
    record { joined = e; no_match = rw (head', m.no_match) (unfold later at_or_later in refl) }

strstr-Found : (s : Bytes) (d : ℕ) (cs : Bytes) → Found s (d ∷ cs) (strstr s (d ∷ cs))
unfolding strstr
strstr-Found [] d cs = unfold strip_prefix at_or_later in tt
strstr-Found (c ∷ s) d cs =
    by_head (strip_prefix (d ∷ cs) (c ∷ s)) refl (strstr s (d ∷ cs)) (strstr-Found s d cs)
  where
    by_head :
        (h : Option Bytes)
        → strip_prefix (d ∷ cs) (c ∷ s) ≡ h
        → (after : Option (Bytes × Bytes)) → Found s (d ∷ cs) after
        → Found (c ∷ s) (d ∷ cs) (at_or_later h (later c after))
    by_head (some rest) e after f =
        unfold at_or_later in
        record {
          joined = strip_prefix_joined (d ∷ cs) (c ∷ s) rest e;
          no_match = unfold strstr strip_prefix at_or_later in refl;
        }
    by_head none e none f = unfold at_or_later later in tt
    by_head none e (some (lead, rest)) f =
        unfold at_or_later later in Match-later c s (d ∷ cs) lead rest e f

abbrev NoMatch : Bytes → List Bytes → Type 0
NoMatch search [] = Unit
NoMatch search (p ∷ parts) = (strstr p search ≡ none) × NoMatch search parts

-- The string is pieces with `search` between them, none of which holds a match, and the output is the
-- same pieces with `replace` between them.
pub record Substituted (str search replace output : Bytes) : Type 0 where
  pub first : Bytes
  pub pieces : List Bytes
  pub no_matches : NoMatch search (first ∷ pieces)
  pub before : str ≡ first ++ led_by search pieces
  pub after : output ≡ first ++ led_by replace pieces

Substituted-round :
    (s search replace lead rest out : Bytes)
    → Match s search lead rest
    → Substituted rest search replace out
    → Substituted s search replace (lead ++ replace ++ out)
Substituted-round s search replace lead rest out m sub = record {
  first = lead;
  pieces = sub.first ∷ sub.pieces;
  no_matches = (m.no_match, sub.no_matches);
  before = m.joined ∙ ap (λ r. lead ++ (search ++ r)) sub.before;
  after = append_assoc lead replace out ∙ ap (λ r. lead ++ (replace ++ r)) sub.after;
}

shorter :
    (s lead rest : Bytes) (d : ℕ) (cs : Bytes) (fuel : ℕ)
    → Match s (d ∷ cs) lead rest
    → length s < suc fuel
    → length rest < fuel
shorter s lead rest d cs fuel m le =
    omega
      (arith, ap length m.joined, length-append lead (d ∷ cs ++ rest), length-append cs rest, le)

subst_round :
    (fuel : ℕ) (s : Bytes) (d : ℕ) (cs replace : Bytes) (found : Option (Bytes × Bytes))
    → strstr s (d ∷ cs) ≡ found
    → Found s (d ∷ cs) found
    → ((lead rest : Bytes)
        → Match s (d ∷ cs) lead rest
        → Returns (subst_loop fuel rest (d ∷ cs) replace) (Substituted rest (d ∷ cs) replace))
    → Returns (subst_loop (suc fuel) s (d ∷ cs) replace) (Substituted s (d ∷ cs) replace)
unfolding subst_loop
subst_round fuel s d cs replace none e f next =
    rw (subst_loop, e)
      (
        s,
        refl,
        record {
          first = s;
          pieces = [];
          no_matches = (e, tt);
          before = sym (append-nil s);
          after = sym (append-nil s);
        },
      )
subst_round fuel s d cs replace (some (lead, rest)) e f next =
    let (out, run, sub) = next lead rest f in
    rw (subst_loop, e, run)
      (lead ++ replace ++ out, refl, Substituted-round s (d ∷ cs) replace lead rest out f sub)

subst_loop_lem :
    (fuel : ℕ) (s : Bytes) (d : ℕ) (cs replace : Bytes)
    → length s < fuel
    → Returns (subst_loop fuel s (d ∷ cs) replace) (Substituted s (d ∷ cs) replace)
subst_loop_lem zero s d cs replace le = absurd (omega arith)
subst_loop_lem (suc fuel) s d cs replace le =
    subst_round fuel s d cs replace (strstr s (d ∷ cs)) refl (strstr-Found s d cs)
      (λ lead rest m. subst_loop_lem fuel rest d cs replace (shorter s lead rest d cs fuel m le))

-- With a search string that is not empty str_subst ends: the string is cut at matches into pieces
-- that hold none, and the output is these pieces with the replacement between them.
pub str_subst-Substituted :
    (str : Bytes) (d : ℕ) (cs replace : Bytes)
    → Returns (str_subst str (d ∷ cs) replace) (Substituted str (d ∷ cs) replace)
unfolding str_subst
str_subst-Substituted str d cs replace =
    subst_loop_lem (suc (length str)) str d cs replace (omega arith)

-- With an empty search string the loop of str_subst never ends, whatever number of rounds it is given.
pub subst_loop-no_fuel :
    (fuel : ℕ) (s replace : Bytes) → subst_loop fuel s [] replace ≡ fault no_fuel
unfolding subst_loop
subst_loop-no_fuel zero s replace = refl
subst_loop-no_fuel (suc fuel) [] replace =
    unfold strstr strip_prefix at_or_later in rw (subst_loop-no_fuel fuel [] replace) refl
subst_loop-no_fuel (suc fuel) (c ∷ s) replace =
    unfold strstr strip_prefix at_or_later in rw (subst_loop-no_fuel fuel (c ∷ s) replace) refl
