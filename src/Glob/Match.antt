-- ===== src/Glob/Match.antt =====
-- match_one decides what a pattern matches.
use bksupport.Base.{
  ℕ, ◌<◌, ◌≡◌, refl, Bool, true, false, not, ◌&&◌, List, [], ◌∷◌, Bytes, ◌==◌, or-false, Returns,
}
use bksupport.Glob.{match_one}
use bksupport.Glob.Pattern.{
  Item, many, text, is_single, begins_star, double_star, Matches, done, item, no_byte, a_byte,
  Sought, nothing, single, all, here, later, AreItems, IsText, null,
}
use bksupport.Glob.Rounds.{Holds, single_end}
use bksupport.Glob.Stars.{match_one-Sought}

module _ (lower : ℕ → ℕ) where
  all_bytes : (s : Bytes) → Matches lower (many ∷ []) s
  all_bytes [] = no_byte [] [] done
  all_bytes (c ∷ s) = a_byte [] c s (all_bytes s)

  Matches-Sought : (items : List Item) (s : Bytes) → Sought lower items s → Matches lower items s
  Matches-Sought _ _ nothing = done
  Matches-Sought _ _ (single i items c s f m) = item i items c s f (Matches-Sought items s m)
  Matches-Sought _ _ (all s) = all_bytes s
  Matches-Sought _ _ (here i items c s m) =
      no_byte (i ∷ items) (c ∷ s) (Matches-Sought (i ∷ items) (c ∷ s) m)
  Matches-Sought _ _ (later i items c s m) =
      a_byte (i ∷ items) c s (Matches-Sought (many ∷ i ∷ items) s m)

  not-false : (b : Bool) → not b ≡ false → b ≡ true
  not-false true h = refl
  not-false false h = cc h

  from_here :
      (i : Item) (items : List Item) (s : Bytes)
      → is_single i ≡ true
      → Sought lower (i ∷ items) s
      → Sought lower (many ∷ i ∷ items) s
  from_here i items [] h m = absurd (single_end lower i items h m)
  from_here i items (c ∷ s) h m = here i items c s m

  Sought-Matches :
      (items : List Item) (s : Bytes)
      → double_star items ≡ false
      → Matches lower items s
      → Sought lower items s
  Sought-Matches _ _ h done = nothing
  Sought-Matches _ _ h (item i items c s f m) =
      single i items c s f
        (Sought-Matches items s (or-false (not (is_single i) && begins_star items) _ h).1 m)
  Sought-Matches _ _ h (no_byte [] s m) = all s
  Sought-Matches _ _ h (no_byte (i ∷ items) s m) =
      let (first, rest) = or-false (not (is_single i)) _ h in
      from_here i items s (not-false (is_single i) first) (Sought-Matches (i ∷ items) s rest m)
  Sought-Matches _ _ h (a_byte [] c s m) = all (c ∷ s)
  Sought-Matches _ _ h (a_byte (i ∷ items) c s m) =
      later i items c s (Sought-Matches (many ∷ i ∷ items) s h m)

  Holds-Matches :
      (b : Bool) (items : List Item) (s : Bytes)
      → double_star items ≡ false
      → Holds b (Sought lower items s)
      → Holds b (Matches lower items s)
  Holds-Matches true items s h m = Matches-Sought items s m
  Holds-Matches false items s h m = λ n. m (Sought-Matches items s h n)

module _ (equals : Bool) (lower : ℕ → ℕ)
    (low : (c : ℕ) → (c == 0) ≡ false → lower 0 < lower c) where
  -- On the text of a pattern of bytes that mean themselves, escaped bytes, `?`, `*` and classes without
  -- `^`, in which no `*` follows another, match_one returns, and its answer is whether the pattern matches
  -- the string, where `*` stands for any bytes. A byte `=` means itself unless BK_GLOB_EQUAL is set. This
  -- holds when `lower` keeps the null below every other byte.
  pub match_one-Matches :
      (items : List Item) (s : Bytes)
      → AreItems equals items
      → double_star items ≡ false
      → IsText s
      → Returns
          (match_one equals lower (null s) (null (text items)))
          (λ b. Holds b (Matches lower items s))
  match_one-Matches items s k no_double full =
      let (b, run, answer) = match_one-Sought equals lower low items s k full in
      (b, run, Holds-Matches lower b items s no_double answer)
