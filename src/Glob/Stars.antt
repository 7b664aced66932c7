-- ===== src/Glob/Stars.antt =====
-- The loops of match_one decide what they look for.
use bksupport.Base.{
  ℕ, zero, suc, ◌+◌, ◌<◌, ◌≤◌, ◌≡◌, refl, ◌⊎◌, inl, inr, Bool, true, false, List, [], ◌∷◌, arith,
  Bytes, length, length-append, ◌==◌, if◌then◌else◌, Bool-cases, Run, Returns, ok, ◌>>=◌,
}
use bksupport.Glob.{is_meta, goto_star, star_loop, match_loop, match_one, switch, star_case}
use bksupport.Glob.Pattern.{
  Item, any, many, byte, escaped, class, item_text, text, fits, is_single, Sought, nothing, single,
  all, here, later, special, IsItem, AreItems, IsText, null,
}
use bksupport.Glob.Rounds.{Holds, single_end, Holds-item, no_fit, star_end, Single-all}

module _ (equals : Bool) (lower : ℕ → ℕ) where
  pub full_byte : (c : ℕ) → special equals c ≡ false → (c == 0) ≡ false
  full_byte c h = elim (Bool-cases (c == 0)) [ inl e ↦ cc (rw e at h) | inr e ↦ e ]

  star_inv :
      (i : Item) (items : List Item) (c : ℕ) (s : Bytes)
      → Sought lower (many ∷ i ∷ items) (c ∷ s)
      → Sought lower (i ∷ items) (c ∷ s) ⊎ Sought lower (many ∷ i ∷ items) s
  star_inv i items c s (single _ _ _ _ f m) = cc f
  star_inv i items c s (here _ _ _ _ m) = inl m
  star_inv i items c s (later _ _ _ _ m) = inr m

  Holds-later :
      (i : Item) (items : List Item) (c : ℕ) (s : Bytes) (b : Bool)
      → ¬ Sought lower (i ∷ items) (c ∷ s)
      → Holds b (Sought lower (many ∷ i ∷ items) s)
      → Holds b (Sought lower (many ∷ i ∷ items) (c ∷ s))
  Holds-later i items c s true missed m = later i items c s m
  Holds-later i items c s false missed never =
      λ n. elim (star_inv i items c s n) [ inl a ↦ missed a | inr a ↦ never a ]

  -- `match` answers for the rest of the pattern, whose text begins with `d`.
  module _ (match : Bytes → Bytes → Run Bool) (i : Item) (items : List Item) (d : ℕ) (g : Bytes)
      (tries : (s : Bytes)
        → IsText s
        → Returns (match (null s) (d ∷ g)) (λ b. Holds b (Sought lower (i ∷ items) s)))
      (skips : (c : ℕ) (s : Bytes)
        → is_meta equals lower d ≡ false
        → (lower c == lower d) ≡ false
        → ¬ Sought lower (i ∷ items) (c ∷ s)) where
    abbrev Answers : Bytes → Type 0
    Answers s =
        Returns (star_loop equals lower match (null s) (d ∷ g))
          (λ b. Holds b (Sought lower (many ∷ i ∷ items) s))

    found_or_later :
        (found : Bool) (c : ℕ) (s : Bytes)
        → Holds found (Sought lower (i ∷ items) (c ∷ s))
        → Answers s
        → Returns
            (if found then ok true else star_loop equals lower match (null s) (d ∷ g))
            (λ b. Holds b (Sought lower (many ∷ i ∷ items) (c ∷ s)))
    found_or_later true c s m after = (true, refl, here i items c s m)
    found_or_later false c s missed (b, run, answer) =
        (b, run, Holds-later i items c s b missed answer)

    try_here :
        (c : ℕ) (s : Bytes)
        → IsText (c ∷ s)
        → Answers s
        → Returns
            (match (null (c ∷ s)) (d ∷ g) >>= λ m.
              if m then ok true else star_loop equals lower match (null s) (d ∷ g))
            (λ b. Holds b (Sought lower (many ∷ i ∷ items) (c ∷ s)))
    try_here c s h after =
        let (found, first, m) = tries (c ∷ s) h in rw first (found_or_later found c s m after)

    star_loop-Answers : (s : Bytes) → IsText s → Answers s
    unfolding star_loop
    star_loop-Answers [] h = (false, refl, star_end lower i items)
    star_loop-Answers (c ∷ s) h =
        let after = star_loop-Answers s h.1 in
        rw h.0 (elim (Bool-cases (is_meta equals lower d)) [
          | inl e ↦ rw e (try_here c s h after)
          | inr e ↦ elim (Bool-cases (lower c == lower d)) [
            | inl f ↦ rw (e, f) (try_here c s h after)
            | inr f ↦
                rw (e, f)
                  (after.0, after.1, Holds-later i items c s after.0 (skips c s e f) after.2)
          ]
        ])

  -- The first byte of an item's text, and that no byte is passed over where the item matches.
  abbrev Head : Item → List Item → Type 0
  Head i items =
      (d : ℕ) × (g : Bytes) × (null (text (i ∷ items)) ≡ d ∷ g)
      × ((d == 0) ≡ false)
      × ((c : ℕ) (s : Bytes)
          → is_meta equals lower d ≡ false
          → (lower c == lower d) ≡ false
          → ¬ Sought lower (i ∷ items) (c ∷ s))

  item-Head : (i : Item) (items : List Item) → IsItem equals i → Head i items
  item-Head any items h = (_, _, refl, refl, λ c s meta. cc meta)
  item-Head many items h = (_, _, refl, refl, λ c s meta. cc meta)
  item-Head (byte d) items h =
      (d, _, refl, full_byte d h, λ c s meta differ. no_fit lower (byte d) items c s refl differ)
  item-Head (escaped d) items h = (_, _, refl, refl, λ c s meta. cc meta)
  item-Head (class part parts) items h = (_, _, refl, refl, λ c s meta. cc meta)

module _ (equals : Bool) (lower : ℕ → ℕ)
    (low : (c : ℕ) → (c == 0) ≡ false → lower 0 < lower c) where
  no_end : (c : ℕ) (s : Bytes) → ¬ Sought lower [] (c ∷ s)
  no_end c s = λ m. elim m [ ]

  abbrev Decided : ℕ → List Item → Bytes → Type 0
  Decided fuel items s =
      Returns (match_loop equals lower fuel (null s) (null (text items)))
        (λ b. Holds b (Sought lower items s))

  single_or_none :
      (fuel : ℕ) (i : Item) (items : List Item) (c : ℕ) (s : Bytes)
      → is_single i ≡ true
      → Decided fuel items s
      → Returns
          (if fits lower i c
            then match_loop equals lower fuel (null s) (null (text items))
            else ok false)
          (λ b. Holds b (Sought lower (i ∷ items) (c ∷ s)))
  single_or_none fuel i items c s h (b, run, answer) = elim (Bool-cases (fits lower i c)) [
    | inl e ↦ rw e (b, run, Holds-item lower i items c s b h e answer)
    | inr e ↦ rw e (false, refl, no_fit lower i items c s h e)
  ]

  item-Decided :
      (fuel : ℕ) (i : Item) (items : List Item) (s : Bytes)
      → is_single i ≡ true
      → IsItem equals i
      → IsText s
      → ((s' : Bytes) → IsText s' → Decided fuel items s')
      → Decided (suc fuel) (i ∷ items) s
  item-Decided fuel i items [] h k full rest =
      (false, (Single-all equals lower low fuel i items h k).0, single_end lower i items h)
  item-Decided fuel i items (c ∷ s) h k full rest =
      rw ((Single-all equals lower low fuel i items h k).1 c s full.0)
        (single_or_none fuel i items c s h (rest s full.1))

  goto_star_lem :
      (t g : Bytes) (d : ℕ)
      → t ≡ d ∷ g
      → (d == 0) ≡ false
      → star_case equals lower t ≡ ok (goto_star (d ∷ g))
  unfolding star_case
  goto_star_lem t g d e h = rw (e, h) refl

  many-Decided :
      (fuel : ℕ) (i : Item) (items : List Item) (s : Bytes)
      → IsItem equals i
      → IsText s
      → ((s' : Bytes) → IsText s' → Decided fuel (i ∷ items) s')
      → Decided (suc fuel) (many ∷ i ∷ items) s
  unfolding match_loop switch
  many-Decided fuel i items s k full rest =
      let (d, g, e, head, skips) = item-Head equals lower i items k in
      rw (goto_star_lem (null (text (i ∷ items))) g d e head) (
        star_loop-Answers equals lower (match_loop equals lower fuel) i items d g
          (λ s' h. rw e at rest s' h) skips s full)

  match_loop-Decided :
      (items : List Item) (fuel : ℕ) (s : Bytes)
      → length items < fuel
      → AreItems equals items
      → IsText s
      → Decided fuel items s
  match_loop-Decided items zero s h k full = absurd (omega arith)
  match_loop-Decided [] (suc fuel) [] h k full = unfold match_loop in (true, refl, nothing)
  match_loop-Decided [] (suc fuel) (c ∷ s) h k full =
      unfold match_loop in (false, rw full.0 refl, no_end c s)
  match_loop-Decided (many ∷ []) (suc fuel) s h k full =
      unfold match_loop switch star_case in (true, refl, all s)
  match_loop-Decided (many ∷ i ∷ items) (suc fuel) s h k full =
      many-Decided fuel i items s k.1.0 full
        (λ s' full'. match_loop-Decided (i ∷ items) fuel s' (omega arith) k.1 full')
  match_loop-Decided (any ∷ items) (suc fuel) s h k full =
      item-Decided fuel any items s refl k.0 full
        (λ s' full'. match_loop-Decided items fuel s' (omega arith) k.1 full')
  match_loop-Decided (byte d ∷ items) (suc fuel) s h k full =
      item-Decided fuel (byte d) items s refl k.0 full
        (λ s' full'. match_loop-Decided items fuel s' (omega arith) k.1 full')
  match_loop-Decided (escaped d ∷ items) (suc fuel) s h k full =
      item-Decided fuel (escaped d) items s refl k.0 full
        (λ s' full'. match_loop-Decided items fuel s' (omega arith) k.1 full')
  match_loop-Decided (class part parts ∷ items) (suc fuel) s h k full =
      item-Decided fuel (class part parts) items s refl k.0 full
        (λ s' full'. match_loop-Decided items fuel s' (omega arith) k.1 full')

  length-item : (i : Item) → 1 ≤ length (item_text i)
  length-item any = omega arith
  length-item many = omega arith
  length-item (byte d) = omega arith
  length-item (escaped d) = omega arith
  length-item (class part parts) = omega arith

  length-text : (items : List Item) → length items ≤ length (text items)
  length-text [] = omega arith
  length-text (i ∷ items) =
      omega (arith, length-append (item_text i) (text items), length-item i, length-text items)

  pub match_one-Sought :
      (items : List Item) (s : Bytes)
      → AreItems equals items
      → IsText s
      → Returns
          (match_one equals lower (null s) (null (text items)))
          (λ b. Holds b (Sought lower items s))
  unfolding match_one
  match_one-Sought items s k full =
      match_loop-Decided items (length (null (text items)) + 1) s
        (omega (arith, length-append (text items) (0 ∷ []), length-text items)) k full
