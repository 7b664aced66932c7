-- ===== src/Glob/Rounds.antt =====
-- The rounds of match_one on an item that is no `*`, and what such an item matches.
use bksupport.Base.{
  ℕ, suc, ◌<◌, ◌≡◌, refl, sym, ap, subst, ◌∙◌, inl, inr, Bool, true, false, ◌&&◌, ◌||◌, List, [],
  ◌∷◌, ◌++◌, append_assoc, arith, Bytes, leb-false, ◌==◌, if◌then◌else◌, Bool-cases, or-false, ok,
}
use bksupport.Glob.{returned, matched, switch, match_loop, bracket, literal}
use bksupport.Glob.Class.{class_loop-class, has_close-class, no_null}
use bksupport.Glob.Pattern.{
  Part, one, range, Item, any, many, byte, escaped, class, part_text, parts_text, text, in_part,
  in_parts, fits, is_single, Sought, single, all, here, later, special, class_special, IsPart,
  AreParts, IsItem, null,
}

-- The answer is right about `P`.
abbrev pub Holds : Bool → Type 0 → Type 0
Holds true P = P
Holds false P = ¬ P

module _ (lower : ℕ → ℕ) where
  pub single_inv :
      (i : Item) (items : List Item) (c : ℕ) (s : Bytes)
      → is_single i ≡ true
      → Sought lower (i ∷ items) (c ∷ s)
      → (fits lower i c ≡ true) × Sought lower items s
  single_inv i items c s h (single _ _ _ _ f m) = (f, m)
  single_inv _ _ _ _ h (all _) = cc h
  single_inv _ _ _ _ h (here _ _ _ _ m) = cc h
  single_inv _ _ _ _ h (later _ _ _ _ m) = cc h

  pub single_end :
      (i : Item) (items : List Item) → is_single i ≡ true → ¬ Sought lower (i ∷ items) []
  single_end _ _ h (all _) = cc h

  pub Holds-item :
      (i : Item) (items : List Item) (c : ℕ) (s : Bytes) (b : Bool)
      → is_single i ≡ true
      → fits lower i c ≡ true
      → Holds b (Sought lower items s)
      → Holds b (Sought lower (i ∷ items) (c ∷ s))
  Holds-item i items c s true h f m = single i items c s f m
  Holds-item i items c s false h f m = λ n. m (single_inv i items c s h n).1

  pub no_fit :
      (i : Item) (items : List Item) (c : ℕ) (s : Bytes)
      → is_single i ≡ true
      → fits lower i c ≡ false
      → ¬ Sought lower (i ∷ items) (c ∷ s)
  no_fit i items c s h f = λ n. let e = (single_inv i items c s h n).0 in cc (e, f)

  pub star_end : (i : Item) (items : List Item) → ¬ Sought lower (many ∷ i ∷ items) []
  star_end i items = λ m. elim m [ ]

-- A round for an item that is no `*`.
module _ (equals : Bool) (lower : ℕ → ℕ)
    (low : (c : ℕ) → (c == 0) ≡ false → lower 0 < lower c) where
  differ : (a b : ℕ) → a < b → (a == b) ≡ false
  differ a b h = ground arith

  later_differ : (a b : ℕ) → a < b → (b == a) ≡ false
  later_differ a b h = ground arith

  no_caret : (a : ℕ) → class_special a ≡ false → (a == b'^') ≡ false
  no_caret a h = ground arith

  abbrev pub SingleAt : ℕ → Item → List Item → Bytes → Type 0
  SingleAt fuel i items glob =
      (match_loop equals lower (suc fuel) (null []) glob ≡ ok false)
      × ((c : ℕ) (s : Bytes)
          → (c == 0) ≡ false
          → match_loop equals lower (suc fuel) (null (c ∷ s)) glob ≡ (
              if fits lower i c
              then match_loop equals lower fuel (null s) (null (text items))
              else ok false))

  abbrev pub Single : ℕ → Item → List Item → Type 0
  Single fuel i items = SingleAt fuel i items (null (text (i ∷ items)))

  any-Single : (fuel : ℕ) (items : List Item) → Single fuel any items
  unfolding match_loop
  any-Single fuel items = (refl, λ c s h. rw h refl)

  pub switch-literal :
      (p : Bytes) (d : ℕ) (g : Bytes)
      → special equals d ≡ false
      → switch equals lower p d g ≡ literal equals lower p d g
  unfolding switch
  switch-literal p d g h =
      let (_, h₁) = or-false (d == 0) _ h in
      let (no_any, h₂) = or-false (d == b'?') _ h₁ in
      let (no_class, h₃) = or-false (d == b'[') _ h₂ in
      let (equal, h₄) = or-false (d == b'=' && equals) _ h₃ in
      let (star, back) = or-false (d == b'*') _ h₄ in
      rw (no_any, no_class, star, back)
        (elim (Bool-cases (d == b'=')) [ inl e ↦ rw (e, rw e at equal) refl | inr e ↦ rw e refl ])

  literal_end :
      (d : ℕ) (g : Bytes)
      → (d == 0) ≡ false
      → literal equals lower (null []) d g ≡ ok (returned false)
  unfolding literal
  literal_end d g h = rw (differ (lower 0) (lower d) (low d h)) refl

  pub byte_round :
      (fuel c d : ℕ) (s g : Bytes)
      → special equals d ≡ false
      → match_loop equals lower (suc fuel) (null (c ∷ s)) (d ∷ g)
        ≡ (if lower c == lower d then match_loop equals lower fuel (null s) g else ok false)
  unfolding match_loop
  byte_round fuel c d s g h =
      let (full, _) = or-false (d == 0) _ h in
      rw (full, switch-literal (null (c ∷ s)) d g h)
        (unfold literal in
          elim (Bool-cases (lower c == lower d)) [ inl e ↦ rw e refl | inr e ↦ rw e refl ])

  byte-Single :
      (fuel d : ℕ) (items : List Item) → special equals d ≡ false → Single fuel (byte d) items
  unfolding match_loop
  byte-Single fuel d items h =
      let (full, _) = or-false (d == 0) _ h in
      (
        rw
            (
              full,
              switch-literal (null []) d (null (text items)) h,
              literal_end d (null (text items)) full,
            )
            refl,
        λ c s k. byte_round fuel c d s (null (text items)) h,
      )

  escaped-Single :
      (fuel d : ℕ) (items : List Item) → (d == 0) ≡ false → Single fuel (escaped d) items
  unfolding match_loop switch
  escaped-Single fuel d items full = (
    rw (literal_end d (null (text items)) full) refl,
    λ c s k.
        unfold literal in
        elim (Bool-cases (lower c == lower d)) [ inl e ↦ rw e refl | inr e ↦ rw e refl ],
  )

  pub part_end : (part : Part) → IsPart part → in_part lower part 0 ≡ false
  part_end (one a) h = later_differ (lower 0) (lower a) (low a (no_null a h))
  part_end (range a e) h = rw (leb-false (lower a) (lower 0) (low a (no_null a h.0))) refl

  pub parts_end : (parts : List Part) → AreParts parts → in_parts lower parts 0 ≡ false
  parts_end [] hs = refl
  parts_end (part ∷ parts) (h, hs) = rw (part_end part h) (parts_end parts hs)

  bracket-class :
      (x : ℕ) (p : Bytes) (part : Part) (parts : List Part) (rest : Bytes)
      → IsPart part
      → AreParts parts
      → bracket equals lower (x ∷ p) (part_text part ++ (parts_text parts ++ b']' ∷ rest))
        ≡ ok (
            if in_part lower part x || in_parts lower parts x then matched rest else returned false)
  unfolding bracket
  bracket-class x p (one a) parts rest h hs = rw (no_caret a h) (
      rw
        (
          has_close-class (one a) parts rest h hs,
          class_loop-class lower equals x (one a) parts rest false h hs,
        )
        refl)
  bracket-class x p (range a e) parts rest h hs = rw (no_caret a h.0) (
      rw
        (
          has_close-class (range a e) parts rest h hs,
          class_loop-class lower equals x (range a e) parts rest false h hs,
        )
        refl)

  class_text :
      (part : Part) (parts : List Part) (items : List Item)
      → null (text (class part parts ∷ items))
        ≡ b'[' ∷ (part_text part ++ (parts_text parts ++ b']' ∷ null (text items)))
  class_text part parts items =
      ap (λ r. b'[' ∷ r)
        (append_assoc (part_text part ++ (parts_text parts ++ b']' ∷ [])) (text items) (0 ∷ [])
          ∙ append_assoc (part_text part) (parts_text parts ++ b']' ∷ []) (null (text items))
          ∙ ap (λ r. part_text part ++ r)
              (append_assoc (parts_text parts) (b']' ∷ []) (null (text items))))

  class-SingleAt :
      (fuel : ℕ) (part : Part) (parts : List Part) (items : List Item)
      → IsPart part
      → AreParts parts
      → SingleAt fuel
          (class part parts)
          items
          (b'[' ∷ (part_text part ++ (parts_text parts ++ b']' ∷ null (text items))))
  unfolding match_loop switch
  class-SingleAt fuel part parts items h hs = (
    rw (bracket-class 0 [] part parts (null (text items)) h hs, part_end part h, parts_end parts hs)
        refl,
    λ c s k.
        rw (bracket-class c (null s) part parts (null (text items)) h hs)
          (elim (Bool-cases (in_part lower part c || in_parts lower parts c)) [
            | inl e ↦ rw e refl
            | inr e ↦ rw e refl
          ]),
  )

  pub Single-all :
      (fuel : ℕ) (i : Item) (items : List Item)
      → is_single i ≡ true
      → IsItem equals i
      → Single fuel i items
  Single-all fuel any items e h = any-Single fuel items
  Single-all fuel many items e h = cc e
  Single-all fuel (byte d) items e h = byte-Single fuel d items h
  Single-all fuel (escaped d) items e h = escaped-Single fuel d items h
  Single-all fuel (class part parts) items e h =
      subst (SingleAt fuel (class part parts) items) (sym (class_text part parts items))
        (class-SingleAt fuel part parts items h.0 h.1)
