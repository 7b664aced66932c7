-- ===== src/LineEdit/Strict.antt =====
-- The lines that uniqLines leaves are all different, and in order.
use mathlib.Core.List.{Perm}
use mathlib.Core.List.Perm
use bksupport.Base.{
  ◌≡◌, ◌≢◌, refl, sym, ap, subst, Bool, true, false, List, [], ◌∷◌, ◌++◌, Bytes, Returns,
}
use bksupport.LineText.{streq}
use bksupport.MemHash.Chains.{streq_refl}
use bksupport.LineEdit.{uniq_lines}
use bksupport.LineEdit.Unique.{
  firsts, copies, uniq_lines-sorted, Rising, AreOrdered, AreRising, firsts-AreRising, firsts-perm,
  AreIn, firsts-AreIn,
}

-- The order of the lines, which the sort is by: of two lines that stand below each other, both are one.
pub record IsLineOrder (le : Bytes → Bytes → Bool) : Type 0 where
  pub transitive : (a b c : Bytes) → le a b ≡ true → le b c ≡ true → le a c ≡ true
  pub antisymmetric : (a b : Bytes) → le a b ≡ true → le b a ≡ true → a ≡ b

-- Each line stands below all those behind it, and none of them is the same.
abbrev pub StandsBelow : (Bytes → Bytes → Bool) → Bytes → List Bytes → Type 0
StandsBelow le y [] = Unit
StandsBelow le y (x ∷ lines) = ((le y x ≡ true) × (y ≢ x)) × StandsBelow le y lines

abbrev pub AreStrict : (Bytes → Bytes → Bool) → List Bytes → Type 0
AreStrict le [] = Unit
AreStrict le (x ∷ lines) = StandsBelow le x lines × AreStrict le lines

differ : (s t : Bytes) → streq s t ≡ false → s ≢ t
differ s t h = λ e. cc (streq_refl s, ap (streq s) e, h)

module _ (le : Bytes → Bytes → Bool) (o : IsLineOrder le) where
  StandsBelow-Rising :
      (z y : Bytes) (lines : List Bytes)
      → le z y ≡ true
      → z ≢ y
      → Rising le y lines
      → StandsBelow le z lines
  StandsBelow-Rising z y [] h k r = tt
  StandsBelow-Rising z y (x ∷ lines) h k (below, other, r) =
      let further = o.transitive z y x h below in
      let not_back : z ≢ x =
        λ e. k (o.antisymmetric z y h (subst (λ w. le y w ≡ true) (sym e) below)) in
      ((further, not_back), StandsBelow-Rising z x lines further not_back r)

  Rising-AreStrict : (y : Bytes) (lines : List Bytes) → Rising le y lines → AreStrict le (y ∷ lines)
  Rising-AreStrict y [] r = (tt, tt)
  Rising-AreStrict y (x ∷ lines) (below, other, r) = (
    ((below, differ y x other), StandsBelow-Rising y x lines below (differ y x other) r),
    Rising-AreStrict x lines r,
  )

  AreRising-AreStrict : (lines : List Bytes) → AreRising le lines → AreStrict le lines
  AreRising-AreStrict [] r = tt
  AreRising-AreStrict (x ∷ lines) r = Rising-AreStrict x lines r

  -- uniqLines leaves lines of which each stands below all those behind it and is the same as none of
  -- them; with the lines it frees they are the lines of before, and each freed line is among those
  -- that stay. This holds when `le` is an order and `sort` puts the lines in that order.
  pub uniq_lines-AreStrict :
      (sort : List Bytes → List Bytes) (lines : List Bytes)
      → AreOrdered le (sort lines)
      → Perm (sort lines) lines
      → Returns
          (uniq_lines sort lines)
          (λ r. AreStrict le r.0 × Perm (r.0 ++ r.1) lines × AreIn r.1 r.0)
  uniq_lines-AreStrict sort lines ordered perm = (
    (firsts (sort lines), copies (sort lines)),
    uniq_lines-sorted sort lines (sort lines) refl,
    (
      AreRising-AreStrict (firsts (sort lines)) (firsts-AreRising le (sort lines) ordered),
      Perm.trans (firsts-perm (sort lines)) perm,
      firsts-AreIn (sort lines),
    ),
  )
