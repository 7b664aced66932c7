-- ===== src/Paths/Joined.antt =====
-- `dirname` gives back the directory that `concat_path` put in front of a name.
use bksupport.Base.{
  ℕ, ◌≡◌, ◌≢◌, refl, sym, ap, ◌∙◌, inl, inr, Bool, true, false, [], ◌∷◌, ◌++◌, append_assoc, some,
  Bool-cases, Bytes, ◌==◌, ok,
}
use bksupport.Paths.{
  is_slash, no_slash, keep_head, drop_end, dir_part, dirname_from, dirname, last_is, ends_slash_dot,
  join_paths, concat_path,
}

abbrev pub All : (ℕ → Bool) → Bool → Bytes → Type 0
All p b [] = Unit
All p b (c ∷ s) = (p c ≡ b) × All p b s

keep_head-Filled : (p : ℕ → Bool) (c : ℕ) (s : Bytes) → s ≢ [] → keep_head p c s ≡ c ∷ s
unfolding keep_head
keep_head-Filled p c [] h = absurd (h refl)
keep_head-Filled p c (d ∷ s) h = refl

module _ (p : ℕ → Bool) where
  drop_end-All : (t : Bytes) → All p true t → drop_end p t ≡ []
  unfolding drop_end keep_head
  drop_end-All [] a = refl
  drop_end-All (c ∷ t) a = rw (drop_end-All t a.1, a.0) refl

  -- The last byte that fails the test stays, and what is before it.
  drop_end_stop :
      (s t : Bytes) (c : ℕ) → p c ≡ false → All p true t → drop_end p (s ++ c ∷ t) ≡ s ++ c ∷ []
  unfolding drop_end keep_head
  drop_end_stop [] t c e a = rw (drop_end-All t a, e) refl
  drop_end_stop (b ∷ s) t c e a =
      rw (drop_end_stop s t c e a) (keep_head-Filled p b (s ++ c ∷ []) (filled s))
    where
      filled : (s : Bytes) → s ++ c ∷ [] ≢ []
      filled [] = λ h. cc h
      filled (d ∷ s) = λ h. cc h

  drop_end_keep : (s t : Bytes) (c : ℕ) → All p false (c ∷ t) → drop_end p (s ++ c ∷ t) ≡ s ++ c ∷ t
  unfolding drop_end keep_head
  drop_end_keep [] [] c a = rw (a.0) refl
  drop_end_keep [] (d ∷ t) c a = rw (drop_end_keep [] t d a.1) refl
  drop_end_keep (b ∷ s) t c a =
      rw (drop_end_keep s t c a) (keep_head-Filled p b (s ++ c ∷ t) (filled s))
    where
      filled : (s : Bytes) → s ++ c ∷ t ≢ []
      filled [] = λ h. cc h
      filled (d ∷ s) = λ h. cc h

dirname_from-found :
    (path s t : Bytes) (c : ℕ)
    → is_slash c ≡ false
    → dirname_from path (s ++ c ∷ t) ≡ dir_part (drop_end no_slash (drop_end is_slash path))
unfolding dirname_from
dirname_from-found path [] t c e = rw e
dirname_from-found path (b ∷ s) t c e = elim (Bool-cases (is_slash b)) [
  | inl f ↦ rw f (dirname_from-found path s t c e)
  | inr f ↦ rw f
]

no_slashes : (s : Bytes) → All is_slash false s → All no_slash true s
no_slashes [] a = tt
no_slashes (c ∷ s) a = (rw (a.0) refl, no_slashes s a.1)

snoc-Filled : (s : Bytes) (c : ℕ) → s ++ c ∷ [] ≢ []
snoc-Filled [] c = λ h. cc h
snoc-Filled (d ∷ s) c = λ h. cc h

dir_part-Filled : (s r : Bytes) → s ≢ [] → r ≢ [] → drop_end is_slash s ≡ r → dir_part s ≡ r
unfolding dir_part
dir_part-Filled [] r h g e = absurd (h refl)
dir_part-Filled (c ∷ s) [] h g e = absurd (g refl)
dir_part-Filled (c ∷ s) (b ∷ r) h g e = rw (dir_part, e) refl

last_is-snoc : (s : Bytes) (c x : ℕ) → last_is c (s ++ x ∷ []) ≡ (x == c)
unfolding last_is
last_is-snoc [] c x = refl
last_is-snoc (b ∷ []) c x = refl
last_is-snoc (b ∷ d ∷ s) c x = last_is-snoc (d ∷ s) c x

join_paths_plain :
    (first second : Bytes) (c : ℕ)
    → ends_slash_dot first ≡ false
    → last_is b'/' first ≡ false
    → (c == b'/') ≡ false
    → join_paths first c second ≡ first ++ b'/' ∷ c ∷ second
unfolding join_paths
join_paths_plain first second c e f g = rw (e, g, f) refl

concat_path_filled :
    (first second : Bytes) (c : ℕ)
    → first ≢ []
    → concat_path (some first) (some (c ∷ second)) ≡ ok (join_paths first c second)
unfolding concat_path
concat_path_filled [] second c h = absurd (h refl)
concat_path_filled (b ∷ first) second c h = refl

-- concat_path puts a slash between a directory that does not end in `/` or `/.` and a name without
-- slashes, and dirname of the path is the directory again. Neither is empty.
pub dirname-concat_path :
    (d : Bytes) (x c : ℕ) (s : Bytes)
    → is_slash x ≡ false
    → ends_slash_dot (d ++ x ∷ []) ≡ false
    → All is_slash false (c ∷ s)
    → (concat_path (some (d ++ x ∷ [])) (some (c ∷ s)) ≡ ok (d ++ x ∷ [] ++ b'/' ∷ c ∷ s))
      × (dirname (d ++ x ∷ [] ++ b'/' ∷ c ∷ s) ≡ d ++ x ∷ [])
unfolding dirname
dirname-concat_path d x c s e f a =
    let dir = d ++ x ∷ [] in
    let whole : dir ++ b'/' ∷ c ∷ s ≡ (dir ++ b'/' ∷ []) ++ c ∷ s =
      sym (append_assoc dir (b'/' ∷ []) (c ∷ s)) in
    (
      concat_path_filled dir s c (snoc-Filled d x)
          ∙ ap ok (join_paths_plain dir s c f (last_is-snoc d b'/' x ∙ e) a.0),
      ap (dirname_from (dir ++ b'/' ∷ c ∷ s)) whole
          ∙ dirname_from-found (dir ++ b'/' ∷ c ∷ s) (dir ++ b'/' ∷ []) s c a.0
          ∙ ap (λ r. dir_part (drop_end no_slash r))
              (ap (drop_end is_slash) whole
                ∙ drop_end_keep is_slash (dir ++ b'/' ∷ []) s c a
                ∙ sym whole)
          ∙ ap dir_part (drop_end_stop no_slash dir (c ∷ s) b'/' refl (no_slashes (c ∷ s) a))
          ∙ dir_part-Filled (dir ++ b'/' ∷ []) dir (snoc-Filled dir b'/') (snoc-Filled d x) (
              ap (drop_end is_slash) (append_assoc d (x ∷ []) (b'/' ∷ []))
              ∙ drop_end_stop is_slash d (b'/' ∷ []) x e (refl, tt)),
    )
