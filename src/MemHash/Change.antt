-- ===== src/MemHash/Change.antt =====
-- What a change of the table does to the values of its keys.
use bksupport.Base.{
  get_or-set, ℕ, ◌+◌, ◌≡◌, inl, inr, refl, sym, ap, ◌∙◌, subst, Bool, true, false, List, [], ◌∷◌,
  ◌++◌, Option, none, some, arith, Bytes, length, length-set, get_or, set, ◌==◌, ==_iff,
  if◌then◌else◌, Bool-cases,
}
use bksupport.LineText.{streq}
use bksupport.MemHash.Buckets.{total-set, find, ChainsOk-put}
use bksupport.MemHash.Chains.{
  streq_refl, streq-true, lookup, lookup-append, lookup-skip, lookup-head, Link, HasKey,
  find_link-Link, find_link-HasKey, ChainOk, ChainOk-put, ChainOk-take, ChainOk-only,
}
use bksupport.MemHash.Split.{Valid, Valid-Fits, memhash_split-Valid, memhash_split-find}
use bksupport.MemHash.{Node, MemHash, bucket, memhash_split, memhash_fetch}

streq_other : (s t : Bytes) → streq s t ≡ false → streq t s ≡ false
streq_other s t h = elim (Bool-cases (streq t s)) [
  | inl e ↦ cc (h, streq-true t s e, streq_refl s)
  | inr e ↦ e
]

-- The chain without the node of key `k`.
pub record Without (at : Bytes → ℕ) (k : Bytes) (chain before next : List Node) : Type 0 where
  pub chain_ok : ChainOk at (at k) (before ++ next)
  pub absent : lookup k before ≡ none
  pub gone : lookup k (before ++ next) ≡ none
  pub others : (k' : Bytes) → streq k k' ≡ false → lookup k' (before ++ next) ≡ lookup k' chain

module _ (at : Bytes → ℕ) (k : Bytes) (chain before : List Node) where
  pub no_node-Without :
      ChainOk at (at k) chain → Link k chain before [] → Without at k chain before []
  no_node-Without ord link = record {
    chain_ok = rw link.joined ord;
    absent = link.absent;
    gone = lookup-append k before [] link.absent ∙ unfold lookup in refl;
    others = λ k' e. ap (lookup k') link.joined;
  }

  pub node-Without :
      (n : Node) (next : List Node)
      → ChainOk at (at k) chain
      → Link k chain before (n ∷ next)
      → streq n.key k ≡ true
      → Without at k chain before next
  node-Without n next ord link e =
      let fine = subst (ChainOk at (at k)) (sym link.joined) ord in
      record {
        chain_ok = ChainOk-take at (at k) before next n fine;
        absent = link.absent;
        gone = ChainOk-only at (at k) k before next n fine e link.absent;
        others = λ k' f.
            let g : streq n.key k' ≡ false = rw (streq-true n.key k e) f in
            sym (lookup-skip k' before next n g) ∙ ap (lookup k') link.joined;
      }

-- The new value of key `k`, and the old one of any other.
abbrev pub change : Bytes → Option Bytes → (Bytes → Option Bytes) → Bytes → Option Bytes
change k o old k' = if streq k k' then o else old k'

module _ (at : Bytes → ℕ) (k : Bytes) (chain before next : List Node)
    (w : Without at k chain before next) where
  pub put-ChainOk : (v : Bytes) → ChainOk at (at k) (before ++ record { key = k; value = v } ∷ next)
  put-ChainOk v = ChainOk-put at (at k) before next _ refl w.gone w.chain_ok

  pub put-lookup :
      (v k' : Bytes)
      → lookup k' (before ++ record { key = k; value = v } ∷ next)
        ≡ change k (some v) (λ k''. lookup k'' chain) k'
  put-lookup v k' = elim (Bool-cases (streq k k')) [
    | inl e ↦ rw e (
        rw (← streq-true k k' e)
          (lookup-head k before next (record { key = k; value = v }) w.absent (streq_refl k)))
    | inr e ↦ rw e (lookup-skip k' before next (record { key = k; value = v }) e ∙ w.others k' e)
  ]

  pub gone-lookup :
      (k' : Bytes) → lookup k' (before ++ next) ≡ change k none (λ k''. lookup k'' chain) k'
  gone-lookup k' = elim (Bool-cases (streq k k')) [
    | inl e ↦ rw e (rw (← streq-true k k' e) w.gone)
    | inr e ↦ rw e (w.others k' e)
  ]

module _ (crc : Bytes → ℕ) where
  link_value :
      (k : Bytes) (c b r : List Node)
      → Link k c b r
      → HasKey k r
      → (elim r [ [] ↦ none | n ∷ next ↦ some n.value ]) ≡ lookup k c
  link_value k c b [] l has =
      sym (sym (ap (lookup k) l.joined) ∙ lookup-append k b [] l.absent ∙ unfold lookup in refl)
  link_value k c b (n ∷ next) l has =
      sym (sym (ap (lookup k) l.joined) ∙ lookup-head k b next n l.absent has)

  pub memhash_fetch_lem :
      (h : MemHash) (k : Bytes) → memhash_fetch crc h k ≡ find (bucket crc h.mask) h.arr k
  unfolding memhash_fetch
  memhash_fetch_lem h k =
      let c = get_or h.arr (bucket crc h.mask k) [] in
      link_value k c _ _ (find_link-Link k c) (find_link-HasKey k c)

  -- The table `h'` is in order and differs from `h` in the value of key `k`.
  pub record Changed (h h' : MemHash) (k : Bytes) (o : Option Bytes) : Type 0 where
    pub valid : Valid crc h'
    pub says : (k' : Bytes) → memhash_fetch crc h' k' ≡ change k o (memhash_fetch crc h) k'

  module _ (h : MemHash) (v : Valid crc h) (k : Bytes) (o : Option Bytes) where
    pub replaced :
        (m : ℕ) (c : List Node)
        → ChainOk (bucket crc h.mask) (bucket crc h.mask k) c
        → m + length (get_or h.arr (bucket crc h.mask k) []) ≡ h.nodes + length c
        → ((k' : Bytes)
            → lookup k' c
              ≡ change k o (λ k''. lookup k'' (get_or h.arr (bucket crc h.mask k) [])) k')
        → Changed h (record h { nodes = m; arr = set h.arr (bucket crc h.mask k) c }) k o
    replaced m c ord count looks =
        let at = bucket crc h.mask in
        let low = Valid-Fits crc h v k in
        record {
          valid = record {
            log = v.log;
            mask_is = v.mask_is;
            size = length-set h.arr (at k) c ∙ v.size;
            chains = ChainsOk-put at (at k) h.arr c v.chains ord;
            counts = omega (arith, total-set h.arr (at k) c low, v.counts, count);
          };
          says = λ k'.
              memhash_fetch_lem (record h { nodes = m; arr = set h.arr (at k) c }) k'
              ∙ ap (lookup k') (get_or-set h.arr (at k) (at k') c [] low)
              ∙ by_bucket k';
        }
      where
        by_bucket :
            (k' : Bytes)
            → lookup k' (
                if bucket crc h.mask k == bucket crc h.mask k'
                then c
                else get_or h.arr (bucket crc h.mask k') [])
              ≡ change k o (memhash_fetch crc h) k'
        by_bucket k' = elim (Bool-cases (bucket crc h.mask k == bucket crc h.mask k')) [
          | inl e ↦
              let e' : bucket crc h.mask k ≡ bucket crc h.mask k' = (==_iff _ _).0 e in
              rw (e, memhash_fetch_lem h k', ← e') (looks k')
          | inr e ↦ elim (Bool-cases (streq k k')) [
            | inl f ↦ cc (
              e,
              (==_iff (bucket crc h.mask k) (bucket crc h.mask k')).1
                  (ap (bucket crc h.mask) (streq-true k k' f)),
            )
            | inr f ↦ rw (e, f, memhash_fetch_lem h k') refl
          ]
        ]

    pub split_if :
        (h' : MemHash) (b : Bool)
        → Changed h h' k o
        → Changed h (if b then memhash_split crc h' else h') k o
    split_if h' false ch = ch
    split_if h' true ch = record {
      valid = memhash_split-Valid crc h' ch.valid;
      says = λ k'.
          memhash_fetch_lem (memhash_split crc h') k'
          ∙ memhash_split-find crc h' ch.valid k'
          ∙ sym (memhash_fetch_lem h' k')
          ∙ ch.says k';
    }
