-- ===== src/FopenCrc/Xor.antt =====
-- The exclusive or of blocks: a block is that of all the others, when that of all is null.
use Prim.Native.Nat.{bit_xor}
use bksupport.Base.Xor.{zero_xor, xor_zero, xor_self, xor_comm, xor_assoc}
use bksupport.Base.{
  ℕ, zero, suc, ◌+◌, ◌≤◌, ◌≡◌, refl, sym, ap, ◌∙◌, List, [], ◌∷◌, ◌++◌, arith, Bytes, length,
  replicate, length-replicate, ok,
}
use bksupport.FopenCrc.{xor_into}

abbrev pub xor_at : Bytes → ℕ → Bytes → Bytes
xor_at [] c bs = []
xor_at (x ∷ xs) zero [] = x ∷ xs
xor_at (x ∷ xs) zero (b ∷ bs) = bit_xor x b ∷ xor_at xs zero bs
xor_at (x ∷ xs) (suc c) bs = x ∷ xor_at xs c bs

pub xor_into_lem :
    (xs : Bytes) (c : ℕ) (bs : Bytes)
    → c + length bs ≤ length xs
    → xor_into xs c bs ≡ ok (xor_at xs c bs)
unfolding xor_into
xor_into_lem [] zero [] h = refl
xor_into_lem [] zero (b ∷ bs) h = absurd (omega arith)
xor_into_lem [] (suc c) bs h = absurd (omega arith)
xor_into_lem (x ∷ xs) zero [] h = refl
xor_into_lem (x ∷ xs) zero (b ∷ bs) h = rw (xor_into_lem xs zero bs (omega arith)) refl
xor_into_lem (x ∷ xs) (suc c) bs h = rw (xor_into_lem xs c bs (omega arith)) refl

pub length-xor_at : (xs : Bytes) (c : ℕ) (bs : Bytes) → length (xor_at xs c bs) ≡ length xs
length-xor_at [] c bs = refl
length-xor_at (x ∷ xs) zero [] = refl
length-xor_at (x ∷ xs) zero (b ∷ bs) = ap suc (length-xor_at xs zero bs)
length-xor_at (x ∷ xs) (suc c) bs = ap suc (length-xor_at xs c bs)

pub xor_at_nil : (xs : Bytes) (c : ℕ) → xor_at xs c [] ≡ xs
xor_at_nil [] c = refl
xor_at_nil (x ∷ xs) zero = refl
xor_at_nil (x ∷ xs) (suc c) = ap (λ r. x ∷ r) (xor_at_nil xs c)

pub xor_at-append : (xs a b : Bytes) → xor_at (xor_at xs 0 a) (length a) b ≡ xor_at xs 0 (a ++ b)
xor_at-append [] a b = refl
xor_at-append (x ∷ xs) [] b = refl
xor_at-append (x ∷ xs) (y ∷ a) b = ap (λ r. bit_xor x y ∷ r) (xor_at-append xs a b)

pub xor_at-zeros : (xs : Bytes) (c n : ℕ) → xor_at xs c (replicate n 0) ≡ xs
xor_at-zeros [] c n = refl
xor_at-zeros (x ∷ xs) zero zero = refl
xor_at-zeros (x ∷ xs) zero (suc n) = rw (xor_zero x, xor_at-zeros xs zero n) refl
xor_at-zeros (x ∷ xs) (suc c) n = ap (λ r. x ∷ r) (xor_at-zeros xs c n)

pub zeros-xor_at : (n : ℕ) (p : Bytes) → length p ≡ n → xor_at (replicate n 0) 0 p ≡ p
zeros-xor_at zero [] h = refl
zeros-xor_at zero (y ∷ p) h = absurd (omega arith)
zeros-xor_at (suc n) [] h = absurd (omega arith)
zeros-xor_at (suc n) (y ∷ p) h = rw (zero_xor y, zeros-xor_at n p (omega arith)) refl

pub xor_at_twice : (xs p : Bytes) → xor_at (xor_at xs 0 p) 0 p ≡ xs
xor_at_twice [] p = refl
xor_at_twice (x ∷ xs) [] = refl
xor_at_twice (x ∷ xs) (y ∷ p) = rw (xor_assoc x y y, xor_self y, xor_zero x, xor_at_twice xs p) refl

xor_swap : (x y z : ℕ) → bit_xor (bit_xor x y) z ≡ bit_xor (bit_xor x z) y
xor_swap x y z = xor_assoc x y z ∙ ap (bit_xor x) (xor_comm y z) ∙ sym (xor_assoc x z y)

pub xor_at_swap : (xs p q : Bytes) → xor_at (xor_at xs 0 p) 0 q ≡ xor_at (xor_at xs 0 q) 0 p
xor_at_swap [] p q = refl
xor_at_swap (x ∷ xs) [] [] = refl
xor_at_swap (x ∷ xs) [] (z ∷ q) = refl
xor_at_swap (x ∷ xs) (y ∷ p) [] = refl
xor_at_swap (x ∷ xs) (y ∷ p) (z ∷ q) = rw (xor_swap x y z, xor_at_swap xs p q) refl

abbrev pub xor_sum : Bytes → List Bytes → Bytes
xor_sum xs [] = xs
xor_sum xs (p ∷ ps) = xor_sum (xor_at xs 0 p) ps

pub length-xor_sum : (xs : Bytes) (ps : List Bytes) → length (xor_sum xs ps) ≡ length xs
length-xor_sum xs [] = refl
length-xor_sum xs (p ∷ ps) = length-xor_sum (xor_at xs 0 p) ps ∙ length-xor_at xs 0 p

pub xor_sum-append :
    (xs : Bytes) (ps qs : List Bytes) → xor_sum xs (ps ++ qs) ≡ xor_sum (xor_sum xs ps) qs
xor_sum-append xs [] qs = refl
xor_sum-append xs (p ∷ ps) qs = xor_sum-append (xor_at xs 0 p) ps qs

xor_sum-xor_at :
    (xs q : Bytes) (ps : List Bytes) → xor_sum (xor_at xs 0 q) ps ≡ xor_at (xor_sum xs ps) 0 q
xor_sum-xor_at xs q [] = refl
xor_sum-xor_at xs q (p ∷ ps) =
    ap (λ r. xor_sum r ps) (xor_at_swap xs q p) ∙ xor_sum-xor_at (xor_at xs 0 p) q ps

abbrev pub zeros : ℕ → Bytes
zeros n = replicate n 0

-- Of blocks whose exclusive or is null, each is the exclusive or of the others.
pub xor_sum_others :
    (n : ℕ) (before after : List Bytes) (p : Bytes)
    → length p ≡ n
    → xor_sum (zeros n) (before ++ p ∷ after) ≡ zeros n
    → xor_sum (zeros n) (before ++ after) ≡ p
xor_sum_others n before after p h all =
    let others = xor_sum (zeros n) (before ++ after) in
    let joined : xor_at others 0 p ≡ zeros n =
      ap (λ r. xor_at r 0 p) (xor_sum-append (zeros n) before after)
      ∙ sym (xor_sum-xor_at (xor_sum (zeros n) before) p after)
      ∙ sym (xor_sum-append (zeros n) before (p ∷ after))
      ∙ all in
    sym (xor_at_twice others p) ∙ ap (λ r. xor_at r 0 p) joined ∙ zeros-xor_at n p h

-- With their exclusive or, the exclusive or of blocks is null.
pub xor_sum_all :
    (n : ℕ) (ps : List Bytes) → xor_sum (zeros n) (ps ++ xor_sum (zeros n) ps ∷ []) ≡ zeros n
xor_sum_all n ps =
    let sum = xor_sum (zeros n) ps in
    let h : length sum ≡ n = length-xor_sum (zeros n) ps ∙ length-replicate n 0 in
    xor_sum-append (zeros n) ps (sum ∷ [])
    ∙ ap (λ r. xor_at r 0 sum) (sym (zeros-xor_at n sum h))
    ∙ xor_at_twice (zeros n) sum
