-- ===== src/Config/Cidr/Prefixes.antt =====
-- Lemmas on the comparison of leading bits in `IPNet.Contains`, which
-- internal/config/backplane/backplane.go calls.
use yukimi.Base.{
  length, ℕ, zero, suc, ◌≤◌, ◌<◌, ◌≡◌, refl, ap, Bool, true, false, not, none, List, [], ◌∷◌, arith,
}
use yukimi.Config.Cidr.{strip, same_prefix}

pub same_prefix_refl : (n : ℕ) (xs : List Bool) → n ≤ length xs → same_prefix n xs xs ≡ true
unfolding same_prefix
same_prefix_refl zero xs h = refl
same_prefix_refl (suc n) [] h = refl
same_prefix_refl (suc n) (true ∷ xs) h = ground (arith, same_prefix_refl n xs)
same_prefix_refl (suc n) (false ∷ xs) h = ground (arith, same_prefix_refl n xs)

pub same_prefix_trans :
    (m n : ℕ) (xs ys zs : List Bool)
    → m ≤ n
    → same_prefix m xs ys ≡ true
    → same_prefix n ys zs ≡ true
    → same_prefix m xs zs ≡ true
unfolding same_prefix
same_prefix_trans zero n xs ys zs l h k = refl
same_prefix_trans (suc m) n [] ys zs l h k = refl
same_prefix_trans (suc m) n (x ∷ xs) [] zs l h k = ground arith
same_prefix_trans (suc m) zero (x ∷ xs) (y ∷ ys) zs l h k = ground arith
same_prefix_trans (suc m) (suc n) (x ∷ xs) (true ∷ ys) [] l h k = ground arith
same_prefix_trans (suc m) (suc n) (x ∷ xs) (false ∷ ys) [] l h k = ground arith
same_prefix_trans (suc m) (suc n) (true ∷ xs) (true ∷ ys) (true ∷ zs) l h k =
    ground (arith, same_prefix_trans m n xs ys zs)
same_prefix_trans (suc m) (suc n) (true ∷ xs) (true ∷ ys) (false ∷ zs) l h k = ground arith
same_prefix_trans (suc m) (suc n) (true ∷ xs) (false ∷ ys) (z ∷ zs) l h k = ground arith
same_prefix_trans (suc m) (suc n) (false ∷ xs) (true ∷ ys) (z ∷ zs) l h k = ground arith
same_prefix_trans (suc m) (suc n) (false ∷ xs) (false ∷ ys) (true ∷ zs) l h k = ground arith
same_prefix_trans (suc m) (suc n) (false ∷ xs) (false ∷ ys) (false ∷ zs) l h k =
    ground (arith, same_prefix_trans m n xs ys zs)

-- The network's own address with the bit behind the mask turned.
pub flip : ℕ → List Bool → List Bool
flip n [] = []
flip zero (b ∷ bs) = not b ∷ bs
flip (suc n) (b ∷ bs) = b ∷ flip n bs

pub length-flip : (n : ℕ) (bs : List Bool) → length (flip n bs) ≡ length bs
unfolding flip
length-flip n [] = refl
length-flip zero (b ∷ bs) = refl
length-flip (suc n) (b ∷ bs) = ap suc (length-flip n bs)

pub same_prefix-flip : (n : ℕ) (bs : List Bool) → same_prefix n bs (flip n bs) ≡ true
unfolding same_prefix flip
same_prefix-flip zero bs = refl
same_prefix-flip (suc n) [] = refl
same_prefix-flip (suc n) (true ∷ bs) = same_prefix-flip n bs
same_prefix-flip (suc n) (false ∷ bs) = same_prefix-flip n bs

-- A longer prefix has the turned bit.
pub flip-differs :
    (n m : ℕ) (rs bs : List Bool)
    → n < m
    → m ≤ length rs
    → same_prefix m rs bs ≡ true
    → same_prefix m rs (flip n bs) ≡ true
    → suc n ≤ n
unfolding same_prefix flip
flip-differs n zero rs bs l k h h' = omega arith
flip-differs n (suc m) [] bs l k h h' = ground arith
flip-differs n (suc m) (r ∷ rs) [] l k h h' = ground arith
flip-differs zero (suc m) (true ∷ rs) (true ∷ bs) l k h h' = ground arith
flip-differs zero (suc m) (true ∷ rs) (false ∷ bs) l k h h' = ground arith
flip-differs zero (suc m) (false ∷ rs) (true ∷ bs) l k h h' = ground arith
flip-differs zero (suc m) (false ∷ rs) (false ∷ bs) l k h h' = ground arith
flip-differs (suc n) (suc m) (true ∷ rs) (true ∷ bs) l k h h' =
    ground (arith, flip-differs n m rs bs)
flip-differs (suc n) (suc m) (true ∷ rs) (false ∷ bs) l k h h' = ground arith
flip-differs (suc n) (suc m) (false ∷ rs) (true ∷ bs) l k h h' = ground arith
flip-differs (suc n) (suc m) (false ∷ rs) (false ∷ bs) l k h h' =
    ground (arith, flip-differs n m rs bs)

-- A text shorter than the prefix has no such prefix.
pub strip-short : (p bs : List Bool) → length bs < length p → strip p bs ≡ none
unfolding strip
strip-short [] bs l = ground arith
strip-short (p ∷ ps) [] l = refl
strip-short (true ∷ ps) (true ∷ bs) l = strip-short ps bs (omega arith)
strip-short (true ∷ ps) (false ∷ bs) l = refl
strip-short (false ∷ ps) (true ∷ bs) l = refl
strip-short (false ∷ ps) (false ∷ bs) l = strip-short ps bs (omega arith)
