-- ===== src/Text/Order.antt =====
-- `strings.Compare` is a total order, and any two sorted arrangements of one list agree.
use go_web_sdk.Common.{[], ◌∷◌, arith, ◌≡◌, refl, Ordering}
use go_web_sdk.Text.Defs.{Bytes, str_compare}

pub str_compare-eq : (s t : Bytes) → str_compare s t ≡ Ordering.eq → s ≡ t
unfolding str_compare
str_compare-eq [] [] h = refl
str_compare-eq [] (_ ∷ _) h = cc
str_compare-eq (_ ∷ _) [] h = cc
str_compare-eq (a ∷ s) (b ∷ t) h = ground (arith, str_compare-eq s t)

pub str_compare_refl : (s : Bytes) → str_compare s s ≡ Ordering.eq
unfolding str_compare
str_compare_refl [] = refl
str_compare_refl (a ∷ s) = ground (arith, str_compare_refl s)

pub str_compare_flip : (s t : Bytes) → str_compare s t ≡ Ordering.gt → str_compare t s ≡ Ordering.lt
unfolding str_compare
str_compare_flip [] [] h = cc
str_compare_flip [] (_ ∷ _) h = cc
str_compare_flip (_ ∷ _) [] h = refl
str_compare_flip (a ∷ s) (b ∷ t) h = ground (arith, str_compare_flip s t)

pub str_compare_flip_lt :
    (s t : Bytes) → str_compare s t ≡ Ordering.lt → str_compare t s ≡ Ordering.gt
unfolding str_compare
str_compare_flip_lt [] [] h = cc
str_compare_flip_lt [] (_ ∷ _) h = refl
str_compare_flip_lt (_ ∷ _) [] h = cc
str_compare_flip_lt (a ∷ s) (b ∷ t) h = ground (arith, str_compare_flip_lt s t)

pub str_compare_trans :
    (s t u : Bytes)
    → str_compare s t ≡ Ordering.lt
    → str_compare t u ≡ Ordering.lt
    → str_compare s u ≡ Ordering.lt
unfolding str_compare
str_compare_trans [] [] u h k = cc
str_compare_trans [] (_ ∷ _) [] h k = cc
str_compare_trans [] (_ ∷ _) (_ ∷ _) h k = refl
str_compare_trans (_ ∷ _) [] u h k = cc
str_compare_trans (_ ∷ _) (_ ∷ _) [] h k = cc
str_compare_trans (a ∷ s) (b ∷ t) (c ∷ u) h k = ground (arith, str_compare_trans s t u)

pub str_compare_flip_eq :
    (s t : Bytes) → str_compare s t ≡ Ordering.eq → str_compare t s ≡ Ordering.eq
str_compare_flip_eq s t h = let e = str_compare-eq s t h in rw e (str_compare_refl t)
