-- ===== src/Sorting.antt =====
-- `slices.SortFunc`. The library's sort is not stable; this one is an insertion sort, and the
-- lemmas below say when every arrangement that respects the comparison is the same list.
pub mod Laws
use go_web_sdk.Common.{List, [], ◌∷◌, Ordering}

module _ {ℓ} {A : Type ℓ} (cmp : A → A → Ordering) where
  unfoldable pub insert : A → List A → List A
  insert x [] = x ∷ []
  insert x (y ∷ ys) = elim (cmp x y) [ Ordering.gt ↦ y ∷ insert x ys | _ ↦ x ∷ y ∷ ys ]

  unfoldable pub sort_func : List A → List A
  unfolding insert
  sort_func [] = []
  sort_func (x ∷ xs) = insert x (sort_func xs)
