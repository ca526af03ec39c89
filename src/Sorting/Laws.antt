-- ===== src/Sorting/Laws.antt =====
-- Laws of insertion sort, and of arrangements of one list in which any two members are apart.
use mathlib.Core.List.{Perm, Permᴰ}
use mathlib.Core.List.Perm
use go_web_sdk.Common.{
  inr, inl, Ordering-cases, ◌≢◌, ap₂, subst, All, List, [], ◌∷◌, Ordering, ◌≡◌, arith, refl, ◌∙◌,
}
use go_web_sdk.Sorting.{insert, sort_func}

-- What a comparison has to satisfy.
pub record IsOrder {ℓ} {A : Type ℓ} (cmp : A → A → Ordering) : Type ℓ where
  pub flip_gt : (a b : A) → cmp a b ≡ Ordering.gt → cmp b a ≡ Ordering.lt
  pub flip_lt : (a b : A) → cmp a b ≡ Ordering.lt → cmp b a ≡ Ordering.gt
  pub flip_eq : (a b : A) → cmp a b ≡ Ordering.eq → cmp b a ≡ Ordering.eq
  pub trans_lt : (a b c : A) → cmp a b ≡ Ordering.lt → cmp b c ≡ Ordering.lt → cmp a c ≡ Ordering.lt
  pub eq_left : (a b c : A) → cmp a b ≡ Ordering.eq → cmp a c ≡ cmp b c

module _ {ℓ} {A : Type ℓ} (cmp : A → A → Ordering) where
  insert-perm : (x : A) (xs : List A) → Perm (insert cmp x xs) (x ∷ xs)
  unfolding insert
  insert-perm x [] = Perm.refl _
  insert-perm x (y ∷ ys) =
      elim (cmp x y)
        as (λ o.
          Perm (elim o [ Ordering.gt ↦ y ∷ insert cmp x ys | _ ↦ x ∷ y ∷ ys ]) (x ∷ y ∷ ys)) [
            | Ordering.gt ↦ Perm.trans (Perm.cons y (insert-perm x ys)) (Perm.swap x y ys)
            | _ ↦ Perm.refl _
          ]

  pub sort_func-perm : (xs : List A) → Perm (sort_func cmp xs) xs
  unfolding sort_func
  sort_func-perm [] = Perm.refl []
  sort_func-perm (x ∷ xs) =
      Perm.trans (insert-perm x (sort_func cmp xs)) (Perm.cons x (sort_func-perm xs))

  module _ (order : IsOrder cmp) where
    insert_comm :
        (a b : A) (l : List A)
        → (cmp a b ≡ Ordering.eq → a ≡ b)
        → insert cmp a (insert cmp b l) ≡ insert cmp b (insert cmp a l)
    unfolding insert
    insert_comm a b [] same =
        ground (arith, order.flip_gt a b, order.flip_lt a b, order.flip_eq a b)
    insert_comm a b (y ∷ ys) same = ground (
      arith,
      insert_comm a b ys same,
      order.flip_gt a b,
      order.flip_lt a b,
      order.flip_eq a b,
      order.flip_gt a y,
      order.flip_lt a y,
      order.flip_eq a y,
      order.flip_gt b y,
      order.flip_lt b y,
      order.flip_eq b y,
      order.trans_lt a b y,
      order.trans_lt b a y,
      order.trans_lt y a b,
      order.trans_lt y b a,
      order.trans_lt a y b,
      order.trans_lt b y a,
      order.eq_left a y b,
      order.eq_left b y a,
      order.eq_left a b y,
      order.eq_left b a y,
      order.eq_left y a b,
      order.eq_left y b a,
    )

module _ {ℓ κ} {A : Type ℓ} (P : A → Type κ) where
  pub All-perm : {xs ys : List A} → Permᴰ xs ys → All P xs → All P ys
  All-perm Permᴰ.nil h = h
  All-perm (Permᴰ.cons e p) (h, hs) = (subst P e h, All-perm p hs)
  All-perm (Permᴰ.swap e e') (h, (h', hs)) = (subst P e' h', (subst P e h, hs))
  All-perm (Permᴰ.trans p q) h = All-perm q (All-perm p h)

module _ {ℓ} {A : Type ℓ} (cmp : A → A → Ordering) where
  -- The comparison tells every two members apart.
  abbrev pub Apart : List A → Type ℓ
  Apart [] = Unit
  Apart (x ∷ xs) = All (λ y. cmp x y ≢ Ordering.eq) xs × Apart xs

  -- Each member comes before all that follow it.
  abbrev pub IsSorted : List A → Type ℓ
  IsSorted [] = Unit
  IsSorted (x ∷ xs) = All (λ y. cmp x y ≡ Ordering.lt) xs × IsSorted xs

  module _ (order : IsOrder cmp) where
    pub Apart-perm : {xs ys : List A} → Permᴰ xs ys → Apart xs → Apart ys
    Apart-perm Permᴰ.nil h = h
    Apart-perm (Permᴰ.cons {l₂ = l₂} e p) (h, hs) =
        (subst (λ a. All (λ y. cmp a y ≢ Ordering.eq) l₂) e (All-perm _ p h), Apart-perm p hs)
    Apart-perm (Permᴰ.swap {a = a} {b = b} {b' = b'} {l = l} e e') ((h, k), (k', hs)) =
        subst (λ a'. Apart (a' ∷ b' ∷ l)) e'
          (subst (λ a'. Apart (b ∷ a' ∷ l)) e ((λ c. h (order.flip_eq b a c), k'), (k, hs)))
    Apart-perm (Permᴰ.trans p q) h = Apart-perm q (Apart-perm p h)

    -- Two arrangements of the same members are sorted into one list.
    pub sort_func_unique :
        {xs ys : List A} → Permᴰ xs ys → Apart xs → sort_func cmp xs ≡ sort_func cmp ys
    unfolding sort_func
    sort_func_unique Permᴰ.nil h = refl
    sort_func_unique (Permᴰ.cons e p) (h, hs) = ap₂ (insert cmp) e (sort_func_unique p hs)
    sort_func_unique (Permᴰ.swap {a = a} {b = b} {l = l} e e') ((h, k), hs) =
        insert_comm cmp order a b (sort_func cmp l) (λ c. absurd (h c))
        ∙ ap₂ (λ x y. insert cmp x (insert cmp y (sort_func cmp l))) e' e
    sort_func_unique (Permᴰ.trans p q) h =
        sort_func_unique p h ∙ sort_func_unique q (Apart-perm p h)

  module _ {κ} (P : A → Type κ) where
    pub All-insert : (x : A) (xs : List A) → P x → All P xs → All P (insert cmp x xs)
    unfolding insert
    All-insert x [] p h = (p, tt)
    All-insert x (y ∷ ys) p (q, h) =
        elim (cmp x y)
          as (λ o. All P (elim o [ Ordering.gt ↦ y ∷ insert cmp x ys | _ ↦ x ∷ y ∷ ys ])) [
            | Ordering.gt ↦ (q, All-insert x ys p h)
            | _ ↦ (p, (q, h))
          ]

    pub All-sort_func : (xs : List A) → All P xs → All P (sort_func cmp xs)
    unfolding sort_func
    All-sort_func [] h = tt
    All-sort_func (x ∷ xs) (p, h) = All-insert x (sort_func cmp xs) p (All-sort_func xs h)

  module _ (order : IsOrder cmp) where
    insert_lt : (x y : A) (ys : List A) → cmp x y ≡ Ordering.lt → insert cmp x (y ∷ ys) ≡ x ∷ y ∷ ys
    unfolding insert
    insert_lt x y ys e = rw (e, insert)

    insert_gt :
        (x y : A) (ys : List A)
        → cmp x y ≡ Ordering.gt
        → insert cmp x (y ∷ ys) ≡ y ∷ insert cmp x ys
    unfolding insert
    insert_gt x y ys e = rw (e, insert)

    insert-IsSorted :
        (x : A) (xs : List A)
        → All (λ y. cmp x y ≢ Ordering.eq) xs
        → IsSorted xs
        → IsSorted (insert cmp x xs)
    insert-IsSorted x [] h s = unfold insert in (tt, tt)
    insert-IsSorted x (y ∷ ys) (h, hs) (s, ss) = elim (Ordering-cases (cmp x y)) [
      | inl e ↦ rw (insert_lt x y ys e) ((e, All-trans x y ys e s), (s, ss))
      | inr (inl e) ↦ absurd (h e)
      | inr (inr e) ↦
          rw (insert_gt x y ys e)
            (All-insert _ x ys (order.flip_gt x y e) s, insert-IsSorted x ys hs ss)
    ]
      where
        All-trans :
            (x y : A) (ys : List A)
            → cmp x y ≡ Ordering.lt
            → All (λ z. cmp y z ≡ Ordering.lt) ys
            → All (λ z. cmp x z ≡ Ordering.lt) ys
        All-trans x y [] e h = tt
        All-trans x y (z ∷ zs) e (h, hs) = (order.trans_lt x y z e h, All-trans x y zs e hs)

    -- A list whose members are told apart comes out strictly sorted.
    pub sort_func-IsSorted : (xs : List A) → Apart xs → IsSorted (sort_func cmp xs)
    unfolding sort_func
    sort_func-IsSorted [] h = tt
    sort_func-IsSorted (x ∷ xs) (h, hs) =
        insert-IsSorted x (sort_func cmp xs) (All-sort_func _ xs h) (sort_func-IsSorted xs hs)
