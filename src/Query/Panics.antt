-- ===== src/Query/Panics.antt =====
-- query.go: when `parse_query` panics.
use go_web_sdk.Text.{split_byte, codes, contains, is_empty, Bytes}
use go_web_sdk.Text.Int.{◌≤ℤ◌, ℤ}
use go_web_sdk.Common.{
  [], refl, inr, inl, err, ok, Bool-cases, ◌∷◌, ◌>>=◌, false, List, Result, ◌≡◌, ◌≢◌, arith, ◌↔◌,
  panicked,
}
use go_web_sdk.Query.{
  split_byte, reserved, codes, contains, is_empty, sort_key, values_of, parse_operator, Bytes, ℤ,
  parse_bounded, pos, bad_limits, collect_filters, parse_filter_key, parse_sort, parse_tokens,
  parse_cursor, parse_size, parse_page, Values, Limits, parse_query,
}

>>=-ne-panicked {ℓ κ μ} :
    {E : Type ℓ} {A : Type κ} {B : Type μ} (m : Result E A) (f : A → Result E B)
    → m ≢ panicked
    → ((a : A) → f a ≢ panicked)
    → (m >>= f) ≢ panicked
>>=-ne-panicked (ok a) f h k = k a
>>=-ne-panicked (err e) f h k = cc
>>=-ne-panicked panicked f h k = absurd (h refl)

parse_page-ne-panicked : (q : Values) (l : Limits) → parse_page q l ≢ panicked
unfolding parse_page parse_bounded
parse_page-ne-panicked q l = ground arith

parse_size-ne-panicked : (q : Values) (l : Limits) → parse_size q l ≢ panicked
unfolding parse_size parse_bounded
parse_size-ne-panicked q l = ground arith

parse_cursor-ne-panicked : (q : Values) (l : Limits) (n : ℤ) → parse_cursor q l n ≢ panicked
unfolding parse_cursor
parse_cursor-ne-panicked q l n = ground arith

parse_tokens-ne-panicked : (v : Bytes) (ts : List Bytes) → parse_tokens v ts ≢ panicked
unfolding parse_tokens
parse_tokens-ne-panicked v [] = cc
parse_tokens-ne-panicked v (t ∷ ts) = ground (
  arith,
  >>=-ne-panicked (parse_tokens v ts) (λ keys. ok (sort_key t ∷ keys))
      (parse_tokens-ne-panicked v ts) (λ keys. cc),
)

parse_sort-ne-panicked : (vs : List Bytes) → parse_sort vs ≢ panicked
unfolding parse_sort
parse_sort-ne-panicked [] = cc
parse_sort-ne-panicked (v ∷ vs) = elim (Bool-cases (is_empty v)) [
  | inl e ↦ rw e (parse_sort-ne-panicked vs)
  | inr e ↦ rw e (
      >>=-ne-panicked (parse_tokens v (split_byte v b',')) _ (parse_tokens-ne-panicked v _)
        λ keys. >>=-ne-panicked (parse_sort vs) _ (parse_sort-ne-panicked vs) λ more. cc)
]

parse_filter_key-ne-panicked :
    (key : Bytes) (values : List Bytes) → parse_filter_key key values ≢ panicked
unfolding parse_filter_key parse_operator
parse_filter_key-ne-panicked [] values = cc
parse_filter_key-ne-panicked (c ∷ s) values = ground arith

collect_filters-ne-panicked : (q : Values) → collect_filters q ≢ panicked
unfolding collect_filters
collect_filters-ne-panicked [] = cc
collect_filters-ne-panicked ((key, values) ∷ q) = elim (Bool-cases (contains reserved key)) [
  | inl e ↦ rw e (collect_filters-ne-panicked q)
  | inr e ↦ rw e (
      >>=-ne-panicked (parse_filter_key key values) _ (parse_filter_key-ne-panicked key values)
        λ k. >>=-ne-panicked (collect_filters q) _ (collect_filters-ne-panicked q) λ fs. cc)
]

stages-ne-panicked : (q : Values) (l : Limits) → bad_limits l ≡ false → parse_query q l ≢ panicked
unfolding parse_query
stages-ne-panicked q l h = rw h (
    >>=-ne-panicked (parse_page q l) _ (parse_page-ne-panicked q l) λ n.
      >>=-ne-panicked (parse_cursor q l n) _ (parse_cursor-ne-panicked q l n) λ a.
        >>=-ne-panicked (parse_size q l) _ (parse_size-ne-panicked q l) λ z.
          >>=-ne-panicked (parse_sort (values_of q (codes "sort"))) _ (parse_sort-ne-panicked _)
            λ ks. >>=-ne-panicked (collect_filters q) _ (collect_filters-ne-panicked q) λ fs. cc)

-- Parsing panics exactly on limits outside 1 <= DefaultSize <= MaxSize, whatever the request.
pub parse_query-panicked_iff :
    (q : Values) (l : Limits)
    → (parse_query q l ≡ panicked) ↔ ¬ ((pos 1 ≤ℤ l.default_size) × (l.default_size ≤ℤ l.max_size))
unfolding parse_query
parse_query-panicked_iff q l = (
  λ e (low, high). stages-ne-panicked q l (ground arith) e,
  λ h. elim (Bool-cases (bad_limits l)) [
    | inl bad ↦ rw bad
    | inr good ↦ absurd (h (ground arith, ground arith))
  ],
)
