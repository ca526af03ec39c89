-- ===== src/Query/Contents.antt =====
-- query.go: what a parsed query holds of the request.
use go_web_sdk.Query.Keys.{parse_filter_key-IsFilterKey}
use go_web_sdk.Query.Bounds.{parse_query-Stages}
use go_web_sdk.Sorting.Laws.{sort_func-perm, sort_func-IsSorted, IsSorted}
use go_web_sdk.Query.Order.{collect_filters-Apart, filter_compare-IsOrder, HasDistinctKeys, key_of}
use mathlib.Core.List.{map-append, Perm}
use go_web_sdk.Common.{
  ◌==◌, false, ℕ, ap₂, subst, refl, All-append, >>=-eq-ok, ◌>>=◌, inr, sym, inl, ap, ◌++◌, ◌∙◌,
  Bool-cases, All, true, if◌then◌else◌, List, ok, ◌≡◌, ◌≢◌, arith, ◌↔◌, map, [], ◌∷◌,
}
use go_web_sdk.Text.{has_prefix, trim_prefix, contains, split_byte, is_empty, Bytes}
use go_web_sdk.Query.{
  has_prefix, trim_prefix, filter_compare, parse_filter_key, collect_filters, reserved, contains,
  Sort, split_byte, Filter, is_empty, Values, Limits, Query, parse_query, parse_sort, parse_tokens,
  sort_key,
}

-- The tokens of the sort parameters, in request order; an empty value reads as omitted.
pub tokens_of : List Bytes → List Bytes
tokens_of [] = []
tokens_of (v ∷ vs) = if is_empty v then tokens_of vs else split_byte v b',' ++ tokens_of vs

abbrev pub IsNamed : Bytes → Type 0
IsNamed token = (sort_key token).field ≢ []

is_empty_iff : (s : Bytes) → (is_empty s ≡ true) ↔ (s ≡ [])
is_empty_iff [] = (λ _. refl, λ _. refl)
is_empty_iff (c ∷ s) = (λ h. cc, λ h. cc)

parse_tokens_sound :
    (v : Bytes) (tokens : List Bytes) (ks : List Sort)
    → parse_tokens v tokens ≡ ok ks
    → All IsNamed tokens × (ks ≡ map sort_key tokens)
unfolding parse_tokens
parse_tokens_sound v [] ks e = (tt, cc)
parse_tokens_sound v (t ∷ tokens) ks e = elim (Bool-cases (is_empty (sort_key t).field)) [
  | inl h ↦ absurd (ground arith)
  | inr h ↦
      let run : (parse_tokens v tokens >>= λ keys. ok (sort_key t ∷ keys)) ≡ ok ks = ground arith in
      let (keys, e1, e2) = >>=-eq-ok (parse_tokens v tokens) (λ keys. ok (sort_key t ∷ keys)) run in
      let (named, same) = parse_tokens_sound v tokens keys e1 in
      ((ground (arith, is_empty_iff (sort_key t).field), named), cc)
]

parse_tokens_complete :
    (v : Bytes) (tokens : List Bytes)
    → All IsNamed tokens
    → parse_tokens v tokens ≡ ok (map sort_key tokens)
unfolding parse_tokens
parse_tokens_complete v [] h = refl
parse_tokens_complete v (t ∷ tokens) (h, hs) =
    ground (arith, is_empty_iff (sort_key t).field, parse_tokens_complete v tokens hs)

parse_sort_sound :
    (vs : List Bytes) (ks : List Sort)
    → parse_sort vs ≡ ok ks
    → All IsNamed (tokens_of vs) × (ks ≡ map sort_key (tokens_of vs))
unfolding parse_sort tokens_of
parse_sort_sound [] ks e = (tt, cc)
parse_sort_sound (v ∷ vs) ks e = elim (Bool-cases (is_empty v)) [
  | inl h ↦ rw h (parse_sort_sound vs ks (ground arith))
  | inr h ↦
      let run : (parse_tokens v (split_byte v b',') >>= λ keys.
      parse_sort vs >>= λ more. ok (keys ++ more))
          ≡ ok ks =
        ground arith in
      let (keys, e1, run') =
        >>=-eq-ok (parse_tokens v (split_byte v b','))
          (λ keys. parse_sort vs >>= λ more. ok (keys ++ more)) run in
      let (more, e2, e3) = >>=-eq-ok (parse_sort vs) (λ more. ok (keys ++ more)) run' in
      let (named, same) = parse_tokens_sound v (split_byte v b',') keys e1 in
      let (named', same') = parse_sort_sound vs more e2 in
      rw h (
        All-append IsNamed (split_byte v b',') (tokens_of vs) named named',
        cc (map-append sort_key (split_byte v b',') (tokens_of vs)),
      )
]

All-append_inv {ℓ κ} :
    {A : Type ℓ} (P : A → Type κ) (xs ys : List A) → All P (xs ++ ys) → All P xs × All P ys
All-append_inv P [] ys h = (tt, h)
All-append_inv P (x ∷ xs) ys (p, h) = let (hx, hy) = All-append_inv P xs ys h in ((p, hx), hy)

parse_sort_complete :
    (vs : List Bytes)
    → All IsNamed (tokens_of vs)
    → parse_sort vs ≡ ok (map sort_key (tokens_of vs))
unfolding parse_sort tokens_of
parse_sort_complete [] h = refl
parse_sort_complete (v ∷ vs) h = elim (Bool-cases (is_empty v)) [
  | inl e ↦ rw e (parse_sort_complete vs (rw e at h))
  | inr e ↦
      let (hx, hy) = All-append_inv IsNamed (split_byte v b',') (tokens_of vs) (rw e at h) in
      rw (e, parse_tokens_complete v (split_byte v b',') hx, parse_sort_complete vs hy)
        (cc (map-append sort_key (split_byte v b',') (tokens_of vs)))
]

-- A token and the key that it stands for: a field, descending behind one minus.
pub data Keyed : Bytes → Sort → Type 0 where
  descending :
      (field : Bytes)
      → field ≢ []
      → Keyed (b'-' ∷ field) (record { field = field; descending = true })
  ascending :
      (c : ℕ) (s : Bytes) → c ≢ b'-' → Keyed (c ∷ s) (record { field = c ∷ s; descending = false })

-- The keys of the tokens, one each and in order.
abbrev pub AreKeyed : List Bytes → List Sort → Type 0
AreKeyed [] [] = Unit
AreKeyed [] (k ∷ ks) = ⊥
AreKeyed (t ∷ ts) [] = ⊥
AreKeyed (t ∷ ts) (k ∷ ks) = Keyed t k × AreKeyed ts ks

sort_key-plain :
    (c : ℕ) (s : Bytes)
    → (c == b'-') ≡ false
    → sort_key (c ∷ s) ≡ record { field = c ∷ s; descending = false }
unfolding trim_prefix has_prefix
sort_key-plain c s e = rw e refl

sort_key-Keyed : (t : Bytes) → IsNamed t → Keyed t (sort_key t)
unfolding trim_prefix has_prefix
sort_key-Keyed [] h = absurd (h refl)
sort_key-Keyed (c ∷ s) h = elim (Bool-cases (c == b'-')) [
  | inl e ↦
      let same : c ≡ b'-' = ground arith in
      subst (λ d. IsNamed (d ∷ s) → Keyed (d ∷ s) (sort_key (d ∷ s))) (sym same)
        (λ named. descending s named) h
  | inr e ↦ subst (Keyed (c ∷ s)) (sym (sort_key-plain c s e)) (ascending c s (ground arith))
]

Keyed-sort_key : (t : Bytes) (k : Sort) → Keyed t k → IsNamed t × (k ≡ sort_key t)
unfolding trim_prefix has_prefix
Keyed-sort_key _ _ (descending field named) = (named, refl)
Keyed-sort_key _ _ (ascending c s ne) =
    let plain = sort_key-plain c s (ground arith) in
    (subst (λ (k : Sort). k.field ≢ []) (sym plain) (λ none_left. cc), sym plain)

map-AreKeyed : (ts : List Bytes) → All IsNamed ts → AreKeyed ts (map sort_key ts)
map-AreKeyed [] h = tt
map-AreKeyed (t ∷ ts) (h, hs) = (sort_key-Keyed t h, map-AreKeyed ts hs)

AreKeyed-IsNamed :
    (ts : List Bytes) (ks : List Sort) → AreKeyed ts ks → All IsNamed ts × (ks ≡ map sort_key ts)
AreKeyed-IsNamed [] [] h = (tt, refl)
AreKeyed-IsNamed [] (k ∷ ks) h = absurd h
AreKeyed-IsNamed (t ∷ ts) [] h = absurd h
AreKeyed-IsNamed (t ∷ ts) (k ∷ ks) (h, hs) =
    let (named, same) = Keyed-sort_key t k h in
    let (named', same') = AreKeyed-IsNamed ts ks hs in
    ((named, named'), ap₂ (λ x xs. x ∷ xs) same same')

-- The sort parameters parse exactly to the keys of all their tokens in request order: the text of a token
-- names the field, descending behind one minus that is not part of the name, and no name is empty.
pub parse_sort_iff :
    (vs : List Bytes) (ks : List Sort) → (parse_sort vs ≡ ok ks) ↔ AreKeyed (tokens_of vs) ks
parse_sort_iff vs ks = (
  λ h.
      let (named, same) = parse_sort_sound vs ks h in
      subst (AreKeyed (tokens_of vs)) (sym same) (map-AreKeyed (tokens_of vs) named),
  λ h.
      let (named, same) = AreKeyed-IsNamed (tokens_of vs) ks h in
      parse_sort_complete vs named ∙ ap ok (sym same),
)

-- The parameters that are not reserved, in range order.
pub unreserved : Values → Values
unreserved [] = []
unreserved (e ∷ q) = if contains reserved e.0 then unreserved q else e ∷ unreserved q

-- The parameter that a filter stands for.
abbrev pub entry_of : Filter → Bytes × List Bytes
entry_of f = (key_of f, f.values)

collect_filters-entries :
    (q : Values) (fs : List Filter) → collect_filters q ≡ ok fs → map entry_of fs ≡ unreserved q
unfolding collect_filters unreserved
collect_filters-entries [] fs e = let none_left : [] ≡ fs = cc in rw (← none_left)
collect_filters-entries (x ∷ q) fs e = elim (Bool-cases (contains reserved x.0)) [
  | inl t ↦ rw t (collect_filters-entries q fs (ground arith))
  | inr f ↦
      let run : (parse_filter_key x.0 x.1 >>= λ k.
      collect_filters q >>= λ gs. ok (record { field = k.field; op = k.op; values = x.1 } ∷ gs))
          ≡ ok fs =
        ground arith in
      let (k, e1, run') =
        >>=-eq-ok (parse_filter_key x.0 x.1)
          (λ k. collect_filters q >>= λ gs.
            ok (record { field = k.field; op = k.op; values = x.1 } ∷ gs))
          run in
      let (gs, e2, e3) =
        >>=-eq-ok (collect_filters q)
          (λ gs. ok (record { field = k.field; op = k.op; values = x.1 } ∷ gs)) run' in
      let same : record { field = k.field; op = k.op; values = x.1 } ∷ gs ≡ fs = cc in
      let spelled = (parse_filter_key-IsFilterKey x.0 x.1 k e1).1 in
      rw (f, ← same)
        (ap₂ (λ key rest. (key, x.1) ∷ rest) (sym spelled) (collect_filters-entries q gs e2))
]

-- What the filters of a parsed query are: in strict order of field and operator, a rearrangement of
-- one filter for each parameter that is not reserved, with its values and the spelling of its key.
pub record HasFilters (q : Values) (r : Query) : Type 0 where
  pub ordered : IsSorted filter_compare r.filters
  pub collected : List Filter
  pub rearranged : Perm r.filters collected
  pub entries : map entry_of collected ≡ unreserved q

-- Of a query string whose keys are distinct, as a map's are, the parsed query holds one filter for
-- each parameter that is not reserved, with all its values, strictly ordered by field and operator.
pub parse_query-HasFilters :
    (q : Values) (l : Limits) (r : Query)
    → HasDistinctKeys q
    → parse_query q l ≡ ok r
    → HasFilters q r
parse_query-HasFilters q l r distinct e =
    let s = parse_query-Stages q l r e in
    record {
      ordered = subst (IsSorted filter_compare) (sym s.filters_sorted) (
          sort_func-IsSorted filter_compare filter_compare-IsOrder s.filters
            (collect_filters-Apart q s.filters distinct s.filters_parsed));
      collected = s.filters;
      rearranged =
          subst (λ fs. Perm fs s.filters) (sym s.filters_sorted)
            (sort_func-perm filter_compare s.filters);
      entries = collect_filters-entries q s.filters s.filters_parsed;
    }
