-- ===== src/Query/Order.antt =====
-- query.go: `parse_query` under another order of the parameters.
use go_web_sdk.Query.Bounds.{Stages-parse_query, parse_query-Stages}
use go_web_sdk.Text.Int.{ℤ}
use go_web_sdk.Text.Laws.{bytes_eq_iff}
use go_web_sdk.Text.Order.{
  str_compare_refl, str_compare-eq, str_compare_trans, str_compare_flip_lt, str_compare_flip_eq,
  str_compare_flip,
}
use go_web_sdk.Query.Keys.{parse_filter_key-IsFilterKey, print_key}
use go_web_sdk.Sorting.Laws.{sort_func_unique, All-perm, Apart, IsOrder}
use mathlib.Core.List.Permᴰ
use mathlib.Core.List.{Permᴰ}
use mathlib.Core.Path.{subst₂}
use go_web_sdk.Common.{
  All-map, not, panicked, inr, append_assoc, err, sym, ◌∙◌, if◌then◌else◌, inl, ap, Bool-cases,
  >>=-eq-ok, ◌++◌, ◌>>=◌, Ordering, ◌⊎◌, Result, ap₂, subst, List, All, [], ◌∷◌, ◌≡◌, ◌≢◌, refl, ok,
  arith,
}
use go_web_sdk.Text.{codes, is_empty, contains, bytes_eq, Bytes}
use go_web_sdk.Query.{
  parse_sort, codes, rejected, last_page, get, parse_bounded, pos, parse_size, first, parse_cursor,
  is_empty, parse_page, ℤ, parse_query, Query, Limits, parse_filter_key, reserved, FilterKey,
  contains, bytes_eq, QueryError, Values, Filter, filter_compare, collect_filters, values_of,
}

-- The keys of a Go map: each stands once.
abbrev pub HasDistinctKeys : Values → Type 0
HasDistinctKeys [] = Unit
HasDistinctKeys ((k, _) ∷ q) = All (λ e. e.0 ≢ k) q × HasDistinctKeys q

pub filter_compare-IsOrder : IsOrder filter_compare
unfolding filter_compare
filter_compare-IsOrder = record {
  flip_gt = λ a b h. ground (
    arith,
    str_compare_flip a.field b.field,
    str_compare_flip a.op b.op,
    str_compare_flip_eq a.field b.field,
  );
  flip_lt = λ a b h. ground (
    arith,
    str_compare_flip_lt a.field b.field,
    str_compare_flip_lt a.op b.op,
    str_compare_flip_eq a.field b.field,
  );
  flip_eq =
      λ a b h. ground (arith, str_compare_flip_eq a.field b.field, str_compare_flip_eq a.op b.op);
  trans_lt = λ a b c h k. ground (
    arith,
    str_compare_trans a.field b.field c.field,
    str_compare_trans a.op b.op c.op,
    str_compare-eq a.field b.field,
    str_compare-eq b.field c.field,
    str_compare_refl a.field,
  );
  eq_left = λ a b c h. ground (arith, str_compare-eq a.field b.field, str_compare-eq a.op b.op);
}

-- The fields of a filter spell the key it came from.
abbrev pub key_of : Filter → Bytes
key_of f = print_key (record { field = f.field; op = f.op })

HasDistinctKeys-perm : {p q : Values} → Permᴰ p q → HasDistinctKeys p → HasDistinctKeys q
HasDistinctKeys-perm Permᴰ.nil h = h
HasDistinctKeys-perm (Permᴰ.cons {l₂ = l₂} e p) (h, hs) =
    (subst (λ x. All (λ y. y.0 ≢ x.0) l₂) e (All-perm _ p h), HasDistinctKeys-perm p hs)
HasDistinctKeys-perm (Permᴰ.swap {a = a} {b = b} {b' = b'} {l = l} e e') ((h, k), (k', hs)) =
    subst (λ x. HasDistinctKeys (x ∷ b' ∷ l)) e'
      (subst (λ x. HasDistinctKeys (b ∷ x ∷ l)) e ((λ c. h (sym c), k'), (k, hs)))
HasDistinctKeys-perm (Permᴰ.trans p q) h = HasDistinctKeys-perm q (HasDistinctKeys-perm p h)

values_of_swap :
    (key : Bytes) (a b : Bytes × List Bytes) (l : Values)
    → b.0 ≢ a.0
    → values_of (a ∷ b ∷ l) key ≡ values_of (b ∷ a ∷ l) key
unfolding values_of
values_of_swap key a b l h = ground (arith, bytes_eq_iff a.0 key, bytes_eq_iff b.0 key)

pub values_of_perm :
    {p q : Values} (key : Bytes) → Permᴰ p q → HasDistinctKeys p → values_of p key ≡ values_of q key
unfolding values_of
values_of_perm key Permᴰ.nil h = refl
values_of_perm key (Permᴰ.cons e p) (h, hs) =
    ap₂ (λ x vs. if bytes_eq x.0 key then x.1 else vs) e (values_of_perm key p hs)
values_of_perm key (Permᴰ.swap {a = a} {b = b} {l = l} e e') ((h, k), (k', hs)) =
    values_of_swap key a b l h ∙ ap₂ (λ x y. values_of (x ∷ y ∷ l) key) e' e
values_of_perm key (Permᴰ.trans p q) h =
    values_of_perm key p h ∙ values_of_perm key q (HasDistinctKeys-perm p h)

-- The filters of one parameter: none for a reserved one.
entry_filters : Bytes × List Bytes → Result QueryError (List Filter)
entry_filters e =
    if contains reserved e.0
    then ok []
    else (parse_filter_key e.0 e.1 >>= λ k.
        ok (record { field = k.field; op = k.op; values = e.1 } ∷ []))

bind-ok : (m : Result QueryError (List Filter)) → (m >>= λ fs. ok fs) ≡ m
bind-ok (ok a) = refl
bind-ok (err e) = refl
bind-ok panicked = refl

collect_filters-cons :
    (e : Bytes × List Bytes) (q : Values)
    → collect_filters (e ∷ q)
      ≡ (entry_filters e >>= λ fs. collect_filters q >>= λ gs. ok (fs ++ gs))
unfolding collect_filters entry_filters
collect_filters-cons (key, values) q = elim (Bool-cases (contains reserved key)) [
  | inl t ↦ rw t (sym (bind-ok (collect_filters q)))
  | inr f ↦ rw f (by_key (parse_filter_key key values))
]
  where
    by_key :
        (m : Result QueryError FilterKey)
        → (m >>= λ k. collect_filters q >>= λ fs.
            ok (record { field = k.field; op = k.op; values = values } ∷ fs))
          ≡ ((m >>= λ k. ok (record { field = k.field; op = k.op; values = values } ∷ [])) >>= λ fs.
              collect_filters q >>= λ gs. ok (fs ++ gs))
    by_key (ok k) = refl
    by_key (err e) = refl
    by_key panicked = refl

collect_filters-cons_inv :
    (e : Bytes × List Bytes) (q : Values) (fs : List Filter)
    → collect_filters (e ∷ q) ≡ ok fs
    → (own : List Filter) × (gs : List Filter) × (entry_filters e ≡ ok own)
      × (collect_filters q ≡ ok gs)
      × (own ++ gs ≡ fs)
collect_filters-cons_inv e q fs h =
    let (own, ea, h') = >>=-eq-ok (entry_filters e) _ (sym (collect_filters-cons e q) ∙ h) in
    let (gs, eg, h'') = >>=-eq-ok (collect_filters q) (λ gs. ok (own ++ gs)) h' in
    (own, gs, ea, eg, cc)

collect_filters-cons_intro :
    (e : Bytes × List Bytes) (q : Values) {own gs : List Filter}
    → entry_filters e ≡ ok own
    → collect_filters q ≡ ok gs
    → collect_filters (e ∷ q) ≡ ok (own ++ gs)
collect_filters-cons_intro e q ea eg = collect_filters-cons e q ∙ (rw (ea, eg) refl)

entry_filters-cases :
    (e : Bytes × List Bytes) (own : List Filter)
    → entry_filters e ≡ ok own
    → (own ≡ []) ⊎ ((f : Filter) × (own ≡ f ∷ []) × (key_of f ≡ e.0) × (f.values ≡ e.1))
unfolding entry_filters
entry_filters-cases e own h = elim (Bool-cases (contains reserved e.0)) [
  | inl t ↦ inl (ground arith)
  | inr f ↦
      let (k, ek, h') =
        >>=-eq-ok (parse_filter_key e.0 e.1)
          (λ k. ok (record { field = k.field; op = k.op; values = e.1 } ∷ [])) {result = own}
          (ground arith) in
      inr (
        record { field = k.field; op = k.op; values = e.1 },
        cc,
        sym (parse_filter_key-IsFilterKey e.0 e.1 k ek).1,
        refl,
      )
]

collect_filters_keys :
    (k : Bytes) (q : Values) (fs : List Filter)
    → All (λ e. e.0 ≢ k) q
    → collect_filters q ≡ ok fs
    → All (λ f. key_of f ≢ k) fs
collect_filters_keys k [] fs h e =
    let none_left : [] ≡ fs = unfold collect_filters in cc in
    subst (λ fs. All (λ f. key_of f ≢ k) fs) none_left tt
collect_filters_keys k (x ∷ q) fs (h, hs) e =
    let (own, gs, ea, eg, same) = collect_filters-cons_inv x q fs e in
    let rest = collect_filters_keys k q gs hs eg in
    subst (λ fs. All (λ f. key_of f ≢ k) fs) same
      (elim (entry_filters-cases x own ea) [
        | inl e1 ↦ subst (λ own. All (λ f. key_of f ≢ k) (own ++ gs)) (sym e1) rest
        | inr (f, e1, e2, _) ↦
            subst (λ own. All (λ f. key_of f ≢ k) (own ++ gs)) (sym e1) (λ c. h (sym e2 ∙ c), rest)
      ])

filter_compare-key_of : (f g : Filter) → filter_compare f g ≡ Ordering.eq → key_of f ≡ key_of g
unfolding filter_compare
filter_compare-key_of f g h =
    let same_field : f.field ≡ g.field = ground (arith, str_compare-eq f.field g.field) in
    let same_op : f.op ≡ g.op = ground (arith, str_compare-eq f.op g.op) in
    ap₂ (λ a b. print_key (record { field = a; op = b })) same_field same_op

-- Distinct parameters give filters that the order tells apart.
pub collect_filters-Apart :
    (q : Values) (fs : List Filter)
    → HasDistinctKeys q
    → collect_filters q ≡ ok fs
    → Apart filter_compare fs
collect_filters-Apart [] fs h e =
    let none_left : [] ≡ fs = unfold collect_filters in cc in
    subst (Apart filter_compare) none_left tt
collect_filters-Apart (x ∷ q) fs (h, hs) e =
    let (own, gs, ea, eg, same) = collect_filters-cons_inv x q fs e in
    let rest = collect_filters-Apart q gs hs eg in
    subst (Apart filter_compare) same (elim (entry_filters-cases x own ea) [
      | inl e1 ↦ subst (λ own. Apart filter_compare (own ++ gs)) (sym e1) rest
      | inr (f, e1, e2, _) ↦
          subst (λ own. Apart filter_compare (own ++ gs)) (sym e1)
            (
              All-map (λ g ne c. ne (sym (filter_compare-key_of f g c) ∙ e2)) gs
                  (collect_filters_keys x.0 q gs h eg),
              rest,
            )
    ])

pub collect_filters_perm :
    {p q : Values}
    → Permᴰ p q
    → (fs : List Filter) → collect_filters p ≡ ok fs
    → (gs : List Filter) × (collect_filters q ≡ ok gs) × Permᴰ fs gs
collect_filters_perm Permᴰ.nil fs e = (fs, e, Permᴰ.refl fs)
collect_filters_perm (Permᴰ.cons {a = a} {l₁ = l₁} {l₂ = l₂} same p) fs e =
    let (own, gs, ea, eg, split) = collect_filters-cons_inv a l₁ fs e in
    let (gs', eg', p') = collect_filters_perm p gs eg in
    (
      own ++ gs',
      ap (λ x. collect_filters (x ∷ l₂)) (sym same) ∙ collect_filters-cons_intro a l₂ ea eg',
      subst (λ fs. Permᴰ fs (own ++ gs')) split (Permᴰ.append_left own p'),
    )
collect_filters_perm (Permᴰ.swap {a = a} {b = b} {l = l} e1 e2) fs e =
    let (own, more, ea, em, split) = collect_filters-cons_inv a (b ∷ l) fs e in
    let (bs, gs, eb, eg, split') = collect_filters-cons_inv b l more em in
    (
      bs ++ (own ++ gs),
      ap₂ (λ x y. collect_filters (x ∷ y ∷ l)) (sym e2) (sym e1)
          ∙ collect_filters-cons_intro b (a ∷ l) eb (collect_filters-cons_intro a l ea eg),
      subst (λ fs. Permᴰ fs (bs ++ (own ++ gs))) (ap (λ m. own ++ m) split' ∙ split)
          (subst₂ Permᴰ (append_assoc own bs gs) (append_assoc bs own gs)
            (Permᴰ.append_right gs (Permᴰ.append_comm own bs))),
    )
collect_filters_perm (Permᴰ.trans p q) fs e =
    let (gs, eg, p') = collect_filters_perm p fs e in
    let (hs, eh, q') = collect_filters_perm q gs eg in (hs, eh, Permᴰ.trans p' q')

-- The stages as functions of the values they look up.
abbrev page_of : List Bytes → Limits → Result QueryError ℤ
page_of vs l =
    if is_empty (first vs) then ok (pos 1) else parse_bounded "page" (first vs) (last_page l)

abbrev size_of : List Bytes → Limits → Result QueryError ℤ
size_of vs l =
    if is_empty (first vs) then ok l.default_size else parse_bounded "size" (first vs) l.max_size

abbrev cursor_of : List Bytes → List Bytes → Limits → ℤ → Result QueryError (ℤ × Bytes)
cursor_of vs ws l page =
    if is_empty (first vs)
    then ok (page, [])
    else if not l.cursor
    then rejected "cursor" (first vs) (codes "this read does not continue by cursor")
    else if not (is_empty (first ws))
    then rejected "cursor" (first vs) (codes "cannot be combined with page")
    else ok (pos 0, first vs)

-- A query string that parses gives the same query in whatever order the map is ranged over.
pub parse_query_perm :
    (p q : Values) (l : Limits) (r : Query)
    → Permᴰ p q
    → HasDistinctKeys p
    → parse_query p l ≡ ok r
    → parse_query q l ≡ ok r
unfolding parse_page parse_cursor parse_size get
parse_query_perm p q l r same distinct e =
    let s = parse_query-Stages p l r e in
    let look = λ (key : Bytes). values_of_perm key same distinct in
    let (fs, collected, rearranged) = collect_filters_perm same s.filters s.filters_parsed in
    Stages-parse_query q l r (record {
      sensible = s.sensible;
      numbered = s.numbered;
      page_parsed = ap (λ vs. page_of vs l) (sym (look (codes "page"))) ∙ s.page_parsed;
      cursor_parsed =
          ap₂ (λ vs ws. cursor_of vs ws l s.numbered) (sym (look (codes "cursor")))
            (sym (look (codes "page")))
          ∙ s.cursor_parsed;
      size_parsed = ap (λ vs. size_of vs l) (sym (look (codes "size"))) ∙ s.size_parsed;
      sort_parsed = ap parse_sort (sym (look (codes "sort"))) ∙ s.sort_parsed;
      filters = fs;
      filters_parsed = collected;
      filters_sorted =
          s.filters_sorted
          ∙ sort_func_unique filter_compare filter_compare-IsOrder rearranged
              (collect_filters-Apart p s.filters distinct s.filters_parsed);
    })
