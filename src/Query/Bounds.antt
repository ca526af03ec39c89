-- ===== src/Query/Bounds.antt =====
-- What a parsed query satisfies, and when `parse_query` panics or refuses.
use go_web_sdk.Sorting.{sort_func}
use go_web_sdk.Text.{is_empty, codes, Bytes}
use go_web_sdk.Common.{
  inr, inl, sym, subst, Bool-cases, ◌/◌, ℕ, List, true, ◌≤◌, ◌*◌, >>=-eq-ok, ◌-◌, false, [], String,
  ok, ◌≡◌, ◌≢◌, arith,
}
use go_web_sdk.Text.Int.{quo_ℤ, ℤ, pos, pos_part, max_int, ◌≤ℤ◌}
use go_web_sdk.Query.{
  is_empty, negsuc, last_page, quo_ℤ, filter_compare, sort_func, Filter, collect_filters, values_of,
  parse_sort, codes, parse_cursor, Bytes, parse_page, parse_size, bad_limits, Values, Limits, Query,
  parse_query, parse_bounded, get,
}

-- The outcome of a parse that succeeds, stage by stage.
pub record Stages (q : Values) (l : Limits) (r : Query) : Type 0 where
  pub sensible : bad_limits l ≡ false
  pub numbered : ℤ
  pub page_parsed : parse_page q l ≡ ok numbered
  pub cursor_parsed : parse_cursor q l numbered ≡ ok (r.page, r.cursor)
  pub size_parsed : parse_size q l ≡ ok r.size
  pub sort_parsed : parse_sort (values_of q (codes "sort")) ≡ ok r.sort
  pub filters : List Filter
  pub filters_parsed : collect_filters q ≡ ok filters
  pub filters_sorted : r.filters ≡ sort_func filter_compare filters

pub parse_query-Stages :
    (q : Values) (l : Limits) (r : Query) → parse_query q l ≡ ok r → Stages q l r
unfolding parse_query
parse_query-Stages q l r e =
    let sensible : bad_limits l ≡ false = ground arith in
    let (numbered, e1, h1) = >>=-eq-ok (parse_page q l) _ (rw sensible at e) in
    let (addressed, e2, h2) = >>=-eq-ok (parse_cursor q l numbered) _ h1 in
    let (size, e3, h3) = >>=-eq-ok (parse_size q l) _ h2 in
    let (sort, e4, h4) = >>=-eq-ok (parse_sort (values_of q (codes "sort"))) _ h3 in
    let (filters, e5, h5) = >>=-eq-ok (collect_filters q) _ h4 in
    record {
      sensible = sensible;
      numbered = numbered;
      page_parsed = e1;
      cursor_parsed = ground arith;
      size_parsed = ground arith;
      sort_parsed = ground arith;
      filters = filters;
      filters_parsed = e5;
      filters_sorted = ground arith;
    }

pub Stages-parse_query :
    (q : Values) (l : Limits) (r : Query) → Stages q l r → parse_query q l ≡ ok r
unfolding parse_query
Stages-parse_query q l r s = rw (
  s.sensible,
  s.page_parsed,
  s.cursor_parsed,
  s.size_parsed,
  s.sort_parsed,
  s.filters_parsed,
  ← s.filters_sorted,
)

parse_bounded_bounds :
    (param : String) (v : Bytes) (last n : ℤ)
    → parse_bounded param v last ≡ ok n
    → (pos 1 ≤ℤ n) × (n ≤ℤ last)
unfolding parse_bounded
parse_bounded_bounds param v last n e = ground arith

-- The paging of a parsed query.
pub record IsPaged (l : Limits) (r : Query) : Type 0 where
  pub size_min : pos 1 ≤ℤ r.size
  pub size_max : r.size ≤ℤ l.max_size
  pub numbered :
      r.cursor ≡ [] → (pos 1 ≤ℤ r.page) × ((pos_part r.page - 1) * pos_part r.size ≤ max_int)
  pub continued : r.cursor ≢ [] → (r.page ≡ pos 0) × (l.cursor ≡ true)

parse_size_bounds :
    (q : Values) (l : Limits) (n : ℤ)
    → bad_limits l ≡ false
    → parse_size q l ≡ ok n
    → (pos 1 ≤ℤ n) × (n ≤ℤ l.max_size)
unfolding parse_size
parse_size_bounds q l n h e =
    ground (arith, parse_bounded_bounds "size" (get q (codes "size")) l.max_size n)

mul-le_of_le_div : (n k m : ℕ) → n ≤ m / k → (n - 1) * k ≤ m
mul-le_of_le_div n k m h = grind arith

last_page_bound :
    (m n : ℤ) → pos 1 ≤ℤ m → n ≤ℤ quo_ℤ (pos max_int) m → (pos_part n - 1) * pos_part m ≤ max_int
last_page_bound (pos k) (pos n) h le = mul-le_of_le_div n k max_int (omega arith)
last_page_bound (pos k) (negsuc n) h le = omega arith
last_page_bound (negsuc k) n h le = absurd (omega arith)

sensible_max : (l : Limits) → bad_limits l ≡ false → pos 1 ≤ℤ l.max_size
sensible_max l h = ground arith

pos_part_mono : (a b : ℤ) → pos 1 ≤ℤ a → a ≤ℤ b → pos_part a ≤ pos_part b
pos_part_mono a b h k = ground arith

parse_page_bounds :
    (q : Values) (l : Limits) (n : ℤ)
    → bad_limits l ≡ false
    → parse_page q l ≡ ok n
    → (pos 1 ≤ℤ n) × ((pos_part n - 1) * pos_part l.max_size ≤ max_int)
unfolding parse_page
parse_page_bounds q l n h e = elim (Bool-cases (is_empty (get q (codes "page")))) [
  | inl absent ↦
      let one : n ≡ pos 1 = ground arith in
      subst (λ n. (pos 1 ≤ℤ n) × ((pos_part n - 1) * pos_part l.max_size ≤ max_int)) (sym one)
        (omega arith, omega arith)
  | inr given ↦
      let parsed : parse_bounded "page" (get q (codes "page")) (last_page l) ≡ ok n =
        ground arith in
      let (low, high) = parse_bounded_bounds "page" (get q (codes "page")) (last_page l) n parsed in
      (low, last_page_bound l.max_size n (sensible_max l h) high)
]

mul-le-mul_left : (a b c m : ℕ) → b ≤ c → a * c ≤ m → a * b ≤ m
mul-le-mul_left a b c m h k = grind arith

parse_cursor_cases :
    (q : Values) (l : Limits) (n : ℤ) (page : ℤ) (cursor : Bytes)
    → parse_cursor q l n ≡ ok (page, cursor)
    → (cursor ≡ get q (codes "cursor"))
      × (cursor ≡ [] → page ≡ n)
      × (cursor ≢ [] → (page ≡ pos 0) × (l.cursor ≡ true) × (get q (codes "page") ≡ []))
unfolding parse_cursor
parse_cursor_cases q l n page cursor e = (ground arith, ground arith, ground arith)

-- Every query that parses is paged within its limits: the size is at least 1 and at most MaxSize; a
-- page addressed by number is at least 1 and its offset, (page - 1) * size, fits an int; a cursor is
-- accepted only where the limits allow one, and comes with page 0.
pub parse_query-IsPaged :
    (q : Values) (l : Limits) (r : Query) → parse_query q l ≡ ok r → IsPaged l r
parse_query-IsPaged q l r e =
    let s = parse_query-Stages q l r e in
    let (size_min, size_max) = parse_size_bounds q l r.size s.sensible s.size_parsed in
    let (page_min, page_max) = parse_page_bounds q l s.numbered s.sensible s.page_parsed in
    let (_, by_number, by_cursor) =
      parse_cursor_cases q l s.numbered r.page r.cursor s.cursor_parsed in
    record {
      size_min = size_min;
      size_max = size_max;
      numbered = λ h.
          subst (λ n. (pos 1 ≤ℤ n) × ((pos_part n - 1) * pos_part r.size ≤ max_int))
            (sym (by_number h))
            (
              page_min,
              mul-le-mul_left (pos_part s.numbered - 1) (pos_part r.size) (pos_part l.max_size)
                  max_int (pos_part_mono r.size l.max_size size_min size_max) page_max,
            );
      continued = λ h. let (zero_page, allowed, _) = by_cursor h in (zero_page, allowed);
    }
