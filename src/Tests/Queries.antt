-- ===== src/Tests/Queries.antt =====
-- `ParseQuery` at fixed query strings.
use go_web_sdk.Query.{Sort}
use go_web_sdk.Sorting.{sort_func}
use go_web_sdk.Text.Decimal.{print_int, parse_int}
use go_web_sdk.Query.Panics.{parse_query-panicked_iff}
use go_web_sdk.Query.Keys.{parse_filter_key_iff, parse_filter_key_iff, print_key, IsFilterKey}
use go_web_sdk.Query.Contents.{
  parse_sort_iff, tokens_of, AreKeyed, parse_query-HasFilters, HasFilters,
}
use go_web_sdk.Query.Bounds.{parse_query-IsPaged, IsPaged}
use go_web_sdk.Query.Order.{parse_query_perm, HasDistinctKeys}
use go_web_sdk.Text.Int.{◌≤ℤ◌, pos}
use mathlib.Core.List.{Permᴰ}
use go_web_sdk.Common.{List, ◌↔◌, panicked, err, ◌≡◌, refl, [], ◌∷◌, ok, true, false}
use go_web_sdk.Text.{
  contains, split_byte, count_byte, index_byte, trim_prefix, has_suffix, has_prefix, bytes_eq,
  str_compare, codes,
}
use go_web_sdk.Text.Laws.{ne_of_bytes_eq}
use go_web_sdk.Query.{
  filter_compare, get, values_of, parse_bounded, collect_filters, parse_size, parse_cursor,
  parse_page, Values, Limits, Query, FilterKey, parse_query, parse_sort, parse_filter_key,
}

-- ?sort=name,-code&status=a&status=b&created[gte]=2026&page=3
abbrev parameters : Values
parameters =
    (codes "sort", codes "name,-code" ∷ [])
    ∷ (codes "status", codes "a" ∷ codes "b" ∷ [])
    ∷ (codes "created[gte]", codes "2026" ∷ [])
    ∷ (codes "page", codes "3" ∷ [])
    ∷ []

-- The same parameters with the first two swapped.
abbrev swapped_parameters : Values
swapped_parameters =
    (codes "status", codes "a" ∷ codes "b" ∷ [])
    ∷ (codes "sort", codes "name,-code" ∷ [])
    ∷ (codes "created[gte]", codes "2026" ∷ [])
    ∷ (codes "page", codes "3" ∷ [])
    ∷ []

abbrev limits : Limits
limits = record { default_size = pos 20; max_size = pos 100; cursor = false }

abbrev parsed : Query
parsed = record {
  page = pos 3;
  size = pos 20;
  sort =
      record { field = codes "name"; descending = false }
      ∷ record { field = codes "code"; descending = true }
      ∷ [];
  filters =
      record { field = codes "created"; op = codes "gte"; values = codes "2026" ∷ [] }
      ∷ record { field = codes "status"; op = []; values = codes "a" ∷ codes "b" ∷ [] }
      ∷ [];
  cursor = [];
}

queries : Unit {0}
unfolding parse_query parse_page parse_cursor parse_size parse_sort collect_filters parse_bounded
    values_of get parse_int print_int sort_func filter_compare str_compare bytes_eq has_prefix
    has_suffix trim_prefix index_byte count_byte split_byte contains
queries = tt

parse_query_runs : parse_query parameters limits ≡ ok parsed
unfolding queries
parse_query_runs = refl

-- The order of the error checks: the operator of a reserved parameter is refused.
reserved_operator :
    parse_filter_key (codes "page[gte]") (codes "1" ∷ [])
    ≡ err (record { param = codes "page"; value = codes "1"; reason = codes "takes no operator" })
unfolding queries
reserved_operator = refl

distinct : HasDistinctKeys parameters
unfolding bytes_eq
distinct = (
  (ne_of_bytes_eq _ _ refl, (ne_of_bytes_eq _ _ refl, (ne_of_bytes_eq _ _ refl, tt))),
  (
    (ne_of_bytes_eq _ _ refl, (ne_of_bytes_eq _ _ refl, tt)),
    ((ne_of_bytes_eq _ _ refl, tt), (tt, tt)),
  ),
)

parse_query_perm_example : parse_query swapped_parameters limits ≡ ok parsed
parse_query_perm_example =
    parse_query_perm parameters swapped_parameters limits parsed (Permᴰ.swap refl refl) distinct
      parse_query_runs

parse_query-IsPaged_example : IsPaged limits parsed
parse_query-IsPaged_example = parse_query-IsPaged parameters limits parsed parse_query_runs

parse_query-HasFilters_example : HasFilters parameters parsed
parse_query-HasFilters_example =
    parse_query-HasFilters parameters limits parsed distinct parse_query_runs

abbrev sort_keys : List Sort
sort_keys =
    record { field = codes "a"; descending = false }
    ∷ record { field = codes "b"; descending = true }
    ∷ []

parse_sort_iff_example :
    (parse_sort (codes "a,-b" ∷ []) ≡ ok sort_keys)
    ↔ AreKeyed (tokens_of (codes "a,-b" ∷ [])) sort_keys
parse_sort_iff_example = parse_sort_iff (codes "a,-b" ∷ []) sort_keys

abbrev created_gte : FilterKey
created_gte = record { field = codes "created"; op = codes "gte" }

created_gte_parses : parse_filter_key (codes "created[gte]") [] ≡ ok created_gte
unfolding queries
created_gte_parses = refl

parse_filter_key_iff_example :
    (parse_filter_key (codes "created[gte]") [] ≡ ok created_gte)
    ↔ (IsFilterKey created_gte × (codes "created[gte]" ≡ print_key created_gte))
parse_filter_key_iff_example = parse_filter_key_iff (codes "created[gte]") [] created_gte

parse_query-panicked_iff_example :
    (parse_query parameters limits ≡ panicked)
    ↔ ¬ ((pos 1 ≤ℤ limits.default_size) × (limits.default_size ≤ℤ limits.max_size))
parse_query-panicked_iff_example = parse_query-panicked_iff parameters limits
