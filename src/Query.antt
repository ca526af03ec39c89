-- ===== src/Query.antt =====
-- query.go: `ParseQuery` and its parts. A `url.Values` is the list of its keys with their values in
-- the order in which this run of the program ranges over the map; a key stands once.
pub mod Keys
pub mod Order
pub mod Bounds
pub mod Contents
pub mod Panics
use go_web_sdk.Common.{
  ℕ, zero, suc, ◌+◌, ◌-◌, Bool, true, false, not, ◌&&◌, ◌||◌, Option, none, some, List, [], ◌∷◌,
  ◌++◌, Ordering, Result, ok, err, panicked, reject_if, ◌>>=◌, ◌>>◌, if◌then◌else◌, length, take,
  drop, ◌==◌, String,
}
use go_web_sdk.Text.{
  first, Bytes, codes, bytes_eq, is_empty, has_prefix, has_suffix, trim_prefix, index_byte,
  count_byte, split_byte, str_compare, contains,
}
use go_web_sdk.Text.Int.{ℤ, pos, negsuc, ltb_ℤ, quo_ℤ, max_int}
use go_web_sdk.Text.Decimal.{parse_int, print_int}
use go_web_sdk.Sorting.{sort_func}

abbrev pub Values : Type 0
Values = List (Bytes × List Bytes)

-- `q[key]`, with no values for a missing key.
unfoldable pub values_of : Values → Bytes → List Bytes
values_of [] key = []
values_of ((k, vs) ∷ q) key = if bytes_eq k key then vs else values_of q key

-- `q.Get(key)`
unfoldable pub get : Values → Bytes → Bytes
unfolding values_of
get q key = first (values_of q key)

abbrev pub reserved : List Bytes
reserved = codes "page" ∷ codes "size" ∷ codes "sort" ∷ codes "cursor" ∷ []

pub record QueryError : Type 0 where
  pub param : Bytes
  pub value : Bytes
  pub reason : Bytes

pub record Sort : Type 0 where
  pub field : Bytes
  pub descending : Bool

pub record Filter : Type 0 where
  pub field : Bytes
  pub op : Bytes
  pub values : List Bytes

pub record Query : Type 0 where
  pub page : ℤ
  pub size : ℤ
  pub sort : List Sort
  pub filters : List Filter
  pub cursor : Bytes

pub record Limits : Type 0 where
  pub default_size : ℤ
  pub max_size : ℤ
  pub cursor : Bool

abbrev pub rejected {ℓ} : {A : Type ℓ} → String → Bytes → Bytes → Result QueryError A
rejected param value reason = err (record { param = codes param; value = value; reason = reason })

abbrev pub bad_limits : Limits → Bool
bad_limits l = ltb_ℤ l.default_size (pos 1) || ltb_ℤ l.max_size l.default_size

-- The largest page whose offset fits an int at the largest size.
abbrev pub last_page : Limits → ℤ
last_page l = quo_ℤ (pos max_int) l.max_size

-- A positive number of at most `last`, in the parameter `param`.
unfoldable pub parse_bounded : String → Bytes → ℤ → Result QueryError ℤ
parse_bounded param v last = elim (parse_int v) [
  | none ↦ rejected param v (codes "must be an integer of at least 1")
  | some n ↦
      if ltb_ℤ n (pos 1)
      then rejected param v (codes "must be an integer of at least 1")
      else if ltb_ℤ last n
      then rejected param v (codes "must be at most " ++ print_int last)
      else ok n
]

unfoldable pub parse_page : Values → Limits → Result QueryError ℤ
unfolding parse_bounded
parse_page q l =
    let v = get q (codes "page") in
    if is_empty v then ok (pos 1) else parse_bounded "page" v (last_page l)

-- The page and the cursor, from the page parsed before.
unfoldable pub parse_cursor : Values → Limits → ℤ → Result QueryError (ℤ × Bytes)
parse_cursor q l page =
    let v = get q (codes "cursor") in
    if is_empty v
    then ok (page, [])
    else if not l.cursor
    then rejected "cursor" v (codes "this read does not continue by cursor")
    else if not (is_empty (get q (codes "page")))
    then rejected "cursor" v (codes "cannot be combined with page")
    else ok (pos 0, v)

unfoldable pub parse_size : Values → Limits → Result QueryError ℤ
unfolding parse_bounded
parse_size q l =
    let v = get q (codes "size") in
    if is_empty v then ok l.default_size else parse_bounded "size" v l.max_size

abbrev pub sort_key : Bytes → Sort
sort_key token = record {
  field = trim_prefix token (codes "-");
  descending = has_prefix token (codes "-");
}

-- The inner loop over the tokens of the value `v`.
unfoldable pub parse_tokens : Bytes → List Bytes → Result QueryError (List Sort)
parse_tokens v [] = ok []
parse_tokens v (token ∷ tokens) =
    if is_empty (sort_key token).field
    then rejected "sort" v (codes "empty sort key")
    else (parse_tokens v tokens >>= λ keys. ok (sort_key token ∷ keys))

unfoldable pub parse_sort : List Bytes → Result QueryError (List Sort)
unfolding parse_tokens
parse_sort [] = ok []
parse_sort (v ∷ vs) =
    if is_empty v
    then parse_sort vs
    else (parse_tokens v (split_byte v b',') >>= λ keys.
        parse_sort vs >>= λ more. ok (keys ++ more))

-- A name with its operator, empty for the plain form.
pub record FilterKey : Type 0 where
  pub field : Bytes
  pub op : Bytes

-- `reject` of `parseFilterKey`.
abbrev pub rejected_key {ℓ} : {A : Type ℓ} → List Bytes → Bytes → String → Result QueryError A
rejected_key values param reason =
    err (record { param = param; value = first values; reason = codes reason })

-- The key once its first bracket is found at `open_at`, which is not 0.
unfoldable pub parse_operator : Bytes → List Bytes → ℕ → Result QueryError FilterKey
parse_operator key values open_at =
    let field = take open_at key in
    let op = take (length key - 1 - (open_at + 1)) (drop (open_at + 1) key) in
    if not (has_suffix key (codes "]"))
      || (not (count_byte key b'[' == 1) || not (count_byte key b']' == 1))
    then rejected_key values key "the operator must be one bracketed suffix, like name[op]"
    else if is_empty op
    then rejected_key values key "empty operator"
    else if contains reserved field
    then rejected_key values field "takes no operator"
    else ok (record { field = field; op = op })

unfoldable pub parse_filter_key : Bytes → List Bytes → Result QueryError FilterKey
unfolding parse_operator
parse_filter_key [] values = rejected_key values [] "the parameter has no name"
parse_filter_key (c ∷ s) values = elim (index_byte (c ∷ s) b'[') [
  | none ↦ elim (index_byte (c ∷ s) b']') [
    | some _ ↦ rejected_key values (c ∷ s) "unbalanced bracket in the parameter name"
    | none ↦ ok (record { field = c ∷ s; op = [] })
  ]
  | some zero ↦ rejected_key values (c ∷ s) "the operator must follow a field name"
  | some (suc i) ↦ parse_operator (c ∷ s) values (suc i)
]

-- The loop over the parameters.
unfoldable pub collect_filters : Values → Result QueryError (List Filter)
unfolding parse_filter_key
collect_filters [] = ok []
collect_filters ((key, values) ∷ q) =
    let rest = collect_filters q in
    if contains reserved key
    then rest
    else (parse_filter_key key values >>= λ k.
        rest >>= λ fs. ok (record { field = k.field; op = k.op; values = values } ∷ fs))

-- The order of the filters: by field, then by operator.
unfoldable pub filter_compare : Filter → Filter → Ordering
filter_compare a b = elim (str_compare a.field b.field) [
  | Ordering.eq ↦ str_compare a.op b.op
  | Ordering.lt ↦ Ordering.lt
  | Ordering.gt ↦ Ordering.gt
]

-- `ParseQuery`. It panics on limits that are not sensible.
unfoldable pub parse_query : Values → Limits → Result QueryError Query
parse_query q l = if bad_limits l then panicked else do
  numbered ← parse_page q l
  addressed ← parse_cursor q l numbered
  size ← parse_size q l
  sort ← parse_sort (values_of q (codes "sort"))
  filters ← collect_filters q
  ok (record {
    page = addressed.0;
    size = size;
    sort = sort;
    filters = sort_func filter_compare filters;
    cursor = addressed.1;
  })
