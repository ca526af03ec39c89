-- ===== src/Http/Header.antt =====
-- `http.Header`: a map from canonical names to values.
use go_web_sdk.Text.Laws.{bytes_eq_iff}
use go_web_sdk.Common.{
  refl, arith, not, ◌≡◌, if◌then◌else◌, [], ◌∷◌, List, Bool, ◌||◌, ◌&&◌, leb, ◌==◌, ◌-◌, ◌+◌, true,
  ℕ,
}
use go_web_sdk.Text.{codes, first, contains_byte, Bytes, bytes_eq}

abbrev pub HeaderMap : Type 0
HeaderMap = List (Bytes × List Bytes)

is_lower : ℕ → Bool
is_lower c = leb b'a' c && leb c b'z'

is_upper : ℕ → Bool
is_upper c = leb b'A' c && leb c b'Z'

-- The punctuation of a token, RFC 9110's tchar.
is_mark : ℕ → Bool
is_mark c = contains_byte (codes "!#$%&'*+-.^_`|~") c

-- The bytes of an HTTP token.
is_token : ℕ → Bool
is_token c = is_lower c || (is_upper c || ((leb b'0' c && leb c b'9') || is_mark c))

canonical_from : Bool → Bytes → Bytes
canonical_from upper [] = []
canonical_from upper (c ∷ s) =
    (if upper && is_lower c then c - 32 else if not upper && is_upper c then c + 32 else c)
    ∷ canonical_from (c == b'-') s

all_token : Bytes → Bool
all_token [] = true
all_token (c ∷ s) = is_token c && all_token s

-- `http.CanonicalHeaderKey`: a name that is no token stays as it is.
unfoldable pub canonical : Bytes → Bytes
unfolding canonical_from all_token is_token is_lower is_upper is_mark
canonical name = if all_token name then canonical_from true name else name

find : HeaderMap → Bytes → List Bytes
find [] k = []
find ((j, vs) ∷ h) k = if bytes_eq j k then vs else find h k

put : HeaderMap → Bytes → List Bytes → HeaderMap
put [] k vs = (k, vs) ∷ []
put ((j, ws) ∷ h) k vs = if bytes_eq j k then (k, vs) ∷ h else (j, ws) ∷ put h k vs

-- `h.Values(name)`
unfoldable pub values : HeaderMap → Bytes → List Bytes
unfolding find
values h name = find h (canonical name)

-- `h.Get(name)`
unfoldable pub get : HeaderMap → Bytes → Bytes
unfolding values
get h name = first (values h name)

-- `h.Set(name, value)`
unfoldable pub set : HeaderMap → Bytes → Bytes → HeaderMap
unfolding put
set h name value = put h (canonical name) (value ∷ [])

without : HeaderMap → Bytes → HeaderMap
without [] k = []
without ((j, vs) ∷ h) k = if bytes_eq j k then without h k else (j, vs) ∷ without h k

-- `h.Del(name)`
unfoldable pub del : HeaderMap → Bytes → HeaderMap
unfolding without
del h name = without h (canonical name)

find-put :
    (h : HeaderMap) (k j : Bytes) (vs : List Bytes)
    → find (put h k vs) j ≡ (if bytes_eq k j then vs else find h j)
unfolding find put
find-put [] k j vs = refl
find-put ((i, ws) ∷ h) k j vs =
    ground (arith, find-put h k j vs, bytes_eq_iff i k, bytes_eq_iff k j, bytes_eq_iff i j)

find-without :
    (h : HeaderMap) (k j : Bytes) → find (without h k) j ≡ (if bytes_eq k j then [] else find h j)
unfolding find without
find-without [] k j = ground arith
find-without ((i, ws) ∷ h) k j =
    ground (arith, find-without h k j, bytes_eq_iff i k, bytes_eq_iff k j, bytes_eq_iff i j)

pub get-set :
    (h : HeaderMap) (name other value : Bytes)
    → get (set h name value) other
      ≡ (if bytes_eq (canonical name) (canonical other) then value else get h other)
unfolding get set
get-set h name other value =
    ground (arith, find-put h (canonical name) (canonical other) (value ∷ []))

pub values-set : (h : HeaderMap) (name value : Bytes) → values (set h name value) name ≡ value ∷ []
unfolding values set
values-set h name value = ground (
  arith,
  find-put h (canonical name) (canonical name) (value ∷ []),
  bytes_eq_iff (canonical name) (canonical name),
)

pub get-del :
    (h : HeaderMap) (name other : Bytes)
    → get (del h name) other
      ≡ (if bytes_eq (canonical name) (canonical other) then [] else get h other)
unfolding get del
get-del h name other = ground (arith, find-without h (canonical name) (canonical other))
