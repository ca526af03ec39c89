-- ===== src/Text/Defs.antt =====
-- The functions of package strings that the code calls.
use Prim.Native.Char.{code}
use mathlib.Core.List.{reverse}
use go_web_sdk.Common.{
  ℕ, suc, ◌+◌, String, Bool, true, false, ◌&&◌, ◌||◌, Option, none, some, List, [], ◌∷◌, ◌++◌, ◌==◌,
  leb, if◌then◌else◌, length, drop, Ordering, compare, All, ◌≢◌,
}

abbrev pub Bytes : Type 0
Bytes = List ℕ

abbrev pub codes : String → Bytes
codes String.[] = []
codes (String.◌∷◌ c s) = code c ∷ codes s

-- `a == b` on strings
unfoldable pub bytes_eq : Bytes → Bytes → Bool
bytes_eq [] [] = true
bytes_eq [] (_ ∷ _) = false
bytes_eq (_ ∷ _) [] = false
bytes_eq (a ∷ s) (b ∷ t) = a == b && bytes_eq s t

-- `s == ""`
abbrev pub is_empty : Bytes → Bool
is_empty [] = true
is_empty (_ ∷ _) = false

unfoldable pub has_prefix : Bytes → Bytes → Bool
has_prefix s [] = true
has_prefix [] (_ ∷ _) = false
has_prefix (a ∷ s) (b ∷ t) = a == b && has_prefix s t

unfoldable pub has_suffix : Bytes → Bytes → Bool
unfolding has_prefix
has_suffix s t = has_prefix (reverse s) (reverse t)

unfoldable pub trim_prefix : Bytes → Bytes → Bytes
unfolding has_prefix
trim_prefix s t = if has_prefix s t then drop (length t) s else s

-- `strings.IndexByte`, `none` for -1
unfoldable pub index_byte : Bytes → ℕ → Option ℕ
index_byte [] c = none
index_byte (a ∷ s) c = elim (a == c) [
  | true ↦ some 0
  | false ↦ elim (index_byte s c) [ none ↦ none | some i ↦ some (suc i) ]
]

-- `strings.Count` of a one-byte text
unfoldable pub count_byte : Bytes → ℕ → ℕ
count_byte [] c = 0
count_byte (a ∷ s) c = (if a == c then 1 else 0) + count_byte s c

-- `strings.Split` at a one-byte separator: the parts in order, at least one
unfoldable pub split_byte : Bytes → ℕ → List Bytes
split_byte [] sep = [] ∷ []
split_byte (a ∷ s) sep = elim (a == sep) [
  | true ↦ [] ∷ split_byte s sep
  | false ↦ elim (split_byte s sep) [ [] ↦ (a ∷ []) ∷ [] | part ∷ parts ↦ (a ∷ part) ∷ parts ]
]

-- `strings.TrimLeft` with a set of bytes
unfoldable pub trim_left : (ℕ → Bool) → Bytes → Bytes
trim_left cut [] = []
trim_left cut (a ∷ s) = if cut a then trim_left cut s else a ∷ s

-- The ASCII white space that `strings.TrimSpace` removes.
abbrev pub is_space : ℕ → Bool
is_space c = c == 32 || (leb 9 c && leb c 13)

unfoldable pub trim_space : Bytes → Bytes
unfolding trim_left
trim_space s = reverse (trim_left is_space (reverse (trim_left is_space s)))

-- `strings.Compare`
unfoldable pub str_compare : Bytes → Bytes → Ordering
str_compare [] [] = Ordering.eq
str_compare [] (_ ∷ _) = Ordering.lt
str_compare (_ ∷ _) [] = Ordering.gt
str_compare (a ∷ s) (b ∷ t) = elim (compare a b) [
  | Ordering.lt ↦ Ordering.lt
  | Ordering.eq ↦ str_compare s t
  | Ordering.gt ↦ Ordering.gt
]

-- `strings.Join`
unfoldable pub join : List Bytes → Bytes → Bytes
join [] sep = []
join (p ∷ []) sep = p
join (p ∷ q ∷ ps) sep = p ++ (sep ++ join (q ∷ ps) sep)

-- `slices.Contains` on strings
unfoldable pub contains : List Bytes → Bytes → Bool
unfolding bytes_eq
contains [] s = false
contains (t ∷ ts) s = bytes_eq t s || contains ts s

-- No byte of the text is `c`.
abbrev pub Lacks : ℕ → Bytes → Type 0
Lacks c s = All (λ a. a ≢ c) s

-- A set of bytes, `strings.IndexByte(set, c) >= 0`.
unfoldable pub contains_byte : Bytes → ℕ → Bool
contains_byte [] c = false
contains_byte (a ∷ s) c = a == c || contains_byte s c

-- The first value of several, "" for none.
abbrev pub first : List Bytes → Bytes
first [] = []
first (v ∷ _) = v
