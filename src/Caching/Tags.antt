-- ===== src/Caching/Tags.antt =====
-- response.go: `noneMatch` on lists of entity tags.
use go_web_sdk.Caching.{trim_space, is_empty, trim_left, true, drop, suc, bytes_eq, ℕ}
use go_web_sdk.Text.{trim_space, is_empty, trim_left, bytes_eq, codes, Lacks, Bytes}
use go_web_sdk.Common.{true, drop, suc, ◌||◌, [], ◌++◌, ℕ, false, if◌then◌else◌, ◌∷◌, List, Bool}

-- A tag is weak or strong, around an opaque text.
pub record Tag : Type 0 where
  pub weak : Bool
  pub opaque : Bytes

abbrev pub quoted : Bytes → Bytes
quoted s = 34 ∷ (s ++ 34 ∷ [])

abbrev pub print_tag : Tag → Bytes
print_tag t = (if t.weak then codes "W/" else []) ++ quoted t.opaque

-- The tags behind the first, each behind a comma and a space.
abbrev pub print_more : List Tag → Bytes
print_more [] = []
print_more (t ∷ ts) = codes ", " ++ (print_tag t ++ print_more ts)

-- Some tag's text, in quotes, is the one that is wanted.
abbrev pub any_tag : Bytes → List Tag → Bool
any_tag want [] = false
any_tag want (t ∷ ts) = bytes_eq (quoted t.opaque) want || any_tag want ts

-- No quote stands inside the tag.
abbrev pub IsTag : Tag → Type 0
IsTag t = Lacks 34 t.opaque

abbrev pub print_tags : Tag → List Tag → Bytes
print_tags t ts = print_tag t ++ print_more ts
