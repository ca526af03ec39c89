-- ===== src/Http/Json.antt =====
-- Go values as encoding/json sees them.
use go_web_sdk.Text.Laws.{bytes_eq_iff}
use go_web_sdk.Common.{
  refl, ◌∙◌, arith, some, none, ◌≡◌, if◌then◌else◌, Option, ℕ, Bool, true, false, ◌&&◌, List, [],
  ◌∷◌,
}
use go_web_sdk.Text.{bytes_eq, Bytes}

-- `unsupported` is a value that the encoder refuses, such as a channel.
mutual
  pub data Json : Type 0 where
    null unsupported : Json
    bool : Bool → Json
    num : ℕ → Json
    str : Bytes → Json
    arr : Items → Json
    obj : Members → Json

  pub data Items : Type 0 where
    nil : Items
    cons : Json → Items → Items

  pub data Members : Type 0 where
    end : Members
    member : Bytes → Json → Members → Members

-- A JSON object, or a `map[string]any`, as the list of its members.
abbrev pub Doc : Type 0
Doc = List (Bytes × Json)

unfoldable mutual
  pub is_encodable : Json → Bool
  is_encodable null = true
  is_encodable unsupported = false
  is_encodable (bool b) = true
  is_encodable (num n) = true
  is_encodable (str s) = true
  is_encodable (arr xs) = are_encodable xs
  is_encodable (obj ms) = members_encodable ms

  pub are_encodable : Items → Bool
  are_encodable nil = true
  are_encodable (cons x xs) = is_encodable x && are_encodable xs

  pub members_encodable : Members → Bool
  members_encodable end = true
  members_encodable (member k v ms) = is_encodable v && members_encodable ms

unfoldable pub doc_encodable : Doc → Bool
unfolding is_encodable
doc_encodable [] = true
doc_encodable ((k, v) ∷ d) = is_encodable v && doc_encodable d

-- `d[key]`
unfoldable pub find : Doc → Bytes → Option Json
find [] k = none
find ((j, v) ∷ d) k = if bytes_eq j k then some v else find d k

-- `d[key] = v`. The order of a map's members is not modelled: a new binding stands last.
unfoldable pub put : Doc → Bytes → Json → Doc
put [] k v = (k, v) ∷ []
put ((j, w) ∷ d) k v = let rest = put d k v in if bytes_eq j k then rest else (j, w) ∷ rest

-- `maps.Copy(dst, src)`
unfoldable pub copy : Doc → Doc → Doc
unfolding put
copy dst [] = dst
copy dst ((k, v) ∷ src) = copy (put dst k v) src

pub find-put :
    (d : Doc) (k j : Bytes) (v : Json)
    → find (put d k v) j ≡ (if bytes_eq k j then some v else find d j)
unfolding find put
find-put [] k j v = refl
find-put ((i, w) ∷ d) k j v =
    ground (arith, find-put d k j v, bytes_eq_iff i k, bytes_eq_iff k j, bytes_eq_iff i j)

-- The last binding of a key, the one that `maps.Copy` leaves.
unfoldable pub find_last : Doc → Bytes → Option Json
find_last [] k = none
find_last ((j, v) ∷ d) k = elim (find_last d k) [
  | some w ↦ some w
  | none ↦ if bytes_eq j k then some v else none
]

pub find-copy :
    (dst src : Doc) (k : Bytes)
    → find (copy dst src) k ≡ elim (find_last src k) [ some w ↦ some w | none ↦ find dst k ]
unfolding copy find_last
find-copy dst [] k = refl
find-copy dst ((j, v) ∷ src) k = find-copy (put dst j v) src k ∙ ground (arith, find-put dst j k v)

pub find_last-put :
    (d : Doc) (k j : Bytes) (v : Json)
    → find_last (put d k v) j ≡ (if bytes_eq k j then some v else find_last d j)
unfolding find_last put
find_last-put [] k j v = refl
find_last-put ((i, w) ∷ d) k j v =
    ground (arith, find_last-put d k j v, bytes_eq_iff i k, bytes_eq_iff k j, bytes_eq_iff i j)
