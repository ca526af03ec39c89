-- ===== src/Problem/Unmarshal.antt =====
-- problem.go: `Problem.UnmarshalJSON`, on a document that has parsed. Its numbers are the natural ones.
pub mod Fields
pub mod RoundTrip
use go_web_sdk.Text.Int.{max_int}
use go_web_sdk.Problem.{with_only_status, Problem}
use go_web_sdk.Text.{codes, Bytes, bytes_eq, has_prefix}
use go_web_sdk.Http.Json.{null, num, str, Json, Doc}
use go_web_sdk.Common.{
  zero, ◌==◌, none, ◌||◌, [], ◌+◌, some, false, ◌∷◌, ◌&&◌, suc, Option, Bool, leb, List,
  if◌then◌else◌, ℕ,
}
use go_web_sdk.Http.Json

abbrev pub lower : ℕ → ℕ
lower c = if leb b'A' c && leb c b'Z' then c + 32 else c

-- A name folded to compare with a lower-case ASCII one: beside the capital letters, only U+017F and
-- U+212A fold to ASCII, to s and k. The number is that of the bytes still to skip.
unfoldable pub fold_from : ℕ → Bytes → Bytes
unfolding has_prefix
fold_from n [] = []
fold_from (suc n) (c ∷ s) = fold_from n s
fold_from zero (c ∷ s) =
    let plain = fold_from 0 s in
    let behind_one = fold_from 1 s in
    let behind_two = fold_from 2 s in
    if c == 0xC5 && has_prefix s (0xBF ∷ [])
    then b's' ∷ behind_one
    else if c == 0xE2 && has_prefix s (0x84 ∷ 0xAA ∷ [])
    then b'k' ∷ behind_two
    else lower c ∷ plain

-- `strings.EqualFold` with a lower-case ASCII name; encoding/json matches a struct's fields so too.
unfoldable pub folds_to : Bytes → Bytes → Bool
unfolding fold_from bytes_eq
folds_to k name = bytes_eq (fold_from 0 k) name

abbrev pub standard : List Bytes
standard = codes "type" ∷ codes "title" ∷ codes "status" ∷ codes "detail" ∷ codes "instance" ∷ []

abbrev pub folds_to_any : List Bytes → Bytes → Bool
folds_to_any [] k = false
folds_to_any (name ∷ names) k = folds_to k name || folds_to_any names k

unfoldable pub is_standard : Bytes → Bool
unfolding folds_to
is_standard k = folds_to_any standard k

-- The loop that deletes the standard members.
unfoldable pub strip : Doc → Doc
unfolding is_standard
strip [] = []
strip ((k, v) ∷ d) = let rest = strip d in if is_standard k then rest else (k, v) ∷ rest

-- A string's and an int's member: null leaves the field alone, another type is an error.
abbrev pub read_text : Json → (Bytes → Problem) → Problem → Option Problem
read_text (str s) set p = some (set s)
read_text null set p = some p
read_text v set p = none

abbrev pub read_number : Json → (ℕ → Problem) → Problem → Option Problem
read_number (num n) set p = if leb n max_int then some (set n) else none
read_number null set p = some p
read_number v set p = none

-- One member of the document, as `json.Unmarshal` reads it into `problemMembers`.
unfoldable pub read_member : Bytes → Json → Problem → Option Problem
unfolding folds_to
read_member k v p =
    if folds_to k (codes "type")
    then read_text v (λ s. record p { kind = s }) p
    else if folds_to k (codes "title")
    then read_text v (λ s. record p { title = s }) p
    else if folds_to k (codes "status")
    then read_number v (λ n. record p { status = n }) p
    else if folds_to k (codes "detail")
    then read_text v (λ s. record p { detail = s }) p
    else if folds_to k (codes "instance")
    then read_text v (λ s. record p { instance_path = s }) p
    else some p

abbrev pub then_read : Option Problem → (Problem → Option Problem) → Option Problem
then_read none f = none
then_read (some p) f = f p

unfoldable pub read_members : Doc → Problem → Option Problem
unfolding read_member
read_members [] p = some p
read_members ((k, v) ∷ d) p = then_read (read_member k v p) (λ q. read_members d q)

-- `UnmarshalJSON`; `none` is its error.
unfoldable pub unmarshal : Doc → Option Problem
unfolding read_members strip Json.copy
unmarshal doc =
    then_read (read_members doc (with_only_status 0))
      λ p. some (record p { extras = strip (Json.copy [] doc) })
