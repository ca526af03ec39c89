-- ===== src/Caching.antt =====
-- response.go: the cache preconditions, `noneMatch` and `notModified`. Parsing a date and truncating a
-- time to the second are parameters, with times as numbers of a unit.
pub mod Tags
use go_web_sdk.Http.Request.{Request}
use go_web_sdk.Text.{
  is_empty, codes, trim_left, index_byte, Bytes, trim_space, trim_prefix, bytes_eq,
}
use go_web_sdk.Http.Header
use go_web_sdk.Common.{
  [], drop, zero, length, ◌+◌, ◌&&◌, true, take, suc, not, leb, ◌∷◌, ◌||◌, if◌then◌else◌, false,
  ◌==◌, Option, Bool, ℕ, none, some,
}

abbrev pub is_list_gap : ℕ → Bool
is_list_gap c = c == 32 || (c == 9 || c == b',')

-- The tag that stands first, and `next` on what follows it.
unfoldable pub match_tag : (Bytes → Bool) → Bytes → Bytes → Bool
unfolding bytes_eq index_byte
match_tag next [] want = false
match_tag next (c ∷ rest) want =
    if c == 34
    then elim (index_byte rest 34) [
      | none ↦ false
      | some end ↦
          if bytes_eq (take (end + 2) (c ∷ rest)) want
          then true
          else next (drop (end + 2) (c ∷ rest))
    ]
    else false

-- The loop of `noneMatch`; each round takes a tag of two bytes or more.
unfoldable pub scan_tags : ℕ → Bytes → Bytes → Bool
unfolding match_tag trim_prefix trim_left
scan_tags zero want header = false
scan_tags (suc fuel) want header =
    if is_empty header
    then false
    else match_tag (scan_tags fuel want) (trim_prefix (trim_left is_list_gap header) (codes "W/"))
        want

-- `noneMatch`
unfoldable pub none_match : Bytes → Bytes → Bool
unfolding scan_tags trim_space trim_prefix bytes_eq
none_match field etag =
    let header = trim_space field in
    if bytes_eq header (codes "*")
    then true
    else if is_empty etag
    then false
    else scan_tags (length header) (trim_prefix etag (codes "W/")) header

-- The object's validators; `none` is a zero time.
pub record Validators : Type 0 where
  pub etag : Bytes
  pub modified_at : Option ℕ

module _ (parse_time : Bytes → Option ℕ) (truncate : ℕ → ℕ) where
  -- `If-Modified-Since` against the object's time.
  abbrev pub unmodified_since : Bytes → Option ℕ → Bool
  unmodified_since ims none = false
  unmodified_since ims (some modified) = elim (parse_time ims) [
    | none ↦ false
    | some since ↦ leb (truncate modified) since
  ]

  -- `notModified`
  unfoldable pub not_modified : Request → Validators → Bool
  unfolding none_match Header.get
  not_modified r o =
      if not (bytes_eq r.method (codes "GET")) && not (bytes_eq r.method (codes "HEAD"))
      then false
      else if not (is_empty (Header.get r.header (codes "If-None-Match")))
      then none_match (Header.get r.header (codes "If-None-Match")) o.etag
      else if is_empty (Header.get r.header (codes "If-Modified-Since"))
      then false
      else unmodified_since (Header.get r.header (codes "If-Modified-Since")) o.modified_at
