-- ===== src/Conditional.antt =====
-- request.go: `IfMatch`, and the header that webtest's `IfMatch` sends for it.
pub mod Versions
use go_web_sdk.Common.{List, ok, none, some}
use go_web_sdk.Text.Int.{ℤ}
use go_web_sdk.Errors.{PreconditionError}
use go_web_sdk.Http.Header.{HeaderMap}
use go_web_sdk.Common.{
  ltb, false, if◌then◌else◌, err, drop, [], ◌-◌, ◌&&◌, not, ◌∷◌, length, leb, true, Result, take,
  Bool,
}
use go_web_sdk.Text.Decimal.{is_digit, parse_int}
use go_web_sdk.Text.{
  first, is_empty, codes, trim_space, has_suffix, join, has_prefix, trim_prefix, Bytes,
}
use go_web_sdk.Http.Header

abbrev all_digits : Bytes → Bool
all_digits [] = true
all_digits (c ∷ s) = is_digit c && all_digits s

-- `integer`
unfoldable pub integer : Bytes → Bool
unfolding trim_prefix
integer s = let digits = trim_prefix s (codes "-") in not (is_empty digits) && all_digits digits

-- `raw[0] == '"' && raw[len(raw)-1] == '"'` on three bytes or more.
unfoldable pub is_quoted : Bytes → Bool
unfolding has_prefix has_suffix
is_quoted raw = leb 3 (length raw) && (has_prefix raw (34 ∷ []) && has_suffix raw (34 ∷ []))

-- `raw[1:len(raw)-1]`
abbrev pub between_quotes : Bytes → Bytes
between_quotes raw = take (length raw - 2) (drop 1 raw)

abbrev pub malformed : Bytes → Result PreconditionError ℤ
malformed raw = err (record { missing = false; value = raw })

-- `strconv.ParseInt` behind the syntax checks.
unfoldable pub parse_version : Bytes → Result PreconditionError ℤ
unfolding parse_int integer is_quoted
parse_version raw =
    if is_empty raw
    then err (record { missing = true; value = [] })
    else if not (is_quoted raw && integer (between_quotes raw))
    then malformed raw
    else elim (parse_int (between_quotes raw)) [ none ↦ malformed raw | some v ↦ ok v ]

-- `IfMatch` on the header's values, of which `Get` gives the first.
unfoldable pub parse_lines : List Bytes → Result PreconditionError ℤ
unfolding parse_version join trim_space
parse_lines lines =
    if ltb 1 (length lines)
    then malformed (join lines (codes ", "))
    else parse_version (trim_space (first lines))

-- `IfMatch`
unfoldable pub if_match : HeaderMap → Result PreconditionError ℤ
unfolding parse_lines Header.values
if_match h = parse_lines (Header.values h (codes "If-Match"))
