-- ===== src/Response/Attachment.antt =====
-- response.go: `Attachment` and `attrChar`. The characters that Go reads in a string, and
-- `strings.ToValidUTF8`, are parameters.
pub mod Decoded
pub mod Named
use go_web_sdk.Text.{codes, contains_byte, Bytes}
use go_web_sdk.Common.{
  [], ◌%◌, ◌-◌, false, ◌++◌, ◌/◌, ◌+◌, ◌&&◌, ◌==◌, ◌||◌, ◌∷◌, leb, true, ltb, if◌then◌else◌, List,
  Bool, ℕ,
}

-- The bytes " and \.
abbrev pub quote : ℕ
quote = 34

abbrev pub backslash : ℕ
backslash = 92

-- The characters that stand in a quoted name only as an underscore.
abbrev pub is_replaced : ℕ → Bool
is_replaced c = ltb c 0x20 || (ltb 0x7e c || c == b'%')

-- The loop over the characters: the fallback, and whether it is the whole name.
unfoldable pub scan_name : List ℕ → Bytes × Bool
scan_name [] = ([], true)
scan_name (c ∷ cs) =
    let (fallback, plain) = scan_name cs in
    if c == quote || c == backslash
    then (backslash ∷ c ∷ fallback, plain)
    else if is_replaced c
    then (b'_' ∷ fallback, false)
    else (c ∷ fallback, plain)

abbrev pub attr_marks : Bytes
attr_marks = codes "!#$&+-.^_`|~"

-- `attrChar`
unfoldable pub attr_char : ℕ → Bool
unfolding contains_byte
attr_char b =
    (leb b'a' b && leb b b'z')
    || ((leb b'A' b && leb b b'Z') || ((leb b'0' b && leb b b'9') || contains_byte attr_marks b))

-- A digit of the verb %02X.
abbrev pub upper_hex : ℕ → ℕ
upper_hex n = if ltb n 10 then b'0' + n else b'A' + (n - 10)

-- The loop over the bytes of an extended value.
unfoldable pub encode_name : Bytes → Bytes
unfolding attr_char
encode_name [] = []
encode_name (b ∷ bs) =
    let rest = encode_name bs in
    if attr_char b then b ∷ rest else b'%' ∷ upper_hex (b / 16) ∷ upper_hex (b % 16) ∷ rest

module _ (runes : Bytes → List ℕ) (to_valid_utf8 : Bytes → Bytes) where
  -- `Attachment`
  unfoldable pub attachment : Bytes → Bytes
  unfolding scan_name encode_name
  attachment name =
      let (fallback, plain) = scan_name (runes name) in
      let header = codes "attachment; filename=" ++ quote ∷ (fallback ++ quote ∷ []) in
      if plain
      then header
      else header ++ (codes "; filename*=UTF-8''" ++ encode_name (to_valid_utf8 name))
