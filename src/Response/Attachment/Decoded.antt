-- ===== src/Response/Attachment/Decoded.antt =====
-- response.go: readers of quoted strings and of percent-encoded values, and what they read of a name.
use go_web_sdk.Text.{contains_byte, Bytes}
use go_web_sdk.Common.{
  refl, ◌∙◌, ◌%◌, ◌-◌, ap, [], ◌/◌, ◌+◌, ◌&&◌, arith, true, ◌≡◌, ◌*◌, leb, false, ◌∷◌, ◌==◌,
  if◌then◌else◌, All, some, none, ◌<◌, Bool, Option, ℕ,
}
use go_web_sdk.Response.Attachment.{
  backslash, contains_byte, upper_hex, encode_name, attr_char, Bytes, quote,
}

abbrev pub prepend : ℕ → Option (Bytes × Bytes) → Option (Bytes × Bytes)
prepend c none = none
prepend c (some (s, rest)) = some (c ∷ s, rest)

-- A quoted string behind its opening quote, and what follows it; the flag stands behind a backslash.
unfoldable pub read_quoted : Bool → Bytes → Option (Bytes × Bytes)
read_quoted escaped [] = none
read_quoted true (c ∷ s) = prepend c (read_quoted false s)
read_quoted false (c ∷ s) =
    let plain = read_quoted false s in
    let pair = read_quoted true s in
    if c == quote then some ([], s) else if c == backslash then pair else prepend c plain

abbrev pub hex_value : ℕ → Option ℕ
hex_value c =
    if leb b'0' c && leb c b'9'
    then some (c - b'0')
    else if leb b'A' c && leb c b'F'
    then some (c - 55)
    else none

-- Percent-decoding, by what is read of a triple.
pub data Triple : Type 0 where
  outside marked : Triple
  half : ℕ → Triple

abbrev pub with_byte : ℕ → Option Bytes → Option Bytes
with_byte b none = none
with_byte b (some s) = some (b ∷ s)

unfoldable pub decode_from : Triple → Bytes → Option Bytes
decode_from outside [] = some []
decode_from marked [] = none
decode_from (half h) [] = none
decode_from outside (c ∷ s) =
    let plain = decode_from outside s in
    let triple = decode_from marked s in if c == b'%' then triple else with_byte c plain
decode_from marked (c ∷ s) = elim (hex_value c) [ none ↦ none | some h ↦ decode_from (half h) s ]
decode_from (half h) (c ∷ s) = elim (hex_value c) [
  | none ↦ none
  | some l ↦ with_byte (h * 16 + l) (decode_from outside s)
]

unfoldable pub percent_decode : Bytes → Option Bytes
unfolding decode_from
percent_decode s = decode_from outside s

hex_value-upper_hex : (n : ℕ) → n < 16 → hex_value (upper_hex n) ≡ some n
hex_value-upper_hex n h = ground arith

attr_char-ne : (b : ℕ) → attr_char b ≡ true → (b == b'%') ≡ false
unfolding attr_char contains_byte
attr_char-ne b h = ground arith

decode_from-plain :
    (b : ℕ) (s : Bytes)
    → (b == b'%') ≡ false
    → decode_from outside (b ∷ s) ≡ with_byte b (decode_from outside s)
unfolding decode_from
decode_from-plain b s h = rw h refl

decode_from-triple :
    (h l : ℕ) (s : Bytes)
    → h < 16
    → l < 16
    → decode_from outside (b'%' ∷ upper_hex h ∷ upper_hex l ∷ s)
      ≡ with_byte (h * 16 + l) (decode_from outside s)
unfolding decode_from
decode_from-triple h l s low low' =
    ap (λ o. elim o [ none ↦ none | some h' ↦ decode_from (half h') (upper_hex l ∷ s) ])
      (hex_value-upper_hex h low)
    ∙ ap (λ o. elim o [ none ↦ none | some l' ↦ with_byte (h * 16 + l') (decode_from outside s) ])
        (hex_value-upper_hex l low')

pub percent_decode-encode_name :
    (bs : Bytes) → All (λ b. b < 256) bs → decode_from outside (encode_name bs) ≡ some bs
unfolding decode_from encode_name
percent_decode-encode_name [] h = refl
percent_decode-encode_name (b ∷ bs) (h, hs) =
    by_mark (attr_char b) refl (percent_decode-encode_name bs hs)
  where
    by_mark :
        (m : Bool)
        → attr_char b ≡ m
        → decode_from outside (encode_name bs) ≡ some bs
        → decode_from outside (
            if m
            then b ∷ encode_name bs
            else b'%' ∷ upper_hex (b / 16) ∷ upper_hex (b % 16) ∷ encode_name bs)
          ≡ some (b ∷ bs)
    by_mark true e ih =
        decode_from-plain b (encode_name bs) (attr_char-ne b e) ∙ ap (with_byte b) ih
    by_mark false e ih =
        decode_from-triple (b / 16) (b % 16) (encode_name bs) (omega (arith, h)) (omega arith)
        ∙ ap (with_byte (b / 16 * 16 + b % 16)) ih
        ∙ ap (λ n. some (n ∷ bs)) (omega arith)
