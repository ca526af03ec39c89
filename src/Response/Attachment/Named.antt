-- ===== src/Response/Attachment/Named.antt =====
-- response.go: what a recipient reads of the value that `Attachment` makes.
use go_web_sdk.Text.{codes, contains_byte, Bytes}
use go_web_sdk.Response.Attachment.Decoded.{percent_decode, read_quoted}
use go_web_sdk.Common.{
  map, some, ◌++◌, [], ◌∷◌, true, Bool, All, ◌≡◌, false, if◌then◌else◌, List, ◌≤◌, ℕ,
}
use go_web_sdk.Response.Attachment.{codes, contains_byte, is_replaced, Bytes, encode_name, quote}

-- What the quoted name shows of a character.
abbrev pub shown : ℕ → ℕ
shown c = if is_replaced c then b'_' else c

abbrev pub IsPrintable : ℕ → Type 0
IsPrintable b = (0x20 ≤ b) × (b ≤ 0x7e)

-- The header's value is printable, and reads as a name and what follows it: the name that is shown has
-- every replaced character as an underscore, and what follows says the whole name where one was.
pub record IsNamed (name : List ℕ) (utf8 value : Bytes) : Type 0 where
  pub printable : All IsPrintable value
  pub quoted : Bytes
  pub opening : value ≡ codes "attachment; filename=" ++ quote ∷ quoted
  pub rest : Bytes
  pub reads : read_quoted false quoted ≡ some (map shown name, rest)
  pub whole : All (λ c. is_replaced c ≡ false) name → rest ≡ []
  pub extended :
      ¬ All (λ c. is_replaced c ≡ false) name
      → (e : Bytes) × (rest ≡ codes "; filename*=UTF-8''" ++ e) × (percent_decode e ≡ some utf8)

extension : Bytes → Bool → Bytes
extension utf8 true = []
extension utf8 false = codes "; filename*=UTF-8''" ++ encode_name utf8
