-- ===== src/Conditional/Versions.antt =====
-- request.go: `IfMatch` on the entity-tags that a client may send.
use go_web_sdk.Http.Header.{HeaderMap}
use go_web_sdk.Text.Decimal.Laws.{
  parse_int-print_int, print_nat-ne-nil, print_nat-AreDigits, AreDigits,
}
use mathlib.Core.List.{reverse, reverse-reverse, reverse-cons, reverse-append}
use go_web_sdk.Text.Laws.{has_prefix-append, has_suffix-append_byte, has_suffix_byte}
use go_web_sdk.Text.Decimal.{print_nat, print_int, parse_int}
use go_web_sdk.Text.Int.{negsuc, IsInt64, pos, ℤ}
use go_web_sdk.Common.{
  ◌&&◌, not, ==_iff, inr, ◌==◌, inl, Bool-cases, ◌⊎◌, suc, ◌∙◌, ap, subst, refl, take-append, ◌↔◌,
  arith, some, ok, length-append, ◌-◌, [], length, true, ◌++◌, ◌≡◌, ◌≢◌, ◌∷◌,
}
use go_web_sdk.Conditional.{
  is_empty, parse_lines, codes, HeaderMap, if_match, trim_space, all_digits, parse_int,
  parse_version, has_prefix, trim_prefix, between_quotes, integer, is_quoted,
}
use go_web_sdk.Text.{
  is_empty, codes, is_space, trim_space, trim_left, has_prefix, trim_prefix, Bytes,
}
use go_web_sdk.Http.Header

-- An entity-tag of a version: its digits between quotes.
abbrev pub entity_tag : Bytes → Bytes
entity_tag s = 34 ∷ (s ++ 34 ∷ [])

-- Digits alone, at least one, behind an optional minus.
abbrev pub IsInteger : Bytes → Type 0
IsInteger s =
    (digits : Bytes) × (digits ≢ []) × AreDigits digits × ((s ≡ digits) ⊎ (s ≡ b'-' ∷ digits))

-- The text spells the version so.
abbrev pub Spells : Bytes → ℤ → Type 0
Spells s v = IsInteger s × (parse_int s ≡ some v)

between_quotes-entity_tag : (s : Bytes) → between_quotes (entity_tag s) ≡ s
between_quotes-entity_tag s =
    let e : length (entity_tag s) - 2 ≡ length s =
      let n = length-append s (34 ∷ []) in omega (arith, n) in
    rw e (take-append s (34 ∷ []))

is_quoted-entity_tag : (s : Bytes) → s ≢ [] → is_quoted (entity_tag s) ≡ true
unfolding is_quoted
is_quoted-entity_tag [] h = absurd (h refl)
is_quoted-entity_tag (c ∷ s) h =
    let n = length-append s (34 ∷ []) in
    let e = has_suffix-append_byte (34 ∷ c ∷ s) 34 in
    let e' = has_prefix-append (34 ∷ []) (c ∷ (s ++ 34 ∷ [])) in ground (arith, n, e, e')

is_quoted-shape : (raw : Bytes) → is_quoted raw ≡ true → (s : Bytes) × (raw ≡ entity_tag s)
unfolding is_quoted
is_quoted-shape [] h = cc
is_quoted-shape (a ∷ raw) h =
    let (init, e) = has_suffix_byte (a ∷ raw) 34 (ground arith) in shape init e
  where
    shape : (init : Bytes) → a ∷ raw ≡ init ++ 34 ∷ [] → (s : Bytes) × (a ∷ raw ≡ entity_tag s)
    shape [] e = ground arith
    shape (b ∷ init) e = (init, ground arith)

integer-ne-nil : (s : Bytes) → integer s ≡ true → s ≢ []
unfolding integer trim_prefix has_prefix
integer-ne-nil [] h = cc
integer-ne-nil (c ∷ s) h = cc

parse_version-eq-ok :
    (raw : Bytes) (v : ℤ)
    → parse_version raw ≡ ok v
    → (is_quoted raw ≡ true)
      × (integer (between_quotes raw) ≡ true)
      × (parse_int (between_quotes raw) ≡ some v)
unfolding parse_version
parse_version-eq-ok raw v h = (ground arith, ground arith, ground arith)

all_digits_of : (s : Bytes) → AreDigits s → all_digits s ≡ true
all_digits_of [] h = refl
all_digits_of (c ∷ s) (h, hs) = ground (arith, h, all_digits_of s hs)

integer_of_digits : (s : Bytes) → AreDigits s → s ≢ [] → integer s ≡ true
unfolding integer trim_prefix has_prefix
integer_of_digits [] h k = absurd (k refl)
integer_of_digits (c ∷ s) (h, hs) k = let e = all_digits_of s hs in ground (arith, h, e)

integer_of_minus : (s : Bytes) → AreDigits s → s ≢ [] → integer (b'-' ∷ s) ≡ true
unfolding integer trim_prefix has_prefix
integer_of_minus [] h k = absurd (k refl)
integer_of_minus (c ∷ s) h k = all_digits_of (c ∷ s) h

-- The digits that `integer` finds.
digits-AreDigits : (s : Bytes) → all_digits s ≡ true → AreDigits s
digits-AreDigits [] h = tt
digits-AreDigits (c ∷ s) h = (ground arith, digits-AreDigits s (ground arith))

integer-IsInteger : (s : Bytes) → integer s ≡ true → IsInteger s
unfolding integer trim_prefix has_prefix
integer-IsInteger [] h = cc
integer-IsInteger (c ∷ s) h = elim (Bool-cases (c == b'-')) [
  | inl e ↦
      let minus : c ≡ b'-' = (==_iff c b'-').0 e in
      let rest : (not (is_empty s) && all_digits s) ≡ true = ground arith in
      (s, ground arith, digits-AreDigits s (ground arith), inr (ap (λ d. d ∷ s) minus))
  | inr e ↦ (c ∷ s, cc, digits-AreDigits (c ∷ s) (ground arith), inl refl)
]

integer_of_IsInteger : (s : Bytes) → IsInteger s → integer s ≡ true
integer_of_IsInteger s (digits, some_digit, all, inl e) =
    ap integer e ∙ integer_of_digits digits all some_digit
integer_of_IsInteger s (digits, some_digit, all, inr e) =
    ap integer e ∙ integer_of_minus digits all some_digit

parse_version_of_parts :
    (raw : Bytes) (v : ℤ)
    → is_quoted raw ≡ true
    → integer (between_quotes raw) ≡ true
    → parse_int (between_quotes raw) ≡ some v
    → parse_version raw ≡ ok v
unfolding parse_version is_quoted
parse_version_of_parts [] v h k e = cc
parse_version_of_parts (c ∷ raw) v h k e = ground (arith, h, k, e)

parse_version-entity_tag : (s : Bytes) (v : ℤ) → Spells s v → parse_version (entity_tag s) ≡ ok v
parse_version-entity_tag s v (k, e) =
    let inner = between_quotes-entity_tag s in
    let whole = integer_of_IsInteger s k in
    parse_version_of_parts (entity_tag s) v (is_quoted-entity_tag s (integer-ne-nil s whole))
      (ap integer inner ∙ whole) (ap parse_int inner ∙ e)

-- The trimmed header is a version exactly when it is one entity-tag whose text spells it, as an int64
-- with digits alone behind an optional minus.
pub parse_version_iff :
    (raw : Bytes) (v : ℤ)
    → (parse_version raw ≡ ok v) ↔ ((s : Bytes) × (raw ≡ entity_tag s) × Spells s v)
parse_version_iff raw v = (
  λ h.
      let (quoted, whole, value) = parse_version-eq-ok raw v h in
      let (s, e) = is_quoted-shape raw quoted in
      let inner = ap between_quotes e ∙ between_quotes-entity_tag s in
      (s, e, subst (λ t. Spells t v) inner (integer-IsInteger (between_quotes raw) whole, value)),
  λ (s, e, spelled). ap parse_version e ∙ parse_version-entity_tag s v spelled,
)

print_int-IsInteger : (v : ℤ) → IsInteger (print_int v)
unfolding print_int
print_int-IsInteger (pos n) = (print_nat n, print_nat-ne-nil n, print_nat-AreDigits n, inl refl)
print_int-IsInteger (negsuc n) =
    (print_nat (suc n), print_nat-ne-nil (suc n), print_nat-AreDigits (suc n), inr refl)

trim_left-entity_tag : (s : Bytes) → trim_left is_space (entity_tag s) ≡ entity_tag s
unfolding trim_left
trim_left-entity_tag s = refl

reverse-entity_tag : (s : Bytes) → reverse (entity_tag s) ≡ entity_tag (reverse s)
reverse-entity_tag s =
    reverse-cons 34 (s ++ 34 ∷ []) ∙ ap (λ l. l ++ 34 ∷ []) (reverse-append s (34 ∷ []))

trim_space-entity_tag : (s : Bytes) → trim_space (entity_tag s) ≡ entity_tag s
unfolding trim_space
trim_space-entity_tag s =
    rw
      (
        trim_left-entity_tag s,
        reverse-entity_tag s,
        trim_left-entity_tag (reverse s),
        reverse-entity_tag (reverse s),
        reverse-reverse s,
      )
      refl

parse_lines_one : (line : Bytes) → parse_lines (line ∷ []) ≡ parse_version (trim_space line)
unfolding parse_lines
parse_lines_one line = refl

-- The entity-tag that a client makes of an int64 version, set as the one If-Match header, is read back
-- as that version.
pub if_match-entity_tag :
    (h : HeaderMap) (v : ℤ)
    → IsInt64 v
    → if_match (Header.set h (codes "If-Match") (entity_tag (print_int v))) ≡ ok v
unfolding if_match
if_match-entity_tag h v bound =
    let tag = entity_tag (print_int v) in
    ap parse_lines (Header.values-set h (codes "If-Match") tag)
    ∙ parse_lines_one tag
    ∙ ap parse_version (trim_space-entity_tag (print_int v))
    ∙ parse_version-entity_tag (print_int v) v (print_int-IsInteger v, parse_int-print_int v bound)
