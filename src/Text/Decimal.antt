-- ===== src/Text/Decimal.antt =====
-- `strconv.Itoa`, `strconv.FormatInt`, `strconv.Atoi` and `strconv.ParseInt(s, 10, 64)`. The two
-- parsers differ in the error they return alone, which no caller reads: a refusal is `none`.
pub mod Laws
use go_web_sdk.Common.{
  ℕ, zero, suc, ◌+◌, ◌-◌, ◌*◌, ◌/◌, ◌%◌, Bool, ◌&&◌, Option, none, some, [], ◌∷◌, ◌==◌, leb,
  if◌then◌else◌,
}
use go_web_sdk.Text.Defs.{Bytes, codes}
use go_web_sdk.Text.Int.{ℤ, pos, negsuc, negated, max_int}

abbrev pub is_digit : ℕ → Bool
is_digit c = leb b'0' c && leb c b'9'

-- The digits of `n` before `out`; each round divides `n` by ten, so `n` rounds are enough.
print_digits : ℕ → ℕ → Bytes → Bytes
print_digits zero n out = out
print_digits (suc fuel) n out =
    let rest = print_digits fuel (n / 10) ((b'0' + n % 10) ∷ out) in if n == 0 then out else rest

unfoldable pub print_nat : ℕ → Bytes
unfolding print_digits
print_nat n = if n == 0 then codes "0" else print_digits n n []

unfoldable pub print_int : ℤ → Bytes
unfolding print_nat
print_int (pos n) = print_nat n
print_int (negsuc n) = b'-' ∷ print_nat (suc n)

-- The number that digits spell behind `n`.
scan_digits : Bytes → ℕ → Option ℕ
scan_digits [] n = some n
scan_digits (c ∷ s) n = if is_digit c then scan_digits s (n * 10 + (c - b'0')) else none

unfoldable pub parse_nat : Bytes → Option ℕ
unfolding scan_digits
parse_nat [] = none
parse_nat (c ∷ s) = scan_digits (c ∷ s) 0

-- The bound on a value without a sign, and on one behind a minus.
abbrev to_pos : Option ℕ → Option ℤ
to_pos none = none
to_pos (some n) = if leb n max_int then some (pos n) else none

abbrev to_neg : Option ℕ → Option ℤ
to_neg none = none
to_neg (some n) = if leb n (max_int + 1) then some (negated n) else none

unfoldable pub parse_int : Bytes → Option ℤ
unfolding parse_nat
parse_int [] = none
parse_int (c ∷ s) =
    if c == b'-'
    then to_neg (parse_nat s)
    else if c == b'+'
    then to_pos (parse_nat s)
    else to_pos (parse_nat (c ∷ s))
