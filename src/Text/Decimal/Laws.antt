-- ===== src/Text/Decimal/Laws.antt =====
-- A printed number is read back, and what is read is in range.
use go_web_sdk.Common.{
  ap, false, ℕ, zero, suc, ◌+◌, ◌/◌, ◌%◌, ◌≤◌, some, [], ◌∷◌, arith, ◌≡◌, ◌≢◌, ◌∙◌, refl,
  Bool-cases, inl, inr, ◌==◌, All, true,
}
use go_web_sdk.Text.Defs.{Bytes}
use go_web_sdk.Text.Int.{ℤ, pos, negsuc, IsInt64}
use go_web_sdk.Text.Decimal.{
  to_pos, print_digits, print_nat, print_int, scan_digits, parse_nat, parse_int, is_digit,
}

scan_digits_last :
    (n : ℕ) (out : Bytes) → scan_digits ((b'0' + n % 10) ∷ out) (n / 10) ≡ scan_digits out n
unfolding scan_digits
scan_digits_last n out = ground arith

scan_digits-print_digits :
    (fuel n : ℕ) (out : Bytes)
    → n ≤ fuel
    → scan_digits (print_digits fuel n out) 0 ≡ scan_digits out n
unfolding print_digits
scan_digits-print_digits zero n out h = let e : n ≡ 0 = omega arith in rw e
scan_digits-print_digits (suc fuel) n out h =
    ground (
      arith,
      scan_digits-print_digits fuel (n / 10) ((b'0' + n % 10) ∷ out),
      scan_digits_last n out,
    )

abbrev pub AreDigits : Bytes → Type 0
AreDigits = All (λ c. is_digit c ≡ true)

print_digits-AreDigits :
    (fuel n : ℕ) (out : Bytes) → AreDigits out → AreDigits (print_digits fuel n out)
unfolding print_digits
print_digits-AreDigits zero n out h = h
print_digits-AreDigits (suc fuel) n out h = elim (Bool-cases (n == 0)) [
  | inl e ↦ rw e h
  | inr e ↦ rw e (print_digits-AreDigits fuel (n / 10) ((b'0' + n % 10) ∷ out) (ground arith, h))
]

print_digits-ne-nil : (fuel n : ℕ) (out : Bytes) → out ≢ [] → print_digits fuel n out ≢ []
unfolding print_digits
print_digits-ne-nil zero n out h = h
print_digits-ne-nil (suc fuel) n out h = elim (Bool-cases (n == 0)) [
  | inl e ↦ rw e h
  | inr e ↦ rw e (print_digits-ne-nil fuel (n / 10) ((b'0' + n % 10) ∷ out) (cc))
]

suc-ne-zero : (n : ℕ) → (suc n == 0) ≡ false
suc-ne-zero n = ground arith

print_nat-suc : (n : ℕ) → print_nat (suc n) ≡ print_digits (suc n) (suc n) []
unfolding print_nat
print_nat-suc n = rw (suc-ne-zero n)

pub print_nat-AreDigits : (n : ℕ) → AreDigits (print_nat n)
unfolding print_nat
print_nat-AreDigits zero = (refl, tt)
print_nat-AreDigits (suc n) = rw (print_nat-suc n) (print_digits-AreDigits (suc n) (suc n) [] tt)

pub print_nat-ne-nil : (n : ℕ) → print_nat n ≢ []
unfolding print_nat
print_nat-ne-nil zero = cc
print_nat-ne-nil (suc n) =
    unfold print_digits in
    rw (suc-ne-zero n) (print_digits-ne-nil n (suc n / 10) ((b'0' + suc n % 10) ∷ []) (cc))

parse_nat-scan : (s : Bytes) → s ≢ [] → parse_nat s ≡ scan_digits s 0
unfolding parse_nat
parse_nat-scan [] h = absurd (h refl)
parse_nat-scan (c ∷ s) h = refl

-- A natural number is read back from its print, whatever its size.
pub parse_nat-print_nat : (n : ℕ) → parse_nat (print_nat n) ≡ some n
unfolding print_nat parse_nat
parse_nat-print_nat zero = refl
parse_nat-print_nat (suc n) =
    parse_nat-scan (print_nat (suc n)) (print_nat-ne-nil (suc n))
    ∙ ap (λ s. scan_digits s 0) (print_nat-suc n)
    ∙ scan_digits-print_digits (suc n) (suc n) [] (omega arith)
    ∙ unfold scan_digits in refl

parse_int_of_digits : (s : Bytes) → AreDigits s → s ≢ [] → parse_int s ≡ to_pos (parse_nat s)
unfolding parse_int
parse_int_of_digits [] h k = absurd (k refl)
parse_int_of_digits (c ∷ s) (h, _) k = ground arith

-- Every int64 is read back from its print.
pub parse_int-print_int : (z : ℤ) → IsInt64 z → parse_int (print_int z) ≡ some z
unfolding print_int
parse_int-print_int (pos n) h =
    rw (parse_int_of_digits _ (print_nat-AreDigits n) (print_nat-ne-nil n), parse_nat-print_nat n)
      (ground arith)
parse_int-print_int (negsuc n) h =
    unfold parse_int in rw (parse_nat-print_nat (suc n)) (ground arith)

-- A text that is read spells an int64.
pub parse_int-IsInt64 : (s : Bytes) (z : ℤ) → parse_int s ≡ some z → IsInt64 z
unfolding parse_int
parse_int-IsInt64 [] z h = cc
parse_int-IsInt64 (c ∷ s) (pos n) h = ground arith
parse_int-IsInt64 (c ∷ s) (negsuc n) h = ground arith
