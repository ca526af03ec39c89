-- ===== src/Text/Int.antt =====
-- Go's signed integers as unbounded integers over the native numbers, with their tests.
use go_web_sdk.Common.{◌/◌, zero, ℕ, suc, ◌+◌, ◌≤◌, Bool, ltb, leb, ◌-◌, ◌^◌}

-- `negsuc n` is -(n + 1).
pub data ℤ : Type 0 where
  pos : ℕ → ℤ
  negsuc : ℕ → ℤ

abbrev pub pos_part : ℤ → ℕ
pos_part (pos n) = n
pos_part (negsuc n) = 0

abbrev pub neg_part : ℤ → ℕ
neg_part (pos n) = 0
neg_part (negsuc n) = suc n

infix 50 ◌≤ℤ◌ ◌<ℤ◌
abbrev pub ◌≤ℤ◌ : ℤ → ℤ → Type 0
a ≤ℤ b = pos_part a + neg_part b ≤ pos_part b + neg_part a

abbrev pub ◌<ℤ◌ : ℤ → ℤ → Type 0
a <ℤ b = suc (pos_part a + neg_part b) ≤ pos_part b + neg_part a

abbrev pub ltb_ℤ : ℤ → ℤ → Bool
ltb_ℤ a b = ltb (pos_part a + neg_part b) (pos_part b + neg_part a)

abbrev pub leb_ℤ : ℤ → ℤ → Bool
leb_ℤ a b = leb (pos_part a + neg_part b) (pos_part b + neg_part a)

-- `math.MaxInt` and `math.MaxInt64`: int has 64 bits.
abbrev pub max_int : ℕ
max_int = 2 ^ 63 - 1

-- The value is one of int64.
abbrev pub IsInt64 : ℤ → Type 0
IsInt64 (pos n) = n ≤ max_int
IsInt64 (negsuc n) = n ≤ max_int

-- The integer -n.
abbrev pub negated : ℕ → ℤ
negated zero = pos 0
negated (suc n) = negsuc n

-- `a / b` on Go integers truncates towards zero. (Go panics on a zero divisor; no caller has one.)
abbrev pub quo_ℤ : ℤ → ℤ → ℤ
quo_ℤ (pos a) (pos b) = pos (a / b)
quo_ℤ (pos a) (negsuc b) = negated (a / suc b)
quo_ℤ (negsuc a) (pos b) = negated (suc a / b)
quo_ℤ (negsuc a) (negsuc b) = pos (suc a / suc b)
