-- ===== src/Common/Results.antt =====
-- A Go call that returns `(value, error)`, or panics.
use mathlib.Core.Path.{◌≡◌, refl}
use mathlib.Core.Bool.{Bool, true, false}

pub data Result {ℓ κ} (E : Type ℓ) (V : Type κ) : Type (ℓ ⊔ κ) where
  ok : V → Result E V
  err : E → Result E V
  panicked : Result E V

infixl 5 ◌>>=◌ ◌>>◌
abbrev pub ◌>>=◌ {ℓ κ μ} :
    {E : Type ℓ} {V : Type κ} {W : Type μ} → Result E V → (V → Result E W) → Result E W
ok value >>= next = next value
err failure >>= next = err failure
panicked >>= next = panicked

abbrev pub ◌>>◌ {ℓ κ} : {E : Type ℓ} {W : Type κ} → Result E (Unit {0}) → Result E W → Result E W
check >> next = check >>= λ _. next

-- `if bad { return …, e }`
abbrev pub reject_if {ℓ} : {E : Type ℓ} → Bool → E → Result E (Unit {0})
reject_if true e = err e
reject_if false e = ok tt

-- A call that succeeds is one whose first step does, and whose next does with its value.
pub >>=-eq-ok {ℓ κ μ} :
    {E : Type ℓ} {V : Type κ} {W : Type μ} (first : Result E V) (next : V → Result E W) {result : W}
    → (first >>= next) ≡ ok result
    → (value : V) × (first ≡ ok value) × (next value ≡ ok result)
>>=-eq-ok panicked next h = cc
>>=-eq-ok (err failure) next h = cc
>>=-eq-ok (ok value) next h = (value, refl, h)

-- The same for a check that gives no value.
pub >>-eq-ok {ℓ κ} :
    {E : Type ℓ} {W : Type κ} (first : Result E (Unit {0})) (next : Result E W) {result : W}
    → (first >> next) ≡ ok result
    → (first ≡ ok tt) × (next ≡ ok result)
>>-eq-ok panicked next h = cc
>>-eq-ok (err failure) next h = cc
>>-eq-ok (ok value) next h = (refl, h)

-- The call does not panic, and a value that it returns satisfies `P`.
abbrev pub Gives {ℓ κ} : {E : Type ℓ} {V : Type κ} → Result E V → (V → Type 0) → Type 0
Gives (ok value) P = P value
Gives (err failure) P = Unit
Gives panicked P = ⊥

pub Gives-bind {ℓ κ μ} :
    {E : Type ℓ} {V : Type κ} {W : Type μ} (P : V → Type 0) (Q : W → Type 0) (first : Result E V)
    (next : V → Result E W)
    → Gives first P
    → ((value : V) → P value → Gives (next value) Q)
    → Gives (first >>= next) Q
Gives-bind P Q (ok value) next h k = k value h
Gives-bind P Q (err failure) next h k = tt
Gives-bind P Q panicked next h k = absurd h
