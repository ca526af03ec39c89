-- ===== src/Transfer/Bounds.antt =====
-- transfer.go: the durations that a transfer allows.
use go_web_sdk.Config.Valid.{finalize_block-IsRunnable}
use go_web_sdk.Text.{Bytes}
use go_web_sdk.Config.{finalized, finalize_block, Config, EnvApi, second}
use go_web_sdk.Text.Int.{leb_ℤ, ltb_ℤ, ◌<ℤ◌, negsuc, ◌≤ℤ◌, pos, ℤ}
use go_web_sdk.Transfer.{
  all_three, check_transfer, transfer_of, duration, config_transfer, Bytes, max_ℤ, duration_of,
  second, max_duration, pos, ℤ, counted, new_transfer, Transfer, FloatApi,
}
use go_web_sdk.Http.World.{returned, World}
use go_web_sdk.Common.{
  zero, suc, Option, ◌↔◌, ◌∙◌, ap, sym, subst, inr, refl, inl, ◌⊎◌, if◌then◌else◌, Bool-cases, ◌^◌,
  ◌≤◌, false, true, arith, ◌≡◌, ℕ, none, some, ok,
}

-- What the code relies on of float64: conversions, division by and multiplication with positive numbers
-- and addition keep the order, rounding included, and integers up to 2^53 are exact.
pub record FloatLaws (api : FloatApi) (Le : api.Float → api.Float → Type 0) : Type 0 where
  pub from_int_mono : (a b : ℤ) → a ≤ℤ b → Le (api.from_int a) (api.from_int b)
  pub div_mono :
      (x y : api.Float) (r : ℤ)
      → pos 1 ≤ℤ r
      → Le x y
      → Le (api.div x (api.from_int r)) (api.div y (api.from_int r))
  pub mul_mono :
      (x y : api.Float) (k : ℕ)
      → Le x y
      → Le (api.mul x (api.from_int (pos k))) (api.mul y (api.from_int (pos k)))
  pub add_mono : (z x y : api.Float) → Le x y → Le (api.add z x) (api.add z y)
  pub spent_nonneg :
      (n : ℤ) (r : ℤ) (k : ℕ)
      → pos 0 ≤ℤ n
      → pos 1 ≤ℤ r
      → Le
          (api.from_int (pos 0))
          (api.mul (api.div (api.from_int n) (api.from_int r)) (api.from_int (pos k)))
  pub add_grows : (z x : api.Float) → Le (api.from_int (pos 0)) x → Le z (api.add z x)
  pub le_trans : (x y z : api.Float) → Le x y → Le y z → Le x z
  pub at_max_mono : (x y : api.Float) → Le x y → api.at_max x ≡ true → api.at_max y ≡ true
  pub truncated_mono :
      (x y : api.Float) → Le x y → api.at_max y ≡ false → api.truncated x ≤ℤ api.truncated y
  pub truncated_low : (x : api.Float) → api.at_max x ≡ false → api.truncated x ≤ℤ max_duration
  pub exact : (n : ℕ) → n ≤ 2 ^ 53 → api.truncated (api.from_int (pos n)) ≡ pos n

-- A transfer as `NewTransfer` makes it.
pub record IsTransfer (t : Transfer) : Type 0 where
  pub limit : pos 0 ≤ℤ t.limit
  pub rate : pos 1 ≤ℤ t.rate
  pub grace : pos 0 ≤ℤ t.grace

pub new_transfer-IsTransfer :
    (limit rate grace : ℤ)
    → pos 0 ≤ℤ limit
    → pos 1 ≤ℤ rate
    → pos 0 ≤ℤ grace
    → (t : Transfer) × (new_transfer limit rate grace ≡ some t) × IsTransfer t
unfolding new_transfer
new_transfer-IsTransfer (pos limit) (pos rate) (pos grace) l r g = (
  record { limit = pos limit; rate = pos rate; grace = pos grace; read = true; write = true },
  ground arith,
  record { limit = l; rate = r; grace = g },
)
new_transfer-IsTransfer (negsuc n) rate grace l r g = absurd (omega (arith, l))
new_transfer-IsTransfer (pos limit) (negsuc n) grace l r g = absurd (omega (arith, r))
new_transfer-IsTransfer (pos limit) (pos rate) (negsuc n) l r g = absurd (omega (arith, g))

counted_nonneg : (t : Transfer) (size : ℤ) → IsTransfer t → pos 0 ≤ℤ counted t size
unfolding counted
counted_nonneg t (pos n) h = let l = h.limit in ground arith
counted_nonneg t (negsuc n) h = let l = h.limit in ground arith

-- A size that is past the limit, or not known, counts as the limit.
counted_over :
    (t : Transfer) (size : ℤ) → (size <ℤ pos 0) ⊎ (t.limit <ℤ size) → counted t size ≡ t.limit
unfolding counted
counted_over t size h = ground arith

counted_limit : (t : Transfer) → counted t t.limit ≡ t.limit
unfolding counted
counted_limit t = ground arith

counted_mono :
    (t : Transfer) (size other : ℤ)
    → pos 0 ≤ℤ size
    → size ≤ℤ other
    → counted t size ≤ℤ counted t other
unfolding counted
counted_mono t (pos a) (pos b) low h = ground arith
counted_mono t (pos a) (negsuc b) low h = absurd (omega (arith, h))
counted_mono t (negsuc a) other low h = absurd (omega (arith, low))

module _ (api : FloatApi) (Le : api.Float → api.Float → Type 0) (laws : FloatLaws api Le) where
  open api use {from_int, div, mul, add, at_max, truncated}

  -- The time that the size takes at the rate, and with the grace.
  abbrev spent : Transfer → ℤ → api.Float
  spent t n = mul (div (from_int n) (from_int t.rate)) (from_int (pos second))

  abbrev allowed : Transfer → ℤ → api.Float
  allowed t n = add (from_int t.grace) (spent t n)

  abbrev clamped : api.Float → ℤ
  clamped d = if at_max d then max_duration else truncated d

  allowed_mono : (t : Transfer) (a b : ℤ) → IsTransfer t → a ≤ℤ b → Le (allowed t a) (allowed t b)
  allowed_mono t a b h k = laws.add_mono (from_int t.grace) (spent t a) (spent t b) (
      laws.mul_mono (div (from_int a) (from_int t.rate)) (div (from_int b) (from_int t.rate)) second
        (laws.div_mono (from_int a) (from_int b) t.rate h.rate (laws.from_int_mono a b k)))

  clamped_low : (x : api.Float) → clamped x ≤ℤ max_duration
  clamped_low x = elim (Bool-cases (at_max x)) [
    | inl e ↦ rw e (omega arith)
    | inr e ↦ rw e (laws.truncated_low x e)
  ]

  clamped_mono : (x y : api.Float) → Le x y → clamped x ≤ℤ clamped y
  clamped_mono x y h = elim (Bool-cases (at_max y)) [
    | inl e ↦ rw e (clamped_low x)
    | inr e ↦ elim (Bool-cases (at_max x)) [
      | inl k ↦ let k' = laws.at_max_mono x y h k in cc
      | inr k ↦ rw (e, k) (laws.truncated_mono x y h e)
    ]
  ]

  clamped_exact : (n : ℕ) → n ≤ 2 ^ 53 → pos n ≤ℤ clamped (from_int (pos n))
  clamped_exact n h = elim (Bool-cases (at_max (from_int (pos n)))) [
    | inl e ↦ rw e (omega (arith, h))
    | inr e ↦ rw (e, laws.exact n h) (omega arith)
  ]

  duration_of_lem :
      (t : Transfer) (size : ℤ) → duration_of api t size ≡ clamped (allowed t (counted t size))
  unfolding duration_of
  duration_of_lem t size = refl

  duration_of_grace :
      (t : Transfer) (g : ℕ) (size : ℤ)
      → IsTransfer t
      → t.grace ≡ pos g
      → g ≤ 2 ^ 53
      → pos g ≤ℤ clamped (allowed t (counted t size))
  duration_of_grace t g size h whole small =
      let n = counted t size in
      let low = clamped_exact g small in
      let grows =
        laws.add_grows (from_int t.grace) (spent t n)
          (laws.spent_nonneg n t.rate second (counted_nonneg t size h) h.rate) in
      let up =
        clamped_mono (from_int (pos g)) (allowed t n)
          (subst (λ z. Le (from_int z) (allowed t n)) whole grows) in
      omega (arith, low, up)

  -- What a transfer allows lies between its grace and the greatest duration, does not shrink as the size
  -- grows, and is the limit's for a size that is past the limit or not known. (The grace is at most 2^53
  -- nanoseconds, which a float64 holds exactly.)
  pub duration_of-Bounded :
      (t : Transfer) (g : ℕ) (size : ℤ)
      → IsTransfer t
      → t.grace ≡ pos g
      → g ≤ 2 ^ 53
      → (t.grace ≤ℤ duration_of api t size)
        × (duration_of api t size ≤ℤ max_duration)
        × ((other : ℤ)
            → pos 0 ≤ℤ size
            → size ≤ℤ other
            → duration_of api t size ≤ℤ duration_of api t other)
        × ((size <ℤ pos 0) ⊎ (t.limit <ℤ size) → duration_of api t size ≡ duration_of api t t.limit)
  unfolding duration_of
  duration_of-Bounded t g size h whole small = (
    subst (λ z. z ≤ℤ duration_of api t size) (sym whole) (duration_of_grace t g size h whole small),
    clamped_low (allowed t (counted t size)),
    λ other low k.
        clamped_mono (allowed t (counted t size)) (allowed t (counted t other))
          (allowed_mono t (counted t size) (counted t other) h (counted_mono t size other low k)),
    λ over. ap (λ n. clamped (allowed t n)) (counted_over t size over ∙ sym (counted_limit t)),
  )

max_nonneg : (a b : ℤ) → pos 0 ≤ℤ a → pos 0 ≤ℤ max_ℤ a b
max_nonneg a b h = ground arith

config_transfer_lem :
    (c : Config) (limit rate read write : ℤ)
    → finalized c ≡ true
    → c.transfer_rate ≡ some rate
    → c.read_timeout ≡ some read
    → c.write_timeout ≡ some write
    → config_transfer c limit ≡ transfer_of limit rate read write
unfolding config_transfer
config_transfer_lem c limit rate read write e e1 e2 e3 =
    let f = transfer_of limit in
    ap (λ b. if b then all_three c.transfer_rate c.read_timeout c.write_timeout f else none) e
    ∙ ap (λ o. all_three o c.read_timeout c.write_timeout f) e1
    ∙ ap (λ o. all_three (some rate) o c.write_timeout f) e2
    ∙ ap (λ o. all_three (some rate) (some read) o f) e3

transfer_of_lem :
    (limit rate read write : ℤ) (t : Transfer)
    → new_transfer limit rate (max_ℤ read write) ≡ some t
    → transfer_of limit rate read write
      ≡ some (record t { read = ltb_ℤ (pos 0) read; write = ltb_ℤ (pos 0) write })
unfolding transfer_of
transfer_of_lem limit rate read write t e = rw (e, transfer_of) refl

-- A timeout of zero is a disabled one.
enabled_iff :
    (v : ℤ) (field : Option ℤ)
    → field ≡ some v
    → pos 0 ≤ℤ v
    → (ltb_ℤ (pos 0) v ≡ true) ↔ ¬ (field ≡ some (pos 0))
enabled_iff (pos zero) field e low = (λ h. cc, λ k. absurd (k e))
enabled_iff (pos (suc n)) field e low = (λ h k. cc, λ k. ground arith)
enabled_iff (negsuc n) field e low = absurd (omega (arith, low))

duration_returns :
    (api : FloatApi) (t : Transfer) (size : ℤ) (w : World)
    → pos 1 ≤ℤ t.rate
    → duration api t size w ≡ returned (duration_of api t size) w
unfolding duration check_transfer
duration_returns api t size w h = let e : leb_ℤ t.rate (pos 0) ≡ false = ground arith in rw e refl

-- A finalized configuration and a limit of zero or more make a transfer, which sets a deadline exactly
-- where the configuration sets a timeout, and whose methods do not panic.
pub config_transfer-IsTransfer :
    (env : EnvApi) (api : FloatApi) (prefix block : Bytes) (c c' : Config) (limit : ℤ)
    → finalize_block env prefix block c ≡ ok c'
    → pos 0 ≤ℤ limit
    → (t : Transfer) × (config_transfer c' limit ≡ some t)
      × IsTransfer t
      × ((t.read ≡ true) ↔ ¬ (c'.read_timeout ≡ some (pos 0)))
      × ((t.write ≡ true) ↔ ¬ (c'.write_timeout ≡ some (pos 0)))
      × ((size : ℤ) (w : World) → duration api t size w ≡ returned (duration_of api t size) w)
config_transfer-IsTransfer env api prefix block c c' limit h low =
    let runs = finalize_block-IsRunnable env prefix block c c' h in
    let (rate, e1, positive) = runs.transfer_rate in
    let (read, e2, read_low) = runs.read_timeout in
    let (write, e3, write_low) = runs.write_timeout in
    let (t, e, made) =
      new_transfer-IsTransfer limit rate (max_ℤ read write) low positive
        (max_nonneg read write read_low) in
    (
      record t { read = ltb_ℤ (pos 0) read; write = ltb_ℤ (pos 0) write },
      config_transfer_lem c' limit rate read write runs.complete e1 e2 e3
          ∙ transfer_of_lem limit rate read write t e,
      record { limit = made.limit; rate = made.rate; grace = made.grace },
      enabled_iff read c'.read_timeout e2 read_low,
      enabled_iff write c'.write_timeout e3 write_low,
      λ size w. duration_returns api _ size w made.rate,
    )
