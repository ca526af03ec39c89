-- ===== src/Tests/Configured.antt =====
-- Configurations and transfers at fixed inputs.
use native.Mathlib.Nat.{le-div_iff_mul-le, div-mul-le_self, le_trans, mul-le-mul_right}
use go_web_sdk.Transfer.Bounds.{duration_of-Bounded, IsTransfer, FloatLaws}
use go_web_sdk.Transfer.{max_duration, duration_of, Transfer, FloatApi}
use go_web_sdk.Text.Int.{◌<ℤ◌, max_int, negsuc, pos_part, ◌≤ℤ◌, ℤ, pos}
use go_web_sdk.Text.Decimal.{parse_int}
use go_web_sdk.Common.{
  ◌⊎◌, true, leb, ◌+◌, ◌*◌, ◌/◌, arith, ◌≤◌, ℕ, refl, err, ok, ◌≡◌, some, none, ◌∷◌, Result, [],
  Option, if◌then◌else◌,
}
use go_web_sdk.Config.Valid.{finalize_block-IsRunnable, IsRunnable}
use go_web_sdk.Text.{bytes_eq, codes, join, Bytes}
use go_web_sdk.Config.{
  second, default_transfer_rate, default_idle_timeout, default_read_header_timeout,
  default_read_timeout, new_env, finalized, Config, EnvApi, finalize_block,
}

-- One variable is set, and a duration is its nanoseconds.
abbrev value_of : Bytes → Bytes
value_of name = if bytes_eq name (codes "app_server_port") then codes "9000" else []

abbrev set_value {ℓ} :
    {A : Type ℓ} → (Bytes → Option A) → Bytes → Bytes → Option A → Result Bytes (Option A)
set_value parse name [] field = ok field
set_value parse name (c ∷ s) field = elim (parse (c ∷ s)) [ some a ↦ ok (some a) | none ↦ err name ]

abbrev pub env : EnvApi
env = record {
  env_name = λ prefix block parts. join (prefix ∷ block ∷ parts) (codes "_");
  getenv = value_of;
  set_from_env = λ parse name field. set_value parse name (value_of name) field;
  set_duration_from_env = λ name field. set_value parse_int name (value_of name) field;
}

-- A configuration with a write timeout that is disabled.
abbrev given : Config
given = record {
  host = [];
  port = none;
  read_timeout = none;
  read_header_timeout = none;
  write_timeout = some (pos 0);
  idle_timeout = none;
  max_header_bytes = none;
  transfer_rate = none;
  env = new_env env [] [];
}

abbrev resolved : Config
resolved = record {
  host = codes "0.0.0.0";
  port = some (pos 9000);
  read_timeout = some default_read_timeout;
  read_header_timeout = some default_read_header_timeout;
  write_timeout = some (pos 0);
  idle_timeout = some default_idle_timeout;
  max_header_bytes = none;
  transfer_rate = some default_transfer_rate;
  env = new_env env (codes "app") (codes "server");
}

resolves : finalize_block env (codes "app") (codes "server") given ≡ ok resolved
unfolding finalize_block finalized bytes_eq join
resolves = refl

finalize_block-IsRunnable_example : IsRunnable resolved
finalize_block-IsRunnable_example =
    finalize_block-IsRunnable env (codes "app") (codes "server") given resolved resolves

-- The numbers from zero on, for float64.
abbrev float : FloatApi
float = record {
  Float = ℕ;
  from_int = pos_part;
  div = λ x y. x / y;
  mul = λ x y. x * y;
  add = λ x y. x + y;
  at_max = λ x. leb max_int x;
  truncated = λ x. pos x;
}

pos_part_mono : (a b : ℤ) → a ≤ℤ b → pos_part a ≤ pos_part b
pos_part_mono (pos a) (pos b) h = omega (arith, h)
pos_part_mono (pos a) (negsuc b) h = omega (arith, h)
pos_part_mono (negsuc a) b h = omega arith

div_mono : (x y d : ℕ) → 1 ≤ d → x ≤ y → x / d ≤ y / d
div_mono x y d h k =
    let (forth, back) = le-div_iff_mul-le {k = d} {x = x / d} {y = y} (omega (arith, h)) in
    back (le_trans (div-mul-le_self x d) k)

float_laws : FloatLaws float (λ x y. x ≤ y)
float_laws = record {
  from_int_mono = pos_part_mono;
  div_mono = λ x y r h k. div_mono x y (pos_part r) (omega (arith, h)) k;
  mul_mono = λ x y k h. mul-le-mul_right k h;
  add_mono = λ z x y h. omega (arith, h);
  spent_nonneg = λ n r k h h'. omega arith;
  add_grows = λ z x h. omega arith;
  le_trans = λ x y z h k. omega (arith, h, k);
  at_max_mono = λ x y h k. ground arith;
  truncated_mono = λ x y h k. ground arith;
  truncated_low = λ x h. ground arith;
  exact = λ n h. refl;
}

abbrev transfer : Transfer
transfer = record {
  limit = pos 1000000;
  rate = pos 65536;
  grace = pos (30 * second);
  read = true;
  write = true;
}

transfer-IsTransfer : IsTransfer transfer
transfer-IsTransfer = record { limit = omega arith; rate = omega arith; grace = omega arith }

duration_of-Bounded_example :
    (pos (30 * second) ≤ℤ duration_of float transfer (pos 5000))
    × (duration_of float transfer (pos 5000) ≤ℤ max_duration)
    × ((other : ℤ)
        → pos 0 ≤ℤ pos 5000
        → pos 5000 ≤ℤ other
        → duration_of float transfer (pos 5000) ≤ℤ duration_of float transfer other)
    × ((pos 5000 <ℤ pos 0) ⊎ (pos 1000000 <ℤ pos 5000)
        → duration_of float transfer (pos 5000) ≡ duration_of float transfer (pos 1000000))
duration_of-Bounded_example =
    duration_of-Bounded float (λ x y. x ≤ y) float_laws transfer (30 * second) (pos 5000)
      transfer-IsTransfer refl (omega arith)
