-- ===== src/Config/Valid.antt =====
-- config.go: what `Config.validate` lets through.
use go_web_sdk.Text.{codes, Bytes}
use go_web_sdk.Config.{
  new_env, codes, apply_config_defaults, invalid, apply_env, valid_port, Bytes, EnvApi, pos, deref,
  is_given, finalized, finalize_block, validate, check_set, check_least, Config,
}
use go_web_sdk.Text.Int.{negsuc, ◌≤ℤ◌, pos, ℤ}
use go_web_sdk.Common.{
  refl, >>-eq-ok, subst, ap, >>=-eq-ok, not, arith, true, reject_if, String, ◌≡◌, Option, none,
  some, ok,
}

-- The field is set, to `least` or more.
abbrev pub IsAtLeast : ℤ → Option ℤ → Type 0
IsAtLeast least field = (v : ℤ) × (field ≡ some v) × (least ≤ℤ v)

-- A configuration that a server and a transfer accept.
pub record IsRunnable (c : Config) : Type 0 where
  pub complete : finalized c ≡ true
  pub port : (p : ℤ) × (c.port ≡ some p) × (pos 0 ≤ℤ p) × (p ≤ℤ pos 65535)
  pub read_timeout : IsAtLeast (pos 0) c.read_timeout
  pub read_header_timeout : IsAtLeast (pos 0) c.read_header_timeout
  pub write_timeout : IsAtLeast (pos 0) c.write_timeout
  pub idle_timeout : IsAtLeast (pos 0) c.idle_timeout
  pub max_header_bytes : (n : ℤ) → c.max_header_bytes ≡ some n → pos 0 ≤ℤ n
  pub transfer_rate : IsAtLeast (pos 1) c.transfer_rate

check_least-eq-ok :
    (name : String) (least : ℤ) (field : Option ℤ) (u : Unit {0})
    → check_least name least field ≡ ok u
    → IsAtLeast least field
unfolding check_least
check_least-eq-ok name least none u h = cc
check_least-eq-ok name least (some v) u h = (v, refl, ground arith)

check_port-eq-ok :
    (p : ℤ) (u : Unit {0})
    → reject_if (not (valid_port p)) (invalid (codes "port") p) ≡ ok u
    → (pos 0 ≤ℤ p) × (p ≤ℤ pos 65535)
check_port-eq-ok (pos n) u h = (omega arith, ground arith)
check_port-eq-ok (negsuc n) u h = (ground arith, ground arith)

is_given_of : (least : ℤ) (field : Option ℤ) → IsAtLeast least field → is_given field ≡ true
is_given_of least field (v, e, _) = ap is_given e

pub deref-eq-ok : (o : Option ℤ) (v : ℤ) → deref o ≡ ok v → o ≡ some v
deref-eq-ok none v h = cc
deref-eq-ok (some w) v h = cc

header_limit-eq-ok :
    (o : Option ℤ) (u : Unit {0})
    → check_set "max_header_bytes" (pos 0) o ≡ ok u
    → (n : ℤ) → o ≡ some n
    → pos 0 ≤ℤ n
unfolding check_set
header_limit-eq-ok none u h n e = cc
header_limit-eq-ok (some m) u h n e =
    let (v, k, low) = check_least-eq-ok "max_header_bytes" (pos 0) (some m) u h in
    let same : v ≡ n = cc in subst (λ z. pos 0 ≤ℤ z) same low

validate-eq-ok : (c : Config) (u : Unit {0}) → validate c ≡ ok u → IsRunnable c
unfolding validate finalized
validate-eq-ok c u h =
    let (p, e0, h0) = >>=-eq-ok (deref c.port) _ h in
    let (e1, h1) = >>-eq-ok (reject_if (not (valid_port p)) (invalid (codes "port") p)) _ h0 in
    let (e2, h2) = >>-eq-ok (check_least "read_timeout" (pos 0) c.read_timeout) _ h1 in
    let (e3, h3) =
      >>-eq-ok (check_least "read_header_timeout" (pos 0) c.read_header_timeout) _ h2 in
    let (e4, h4) = >>-eq-ok (check_least "write_timeout" (pos 0) c.write_timeout) _ h3 in
    let (e5, h5) = >>-eq-ok (check_least "idle_timeout" (pos 0) c.idle_timeout) _ h4 in
    let (e6, h6) = >>-eq-ok (check_set "max_header_bytes" (pos 0) c.max_header_bytes) _ h5 in
    let r1 = check_least-eq-ok "read_timeout" (pos 0) c.read_timeout tt e2 in
    let r2 = check_least-eq-ok "read_header_timeout" (pos 0) c.read_header_timeout tt e3 in
    let r3 = check_least-eq-ok "write_timeout" (pos 0) c.write_timeout tt e4 in
    let r4 = check_least-eq-ok "idle_timeout" (pos 0) c.idle_timeout tt e5 in
    let r5 = check_least-eq-ok "transfer_rate" (pos 1) c.transfer_rate u h6 in
    let (low, high) = check_port-eq-ok p tt e1 in
    let there = deref-eq-ok c.port p e0 in
    record {
      complete =
          rw
            (
              there,
              is_given_of (pos 0) c.read_timeout r1,
              is_given_of (pos 0) c.read_header_timeout r2,
              is_given_of (pos 0) c.write_timeout r3,
              is_given_of (pos 0) c.idle_timeout r4,
              is_given_of (pos 1) c.transfer_rate r5,
              finalized,
            )
            refl;
      port = (p, there, low, high);
      read_timeout = r1;
      read_header_timeout = r2;
      write_timeout = r3;
      idle_timeout = r4;
      max_header_bytes = header_limit-eq-ok c.max_header_bytes tt e6;
      transfer_rate = r5;
    }

-- A configuration that is finalized without an error is complete and in range: the port is one from 0
-- to 65535, no timeout and no header limit is negative, and the transfer rate is positive.
pub finalize_block-IsRunnable :
    (api : EnvApi) (prefix block : Bytes) (c c' : Config)
    → finalize_block api prefix block c ≡ ok c'
    → IsRunnable c'
unfolding finalize_block
finalize_block-IsRunnable api prefix block c c' h =
    let (c1, e1, h1) =
      >>=-eq-ok
        (apply_env api (apply_config_defaults (record c { env = new_env api prefix block }))) _ h in
    let (e2, h2) = >>-eq-ok (validate c1) (ok c1) h1 in
    let same : c1 ≡ c' = cc in subst IsRunnable same (validate-eq-ok c1 tt e2)
