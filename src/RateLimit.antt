-- ===== src/RateLimit.antt =====
-- middleware/rate-limit/ratelimit.go: the configuration of a rate limit, and what a limited client is
-- told. `httprate.LimitBy`, its `CanonicalizeIP`, `net.SplitHostPort` and the text of a duration are
-- parameters.
pub mod Made
use go_web_sdk.Middleware.{Middleware}
use go_web_sdk.Http.Handler.{Handler}
use go_web_sdk.Http.Request.{Request}
use go_web_sdk.Text.Decimal.{print_int, parse_int}
use go_web_sdk.Problem.{send_status, write_for}
use go_web_sdk.Config.{
  invalid, second, from_env, deref, is_given, ConfigError, EnvApi, or_else, over,
}
use go_web_sdk.Text.Int.{ltb_ℤ, leb_ℤ, pos, ℤ}
use go_web_sdk.Text.{codes, Bytes}
use go_web_sdk.Common.{
  ◌++◌, err, panicked, not, [], reject_if, if◌then◌else◌, ok, ◌∷◌, ◌&&◌, ◌*◌, Bool, Result, Option,
  ◌>>=◌, ◌>>◌, Option, some, none,
}

pub record Env : Type 0 where
  pub requests : Bytes
  pub window : Bytes

pub record Config : Type 0 where
  pub requests : Option ℤ
  pub window : Option ℤ
  pub env : Env

abbrev pub default_requests : ℤ
default_requests = pos 300

abbrev pub default_window : ℤ
default_window = pos (60 * second)

-- `Config.Merge`
unfoldable pub merge : Config → Config → Config
merge c src = record c {
  requests = over src.requests c.requests;
  window = over src.window c.window;
}

-- `Config.applyDefaults`
unfoldable pub apply_defaults : Config → Config
apply_defaults c = record c {
  requests = or_else c.requests default_requests;
  window = or_else c.window default_window;
}

-- `Config.validate`
unfoldable pub validate : Config → Result ConfigError (Unit {0})
validate c = do
  requests ← deref c.requests
  reject_if (leb_ℤ requests (pos 0)) (invalid (codes "requests") requests)
  window ← deref c.window
  reject_if (ltb_ℤ window (pos second)) (invalid (codes "window") window)

-- `Config.finalized`
unfoldable pub finalized : Config → Bool
finalized c = is_given c.requests && is_given c.window

module _ (api : EnvApi) where
  open api use {env_name, set_from_env, set_duration_from_env}

  -- `newEnv`
  unfoldable pub new_env : Bytes → Bytes → Env
  new_env prefix block = record {
    requests = env_name prefix block (codes "requests" ∷ []);
    window = env_name prefix block (codes "window" ∷ []);
  }

  -- `Config.applyEnv`
  unfoldable pub apply_env : Config → Result ConfigError Config
  unfolding parse_int
  apply_env c = do
    requests ← from_env (set_from_env parse_int c.env.requests c.requests)
    window ← from_env (set_duration_from_env c.env.window c.window)
    ok (record c { requests = requests; window = window })

  -- `Config.FinalizeBlock`
  unfoldable pub finalize_block : Bytes → Bytes → Config → Result ConfigError Config
  unfolding new_env apply_defaults apply_env validate
  finalize_block prefix block c = do
    c' ← apply_env (apply_defaults (record c { env = new_env prefix block }))
    validate c'
    ok c'

  -- `Config.Finalize`
  unfoldable pub finalize : Bytes → Config → Result ConfigError Config
  unfolding finalize_block
  finalize prefix c = finalize_block prefix (codes "rate_limit") c

-- `httprate.LimitBy`: the requests and the window, the client's key, the handler of a request over the
-- limit, and the one of an error.
abbrev pub LimitBy : Type 0
LimitBy = ℤ → ℤ → (Request → Bytes) → Handler → (Bytes → Handler) → Middleware

module _ (split_host_port : Bytes → Option (Bytes × Bytes)) (canonicalize_ip : Bytes → Bytes) where
  -- `keyByRemoteAddr`
  unfoldable pub key_by_remote_addr : Request → Bytes
  key_by_remote_addr r = elim (split_host_port r.remote_addr) [
    | none ↦ canonicalize_ip r.remote_addr
    | some (host, port) ↦ canonicalize_ip host
  ]

-- `failed`
unfoldable pub failed : Bytes → Handler
unfolding send_status
failed reason wr r = send_status wr r 500 [] (codes "The server could not evaluate the rate limit.")

module _ (print_duration : ℤ → Bytes) where
  -- `limited`
  unfoldable pub limited : ℤ → ℤ → Handler
  unfolding send_status print_int
  limited requests window wr r = send_status wr r 429 [] (
      codes "The client exceeded the limit of "
      ++ (print_int requests ++ (codes " requests per " ++ (print_duration window ++ codes "."))))

  module _ (limit_by : LimitBy) (split_host_port : Bytes → Option (Bytes × Bytes))
      (canonicalize_ip : Bytes → Bytes) where
    -- `New`, on a configuration that is complete.
    unfoldable pub limiter : ℤ → ℤ → Middleware
    unfolding limited failed key_by_remote_addr
    limiter requests window =
        limit_by requests window (key_by_remote_addr split_host_port canonicalize_ip)
          (limited requests window) failed

    -- `New`: a configuration that does not validate is a panic.
    unfoldable pub new {ℓ} : {E : Type ℓ} → Config → Result E Middleware
    unfolding finalized validate limiter
    new c = if not (finalized c) then panicked else elim (validate c) [
      | err e ↦ panicked
      | panicked ↦ panicked
      | ok _ ↦ elim c.requests [
        | none ↦ panicked
        | some n ↦ elim c.window [ none ↦ panicked | some d ↦ ok (limiter n d) ]
      ]
    ]
