-- ===== src/Config.antt =====
-- config.go: `Config`, its merging, defaults, environment and validation. A pointer that is read as a
-- value is an `Option`, and a `time.Duration` its nanoseconds. Package config of go-core is `EnvApi`.
pub mod Valid
pub mod Sources
use go_web_sdk.Text.Decimal.{parse_int, print_int}
use go_web_sdk.Text.Int.{ltb_ℤ, pos, ℤ}
use go_web_sdk.Text.{codes, contains_byte, Bytes}
use go_web_sdk.Common.{
  ◌||◌, [], true, ◌++◌, ◌*◌, ◌&&◌, false, not, reject_if, panicked, ◌∷◌, if◌then◌else◌, List, Bool,
  Result, String, Option, ℕ, none, some, ok, err, ◌>>=◌, ◌>>◌,
}

-- `env_name prefix block parts` is `config.EnvName`, `getenv` is `os.Getenv`, and the setters give the
-- field that they leave or the text of their error.
pub record EnvApi : Type 1 where
  pub env_name : Bytes → Bytes → List Bytes → Bytes
  pub getenv : Bytes → Bytes
  pub set_from_env : {A : Type 0} → (Bytes → Option A) → Bytes → Option A → Result Bytes (Option A)
  pub set_duration_from_env : Bytes → Option ℤ → Result Bytes (Option ℤ)

pub record Env : Type 0 where
  pub host : Bytes
  pub port : Bytes
  pub read_timeout : Bytes
  pub read_header_timeout : Bytes
  pub write_timeout : Bytes
  pub idle_timeout : Bytes
  pub transfer_rate : Bytes

pub record Config : Type 0 where
  pub host : Bytes
  pub port : Option ℤ
  pub read_timeout : Option ℤ
  pub read_header_timeout : Option ℤ
  pub write_timeout : Option ℤ
  pub idle_timeout : Option ℤ
  pub max_header_bytes : Option ℤ
  pub transfer_rate : Option ℤ
  pub env : Env

abbrev pub second : ℕ
second = 1000000000

-- The defaults.
abbrev pub default_host : Bytes
default_host = codes "0.0.0.0"

abbrev pub default_port : ℤ
default_port = pos 8080

abbrev pub default_read_timeout : ℤ
default_read_timeout = pos (30 * second)

abbrev pub default_read_header_timeout : ℤ
default_read_header_timeout = pos (5 * second)

abbrev pub default_write_timeout : ℤ
default_write_timeout = pos (30 * second)

abbrev pub default_idle_timeout : ℤ
default_idle_timeout = pos (120 * second)

abbrev pub default_transfer_rate : ℤ
default_transfer_rate = pos 65536

-- `net.JoinHostPort`
unfoldable pub join_host_port : Bytes → Bytes → Bytes
unfolding contains_byte
join_host_port host port =
    if contains_byte host b':'
    then codes "[" ++ (host ++ (codes "]:" ++ port))
    else host ++ (codes ":" ++ port)

abbrev pub port_or_zero : Option ℤ → ℤ
port_or_zero none = pos 0
port_or_zero (some p) = p

-- `Config.Addr`
unfoldable pub addr : Config → Bytes
unfolding join_host_port print_int
addr c = join_host_port c.host (print_int (port_or_zero c.port))

-- `if src.F != nil { c.F = src.F }`
abbrev pub over {ℓ} : {A : Type ℓ} → Option A → Option A → Option A
over none field = field
over (some v) field = some v

-- `if c.F == nil { c.F = new(default) }`
abbrev pub or_else {ℓ} : {A : Type ℓ} → Option A → A → Option A
or_else none default = some default
or_else (some v) default = some v

abbrev pub over_text : Bytes → Bytes → Bytes
over_text [] text = text
over_text (c ∷ s) text = c ∷ s

-- `Config.Merge`
unfoldable pub merge : Config → Config → Config
merge c src = record c {
  host = over_text src.host c.host;
  port = over src.port c.port;
  read_timeout = over src.read_timeout c.read_timeout;
  read_header_timeout = over src.read_header_timeout c.read_header_timeout;
  write_timeout = over src.write_timeout c.write_timeout;
  idle_timeout = over src.idle_timeout c.idle_timeout;
  max_header_bytes = over src.max_header_bytes c.max_header_bytes;
  transfer_rate = over src.transfer_rate c.transfer_rate;
}

-- `Config.applyDefaults`
unfoldable pub apply_config_defaults : Config → Config
apply_config_defaults c = record c {
  host = over_text c.host default_host;
  port = or_else c.port default_port;
  read_timeout = or_else c.read_timeout default_read_timeout;
  read_header_timeout = or_else c.read_header_timeout default_read_header_timeout;
  write_timeout = or_else c.write_timeout default_write_timeout;
  idle_timeout = or_else c.idle_timeout default_idle_timeout;
  transfer_rate = or_else c.transfer_rate default_transfer_rate;
}

-- The error of a setter, or a field's invalid value; panics are a nil pointer's.
pub data ConfigError : Type 0 where
  bad_variable : Bytes → ConfigError
  invalid : Bytes → ℤ → ConfigError

-- `*c.F`
abbrev pub deref {ℓ} : {A : Type ℓ} → Option A → Result ConfigError A
deref none = panicked
deref (some v) = ok v

unfoldable pub check_least : String → ℤ → Option ℤ → Result ConfigError (Unit {0})
check_least name least field =
    deref field >>= λ v. reject_if (ltb_ℤ v least) (invalid (codes name) v)

-- The check of a field that may stay unset.
unfoldable pub check_set : String → ℤ → Option ℤ → Result ConfigError (Unit {0})
unfolding check_least
check_set name least none = ok tt
check_set name least (some v) = check_least name least (some v)

abbrev pub valid_port : ℤ → Bool
valid_port p = not (ltb_ℤ p (pos 0) || ltb_ℤ (pos 65535) p)

-- `Config.validate`
unfoldable pub validate : Config → Result ConfigError (Unit {0})
unfolding check_least check_set
validate c = do
  port ← deref c.port
  reject_if (not (valid_port port)) (invalid (codes "port") port)
  check_least "read_timeout" (pos 0) c.read_timeout
  check_least "read_header_timeout" (pos 0) c.read_header_timeout
  check_least "write_timeout" (pos 0) c.write_timeout
  check_least "idle_timeout" (pos 0) c.idle_timeout
  check_set "max_header_bytes" (pos 0) c.max_header_bytes
  check_least "transfer_rate" (pos 1) c.transfer_rate

abbrev pub is_given {ℓ} : {A : Type ℓ} → Option A → Bool
is_given none = false
is_given (some v) = true

-- `Config.finalized`
unfoldable pub finalized : Config → Bool
finalized c =
    is_given c.port
    && (is_given c.read_timeout
        && (is_given c.read_header_timeout
            && (is_given c.write_timeout && (is_given c.idle_timeout && is_given c.transfer_rate))))

-- The setter's error under its own constructor.
abbrev pub from_env {ℓ} : {A : Type ℓ} → Result Bytes A → Result ConfigError A
from_env (ok a) = ok a
from_env (err t) = err (bad_variable t)
from_env panicked = panicked

module _ (api : EnvApi) where
  open api use {env_name, getenv, set_from_env, set_duration_from_env}

  -- `newEnv`
  unfoldable pub new_env : Bytes → Bytes → Env
  new_env prefix block = record {
    host = env_name prefix block (codes "host" ∷ []);
    port = env_name prefix block (codes "port" ∷ []);
    read_timeout = env_name prefix block (codes "read" ∷ codes "timeout" ∷ []);
    read_header_timeout =
        env_name prefix block (codes "read" ∷ codes "header" ∷ codes "timeout" ∷ []);
    write_timeout = env_name prefix block (codes "write" ∷ codes "timeout" ∷ []);
    idle_timeout = env_name prefix block (codes "idle" ∷ codes "timeout" ∷ []);
    transfer_rate = env_name prefix block (codes "transfer" ∷ codes "rate" ∷ []);
  }

  -- `Config.applyEnv`
  unfoldable pub apply_env : Config → Result ConfigError Config
  unfolding parse_int
  apply_env c = do
    port ← from_env (set_from_env parse_int c.env.port c.port)
    read ← from_env (set_duration_from_env c.env.read_timeout c.read_timeout)
    header ← from_env (set_duration_from_env c.env.read_header_timeout c.read_header_timeout)
    write ← from_env (set_duration_from_env c.env.write_timeout c.write_timeout)
    idle ← from_env (set_duration_from_env c.env.idle_timeout c.idle_timeout)
    rate ← from_env (set_from_env parse_int c.env.transfer_rate c.transfer_rate)
    ok (record c {
      host = over_text (getenv c.env.host) c.host;
      port = port;
      read_timeout = read;
      read_header_timeout = header;
      write_timeout = write;
      idle_timeout = idle;
      transfer_rate = rate;
    })

  -- `Config.FinalizeBlock`
  unfoldable pub finalize_block : Bytes → Bytes → Config → Result ConfigError Config
  unfolding new_env apply_config_defaults apply_env validate
  finalize_block prefix block c = do
    c' ← apply_env (apply_config_defaults (record c { env = new_env prefix block }))
    validate c'
    ok c'

  -- `Config.Finalize`
  unfoldable pub finalize : Bytes → Config → Result ConfigError Config
  unfolding finalize_block
  finalize prefix c = finalize_block prefix (codes "server") c
