-- ===== src/Config/Sources.antt =====
-- config.go: where each value of a finalized configuration comes from.
use go_web_sdk.Text.Decimal.{parse_int}
use go_web_sdk.Text.Int.{pos, ℤ}
use go_web_sdk.Text.{codes, Bytes}
use go_web_sdk.Config.{
  pos, codes, default_transfer_rate, default_idle_timeout, default_write_timeout,
  default_read_header_timeout, default_read_timeout, default_port, parse_int, default_host,
  over_text, is_given, Config, or_else, ℤ, EnvApi,
}
use go_web_sdk.Common.{true, ◌≢◌, [], ◌∷◌, ◌≡◌, Option, none, some, ok, err}

-- What the code relies on: an unset or empty variable leaves the field as it is, a set one is parsed into
-- it, and one that does not parse is an error.
pub record EnvLaws (api : EnvApi) (parse_duration : Bytes → Option ℤ) : Type 1 where
  pub unset :
      {A : Type 0} (parse : Bytes → Option A) (name : Bytes) (field : Option A)
      → api.getenv name ≡ []
      → api.set_from_env parse name field ≡ ok field
  pub set :
      {A : Type 0} (parse : Bytes → Option A) (name : Bytes) (field : Option A) (a : A)
      → api.getenv name ≢ []
      → parse (api.getenv name) ≡ some a
      → api.set_from_env parse name field ≡ ok (some a)
  pub refused :
      {A : Type 0} (parse : Bytes → Option A) (name : Bytes) (field : Option A)
      → api.getenv name ≢ []
      → parse (api.getenv name) ≡ none
      → (text : Bytes) × (api.set_from_env parse name field ≡ err text)
  pub durations :
      (name : Bytes) (field : Option ℤ)
      → api.set_duration_from_env name field ≡ api.set_from_env parse_duration name field

-- The variable's value where it is set, else the configured one, else the default.
abbrev pub chosen {ℓ} : {A : Type ℓ} → (Bytes → Option A) → Bytes → Option A → A → Option A
chosen parse [] field default = or_else field default
chosen parse (c ∷ s) field default = parse (c ∷ s)

-- Every value of the finalized configuration is the chosen one.
pub record Resolves (api : EnvApi) (parse_duration : Bytes → Option ℤ) (c c' : Config)
    : Type 0 where
  pub host : c'.host ≡ over_text (api.getenv c.env.host) (over_text c.host default_host)
  pub port : c'.port ≡ chosen parse_int (api.getenv c.env.port) c.port default_port
  pub read_timeout :
      c'.read_timeout
      ≡ chosen parse_duration (api.getenv c.env.read_timeout) c.read_timeout default_read_timeout
  pub read_header_timeout :
      c'.read_header_timeout
      ≡ chosen parse_duration
          (api.getenv c.env.read_header_timeout)
          c.read_header_timeout
          default_read_header_timeout
  pub write_timeout :
      c'.write_timeout
      ≡ chosen parse_duration (api.getenv c.env.write_timeout) c.write_timeout default_write_timeout
  pub idle_timeout :
      c'.idle_timeout
      ≡ chosen parse_duration (api.getenv c.env.idle_timeout) c.idle_timeout default_idle_timeout
  pub max_header_bytes : c'.max_header_bytes ≡ c.max_header_bytes
  pub transfer_rate :
      c'.transfer_rate
      ≡ chosen parse_int (api.getenv c.env.transfer_rate) c.transfer_rate default_transfer_rate

-- What a setter leaves in a field with a default, at the variable's value.
abbrev IsChosen : (Bytes → Option ℤ) → Bytes → Option ℤ → ℤ → Option ℤ → Type 0
IsChosen parse value field default o = (o ≡ chosen parse value field default) × (is_given o ≡ true)

-- The fields that have defaults are set.
record IsComplete (c : Config) : Type 0 where
  port : is_given c.port ≡ true
  read_timeout : is_given c.read_timeout ≡ true
  read_header_timeout : is_given c.read_header_timeout ≡ true
  write_timeout : is_given c.write_timeout ≡ true
  idle_timeout : is_given c.idle_timeout ≡ true
  transfer_rate : is_given c.transfer_rate ≡ true
