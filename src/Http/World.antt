-- ===== src/Http/World.antt =====
-- The state that a handler works on, and the effects of a handler: it returns, or it panics.
use go_web_sdk.Common.{[], ◌∷◌, ◌++◌, ℕ, Bool, true, false, Option, List}
use go_web_sdk.Text.{Bytes}
use go_web_sdk.Http.Header.{HeaderMap}
use go_web_sdk.Http.Json.{Json}

pub data Chunk : Type 0 where
  raw : Bytes → Chunk
  json : Json → Chunk

-- The connection's response as net/http keeps it. `status` is the final status on the wire with the
-- headers `sent` beside it, and `fault` the text of the error with which each write of the body fails.
pub record Conn : Type 0 where
  pub header : HeaderMap
  pub status : Option ℕ
  pub sent : HeaderMap
  pub informational : List ℕ
  pub body : List Chunk
  pub fault : Option Bytes

-- The mutable fields of a `Recorder`.
pub record Recording : Type 0 where
  pub status : ℕ
  pub committed : Bool

-- miss.go: the fields of a `missRecorder`; status 0 means none was given.
pub record Miss : Type 0 where
  pub header : HeaderMap
  pub status : ℕ

pub data Level : Type 0 where
  debug info warn error : Level

pub data Attr : Type 0 where
  text : Bytes → Bytes → Attr
  number : Bytes → ℕ → Attr

pub record LogRecord : Type 0 where
  pub logger : ℕ
  pub level : Level
  pub message : Bytes
  pub attrs : List Attr

-- The connection's deadlines in nanoseconds, `none` for none; `refusal` is how it answers a change of
-- one: not at all, that it has none (`unsupported`), or with an error.
pub data Refusal : Type 0 where
  unsupported : Refusal
  failing : Bytes → Refusal

pub record Deadlines : Type 0 where
  pub read : Option ℕ
  pub write : Option ℕ
  pub refusal : Option Refusal

-- The recorders stand on a heap, each kind on its own, `next` being the first address free in both.
-- `entropy` is what the random source gives next, a byte of it modulo 256.
pub record World : Type 0 where
  pub conn : Conn
  pub recordings : ℕ → Recording
  pub misses : ℕ → Miss
  pub next : ℕ
  pub logs : List LogRecord
  pub entropy : ℕ → ℕ
  pub clock : ℕ
  pub deadlines : Deadlines

pub data PanicValue : Type 0 where
  abort_handler nil_dereference : PanicValue
  invalid_status : ℕ → PanicValue
  thrown : Bytes → PanicValue

pub data Outcome {ℓ} (A : Type ℓ) : Type ℓ where
  returned : A → World → Outcome A
  panicking : PanicValue → World → Outcome A

abbrev pub Run {ℓ} : Type ℓ → Type ℓ
Run A = World → Outcome A

abbrev pub Effect : Type 0
Effect = Run (Unit {0})

abbrev pub pure {ℓ} : {A : Type ℓ} → A → Run A
pure a w = returned a w

abbrev pub raise {ℓ} : {A : Type ℓ} → PanicValue → Run A
raise p w = panicking p w

abbrev pub continue {ℓ κ} : {A : Type ℓ} {B : Type κ} → Outcome A → (A → Run B) → Outcome B
continue (returned a w) f = f a w
continue (panicking p w) f = panicking p w

infixl 5 ◌>>=◌ ◌>>◌
abbrev pub ◌>>=◌ {ℓ κ} : {A : Type ℓ} {B : Type κ} → Run A → (A → Run B) → Run B
◌>>=◌ m f w = continue (m w) f

abbrev pub ◌>>◌ {ℓ} : {B : Type ℓ} → Effect → Run B → Run B
m >> k = m >>= λ _. k

abbrev pub when : Bool → Effect → Effect
when true m = m
when false m = pure tt

-- `logger.LogAttrs`
unfoldable pub log_attrs : ℕ → Level → Bytes → List Attr → Effect
log_attrs logger level message attrs w = returned tt (record w {
  logs = w.logs ++ record { logger = logger; level = level; message = message; attrs = attrs } ∷ [];
})

-- The world that an outcome leaves.
abbrev pub world_of {ℓ} : {A : Type ℓ} → Outcome A → World
world_of (returned a w) = w
world_of (panicking p w) = w
