-- ===== src/Http/Request.antt =====
-- `http.Request` and `context.Context`, as far as the code reads them.
use go_web_sdk.Common.{leb, ◌&&◌, ◌==◌, ◌||◌, ltb, List, ℕ, Bool, true, false, Option, none, some}
use go_web_sdk.Text.{Bytes}
use go_web_sdk.Text.Int.{ℤ}
use go_web_sdk.Http.Header.{HeaderMap}

-- A context under the values and deadlines that derive it. `ended` stands where the context is
-- cancelled or its deadline has passed, as far as the reader sees it.
pub data Context : Type 0 where
  background : Context
  with_request_id : Bytes → Context → Context
  with_value : ℕ → Context → Context
  with_deadline : ℕ → Context → Context
  ended : Context → Context

-- `ctx.Err() != nil`
unfoldable pub has_ended : Context → Bool
has_ended background = false
has_ended (with_request_id id c) = has_ended c
has_ended (with_value k c) = has_ended c
has_ended (with_deadline d c) = has_ended c
has_ended (ended c) = true

-- requestid.go: `RequestIDFrom`, `none` where no id was set. (`WithRequestID` is the constructor.)
unfoldable pub request_id_from : Context → Option Bytes
request_id_from background = none
request_id_from (with_request_id id c) = some id
request_id_from (with_value k c) = request_id_from c
request_id_from (with_deadline d c) = request_id_from c
request_id_from (ended c) = request_id_from c

pub record Request : Type 0 where
  pub method : Bytes
  pub path : Bytes
  pub request_uri : Bytes
  pub proto_major : ℕ
  pub proto_minor : ℕ
  pub pattern : Bytes
  pub remote_addr : Bytes
  pub header : HeaderMap
  pub content_length : ℤ
  pub body_limits : List ℤ
  pub context : Context

-- `r.ProtoAtLeast(major, minor)`
abbrev pub proto_at_least : Request → ℕ → ℕ → Bool
proto_at_least r major minor =
    ltb major r.proto_major || (r.proto_major == major && leb minor r.proto_minor)
