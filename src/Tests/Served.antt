-- ===== src/Tests/Served.antt =====
-- Probes, stored objects, the access log and content types at fixed inputs.
use go_web_sdk.Response.Objects.{describing, write_object-unopened}
use go_web_sdk.Problem.Written.{IsProblem}
use go_web_sdk.Bundled.AccessLog.Logged.{
  request_logger-IsAccessRecord, seen_status, IsAccessRecord, with_log,
}
use go_web_sdk.Http.Writer.{connection, recorder}
use go_web_sdk.Text.Int.{pos}
use go_web_sdk.Health.{readiness, Check}
use go_web_sdk.Http.Json.{arr, num}
use go_web_sdk.Bundled.ContentType.{content_type, accepting}
use go_web_sdk.Bundled.AccessLog.{request_logger}
use go_web_sdk.Bundled.ContentType.Rejects.{content_type-Filters, IsAccepted}
use go_web_sdk.Middleware.{Middleware}
use go_web_sdk.Http.Request.{Request}
use go_web_sdk.Http.Handler.{Handler}
use go_web_sdk.Caching.{not_modified}
use go_web_sdk.Errors.{opaque, GoError}
use go_web_sdk.Text.{codes, bytes_eq, Bytes}
use go_web_sdk.Response.{unopened, write_object, Opened, Object}
use go_web_sdk.Health.Unready.{IsUnready}
use go_web_sdk.Health.Verdict.{readiness-Answers, IsSent}
use go_web_sdk.Health.Probed.{states, ready_document, AreReady}
use go_web_sdk.Problem.{with_only_status, Problem}
use go_web_sdk.Recorder.{Call, Returns, perform_all, Agrees}
use go_web_sdk.Tests.Fixtures.{start, request}
use go_web_sdk.Http.Header
use go_web_sdk.Http.World.{world_of, returned, LogRecord, Run, World}
use go_web_sdk.Common.{
  All, ok, false, [], true, refl, if◌then◌else◌, ◌∷◌, ◌≡◌, some, Option, List, none, ℕ,
}

start-Agrees : Agrees 0 none start
start-Agrees = record { wire = refl; recorded = refl; status = λ code e. cc; sound = refl }

-- One check that passes, one that has not been asked for yet.
abbrev checks : World → List Check
checks w =
    record { name = codes "db"; checker = some (λ w'. true) }
    ∷ record { name = codes "cache"; checker = none }
    ∷ []

abbrev template : Problem
template = record (with_only_status 500) { extras = (codes "checks", num 1) ∷ [] }

readiness-Answers_example :
    (AreReady start (checks start)
      → Returns
          (readiness template checks (recorder 0 connection) request start)
          (IsSent 200 (ready_document start (checks start)) start))
    × (¬ AreReady start (checks start)
        → Returns
            (readiness template checks (recorder 0 connection) request start)
            (IsUnready template.extras (arr (states start (checks start))) start))
readiness-Answers_example = readiness-Answers template checks request 0 start start-Agrees

abbrev stored : Object
stored = record {
  content_type = codes "image/png";
  size = pos 12;
  etag = codes "a";
  modified_at = some 7;
}

abbrev unparsed : Bytes → Option ℕ
unparsed s = none

abbrev gone : GoError
gone = opaque (codes "gone")

abbrev fail_open : Run Opened
fail_open w = returned (unopened gone) w

is_stale :
    not_modified unparsed (λ t. t) request (record { etag = codes "a"; modified_at = some 7 })
    ≡ false
unfolding not_modified
is_stale = refl

is_get : bytes_eq request.method (codes "HEAD") ≡ false
unfolding bytes_eq
is_get = refl

write_object-unopened_example :
    (w' : World) × (write_object unparsed
        (λ t. t)
        (λ t. codes "then")
        (recorder 0 connection)
        request
        stored
        fail_open
        start
      ≡ returned (some gone) w')
    × Agrees 0 none w'
    × All (λ name. Header.get w'.conn.header name ≡ []) describing
    × (Header.get w'.conn.header (codes "Cache-Control") ≡ codes "no-store")
write_object-unopened_example =
    write_object-unopened unparsed (λ t. t) (λ t. codes "then") request stored fail_open gone 0
      start is_stale is_get (λ w. refl) start-Agrees

-- A probe's handler.
abbrev empty_answer : Handler
empty_answer wr r = perform_all wr (Call.status 204 ∷ [])

abbrev probing : Request
probing = record request { path = codes "/healthz" }

answered-Agrees :
    Agrees 0 (some 204) (world_of (empty_answer (recorder 0 connection) probing start))
unfolding perform_all
answered-Agrees = record { wire = refl; recorded = refl; status = λ code e. cc; sound = refl }

request_logger-IsAccessRecord_example :
    (l : LogRecord) × (request_logger
        (λ r. codes "GET /healthz")
        1
        empty_answer
        (recorder 0 connection)
        probing
        start
      ≡ with_log l (empty_answer (recorder 0 connection) probing start))
    × IsAccessRecord 1 probing
        (seen_status (some 204) (empty_answer (recorder 0 connection) probing start))
        l
request_logger-IsAccessRecord_example =
    request_logger-IsAccessRecord (λ r. codes "GET /healthz") 1 empty_answer probing 0 (some 204)
      start answered-Agrees

-- A parser that knows one type.
abbrev parse_json : Bytes → Option (Bytes × List (Bytes × Bytes))
parse_json s = if bytes_eq s (codes "application/json") then some (s, []) else none

abbrev json_only : Middleware
json_only = accepting parse_json (codes "application/json" ∷ [])

makes_json_only : content_type parse_json {E = Bytes} (codes "application/json" ∷ []) ≡ ok json_only
unfolding content_type bytes_eq
makes_json_only = refl

content_type-Filters_example :
    (IsAccepted parse_json
        (codes "application/json" ∷ [])
        (Header.get request.header (codes "Content-Type"))
      → json_only empty_answer (recorder 0 connection) request start
        ≡ empty_answer (recorder 0 connection) request start)
    × (¬ IsAccepted parse_json
          (codes "application/json" ∷ [])
          (Header.get request.header (codes "Content-Type"))
        → Agrees 0 none start
        → Returns (json_only empty_answer (recorder 0 connection) request start) (IsProblem 415))
content_type-Filters_example =
    content_type-Filters parse_json {E = Bytes} (codes "application/json" ∷ []) json_only
      empty_answer request 0 start makes_json_only
