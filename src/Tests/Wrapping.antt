-- ===== src/Tests/Wrapping.antt =====
-- The bundled middleware and the version precondition at fixed requests.
use mathlib.Core.List.{Mem}
use go_web_sdk.Caching.Tags.{Tag}
use go_web_sdk.Http.Request.{with_request_id}
use go_web_sdk.Bundled.Recoverer.Answers.{with_panic, recoverer-Answers}
use go_web_sdk.Text.Int.{negsuc}
use go_web_sdk.Problem.Written.{IsProblem}
use go_web_sdk.Text.Decimal.{print_int}
use go_web_sdk.Conditional.Versions.{parse_version_iff, Spells, if_match-entity_tag, entity_tag}
use go_web_sdk.Tests.Fixtures.{request, start}
use go_web_sdk.Bundled.RequestId.Safe.{identify-IsSafe, IsSafe}
use go_web_sdk.Common.{
  ◌++◌, ℕ, false, sym, ap, inl, arith, ◌↔◌, true, ok, ◌==◌, refl, ◌≡◌, if◌then◌else◌, ◌≢◌, ◌∷◌, [],
  none, some,
}
use go_web_sdk.Conditional.{if_match, parse_version}
use go_web_sdk.Bundled.Recoverer.{recoverer}
use go_web_sdk.Http.Writer.{set_header, connection, write_header, recorder}
use go_web_sdk.Recorder.{Call, perform_all, Returns, Agrees}
use go_web_sdk.Text.{codes, Bytes}
use go_web_sdk.Http.Handler.{Handler}
use go_web_sdk.Bundled.RequestId.{request_id_header, identify, RequestIdConfig}
use go_web_sdk.Http.World.{
  number, error, LogRecord, abort_handler, World, thrown, PanicValue, ◌>>◌, raise, panicking,
}
use go_web_sdk.Http.Header

-- A source that always declines, behind a trusted header that the request does not carry.
abbrev declining : RequestIdConfig
declining = record { source = some (λ r. []); header = codes "X-Trace" }

abbrev greeting : Handler
greeting wr r = perform_all wr (Call.status 204 ∷ [])

identify-IsSafe_example :
    (id : Bytes) × (w' : World) × IsSafe id
    × (identify declining greeting connection request start
        ≡ (set_header connection request_id_header id
              >> greeting connection
                  (record request { context = with_request_id id request.context }))
            w')
identify-IsSafe_example =
    identify-IsSafe declining greeting connection request start
      λ source e. inl (ap (λ o. elim o [ none ↦ [] | some f ↦ f request ]) (sym e))

abbrev shown : PanicValue → Bytes
shown p = codes "panic"

-- A handler that panics behind a 200.
abbrev half_broken : Handler
half_broken wr r = perform_all wr (Call.status 200 ∷ []) >> raise (thrown (codes "boom"))

no_abort : thrown (codes "boom") ≢ abort_handler
no_abort = cc

-- The world that `half_broken` leaves.
abbrev half_written : World
half_written = record start {
  conn = record (start.conn) { status = some 200 };
  recordings =
      λ i. if i == 0 then record { status = 200; committed = true } else start.recordings i;
}

wrapping : Unit {0}
unfolding perform_all write_header
wrapping = tt

half_broken_runs :
    half_broken (recorder 0 connection) request start
    ≡ panicking (thrown (codes "boom")) half_written
unfolding wrapping
half_broken_runs = refl

recoverer-Answers_example :
    (Agrees 0 none half_written
      → Returns
          (recoverer shown (codes "main.go:1") 0 half_broken (recorder 0 connection) request start)
          (IsProblem 500))
    × ((half_written.recordings 0).committed ≡ true
        → recoverer shown (codes "main.go:1") 0 half_broken (recorder 0 connection) request start
          ≡ panicking abort_handler (
              with_panic shown
                (codes "main.go:1")
                0
                request
                (thrown (codes "boom"))
                (half_written.recordings 0)
                half_written))
    × ((code : ℕ)
        → Agrees 0 (some code) half_written
        → (l : LogRecord) × (recoverer shown
              (codes "main.go:1")
              0
              half_broken
              (recorder 0 connection)
              request
              start
            ≡ panicking abort_handler (record half_written { logs = half_written.logs ++ l ∷ [] }))
          × (l.logger ≡ 0)
          × (l.level ≡ error)
          × Mem (number (codes "http.response.status_code") code) l.attrs)
recoverer-Answers_example =
    recoverer-Answers shown (codes "main.go:1") 0 half_broken request (thrown (codes "boom")) 0
      start half_written half_broken_runs no_abort

parse_version_iff_example :
    (parse_version (entity_tag (codes "-3")) ≡ ok (negsuc 2))
    ↔ ((s : Bytes) × (entity_tag (codes "-3") ≡ entity_tag s) × Spells s (negsuc 2))
parse_version_iff_example = parse_version_iff (entity_tag (codes "-3")) (negsuc 2)

if_match-entity_tag_example :
    if_match (Header.set [] (codes "If-Match") (entity_tag (print_int (negsuc 2)))) ≡ ok (negsuc 2)
if_match-entity_tag_example = if_match-entity_tag [] (negsuc 2) (omega arith)

-- A weak tag whose text has a comma, and a strong one.
abbrev weak_tag : Tag
weak_tag = record { weak = true; opaque = codes "a, b" }

abbrev strong_tag : Tag
strong_tag = record { weak = false; opaque = codes "c" }
