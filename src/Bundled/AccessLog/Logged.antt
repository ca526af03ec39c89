-- ===== src/Bundled/AccessLog/Logged.antt =====
-- middleware/logger.go: what the access log says of a response.
use go_web_sdk.Http.Handler.{Handler}
use go_web_sdk.Http.Writer.{connection, recorder, load, recording, wrap_writer}
use go_web_sdk.Recorder.{Agrees}
use go_web_sdk.Bundled.Recoverer.{append_request_id}
use go_web_sdk.Bundled.Selection.{not_probe}
use go_web_sdk.Text.{codes, Bytes}
use go_web_sdk.Bundled.AccessLog.{
  log_attrs, recording, logged_status, wrap_writer, log_access, request_logger, logged, List, info,
  Attr, append_request_id, number, Bool, [], not_probe, access_attrs, Bytes, access_level,
}
use go_web_sdk.Http.Request.{request_id_from, Request}
use go_web_sdk.Http.World.{
  PanicValue, log_attrs, world_of, abort_handler, World, info, Attr, number, panicking, returned,
  debug, Outcome, LogRecord,
}
use mathlib.Core.List.{Mem, mem-cons_self, mem-cons_of_mem, mem-append_right, mem-append_left}
use go_web_sdk.Common.{
  ◌-◌, List, ◌≢◌, arith, refl, true, Bool, ◌<◌, ◌≤◌, [], false, ◌∷◌, none, ◌↔◌, ◌++◌, some, ◌≡◌,
  Option, ℕ,
}

-- The status that the client sees: the one on the wire, or what net/http makes of an outcome that left
-- none there.
abbrev pub seen_status : Option ℕ → Outcome (Unit {0}) → ℕ
seen_status (some code) o = code
seen_status none (returned a w) = 200
seen_status none (panicking p w) = 500

-- The outcome in a world with one more record.
abbrev pub with_log : LogRecord → Outcome (Unit {0}) → Outcome (Unit {0})
with_log l (returned a w) = returned a (record w { logs = w.logs ++ l ∷ [] })
with_log l (panicking p w) = panicking p (record w { logs = w.logs ++ l ∷ [] })

-- The record is of this logger, names the status, and is at debug for a successful probe and at info
-- for all else.
pub record IsAccessRecord (logger : ℕ) (r : Request) (status : ℕ) (l : LogRecord) : Type 0 where
  pub by : l.logger ≡ logger
  pub names : Mem (number (codes "http.response.status_code") status) l.attrs
  pub quiet : (l.level ≡ debug) ↔ ((not_probe r ≡ false) × (200 ≤ status) × (status < 300))
  pub spoken : l.level ≢ debug → l.level ≡ info

abbrev access_record : ℕ → Request → Bytes → ℕ → ℕ → LogRecord
access_record logger r pattern status duration = record {
  logger = logger;
  level = access_level r status;
  message = codes "request";
  attrs = access_attrs r pattern status duration;
}

debug_lem :
    (r : Request) (status : ℕ)
    → (access_level r status ≡ debug) ↔ ((not_probe r ≡ false) × (200 ≤ status) × (status < 300))
unfolding access_level
debug_lem r status = by_cases (not_probe r) refl
  where
    by_cases :
        (b : Bool)
        → not_probe r ≡ b
        → (access_level r status ≡ debug)
          ↔ ((not_probe r ≡ false) × (200 ≤ status) × (status < 300))
    by_cases true e = (λ h. ground arith, λ (probe, low, high). ground arith)
    by_cases false e = (λ h. ground arith, λ (probe, low, high). ground arith)

-- The record stands among the attributes whatever the request's route and id.
append_request_id-Mem :
    (a : Attr) (attrs : List Attr) (r : Request) → Mem a attrs → Mem a (append_request_id attrs r)
unfolding append_request_id
append_request_id-Mem a attrs r h = by_id (request_id_from r.context) refl
  where
    by_id : (o : Option Bytes) → request_id_from r.context ≡ o → Mem a (append_request_id attrs r)
    by_id none e = rw (e, append_request_id) h
    by_id (some []) e = rw (e, append_request_id) h
    by_id (some (c ∷ id)) e = rw (e, append_request_id) (mem-append_left _ h)

access_attrs-Mem :
    (r : Request) (pattern : Bytes) (status duration : ℕ)
    → Mem
        (number (codes "http.response.status_code") status)
        (access_attrs r pattern status duration)
unfolding access_attrs
access_attrs-Mem r pattern status duration =
    append_request_id-Mem _ _ r
      (mem-cons_of_mem _ (mem-cons_of_mem _ (mem-append_right _ mem-cons_self)))

spoken_lem :
    (r : Request) (status : ℕ) → access_level r status ≢ debug → access_level r status ≡ info
unfolding access_level
spoken_lem r status h = ground arith

access_record-IsAccessRecord :
    (logger : ℕ) (r : Request) (pattern : Bytes) (status duration : ℕ)
    → IsAccessRecord logger r status (access_record logger r pattern status duration)
access_record-IsAccessRecord logger r pattern status duration = record {
  by = refl;
  names = access_attrs-Mem r pattern status duration;
  quiet = debug_lem r status;
  spoken = spoken_lem r status;
}

-- The recorder's own account of the status is the client's.
seen_lem :
    (at : ℕ) (s : Option ℕ) (w : World) (p : PanicValue)
    → Agrees at s w
    → (logged_status (w.recordings at) true ≡ seen_status s (returned tt w))
      × (logged_status (w.recordings at) false ≡ seen_status s (panicking p w))
seen_lem at none w p h = rw (h.recorded) (refl, refl)
seen_lem at (some code) w p h = rw (h.recorded) (h.status code refl, h.status code refl)

logged_lem :
    (matched : Request → Bytes) (logger : ℕ) (r : Request) (at start : ℕ) (s : Option ℕ)
    (o : Outcome (Unit {0}))
    → Agrees at s (world_of o)
    → logged matched logger (recorder at connection) r start o
      ≡ with_log
          (access_record logger r (matched r) (seen_status s o) ((world_of o).clock - start))
          o
unfolding logged log_access recording load log_attrs
logged_lem matched logger r at start s (returned u w) h =
    rw ((seen_lem at s w abort_handler h).0) refl
logged_lem matched logger r at start s (panicking p w) h = rw ((seen_lem at s w p h).1) refl

-- Whatever the handler does, the request logger adds one record to the log and passes the outcome on,
-- a panic included. The record names the status that the client sees: the one on the wire, and with
-- none there 200 where the handler returned and 500 where it panicked. It is at debug just for a
-- probe's 2xx, and otherwise at info. (The recorder agrees with the wire when the handler ends.)
pub request_logger-IsAccessRecord :
    (matched : Request → Bytes) (logger : ℕ) (next : Handler) (r : Request) (at : ℕ) (s : Option ℕ)
    (w : World)
    → Agrees at s (world_of (next (recorder at connection) r w))
    → (l : LogRecord) × (request_logger matched logger next (recorder at connection) r w
        ≡ with_log l (next (recorder at connection) r w))
      × IsAccessRecord logger r (seen_status s (next (recorder at connection) r w)) l
unfolding request_logger wrap_writer
request_logger-IsAccessRecord matched logger next r at s w h =
    let o = next (recorder at connection) r w in
    (
      access_record logger r (matched r) (seen_status s o) ((world_of o).clock - w.clock),
      logged_lem matched logger r at w.clock s o h,
      access_record-IsAccessRecord logger r (matched r) (seen_status s o)
          ((world_of o).clock - w.clock),
    )
