-- ===== src/Bundled/AccessLog.antt =====
-- middleware/logger.go: `RequestLogger`, `routeOf`. (`appendRequestID` stands with the recoverer.)
pub mod Logged
use go_web_sdk.Middleware.{Middleware}
use go_web_sdk.Http.Writer.{wrap_writer, Writer, recording}
use go_web_sdk.Http.Request.{Request}
use go_web_sdk.Bundled.Recoverer.{append_request_id}
use go_web_sdk.Bundled.Selection.{not_probe}
use go_web_sdk.Http.World.{
  raise, number, info, debug, panicking, returned, Effect, text, Outcome, log_attrs, Attr, Level,
  Recording,
}
use go_web_sdk.Text.{is_empty, codes, trim_left, Bytes}
use go_web_sdk.Common.{
  ◌-◌, false, ◌++◌, ltb, [], true, leb, some, ◌&&◌, ◌∷◌, not, none, ◌||◌, List, if◌then◌else◌,
  Option, ◌==◌, Bool, ℕ,
}
use go_web_sdk.Http.World.{◌>>=◌, ◌>>◌}

abbrev pub is_blank : ℕ → Bool
is_blank c = c == b' ' || c == 9

-- What follows the first blank.
unfoldable pub after_blank : Bytes → Option Bytes
after_blank [] = none
after_blank (c ∷ s) = let rest = after_blank s in if is_blank c then some s else rest

-- `routeOf`
unfoldable pub route_of : Bytes → Bytes
unfolding after_blank trim_left
route_of pattern = elim (after_blank pattern) [
  | none ↦ pattern
  | some rest ↦ trim_left is_blank rest
]

-- The status that a record names, by whether the handler returned.
abbrev pub logged_status : Recording → Bool → ℕ
logged_status c returns = if c.committed then c.status else if returns then 200 else 500

-- The level of a request's record.
unfoldable pub access_level : Request → ℕ → Level
unfolding not_probe
access_level r status =
    if not (not_probe r) && (leb 200 status && ltb status 300) then debug else info

-- `pattern` is the one that the request carries when the record is made.
unfoldable pub access_attrs : Request → Bytes → ℕ → ℕ → List Attr
unfolding route_of append_request_id
access_attrs r pattern status duration =
    append_request_id
      (text (codes "http.request.method") r.method
        ∷ text (codes "url.path") r.path
        ∷ ((if is_empty (route_of pattern)
              then []
              else text (codes "http.route") (route_of pattern) ∷ [])
            ++ (number (codes "http.response.status_code") status
                ∷ number (codes "duration") duration
                ∷ text (codes "client.address") r.remote_addr
                ∷ [])))
      r

-- A router sets the pattern on the request that it is handed, while the handler runs: `matched` is
-- what the request then carries.
module _ (matched : Request → Bytes) where
  -- The deferred function's record.
  unfoldable pub log_access : ℕ → Writer → Request → ℕ → Bool → Effect
  unfolding recording access_level access_attrs log_attrs
  log_access logger rec r start returns = do
    c ← recording rec
    now ← λ w. returned w.clock w
    log_attrs logger (access_level r (logged_status c returns)) (codes "request")
        (access_attrs r (matched r) (logged_status c returns) (now - start))

  -- The deferred function, which does not recover.
  unfoldable pub logged : ℕ → Writer → Request → ℕ → Outcome (Unit {0}) → Outcome (Unit {0})
  unfolding log_access
  logged logger rec r start (returned u w) = log_access logger rec r start true w
  logged logger rec r start (panicking p w) = (log_access logger rec r start false >> raise p) w

  -- The middleware that `RequestLogger` makes of a logger that is not nil.
  unfoldable pub request_logger : ℕ → Middleware
  unfolding wrap_writer logged
  request_logger logger next wr r w =
      (wrap_writer wr >>= λ rec w'. logged logger rec r w.clock (next rec r w')) w
