-- ===== src/Bundled/Recoverer.antt =====
-- middleware/recoverer.go: `Recoverer`. The panic's own text and the stack's are parameters.
pub mod Answers
use go_web_sdk.Middleware.{Middleware}
use go_web_sdk.Http.Handler.{Handler}
use go_web_sdk.Problem.{write_status, write_for}
use go_web_sdk.Http.Writer.{Writer, wrap_writer, recording}
use go_web_sdk.Common.{none, some, ◌++◌, [], Option, if◌then◌else◌, ◌∷◌, false, true, ℕ, List, Bool}
use go_web_sdk.Text.{is_empty, codes, Bytes}
use go_web_sdk.Http.Request.{Request, request_id_from}
use go_web_sdk.Http.World.{
  nil_dereference, thrown, invalid_status, abort_handler, Outcome, error, Effect, Attr, log_attrs,
  Recording, PanicValue, ◌>>=◌, ◌>>◌, Run, pure, returned, panicking, raise, text, number,
}

-- `p == http.ErrAbortHandler`
abbrev pub is_abort : PanicValue → Bool
is_abort abort_handler = true
is_abort nil_dereference = false
is_abort (invalid_status code) = false
is_abort (thrown t) = false

-- middleware/logger.go: `appendRequestID`
unfoldable pub append_request_id : List Attr → Request → List Attr
unfolding request_id_from
append_request_id attrs r = elim (request_id_from r.context) [
  | none ↦ attrs
  | some id ↦ if is_empty id then attrs else attrs ++ text (codes "request_id") id ∷ []
]

-- What every record of the recoverer names.
unfoldable pub base_attrs : Request → List Attr
unfolding append_request_id
base_attrs r =
    append_request_id
      (text (codes "http.request.method") r.method
        ∷ text (codes "url.path") r.path
        ∷ text (codes "client.address") r.remote_addr
        ∷ [])
      r

abbrev pub recovered_detail : Bytes
recovered_detail = codes "The server encountered an unexpected condition."

abbrev pub status_attrs : Recording → List Attr
status_attrs c =
    if c.committed then number (codes "http.response.status_code") c.status ∷ [] else []

module _ (panic_text : PanicValue → Bytes) (stack : Bytes) where
  -- The record of a panic.
  unfoldable pub log_panic : ℕ → Request → PanicValue → Recording → Effect
  unfolding base_attrs log_attrs
  log_panic logger r p c = log_attrs logger error (codes "handler panicked") (
      base_attrs r
      ++ (status_attrs c
          ++ (text (codes "panic") (panic_text p) ∷ text (codes "stack") stack ∷ [])))

  -- The record of a problem that could not be written.
  unfoldable pub log_unsent : ℕ → Writer → Request → Option Bytes → Effect
  unfolding recording base_attrs log_attrs
  log_unsent logger rec r none = pure tt
  log_unsent logger rec r (some t) = do
    c ← recording rec
    log_attrs logger error (codes "failed to write problem response") (
        base_attrs r
        ++ (number (codes "http.response.status_code") c.status ∷ text (codes "error") t ∷ []))

  -- What the client receives, by whether the response is committed.
  unfoldable pub answer_panic : ℕ → Writer → Request → Bool → Effect
  unfolding log_unsent write_for
  answer_panic logger rec r true = raise abort_handler
  answer_panic logger rec r false =
      write_status rec r 500 [] recovered_detail >>= log_unsent logger rec r

  -- The deferred function's work on a panic that is not an abort.
  unfoldable pub recovered : ℕ → Writer → Request → PanicValue → Effect
  unfolding log_panic answer_panic recording
  recovered logger rec r p = do
    c ← recording rec
    log_panic logger r p c
    answer_panic logger rec r c.committed

  -- The deferred function, on the handler's outcome.
  unfoldable pub deferred : ℕ → Writer → Request → Outcome (Unit {0}) → Outcome (Unit {0})
  unfolding recovered
  deferred logger rec r (returned u w) = returned u w
  deferred logger rec r (panicking p w) =
      if is_abort p then panicking p w else recovered logger rec r p w

  unfoldable pub guarded : ℕ → Handler → Writer → Request → Effect
  unfolding deferred
  guarded logger next rec r w = deferred logger rec r (next rec r w)

  -- The middleware that `Recoverer` makes for a logger that is not nil.
  unfoldable pub recoverer : ℕ → Middleware
  unfolding guarded wrap_writer
  recoverer logger next wr r = wrap_writer wr >>= λ rec. guarded logger next rec r
