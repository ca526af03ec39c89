-- ===== src/Handle.antt =====
-- handler.go: `Handle` adapts a handler that returns an error.
pub mod Responses
use go_web_sdk.Http.Handler.{Handler}
use go_web_sdk.Errors.{GoError}
use go_web_sdk.Common.{none, ok, if◌then◌else◌, some, panicked, ℕ, Result, Option}
use go_web_sdk.ErrorWriter.{ErrorWriter, handle_attrs, write_error, text_of}
use go_web_sdk.Http.Request.{Request}
use go_web_sdk.Text.{codes, Bytes}
use go_web_sdk.Http.Writer.{wrap_writer, recording, Writer}
use go_web_sdk.Http.World.{pure, log_attrs, error, ◌>>=◌, ◌>>◌, Run, Effect}

-- `none` is the nil error.
abbrev pub HandlerFunc : Type 0
HandlerFunc = Writer → Request → Run (Option GoError)

module _ (quote : Bytes → Bytes) where
  -- An error after the response is committed is only logged.
  unfoldable pub log_late : ErrorWriter → Request → ℕ → GoError → Effect
  unfolding text_of handle_attrs log_attrs
  log_late ew r status e = do
    t ← text_of quote e
    log_attrs ew.logger error (codes "handler returned an error after committing its response")
        (handle_attrs quote r status t)

  -- The encoder's own failure, logged with the status that is committed by then.
  unfoldable pub log_unwritten : ErrorWriter → Writer → Request → Option Bytes → Effect
  unfolding recording handle_attrs log_attrs
  log_unwritten ew rec r none = pure tt
  log_unwritten ew rec r (some t) = do
    c ← recording rec
    log_attrs ew.logger error (codes "failed to write problem response")
        (handle_attrs quote r c.status t)

  -- What `Handle` does with the handler's result.
  unfoldable pub report : ErrorWriter → Writer → Request → Option GoError → Effect
  unfolding log_late log_unwritten write_error recording
  report ew rec r none = pure tt
  report ew rec r (some e) = do
    c ← recording rec
    if c.committed
        then log_late ew r c.status e
        else (write_error quote ew rec r e >>= log_unwritten ew rec r)

  -- The handler that `Handle` returns for a writer that is not nil.
  unfoldable pub adapted : HandlerFunc → ErrorWriter → Handler
  unfolding wrap_writer report
  adapted fn ew wr r = do rec ← wrap_writer wr; result ← fn rec r; report ew rec r result

  -- `Handle`: it panics on a nil writer.
  unfoldable pub handle {ℓ} : {E : Type ℓ} → HandlerFunc → Option ErrorWriter → Result E Handler
  unfolding adapted
  handle fn none = panicked
  handle fn (some ew) = ok (adapted fn ew)
