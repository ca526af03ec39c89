-- ===== src/Handle/Responses.antt =====
-- One response for a request: the handler's own, or the problem of the error it returned.
use go_web_sdk.Problem.{write_for}
use go_web_sdk.Problem.Written.{write_for-IsProblem, IsProblem}
use go_web_sdk.ErrorWriter.Disclosure.{
  IsErrorRecord, handle_attrs-names, handle_attrs-carries, sent_problem, write_error_lem,
  sent_problem-status, with_cause,
}
use go_web_sdk.Errors.{error_text, GoError}
use go_web_sdk.Http.Request.{Request}
use go_web_sdk.Http.World.{LogRecord, error, returned, World, log_attrs}
use go_web_sdk.Http.Writer.{connection, recorder, Writer, wrap_writer}
use go_web_sdk.ErrorWriter.{write_error, problem_of, handle_attrs, ErrorWriter, text_of}
use go_web_sdk.Text.{codes, Bytes}
use go_web_sdk.Common.{
  ap, sym, inr, subst, inl, leb, Option, Bool-cases, ◌≤◌, [], ◌∷◌, ◌∙◌, refl, ◌++◌, true, ℕ, arith,
  ◌≡◌, some, none,
}
use go_web_sdk.Handle.{
  log_unwritten, codes, error, GoError, Writer, Request, log_attrs, wrap_writer, text_of, Bytes,
  HandlerFunc, adapted, report, log_late,
}
use go_web_sdk.Recorder.{Returns-bind, Agrees, Returns}

report_committed :
    (quote : Bytes → Bytes) (ew : ErrorWriter) (at : ℕ) (beneath : Writer) (r : Request)
    (e : GoError) (w : World)
    → (w.recordings at).committed ≡ true
    → report quote ew (recorder at beneath) r (some e) w
      ≡ log_late quote ew r (w.recordings at).status e w
unfolding report
report_committed quote ew at beneath r e w h = rw (h, report) refl

late_record : (Bytes → Bytes) → ErrorWriter → Request → ℕ → Bytes → LogRecord
late_record quote ew r status t = record {
  logger = ew.logger;
  level = error;
  message = codes "handler returned an error after committing its response";
  attrs = handle_attrs quote r status t;
}

log_late_lem :
    (quote : Bytes → Bytes) (ew : ErrorWriter) (r : Request) (status : ℕ) (e : GoError) (t : Bytes)
    (w : World)
    → error_text quote e ≡ some t
    → log_late quote ew r status e w
      ≡ returned tt (record w { logs = w.logs ++ late_record quote ew r status t ∷ [] })
unfolding log_late text_of log_attrs late_record
log_late_lem quote ew r status e t w h = rw (h, text_of) refl

-- An error that a handler returns after a status has gone out leaves the connection as the handler left
-- it, and is logged in one record at error level that names the status on the wire and holds the
-- error's text. (The recorder agrees with the wire when the handler returns, and the error has a text:
-- it is not a nil `*Problem`.)
pub adapted_after_commit :
    (quote : Bytes → Bytes) (fn : HandlerFunc) (ew : ErrorWriter) (r : Request) (e : GoError)
    (t : Bytes) (at code : ℕ) (w w' : World)
    → fn (recorder at connection) r w ≡ returned (some e) w'
    → Agrees at (some code) w'
    → error_text quote e ≡ some t
    → (l : LogRecord) × (adapted quote fn ew (recorder at connection) r w
        ≡ returned tt (record w' { logs = w'.logs ++ l ∷ [] }))
      × (l.level ≡ error)
      × IsErrorRecord ew.logger
          (codes "handler returned an error after committing its response")
          code
          t
          l
unfolding adapted wrap_writer late_record
adapted_after_commit quote fn ew r e t at code w w' run h text = (
  late_record quote ew r code t,
  rw (run, adapted)
      (report_committed quote ew at connection r e w' h.recorded
        ∙ ap (λ status. log_late quote ew r status e w') (h.status code refl)
        ∙ log_late_lem quote ew r code e t w' text),
  refl,
  record {
    by = refl;
    says = refl;
    names = handle_attrs-names quote r code t;
    carries = handle_attrs-carries quote r code t;
  },
)

with_cause-Agrees :
    (quote : Bytes → Bytes) (ew : ErrorWriter) (r : Request) (e : GoError) (t : Bytes) (at : ℕ)
    (w : World)
    → Agrees at none w
    → Agrees at none (with_cause quote ew r e t w)
with_cause-Agrees quote ew r e t at w h = elim (Bool-cases (leb 500 (problem_of ew e).0.status)) [
  | inl big ↦
      rw big (record { wire = h.wire; recorded = h.recorded; status = h.status; sound = h.sound })
  | inr small ↦ rw small h
]

write_error-IsProblem :
    (quote : Bytes → Bytes) (ew : ErrorWriter) (r : Request) (e : GoError) (t : Bytes) (at : ℕ)
    (w : World)
    → Agrees at none w
    → error_text quote e ≡ some t
    → 200 ≤ (problem_of ew e).0.status
    → (problem_of ew e).0.status ≤ 999
    → Returns
        (write_error quote ew (recorder at connection) r e w)
        (IsProblem (problem_of ew e).0.status)
write_error-IsProblem quote ew r e t at w h text low high =
    let same = sent_problem-status ew e t in
    subst (λ o. Returns o (IsProblem (problem_of ew e).0.status))
      (sym (write_error_lem quote ew (recorder at connection) r e t w text))
      (subst
        (λ s.
          Returns
            (write_for (sent_problem ew e t) (recorder at connection) r
              (with_cause quote ew r e t w))
            (IsProblem s))
        same
        (write_for-IsProblem (sent_problem ew e t) r at (with_cause quote ew r e t w)
          (with_cause-Agrees quote ew r e t at w h) (omega (arith, same)) (omega (arith, same))))

log_unwritten-IsProblem :
    (quote : Bytes → Bytes) (ew : ErrorWriter) (r : Request) (at status : ℕ) (o : Option Bytes)
    (w : World)
    → IsProblem status w
    → Returns (log_unwritten quote ew (recorder at connection) r o w) (IsProblem status)
unfolding log_unwritten
log_unwritten-IsProblem quote ew r at status none w h = h
log_unwritten-IsProblem quote ew r at status (some t) w h = record {
  wire = h.wire;
  media_type = h.media_type;
}

report-IsProblem :
    (quote : Bytes → Bytes) (ew : ErrorWriter) (r : Request) (e : GoError) (t : Bytes) (at : ℕ)
    (w : World)
    → Agrees at none w
    → error_text quote e ≡ some t
    → 200 ≤ (problem_of ew e).0.status
    → (problem_of ew e).0.status ≤ 999
    → Returns
        (report quote ew (recorder at connection) r (some e) w)
        (IsProblem (problem_of ew e).0.status)
unfolding report
report-IsProblem quote ew r e t at w h text low high =
    let uncommitted = h.recorded in
    rw (uncommitted, report)
      (Returns-bind {B = Unit {0}} (IsProblem (problem_of ew e).0.status)
        (IsProblem (problem_of ew e).0.status) (write_error quote ew (recorder at connection) r e)
        (log_unwritten quote ew (recorder at connection) r) w
        (write_error-IsProblem quote ew r e t at w h text low high)
        λ o w' sent. log_unwritten-IsProblem quote ew r at (problem_of ew e).0.status o w' sent)

-- An error that a handler returns with nothing committed is answered by the problem it is mapped to:
-- the adapted handler returns, the problem's status is on the wire, and the media type of problems
-- in the headers sent with it. (The status is one from 200 to 999, the error has a text, and the
-- recorder agrees with a wire that carries nothing when the handler returns.)
pub adapted-IsProblem :
    (quote : Bytes → Bytes) (fn : HandlerFunc) (ew : ErrorWriter) (r : Request) (e : GoError)
    (t : Bytes) (at : ℕ) (w w' : World)
    → fn (recorder at connection) r w ≡ returned (some e) w'
    → Agrees at none w'
    → error_text quote e ≡ some t
    → 200 ≤ (problem_of ew e).0.status
    → (problem_of ew e).0.status ≤ 999
    → Returns
        (adapted quote fn ew (recorder at connection) r w)
        (IsProblem (problem_of ew e).0.status)
unfolding adapted wrap_writer
adapted-IsProblem quote fn ew r e t at w w' run h text low high =
    rw (run, adapted) (report-IsProblem quote ew r e t at w' h text low high)
