-- ===== src/Bundled/Recoverer/Answers.antt =====
-- middleware/recoverer.go: what a panicking handler's client receives.
use go_web_sdk.Problem.{with_only_status, write_status}
use go_web_sdk.Recorder.{Returns-bind, Returns, Agrees}
use go_web_sdk.Problem.Written.{write_for-IsProblem, IsProblem}
use go_web_sdk.Http.Handler.{Handler}
use go_web_sdk.Http.Request.{Request}
use go_web_sdk.Http.Writer.{load, recording, connection, Writer, recorder, wrap_writer}
use go_web_sdk.Common.{
  ap, ◌∙◌, sym, subst, arith, ◌∷◌, [], refl, some, true, none, false, ◌++◌, Option, ◌≡◌, ℕ, ◌≢◌,
}
use go_web_sdk.Text.{codes, Bytes}
use go_web_sdk.Bundled.Recoverer.{
  answer_panic, recording, recovered_detail, text, [], status_attrs, write_status, base_attrs, some,
  thrown, codes, invalid_status, true, error, Writer, false, Handler, Option, Recording, deferred,
  is_abort, Request, wrap_writer, log_attrs, ℕ, guarded, log_panic, Bytes, recoverer, recovered,
  log_unsent,
}
use mathlib.Core.List.{Mem, mem-append_right, mem-cons_self}
use go_web_sdk.Http.World.{
  LogRecord, number, text, nil_dereference, thrown, invalid_status, error, Recording, World,
  log_attrs, abort_handler, PanicValue, panicking,
}

-- The world with the record of the panic.
abbrev pub with_panic :
    (PanicValue → Bytes) → Bytes → ℕ → Request → PanicValue → Recording → World → World
with_panic panic_text stack logger r p c w = record w {
  logs =
      w.logs
      ++ record {
        logger = logger;
        level = error;
        message = codes "handler panicked";
        attrs =
            base_attrs r
            ++ (status_attrs c
                ++ (text (codes "panic") (panic_text p) ∷ text (codes "stack") stack ∷ []));
      }
        ∷ [];
}

is_abort_of : (p : PanicValue) → p ≢ abort_handler → is_abort p ≡ false
is_abort_of abort_handler h = absurd (h refl)
is_abort_of nil_dereference h = refl
is_abort_of (invalid_status code) h = refl
is_abort_of (thrown t) h = refl

log_unsent-IsProblem :
    (panic_text : PanicValue → Bytes) (stack : Bytes) (logger : ℕ) (r : Request) (at status : ℕ)
    (o : Option Bytes) (w : World)
    → IsProblem status w
    → Returns (log_unsent panic_text stack logger (recorder at connection) r o w) (IsProblem status)
unfolding log_unsent
log_unsent-IsProblem panic_text stack logger r at status none w h = h
log_unsent-IsProblem panic_text stack logger r at status (some t) w h = record {
  wire = h.wire;
  media_type = h.media_type;
}

recovered_lem :
    (panic_text : PanicValue → Bytes) (stack : Bytes) (logger : ℕ) (r : Request) (at : ℕ)
    (beneath : Writer) (p : PanicValue) (w : World)
    → recovered panic_text stack logger (recorder at beneath) r p w
      ≡ answer_panic panic_text stack logger
          (recorder at beneath)
          r
          (w.recordings at).committed
          (with_panic panic_text stack logger r p (w.recordings at) w)
unfolding recovered log_panic log_attrs recording load
recovered_lem panic_text stack logger r at beneath p w = refl

answer_panic-IsProblem :
    (panic_text : PanicValue → Bytes) (stack : Bytes) (logger : ℕ) (r : Request) (at : ℕ)
    (w : World)
    → Agrees at none w
    → Returns
        (answer_panic panic_text stack logger (recorder at connection) r false w)
        (IsProblem 500)
unfolding answer_panic
answer_panic-IsProblem panic_text stack logger r at w h =
    Returns-bind {B = Unit {0}} (IsProblem 500) (IsProblem 500)
      (write_status (recorder at connection) r 500 [] recovered_detail)
      (log_unsent panic_text stack logger (recorder at connection) r) w
      (write_for-IsProblem (record (with_only_status 500) { title = []; detail = recovered_detail })
        r at w h (omega arith) (omega arith))
      λ o w' sent. log_unsent-IsProblem panic_text stack logger r at 500 o w' sent

recovered-IsProblem :
    (panic_text : PanicValue → Bytes) (stack : Bytes) (logger : ℕ) (r : Request) (at : ℕ)
    (p : PanicValue) (w : World)
    → Agrees at none w
    → Returns (recovered panic_text stack logger (recorder at connection) r p w) (IsProblem 500)
recovered-IsProblem panic_text stack logger r at p w h =
    let w1 = with_panic panic_text stack logger r p (w.recordings at) w in
    subst (λ o. Returns o (IsProblem 500))
      (sym (recovered_lem panic_text stack logger r at connection p w))
      (subst
        (λ b.
          Returns (answer_panic panic_text stack logger (recorder at connection) r b w1)
            (IsProblem 500))
        (sym h.recorded)
        (answer_panic-IsProblem panic_text stack logger r at w1
          (record { wire = h.wire; recorded = h.recorded; status = h.status; sound = h.sound })))

recoverer-IsProblem :
    (panic_text : PanicValue → Bytes) (stack : Bytes) (logger : ℕ) (next : Handler) (r : Request)
    (p : PanicValue) (at : ℕ) (w w' : World)
    → next (recorder at connection) r w ≡ panicking p w'
    → p ≢ abort_handler
    → Agrees at none w'
    → Returns (recoverer panic_text stack logger next (recorder at connection) r w) (IsProblem 500)
unfolding recoverer guarded wrap_writer deferred
recoverer-IsProblem panic_text stack logger next r p at w w' run other h =
    let e = is_abort_of p other in
    rw (run, e) (recovered-IsProblem panic_text stack logger r at p w' h)

recoverer_after_commit :
    (panic_text : PanicValue → Bytes) (stack : Bytes) (logger : ℕ) (next : Handler) (r : Request)
    (p : PanicValue) (at : ℕ) (beneath : Writer) (w w' : World)
    → next (recorder at beneath) r w ≡ panicking p w'
    → p ≢ abort_handler
    → (w'.recordings at).committed ≡ true
    → recoverer panic_text stack logger next (recorder at beneath) r w
      ≡ panicking abort_handler (with_panic panic_text stack logger r p (w'.recordings at) w')
unfolding recoverer guarded wrap_writer deferred answer_panic
recoverer_after_commit panic_text stack logger next r p at beneath w w' run other committed =
    let e = is_abort_of p other in
    rw (run, e)
      (recovered_lem panic_text stack logger r at beneath p w'
        ∙ ap
            (λ b.
              answer_panic panic_text stack logger (recorder at beneath) r b
                (with_panic panic_text stack logger r p (w'.recordings at) w'))
            committed)

panic_attrs-names :
    (panic_text : PanicValue → Bytes) (stack : Bytes) (r : Request) (p : PanicValue) (c : Recording)
    (code : ℕ)
    → c.committed ≡ true
    → c.status ≡ code
    → Mem (number (codes "http.response.status_code") code) (
        base_attrs r
        ++ (status_attrs c
            ++ (text (codes "panic") (panic_text p) ∷ text (codes "stack") stack ∷ [])))
panic_attrs-names panic_text stack r p c code committed status =
    rw (committed, status) (mem-append_right (base_attrs r) mem-cons_self)

-- A handler that panics by anything but http.ErrAbortHandler, with nothing committed, is answered: the
-- recoverer returns, with a 500 on the wire under the media type of problems. One that panics so after
-- it has committed its response is logged in one record with the committed status, and the recoverer
-- then aborts the connection: it writes nothing more. Where the recorder agrees with the wire, the
-- status that the record names is the one on the wire. (Where nothing is committed the recorder agrees
-- with a wire that carries nothing, and the writes do not fail.)
pub recoverer-Answers :
    (panic_text : PanicValue → Bytes) (stack : Bytes) (logger : ℕ) (next : Handler) (r : Request)
    (p : PanicValue) (at : ℕ) (w w' : World)
    → next (recorder at connection) r w ≡ panicking p w'
    → p ≢ abort_handler
    → (Agrees at none w'
        → Returns
            (recoverer panic_text stack logger next (recorder at connection) r w)
            (IsProblem 500))
      × ((w'.recordings at).committed ≡ true
          → recoverer panic_text stack logger next (recorder at connection) r w
            ≡ panicking abort_handler
                (with_panic panic_text stack logger r p (w'.recordings at) w'))
      × ((code : ℕ)
          → Agrees at (some code) w'
          → (l : LogRecord) × (recoverer panic_text stack logger next (recorder at connection) r w
              ≡ panicking abort_handler (record w' { logs = w'.logs ++ l ∷ [] }))
            × (l.logger ≡ logger)
            × (l.level ≡ error)
            × Mem (number (codes "http.response.status_code") code) l.attrs)
recoverer-Answers panic_text stack logger next r p at w w' run other = (
  λ h. recoverer-IsProblem panic_text stack logger next r p at w w' run other h,
  λ committed.
      recoverer_after_commit panic_text stack logger next r p at connection w w' run other
        committed,
  λ code h. (
    _,
    recoverer_after_commit panic_text stack logger next r p at connection w w' run other h.recorded,
    refl,
    refl,
    panic_attrs-names panic_text stack r p (w'.recordings at) code h.recorded (h.status code refl),
  ),
)
