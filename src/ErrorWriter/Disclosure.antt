-- ===== src/ErrorWriter/Disclosure.antt =====
-- What an error's text reaches: the log, and the wire only where the writer allows it.
use mathlib.Core.List.{Mem, mem-cons_self, mem-cons_of_mem, mem-append_right}
use go_web_sdk.ErrorWriter.Mapping.{
  problem_of-Maps, Maps, Sent, built_in, whole, matched, unclaimed, IsReturned, FirstMatch,
}
use go_web_sdk.Http.World.{text, number, pure, when, continue, returned, ◌>>=◌}
use go_web_sdk.Common.{inr, inl, ◌≢◌, ◌<◌, All, List, Bool-cases, ◌≤◌, true, Bool, refl}
use go_web_sdk.ErrorWriter.Mapping.{match_error_of_NoMatch, NoMatch}
use go_web_sdk.Problem.{Problem, with_only_status, write_for}
use go_web_sdk.Http.Writer.{Writer}
use go_web_sdk.Http.World.{nil_dereference, panicking, LogRecord, World, log_attrs}
use go_web_sdk.Http.Request.{Request}
use go_web_sdk.Text.{is_empty, codes, Bytes}
use go_web_sdk.Common.{
  ◌&&◌, ap, not, ◌∙◌, refl, [], ◌∷◌, ◌++◌, leb, if◌then◌else◌, false, ℕ, arith, ◌≡◌, some, none,
}
use go_web_sdk.Errors.{find_own, problem_pointer, GoError, error_text}
use go_web_sdk.ErrorWriter.{
  ProblemMatcher, text, number, pure, when, is_empty, Problem, find_own, match_error,
  nil_dereference, with_only_status, problem_pointer, handle_attrs, codes, write_for, cause_level,
  Writer, log_attrs, Request, text_of, Bytes, ErrorWriter, problem_of, write_error, log_cause,
  detailed, mem_status,
}

-- The record that `write_error` logs for a 5xx.
abbrev pub cause_record : (Bytes → Bytes) → ErrorWriter → Request → ℕ → GoError → Bytes → LogRecord
cause_record quote ew r status e t = record {
  logger = ew.logger;
  level = cause_level quote r status e;
  message = codes "server error response";
  attrs = handle_attrs quote r status t;
}

-- The world once the cause of a 5xx is logged.
abbrev pub with_cause : (Bytes → Bytes) → ErrorWriter → Request → GoError → Bytes → World → World
with_cause quote ew r e t w =
    if leb 500 (problem_of ew e).0.status
    then record w { logs = w.logs ++ cause_record quote ew r (problem_of ew e).0.status e t ∷ [] }
    else w

-- The problem that the writer sends for the error with this text.
abbrev pub sent_problem : ErrorWriter → GoError → Bytes → Problem
sent_problem ew e t =
    let p = (problem_of ew e).0 in
    if not (problem_of ew e).1 && (is_empty p.detail && mem_status p.status ew.detail)
    then record p { detail = t }
    else p

log_cause_lem :
    (quote : Bytes → Bytes) (ew : ErrorWriter) (r : Request) (status : ℕ) (e : GoError) (t : Bytes)
    (w : World)
    → error_text quote e ≡ some t
    → log_cause quote ew r status e w
      ≡ returned tt (record w { logs = w.logs ++ cause_record quote ew r status e t ∷ [] })
unfolding log_cause text_of log_attrs
log_cause_lem quote ew r status e t w h = rw (h, text_of) refl

detailed_lem :
    (quote : Bytes → Bytes) (ew : ErrorWriter) (e : GoError) (t : Bytes) (w : World)
    → error_text quote e ≡ some t
    → detailed quote ew (problem_of ew e) e w ≡ returned (sent_problem ew e t) w
unfolding detailed text_of
detailed_lem quote ew e t w h = by_test (
    not (problem_of ew e).1
    && (is_empty (problem_of ew e).0.detail && mem_status (problem_of ew e).0.status ew.detail))
  where
    by_test :
        (b : Bool)
        → (if b
              then (text_of quote e >>= λ t. pure (record (problem_of ew e).0 { detail = t }))
              else pure (problem_of ew e).0)
            w
          ≡ returned
              (if b then record (problem_of ew e).0 { detail = t } else (problem_of ew e).0)
              w
    by_test true = rw (h, text_of) refl
    by_test false = refl

logged_cause :
    (quote : Bytes → Bytes) (ew : ErrorWriter) (r : Request) (e : GoError) (t : Bytes) (w : World)
    → error_text quote e ≡ some t
    → when
        (leb 500 (problem_of ew e).0.status)
        (log_cause quote ew r (problem_of ew e).0.status e)
        w
      ≡ returned tt (with_cause quote ew r e t w)
logged_cause quote ew r e t w h = by_test (leb 500 (problem_of ew e).0.status)
  where
    by_test :
        (b : Bool)
        → when b (log_cause quote ew r (problem_of ew e).0.status e) w
          ≡ returned tt (
              if b
              then record w {
                logs = w.logs ++ cause_record quote ew r (problem_of ew e).0.status e t ∷ [];
              }
              else w)
    by_test true = log_cause_lem quote ew r (problem_of ew e).0.status e t w h
    by_test false = refl

pub write_error_lem :
    (quote : Bytes → Bytes) (ew : ErrorWriter) (wr : Writer) (r : Request) (e : GoError) (t : Bytes)
    (w : World)
    → error_text quote e ≡ some t
    → write_error quote ew wr r e w
      ≡ write_for (sent_problem ew e t) wr r (with_cause quote ew r e t w)
unfolding write_error
write_error_lem quote ew wr r e t w h =
    ap (λ o. continue o (λ _. detailed quote ew (problem_of ew e) e >>= λ p. write_for p wr r))
      (logged_cause quote ew r e t w h)
    ∙ ap (λ o. continue o (λ p. write_for p wr r))
        (detailed_lem quote ew e t (with_cause quote ew r e t w) h)

-- A record by this logger that says so, names the status, and holds the error's text.
pub record IsErrorRecord (logger : ℕ) (message : Bytes) (status : ℕ) (t : Bytes) (l : LogRecord)
    : Type 0 where
  pub by : l.logger ≡ logger
  pub says : l.message ≡ message
  pub names : Mem (number (codes "http.response.status_code") status) l.attrs
  pub carries : Mem (text (codes "error") t) l.attrs

pub handle_attrs-names :
    (quote : Bytes → Bytes) (r : Request) (status : ℕ) (t : Bytes)
    → Mem (number (codes "http.response.status_code") status) (handle_attrs quote r status t)
unfolding handle_attrs
handle_attrs-names quote r status t =
    mem-cons_of_mem _ (mem-cons_of_mem _ (mem-cons_of_mem _ mem-cons_self))

pub handle_attrs-carries :
    (quote : Bytes → Bytes) (r : Request) (status : ℕ) (t : Bytes)
    → Mem (text (codes "error") t) (handle_attrs quote r status t)
unfolding handle_attrs
handle_attrs-carries quote r status t =
    mem-cons_of_mem _
      (mem-cons_of_mem _ (mem-cons_of_mem _ (mem-cons_of_mem _ (mem-append_right _ mem-cons_self))))

-- The cause of a 5xx stands in one new record of the log, that of any other status nowhere.
pub data IsCauseLogged (logger status : ℕ) (t : Bytes) (w : World) : World → Type 0 where
  logged :
      (l : LogRecord)
      → 500 ≤ status
      → IsErrorRecord logger (codes "server error response") status t l
      → IsCauseLogged logger status t w (record w { logs = w.logs ++ l ∷ [] })
  unlogged : status < 500 → IsCauseLogged logger status t w w

with_cause-IsCauseLogged :
    (quote : Bytes → Bytes) (ew : ErrorWriter) (r : Request) (e : GoError) (t : Bytes) (w : World)
    → IsCauseLogged ew.logger (problem_of ew e).0.status t w (with_cause quote ew r e t w)
with_cause-IsCauseLogged quote ew r e t w = elim (Bool-cases (leb 500 (problem_of ew e).0.status)) [
  | inl big ↦ rw big (
      logged (cause_record quote ew r (problem_of ew e).0.status e t) (ground arith) (record {
        by = refl;
        says = refl;
        names = handle_attrs-names quote r (problem_of ew e).0.status t;
        carries = handle_attrs-carries quote r (problem_of ew e).0.status t;
      }))
  | inr small ↦ rw small (unlogged (ground arith))
]

-- A problem that the writer has put nothing in: a status alone, or the problem of the first matcher
-- that claims the error, where a missing status has become 500.
pub data IsWithheld (e : GoError) (ms : List ProblemMatcher) : Problem → Type 0 where
  bare : (status : ℕ) → IsWithheld e ms (with_only_status status)
  given : (p q : Problem) → FirstMatch e ms p → Sent p q → IsWithheld e ms q

Maps-IsWithheld :
    (ms : List ProblemMatcher) (e : GoError) (p : Problem) (b : Bool)
    → Maps ms e p b
    → ((q : Problem) → ¬ IsReturned e q)
    → IsWithheld e ms p × (b ≡ false)
Maps-IsWithheld ms e _ _ (built_in {s = s} first status) k = (bare s, refl)
Maps-IsWithheld ms e _ _ (whole {p = p} r sent) k = absurd (k p r)
Maps-IsWithheld ms e _ _ (matched {p = p} {q = q} absent none_whole first sent) k =
    (given p q first sent, refl)
Maps-IsWithheld ms e _ _ (unclaimed absent none_whole missed) k = (bare 500, refl)

mem_status_of_All : (s : ℕ) (ts : List ℕ) → All (λ t. t ≢ s) ts → mem_status s ts ≡ false
unfolding mem_status
mem_status_of_All s [] h = refl
mem_status_of_All s (t ∷ ts) (h, hs) = ground (arith, mem_status_of_All s ts hs)

-- An error that is no problem itself, and whose status is in no entry of the writer's detail set, is
-- answered by a problem that the writer adds nothing of the error's text to: a status alone, or, where a
-- matcher claims the error, just the problem that this matcher gave, a missing status made a 500. The
-- error's text goes into the log, in one record that names the status, exactly when the status is a 5xx.
-- (The error has a text: it is not a nil `*Problem`.)
pub write_error_withholds :
    (quote : Bytes → Bytes) (ew : ErrorWriter) (wr : Writer) (r : Request) (e : GoError) (t : Bytes)
    (w : World)
    → error_text quote e ≡ some t
    → ((q : Problem) → ¬ IsReturned e q)
    → All (λ s. s ≢ (problem_of ew e).0.status) ew.detail
    → (p : Problem) × (w' : World) × (write_error quote ew wr r e w ≡ write_for p wr r w')
      × IsWithheld e ew.matchers p
      × (p.status ≡ (problem_of ew e).0.status)
      × IsCauseLogged ew.logger p.status t w w'
write_error_withholds quote ew wr r e t w ht hr hd =
    let (withheld, mapped) =
      Maps-IsWithheld ew.matchers e (problem_of ew e).0 (problem_of ew e).1 (problem_of-Maps ew e)
        hr in
    let quiet = mem_status_of_All (problem_of ew e).0.status ew.detail hd in
    (
      (problem_of ew e).0,
      with_cause quote ew r e t w,
      write_error_lem quote ew wr r e t w ht
          ∙ ap (λ p. write_for p wr r (with_cause quote ew r e t w)) (ground arith),
      withheld,
      refl,
      with_cause-IsCauseLogged quote ew r e t w,
    )

pub sent_problem-status :
    (ew : ErrorWriter) (e : GoError) (t : Bytes)
    → (sent_problem ew e t).status ≡ (problem_of ew e).0.status
sent_problem-status ew e t = ground arith

-- A nil `*Problem` that a handler returns as its error, which no matcher claims, is mapped to a 500
-- and then panics in the writer, before anything is written or logged: its text dereferences it.
pub nil_problem_panics :
    (quote : Bytes → Bytes) (ew : ErrorWriter) (wr : Writer) (r : Request) (w : World)
    → NoMatch (problem_pointer none) ew.matchers
    → ((problem_of ew (problem_pointer none)).0 ≡ with_only_status 500)
      × (write_error quote ew wr r (problem_pointer none) w ≡ panicking nil_dereference w)
unfolding write_error log_cause detailed text_of problem_of find_own
nil_problem_panics quote ew wr r w missed =
    let bare : match_error ew.matchers (problem_pointer none) ≡ with_only_status 500 =
      match_error_of_NoMatch ew.matchers (problem_pointer none) missed in
    (bare, rw (bare, problem_of) refl)
