-- ===== src/ErrorWriter.antt =====
-- errorwriter.go: `ErrorWriter` maps an error to a problem and writes it. handler.go: `handleAttrs`.
use go_web_sdk.Http.Writer.{Writer}
use go_web_sdk.Http.Request.{has_ended, Request, request_id_from}
pub mod Mapping
pub mod Disclosure
use go_web_sdk.Common.{
  leb, ◌&&◌, not, ◌||◌, if◌then◌else◌, ◌==◌, ◌++◌, ℕ, Bool, true, false, Option, none, some, List,
  [], ◌∷◌, Result, ok, err, panicked,
}
use go_web_sdk.Text.{Bytes, codes, is_empty}
use go_web_sdk.Problem.{Problem, with_only_status, write_for}
use go_web_sdk.Errors.{
  canceled, joined, wrapping, opaque, own, problem_pointer, problem, GoError, find_own, own_status,
  error_text, is_canceled,
}
use go_web_sdk.Http.World.{
  error, warn, debug, number, nil_dereference, when, Level, raise, text, log_attrs, pure, Attr,
  ◌>>=◌, ◌>>◌, Run, Effect,
}

abbrev pub ProblemMatcher : Type 0
ProblemMatcher = GoError → Option Problem

-- `detail` is the set of statuses as a list.
pub record ErrorWriter : Type 0 where
  pub matchers : List ProblemMatcher
  pub detail : List ℕ
  pub logger : ℕ

abbrev pub built_in_detail : List ℕ
built_in_detail = 400 ∷ 411 ∷ 413 ∷ 415 ∷ 428 ∷ []

-- `NewErrorWriter`: it panics on a nil logger.
unfoldable pub new_error_writer {ℓ} :
    {E : Type ℓ} → Option ℕ → List ProblemMatcher → Result E ErrorWriter
new_error_writer none matchers = panicked
new_error_writer (some logger) matchers =
    ok (record { matchers = matchers; detail = built_in_detail; logger = logger })

-- `ErrorWriter.Detail`
unfoldable pub add_detail : ErrorWriter → List ℕ → ErrorWriter
add_detail ew statuses = record ew { detail = statuses ++ ew.detail }

unfoldable pub mem_status : ℕ → List ℕ → Bool
mem_status s [] = false
mem_status s (t ∷ ts) = t == s || mem_status s ts

unfoldable pub with_status : Problem → Problem
with_status p = if p.status == 0 then record p { status = 500 } else p

-- The loop over the matchers, then the 500.
unfoldable pub match_error : List ProblemMatcher → GoError → Problem
unfolding with_status
match_error [] e = with_only_status 500
match_error (match ∷ matchers) e = elim (match e) [
  | some p ↦ with_status p
  | none ↦ match_error matchers e
]

-- The type switch on the error itself, before the matchers; true marks a problem returned whole.
unfoldable pub returned_problem : List ProblemMatcher → GoError → Problem × Bool
unfolding match_error
returned_problem matchers (problem p) = (with_status p, true)
returned_problem matchers (problem_pointer (some p)) = (with_status p, true)
returned_problem matchers (problem_pointer none) =
    (match_error matchers (problem_pointer none), false)
returned_problem matchers (own e) = (match_error matchers (own e), false)
returned_problem matchers canceled = (match_error matchers canceled, false)
returned_problem matchers (opaque t) = (match_error matchers (opaque t), false)
returned_problem matchers (wrapping t e) = (match_error matchers (wrapping t e), false)
returned_problem matchers (joined a b) = (match_error matchers (joined a b), false)

-- `ErrorWriter.problem`
unfoldable pub problem_of : ErrorWriter → GoError → Problem × Bool
unfolding returned_problem own_status
problem_of ew e = elim (find_own e) [
  | some o ↦ (with_only_status (own_status o), false)
  | none ↦ returned_problem ew.matchers e
]

abbrev id_attr : Option Bytes → List Attr
id_attr none = []
id_attr (some id) = if is_empty id then [] else text (codes "request_id") id ∷ []

module _ (quote : Bytes → Bytes) where
  -- `err.Error()`
  unfoldable pub text_of : GoError → Run Bytes
  unfolding error_text
  text_of e = elim (error_text quote e) [ some t ↦ pure t | none ↦ raise nil_dereference ]

  -- `handleAttrs`, with the error's text.
  unfoldable pub handle_attrs : Request → ℕ → Bytes → List Attr
  unfolding request_id_from
  handle_attrs r status t =
      text (codes "http.request.method") r.method
      ∷ text (codes "url.path") r.path
      ∷ text (codes "client.address") r.remote_addr
      ∷ number (codes "http.response.status_code") status
      ∷ (id_attr (request_id_from r.context) ++ text (codes "error") t ∷ [])

  abbrev pub cause_level : Request → ℕ → GoError → Level
  cause_level r status e =
      if is_canceled e && has_ended r.context then debug else if status == 503 then warn else error

  -- `logCause`
  unfoldable pub log_cause : ErrorWriter → Request → ℕ → GoError → Effect
  unfolding text_of handle_attrs log_attrs
  log_cause ew r status e = do
    t ← text_of e
    log_attrs ew.logger (cause_level r status e) (codes "server error response")
        (handle_attrs r status t)

  -- The detail that `Write` adds.
  unfoldable pub detailed : ErrorWriter → Problem × Bool → GoError → Run Problem
  unfolding text_of mem_status
  detailed ew (p, whole) e =
      if not whole && (is_empty p.detail && mem_status p.status ew.detail)
      then (text_of e >>= λ t. pure (record p { detail = t }))
      else pure p

  -- `ErrorWriter.Write`: the text of the encoder's error, or none.
  unfoldable pub write_error : ErrorWriter → Writer → Request → GoError → Run (Option Bytes)
  unfolding log_cause detailed write_for problem_of
  write_error ew wr r e = do
    when (leb 500 (problem_of ew e).0.status) (log_cause ew r (problem_of ew e).0.status e)
    p ← detailed ew (problem_of ew e) e
    write_for p wr r
