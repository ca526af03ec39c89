-- ===== src/ErrorWriter/Mapping.antt =====
-- Which problem an error is mapped to.
use go_web_sdk.Text.Laws.{ne_of_bytes_eq, bytes_eq_iff}
use go_web_sdk.Query.{QueryError}
use go_web_sdk.Text.{codes, bytes_eq, Bytes}
use go_web_sdk.Problem.{with_only_status, Problem}
use go_web_sdk.Common.{
  ◌==◌, Bool-cases, ℕ, refl, [], sym, subst, true, inl, ◌∷◌, inr, false, ◌⊎◌, Bool, All,
  Option-cases, List, arith, ◌≡◌, ◌≢◌, some, none,
}
use go_web_sdk.Errors.{
  PathError, UploadError, BodyError, PreconditionError, path, upload, body, precondition, query,
  canceled, joined, wrapping, opaque, own, problem_pointer, problem, GoError, OwnError, find_own,
  own_status,
}
use go_web_sdk.ErrorWriter.{
  codes, Bytes, joined, wrapping, opaque, own, with_only_status, problem_pointer, problem, Problem,
  ErrorWriter, problem_of, with_status, match_error, returned_problem, ProblemMatcher,
}

-- The error is itself a `Problem`, or a `*Problem` that is not nil.
pub data IsReturned : GoError → Problem → Type 0 where
  value : (p : Problem) → IsReturned (problem p) p
  pointer : (p : Problem) → IsReturned (problem_pointer (some p)) p

-- The first matcher that claims the error gives the problem.
pub data FirstMatch (e : GoError) : List ProblemMatcher → Problem → Type 0 where
  here :
      {m : ProblemMatcher} {ms : List ProblemMatcher} {p : Problem}
      → m e ≡ some p
      → FirstMatch e (m ∷ ms) p
  later :
      {m : ProblemMatcher} {ms : List ProblemMatcher} {p : Problem}
      → m e ≡ none
      → FirstMatch e ms p
      → FirstMatch e (m ∷ ms) p

-- No matcher claims the error.
abbrev pub NoMatch : GoError → List ProblemMatcher → Type 0
NoMatch e ms = All (λ m. m e ≡ none) ms

-- No own error stands anywhere in the tree.
abbrev pub HasNoOwn : GoError → Type 0
HasNoOwn (own o) = ⊥
HasNoOwn (problem p) = Unit
HasNoOwn (problem_pointer p) = Unit
HasNoOwn canceled = Unit
HasNoOwn (opaque t) = Unit
HasNoOwn (wrapping t e) = HasNoOwn e
HasNoOwn (joined a b) = HasNoOwn a × HasNoOwn b

-- The first own error of the tree, in depth first order.
pub data FirstOwn (o : OwnError) : GoError → Type 0 where
  itself : FirstOwn o (own o)
  wrapped : {t : Bytes} {e : GoError} → FirstOwn o e → FirstOwn o (wrapping t e)
  left : {a b : GoError} → FirstOwn o a → FirstOwn o (joined a b)
  right : {a b : GoError} → HasNoOwn a → FirstOwn o b → FirstOwn o (joined a b)

-- The status of each own error.
pub data OwnStatus : OwnError → ℕ → Type 0 where
  bad_query : (e : QueryError) → OwnStatus (query e) 400
  no_match : (e : PreconditionError) → e.missing ≡ true → OwnStatus (precondition e) 428
  bad_match : (e : PreconditionError) → e.missing ≡ false → OwnStatus (precondition e) 400
  large_body : (e : BodyError) → e.too_large ≡ true → OwnStatus (body e) 413
  bad_body : (e : BodyError) → e.too_large ≡ false → OwnStatus (body e) 400
  large_upload : (e : UploadError) → e.too_large ≡ true → OwnStatus (upload e) 413
  no_length :
      (e : UploadError)
      → e.too_large ≡ false
      → e.header ≡ codes "Content-Length"
      → OwnStatus (upload e) 411
  bad_upload :
      (e : UploadError)
      → e.too_large ≡ false
      → e.header ≢ codes "Content-Length"
      → OwnStatus (upload e) 415
  bad_path : (e : PathError) → OwnStatus (path e) 400

-- A problem as it is sent: a missing status is 500.
pub data Sent (p : Problem) : Problem → Type 0 where
  kept : p.status ≢ 0 → Sent p p
  defaulted : p.status ≡ 0 → Sent p (record p { status = 500 })

-- The problem policy, in its order of precedence: an own error anywhere in the tree, a returned
-- problem, the first matcher, and the bare 500. The flag marks a problem returned whole.
pub data Maps (ms : List ProblemMatcher) : GoError → Problem → Bool → Type 0 where
  built_in :
      {e : GoError} {o : OwnError} {s : ℕ}
      → FirstOwn o e
      → OwnStatus o s
      → Maps ms e (with_only_status s) false
  whole : {e : GoError} {p q : Problem} → IsReturned e p → Sent p q → Maps ms e q true
  matched :
      {e : GoError} {p q : Problem}
      → HasNoOwn e
      → ((p : Problem) → ¬ IsReturned e p)
      → FirstMatch e ms p
      → Sent p q
      → Maps ms e q false
  unclaimed :
      {e : GoError}
      → HasNoOwn e
      → ((p : Problem) → ¬ IsReturned e p)
      → NoMatch e ms
      → Maps ms e (with_only_status 500) false

find_own-cases :
    (e : GoError)
    → ((o : OwnError) × (find_own e ≡ some o) × FirstOwn o e) ⊎ ((find_own e ≡ none) × HasNoOwn e)
unfolding find_own
find_own-cases (own o) = inl (o, refl, FirstOwn.itself)
find_own-cases (problem p) = inr (refl, tt)
find_own-cases (problem_pointer p) = inr (refl, tt)
find_own-cases canceled = inr (refl, tt)
find_own-cases (opaque t) = inr (refl, tt)
find_own-cases (wrapping t e) = elim (find_own-cases e) [
  | inl (o, h, first) ↦ inl (o, h, FirstOwn.wrapped first)
  | inr (h, absent) ↦ inr (h, absent)
]
find_own-cases (joined a b) = elim (find_own-cases a) [
  | inl (o, h, first) ↦ inl (o, rw h refl, FirstOwn.left first)
  | inr (h, absent) ↦ elim (find_own-cases b) [
    | inl (o, h', first) ↦ inl (o, rw (h, h') refl, FirstOwn.right absent first)
    | inr (h', absent') ↦ inr (rw (h, h') refl, (absent, absent'))
  ]
]

own_status-OwnStatus : (o : OwnError) → OwnStatus o (own_status o)
unfolding own_status
own_status-OwnStatus (query e) = OwnStatus.bad_query e
own_status-OwnStatus (precondition e) = elim (Bool-cases e.missing) [
  | inl h ↦ subst (OwnStatus (precondition e)) (ground arith) (OwnStatus.no_match e h)
  | inr h ↦ subst (OwnStatus (precondition e)) (ground arith) (OwnStatus.bad_match e h)
]
own_status-OwnStatus (body e) = elim (Bool-cases e.too_large) [
  | inl h ↦ subst (OwnStatus (body e)) (ground arith) (OwnStatus.large_body e h)
  | inr h ↦ subst (OwnStatus (body e)) (ground arith) (OwnStatus.bad_body e h)
]
own_status-OwnStatus (upload e) = elim (Bool-cases e.too_large) [
  | inl h ↦ subst (OwnStatus (upload e)) (ground arith) (OwnStatus.large_upload e h)
  | inr h ↦ elim (Bool-cases (bytes_eq e.header (codes "Content-Length"))) [
    | inl same ↦
        subst (OwnStatus (upload e)) (ground arith)
          (OwnStatus.no_length e h ((bytes_eq_iff e.header (codes "Content-Length")).0 same))
    | inr other ↦
        subst (OwnStatus (upload e)) (ground arith)
          (OwnStatus.bad_upload e h (ne_of_bytes_eq e.header (codes "Content-Length") other))
  ]
]
own_status-OwnStatus (path e) = OwnStatus.bad_path e

with_status-Sent : (p : Problem) → Sent p (with_status p)
unfolding with_status
with_status-Sent p = elim (Bool-cases (p.status == 0)) [
  | inl h ↦ subst (Sent p) (ground arith) (Sent.defaulted (ground arith))
  | inr h ↦ subst (Sent p) (ground arith) (Sent.kept (ground arith))
]

match_error-cases :
    (ms : List ProblemMatcher) (e : GoError)
    → ((p : Problem) × FirstMatch e ms p × (match_error ms e ≡ with_status p))
      ⊎ (NoMatch e ms × (match_error ms e ≡ with_only_status 500))
unfolding match_error
match_error-cases [] e = inr (tt, refl)
match_error-cases (m ∷ ms) e = elim (Option-cases (m e)) [
  | inr (p, h) ↦ inl (p, FirstMatch.here h, rw (h, match_error))
  | inl h ↦ elim (match_error-cases ms e) [
    | inl (p, first, same) ↦ inl (p, FirstMatch.later h first, rw (h, match_error) same)
    | inr (missed, same) ↦ inr ((h, missed), rw (h, match_error) same)
  ]
]

by_matchers :
    (ms : List ProblemMatcher) (e : GoError)
    → HasNoOwn e
    → ((p : Problem) → ¬ IsReturned e p)
    → Maps ms e (match_error ms e) false
by_matchers ms e h k = elim (match_error-cases ms e) [
  | inl (p, first, same) ↦
      subst (λ q. Maps ms e q false) (sym same) (matched h k first (with_status-Sent p))
  | inr (missed, same) ↦ subst (λ q. Maps ms e q false) (sym same) (unclaimed h k missed)
]

returned-Maps :
    (ms : List ProblemMatcher) (e : GoError)
    → HasNoOwn e
    → Maps ms e (returned_problem ms e).0 (returned_problem ms e).1
unfolding returned_problem
returned-Maps ms (problem p) h = whole (value p) (with_status-Sent p)
returned-Maps ms (problem_pointer (some p)) h = whole (pointer p) (with_status-Sent p)
returned-Maps ms (problem_pointer none) h =
    by_matchers ms (problem_pointer none) h (λ p r. elim r [ ])
returned-Maps ms (own e) h = by_matchers ms (own e) h (λ p r. elim r [ ])
returned-Maps ms canceled h = by_matchers ms canceled h (λ p r. elim r [ ])
returned-Maps ms (opaque t) h = by_matchers ms (opaque t) h (λ p r. elim r [ ])
returned-Maps ms (wrapping t e) h = by_matchers ms (wrapping t e) h (λ p r. elim r [ ])
returned-Maps ms (joined a b) h = by_matchers ms (joined a b) h (λ p r. elim r [ ])

-- The writer's mapping follows the policy: the first own error anywhere in the error's tree, under
-- wrapping and in either of two joined errors, wins over the matchers, with the status of its kind; a
-- returned problem is taken whole; then the first matcher that claims the error decides, and an error
-- nothing claims is a 500. A problem without a status is a 500.
pub problem_of-Maps :
    (ew : ErrorWriter) (e : GoError) → Maps ew.matchers e (problem_of ew e).0 (problem_of ew e).1
unfolding problem_of
problem_of-Maps ew e = elim (find_own-cases e) [
  | inl (o, h, first) ↦ rw (h, problem_of) (built_in first (own_status-OwnStatus o))
  | inr (h, absent) ↦ rw (h, problem_of) (returned-Maps ew.matchers e absent)
]

pub match_error_of_NoMatch :
    (ms : List ProblemMatcher) (e : GoError)
    → NoMatch e ms
    → match_error ms e ≡ with_only_status 500
unfolding match_error
match_error_of_NoMatch [] e h = refl
match_error_of_NoMatch (m ∷ ms) e (h, hs) = rw (h, match_error) (match_error_of_NoMatch ms e hs)

Sent-ne-zero : (p q : Problem) → Sent p q → q.status ≢ 0
Sent-ne-zero p _ (kept h) = h
Sent-ne-zero p _ (defaulted h) = omega arith

OwnStatus-ne-zero : (o : OwnError) (s : ℕ) → OwnStatus o s → s ≢ 0
OwnStatus-ne-zero _ _ (bad_query e) = omega arith
OwnStatus-ne-zero _ _ (no_match e h) = omega arith
OwnStatus-ne-zero _ _ (bad_match e h) = omega arith
OwnStatus-ne-zero _ _ (large_body e h) = omega arith
OwnStatus-ne-zero _ _ (bad_body e h) = omega arith
OwnStatus-ne-zero _ _ (large_upload e h) = omega arith
OwnStatus-ne-zero _ _ (no_length e h k) = omega arith
OwnStatus-ne-zero _ _ (bad_upload e h k) = omega arith
OwnStatus-ne-zero _ _ (bad_path e) = omega arith

-- What an error is mapped to has a status.
pub problem_of-ne-zero : (ew : ErrorWriter) (e : GoError) → (problem_of ew e).0.status ≢ 0
problem_of-ne-zero ew e = of_Maps (problem_of-Maps ew e)
  where
    of_Maps : {p : Problem} {b : Bool} → Maps ew.matchers e p b → p.status ≢ 0
    of_Maps (built_in first given) = OwnStatus-ne-zero _ _ given
    of_Maps (whole {p = p} {q = q} h sent) = Sent-ne-zero p q sent
    of_Maps (matched {p = p} {q = q} h k m sent) = Sent-ne-zero p q sent
    of_Maps (unclaimed h k m) = omega arith
