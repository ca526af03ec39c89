-- ===== src/Tests/Responses.antt =====
-- Errors, problems and recorders at fixed values.
use go_web_sdk.ErrorWriter.Disclosure.{
  nil_problem_panics, write_error_withholds, IsWithheld, IsCauseLogged, IsErrorRecord,
}
use go_web_sdk.Handle.Responses.{adapted_after_commit, adapted-IsProblem}
use go_web_sdk.Problem.Written.{IsProblem}
use go_web_sdk.Http.Json.{num}
use go_web_sdk.Http.Writer.{read_from, recording, wrap_writer, connection, write_header, recorder}
use go_web_sdk.Recorder.{
  read_from_nothing, invalid_status_commits, recorder-Agrees, committed_by, Call, Returns, Agrees,
  perform_all,
}
use go_web_sdk.ErrorWriter.Mapping.{problem_of-Maps, Maps, IsReturned}
use go_web_sdk.Errors.{path, own, opaque, problem_pointer, find_own, wrapping, error_text, GoError}
use go_web_sdk.ErrorWriter.{
  match_error, returned_problem, built_in_detail, write_error, mem_status, problem_of, ErrorWriter,
}
use go_web_sdk.Problem.{write_for, with_only_status, Problem}
use go_web_sdk.Common.{
  ◌≢◌, All, inl, ◌==◌, arith, if◌then◌else◌, ◌≤◌, ◌++◌, ◌≡◌, refl, [], ◌∷◌, some, none, List, true,
}
use go_web_sdk.Text.{Bytes, codes}
use go_web_sdk.Tests.Fixtures.{start, request}
use go_web_sdk.Http.World.{
  error, LogRecord, invalid_status, nil_dereference, panicking, raw, returned, pure, World, ◌>>=◌,
  ◌>>◌,
}
use go_web_sdk.Handle.{HandlerFunc, adapted}

-- The verb %q, for texts with nothing to escape.
abbrev quoted : Bytes → Bytes
quoted s = 34 ∷ (s ++ 34 ∷ [])

abbrev conflict : Problem
conflict = record (with_only_status 409) {
  detail = codes "taken";
  extras = (codes "request_id", num 1) ∷ [];
}

abbrev writer : ErrorWriter
writer = record { matchers = (λ e. none) ∷ []; detail = built_in_detail; logger = 1 }

abbrev secret : GoError
secret = wrapping (codes "load: password=x") (opaque (codes "password=x"))

problem_of-Maps_example :
    Maps writer.matchers
      (wrapping (codes "w") (own (path (record { name = codes "id"; value = codes "7" }))))
      (problem_of writer
        (wrapping (codes "w") (own (path (record { name = codes "id"; value = codes "7" }))))).0
      (problem_of writer
        (wrapping (codes "w") (own (path (record { name = codes "id"; value = codes "7" }))))).1
problem_of-Maps_example =
    problem_of-Maps writer
      (wrapping (codes "w") (own (path (record { name = codes "id"; value = codes "7" }))))

responses : Unit {0}
unfolding problem_of find_own returned_problem match_error error_text mem_status adapted write_error
    perform_all wrap_writer recording
responses = tt

secret_is_500 : (problem_of writer secret).0 ≡ with_only_status 500
unfolding responses
secret_is_500 = refl

secret_text : error_text quoted secret ≡ some (codes "load: password=x")
unfolding responses
secret_text = refl

secret_plain : (q : Problem) → ¬ IsReturned secret q
secret_plain q h = elim h [ ]

secret_not_detailed : All (λ s. s ≢ (problem_of writer secret).0.status) writer.detail
unfolding responses
secret_not_detailed = omega arith

write_error_withholds_example :
    (p : Problem) × (w' : World) × (write_error quoted writer connection request secret start
      ≡ write_for p connection request w')
    × IsWithheld secret writer.matchers p
    × (p.status ≡ (problem_of writer secret).0.status)
    × IsCauseLogged writer.logger p.status (codes "load: password=x") start w'
write_error_withholds_example =
    write_error_withholds quoted writer connection request secret (codes "load: password=x") start
      secret_text secret_plain secret_not_detailed

nil_problem_panics_example :
    ((problem_of writer (problem_pointer none)).0 ≡ with_only_status 500)
    × (write_error quoted writer connection request (problem_pointer none) start
        ≡ panicking nil_dereference start)
nil_problem_panics_example = nil_problem_panics quoted writer connection request start (refl, tt)

-- A handler that fails at once, and one that fails after its response.
abbrev failing : HandlerFunc
failing wr r = pure (some secret)

abbrev late : HandlerFunc
late wr r = perform_all wr (Call.status 201 ∷ []) >> pure (some secret)

start-Agrees : Agrees 0 none start
start-Agrees = record { wire = refl; recorded = refl; status = λ code e. cc; sound = refl }

secret_low : 200 ≤ (problem_of writer secret).0.status
unfolding responses
secret_low = omega arith

secret_high : (problem_of writer secret).0.status ≤ 999
unfolding responses
secret_high = omega arith

adapted-IsProblem_example :
    Returns
      (adapted quoted failing writer (recorder 0 connection) request start)
      (IsProblem (problem_of writer secret).0.status)
adapted-IsProblem_example =
    adapted-IsProblem quoted failing writer request secret (codes "load: password=x") 0 start start
      refl start-Agrees secret_text secret_low secret_high

-- The world that `late` leaves.
abbrev after_late : World
after_late = record start {
  conn = record (start.conn) { status = some 201 };
  recordings =
      λ i. if i == 0 then record { status = 201; committed = true } else start.recordings i;
}

late_runs : late (recorder 0 connection) request start ≡ returned (some secret) after_late
unfolding responses
late_runs = refl

after_late-Agrees : Agrees 0 (some 201) after_late
after_late-Agrees = record {
  wire = refl;
  recorded = refl;
  status = λ code e. ground arith;
  sound = refl;
}

adapted_after_commit_example :
    (l : LogRecord) × (adapted quoted late writer (recorder 0 connection) request start
      ≡ returned tt (record after_late { logs = after_late.logs ++ l ∷ [] }))
    × (l.level ≡ error)
    × IsErrorRecord writer.logger
        (codes "handler returned an error after committing its response")
        201
        (codes "load: password=x")
        l
adapted_after_commit_example =
    adapted_after_commit quoted late writer request secret (codes "load: password=x") 0 201 start
      after_late late_runs after_late-Agrees secret_text

-- An informational status, a body, and a status that comes too late.
abbrev calls : List Call
calls = Call.status 103 ∷ Call.body (raw (codes "hi")) ∷ Call.status 404 ∷ Call.flush ∷ []

recorder-Agrees_example :
    Returns
      ((wrap_writer connection >>= λ rec. perform_all rec calls) start)
      (Agrees start.next (committed_by none calls))
recorder-Agrees_example = recorder-Agrees calls start (omega arith) refl refl

invalid_status_commits_example :
    (w' : World) × (write_header (recorder 0 connection) 42 start
      ≡ panicking (invalid_status 42) w')
    × ((w'.recordings 0).committed ≡ true)
    × ((w'.recordings 0).status ≡ 42)
    × (w'.conn.status ≡ none)
invalid_status_commits_example = invalid_status_commits 0 42 start (inl (omega arith)) refl refl

read_from_nothing_example :
    (w' : World) × (read_from (recorder 0 connection) [] (some (codes "EOF")) start
      ≡ returned (some (codes "EOF")) w')
    × ((w'.recordings 0).committed ≡ true)
    × ((w'.recordings 0).status ≡ 200)
    × (w'.conn ≡ start.conn)
read_from_nothing_example = read_from_nothing 0 (some (codes "EOF")) start refl
