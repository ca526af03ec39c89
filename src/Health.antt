-- ===== src/Health.antt =====
-- health.go: the probes. A checker's answer is a function of the world in which it is asked; package
-- lifecycle of go-core gives the checks.
pub mod Probed
pub mod Unready
pub mod Verdict
use go_web_sdk.Bundled.Selection.{ready_path, health_path}
use go_web_sdk.Http.Handler.{Handler}
use go_web_sdk.Response.{write_json}
use go_web_sdk.Problem.{write_for, Problem}
use go_web_sdk.Http.Writer.{set_header}
use go_web_sdk.Text.{is_empty, codes, Bytes}
use go_web_sdk.Http.Json.{end, bool, cons, str, nil, member, arr, Items, obj, Json}
use go_web_sdk.Http.Json
use go_web_sdk.Http.World.{World, ◌>>=◌, ◌>>◌, pure}
use go_web_sdk.Common.{
  ◌&&◌, ◌++◌, true, ◌∷◌, false, [], if◌then◌else◌, Bool, Option, List, none, some,
}

-- `lifecycle.Check`, whose checker may be nil.
pub record Check : Type 0 where
  pub name : Bytes
  pub checker : Option (World → Bool)

-- `checkResult`
pub record CheckResult : Type 0 where
  pub name : Bytes
  pub ready : Bool

-- `check.Checker != nil && check.Checker.Ready()`
abbrev pub is_ready : World → Check → Bool
is_ready w c = elim c.checker [ none ↦ false | some asked ↦ asked w ]

-- The loop over the checks: whether all are ready, and each result in order.
unfoldable pub probe : World → Bool → List Check → Bool × List CheckResult
probe w ready [] = (ready, [])
probe w ready (c ∷ cs) =
    let ok = is_ready w c in
    let (all, results) = probe w (ready && ok) cs in
    (all, record { name = c.name; ready = ok } ∷ results)

-- `[]checkResult` as JSON.
abbrev pub result_json : CheckResult → Json
result_json r = obj (member (codes "name") (str r.name) (member (codes "ready") (bool r.ready) end))

abbrev pub results_items : List CheckResult → Items
results_items [] = nil
results_items (r ∷ rs) = cons (result_json r) (results_items rs)

abbrev pub results_json : List CheckResult → Json
results_json rs = arr (results_items rs)

-- `readyBody`, whose checks are omitted when there are none.
abbrev pub ready_body : List CheckResult → Json
ready_body [] = obj (member (codes "status") (str (codes "ready")) end)
ready_body (r ∷ rs) = obj (
    member (codes "status") (str (codes "ready"))
      (member (codes "checks") (results_json (r ∷ rs)) end))

-- `Liveness`
unfoldable pub liveness : Handler
unfolding set_header write_json
liveness wr r =
    set_header wr (codes "Cache-Control") (codes "no-store")
    >> (write_json wr 200 (obj (member (codes "status") (str (codes "ok")) end)) >>= λ _. pure tt)

-- The template of `readiness`: a 503 with a detail.
unfoldable pub not_ready_template : Problem → Problem
not_ready_template p = record p {
  status = 503;
  detail = if is_empty p.detail then codes "one or more readiness checks failed" else p.detail;
}

-- The problem with the results in a copy of its extras.
unfoldable pub with_checks : Problem → List CheckResult → Problem
unfolding Json.put Json.copy
with_checks p results = record p {
  extras = Json.put (Json.copy [] p.extras) (codes "checks") (results_json results);
}

-- The answer to a probe.
unfoldable pub answer_probe : Problem → Bool × List CheckResult → Handler
unfolding write_json write_for with_checks
answer_probe p (true, results) wr r = write_json wr 200 (ready_body results) >>= λ _. pure tt
answer_probe p (false, results) wr r = write_for (with_checks p results) wr r >>= λ _. pure tt

-- `readiness`, over checks that are read on every request.
unfoldable pub readiness : Problem → (World → List Check) → Handler
unfolding not_ready_template probe answer_probe set_header
readiness not_ready checks wr r w =
    (set_header wr (codes "Cache-Control") (codes "no-store")
        >> answer_probe (not_ready_template not_ready) (probe w true (checks w)) wr r)
      w

-- `Readiness`
unfoldable pub readiness_of : Problem → List Check → Handler
unfolding readiness
readiness_of not_ready checks = readiness not_ready (λ w. checks)

-- `Doctor`
pub record Doctor : Type 0 where
  pub ready : World → Bool
  pub checks : World → List Check

-- The checks that `RegisterHealth` reads of a doctor.
abbrev pub doctor_checks : Doctor → World → List Check
doctor_checks d w = record { name = codes "lifecycle"; checker = some (d.ready) } ∷ d.checks w

-- `RegisterHealth` on a mux; `none` is a panic.
unfoldable pub register_health :
    {M : Type 0} → (Bytes → Handler → M → Option M) → Option Doctor → Problem → M → Option M
unfolding liveness readiness
register_health handle none not_ready m = none
register_health handle (some d) not_ready m =
    elim (handle (codes "GET " ++ health_path) liveness m) [
      | none ↦ none
      | some m' ↦ handle (codes "GET " ++ ready_path) (readiness not_ready (doctor_checks d)) m'
    ]
