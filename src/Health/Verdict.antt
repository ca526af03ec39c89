-- ===== src/Health/Verdict.antt =====
-- health.go: the verdict of the readiness probe.
use go_web_sdk.Health.Unready.{answer_probe-IsUnready, results_encodable, IsUnready}
use go_web_sdk.Health.Probed.{
  results-states, ready_body-ready_document, states, ready_document, probe_verdict, probe_results,
  AreReady, results_of,
}
use go_web_sdk.Recorder.{Returns-bind, Returns, Agrees}
use go_web_sdk.Http.Writer.{connection, recorder, write, write_header, set_header}
use go_web_sdk.Response.{encode_value, write_json}
use go_web_sdk.Http.Json
use go_web_sdk.Http.Request.{Request}
use go_web_sdk.Problem.{Problem}
use go_web_sdk.Http.Json.{arr, str, Json, Doc}
use go_web_sdk.Text.{codes}
use go_web_sdk.Health.{
  results_json, arr, not_ready_template, readiness, answer_probe, ready_body, set_header,
  write_json, Problem, Json, codes, CheckResult, Check, probe,
}
use go_web_sdk.Http.World.{json, World, ◌>>◌, pure}
use go_web_sdk.Common.{
  inr, inl, Bool-cases, sym, subst, arith, ◌++◌, ℕ, ◌∙◌, false, ap₂, refl, ◌&&◌, [], ap, true, ◌∷◌,
  ◌≡◌, Bool, List, none, some,
}

-- The 200 is on the wire with the value as its body.
pub record IsSent (status : ℕ) (v : Json) (w w' : World) : Type 0 where
  pub wire : w'.conn.status ≡ some status
  pub body : w'.conn.body ≡ w.conn.body ++ json v ∷ []

write_json-IsSent :
    (at : ℕ) (v : Json) (w : World)
    → Agrees at none w
    → Json.is_encodable v ≡ true
    → Returns (write_json (recorder at connection) 200 v w) (IsSent 200 v w)
unfolding write_json set_header write_header encode_value write
write_json-IsSent at v w h e =
    let uncommitted = h.recorded in let open_wire = h.wire in let sound = h.sound in ground arith

body_encodable : (rs : List CheckResult) → Json.is_encodable (ready_body rs) ≡ true
unfolding Json.is_encodable
body_encodable [] = refl
body_encodable (r ∷ rs) = ap (λ b. b && true) (results_encodable rs)

-- No-store is set, and nothing else has changed.
record IsUnanswered (at : ℕ) (w w' : World) : Type 0 where
  fresh : Agrees at none w'
  unsent : w'.conn.body ≡ w.conn.body

no_store-IsUnanswered :
    (at : ℕ) (w : World)
    → Agrees at none w
    → Returns
        (set_header (recorder at connection) (codes "Cache-Control") (codes "no-store") w)
        (IsUnanswered at w)
unfolding set_header
no_store-IsUnanswered at w h = record {
  fresh = record { wire = h.wire; recorded = h.recorded; status = h.status; sound = h.sound };
  unsent = refl;
}

answer_ready :
    (p : Problem) (rs : List CheckResult) (r : Request) (at : ℕ) (w w' : World)
    → IsUnanswered at w w'
    → Returns
        (answer_probe p (true, rs) (recorder at connection) r w')
        (IsSent 200 (ready_body rs) w)
unfolding answer_probe
answer_ready p rs r at w w' h =
    let wr = recorder at connection in
    Returns-bind {B = Unit {0}} (IsSent 200 (ready_body rs) w') (IsSent 200 (ready_body rs) w)
      (write_json wr 200 (ready_body rs)) (λ _. pure tt) w'
      (write_json-IsSent at (ready_body rs) w' h.fresh (body_encodable rs))
      λ _ w2 k. record {
        wire = k.wire;
        body = k.body ∙ ap (λ b. b ++ json (ready_body rs) ∷ []) h.unsent;
      }

readiness_lem :
    (p : Problem) (checks : World → List Check) (r : Request) (at : ℕ) (w : World) (b : Bool)
    (Q : World → Type 0)
    → Agrees at none w
    → (probe w true (checks w)).0 ≡ b
    → ((w' : World)
        → IsUnanswered at w w'
        → Returns
            (answer_probe
              (not_ready_template p)
              (b, results_of w (checks w))
              (recorder at connection)
              r
              w')
            Q)
    → Returns (readiness p checks (recorder at connection) r w) Q
unfolding readiness
readiness_lem p checks r at w b Q h e k =
    let wr = recorder at connection in
    let verdict : probe w true (checks w) ≡ (b, results_of w (checks w)) =
      ap₂ (λ x y. (x, y)) e (probe_results w true (checks w)) in
    subst
      (λ v.
        Returns
          ((set_header wr (codes "Cache-Control") (codes "no-store")
              >> answer_probe (not_ready_template p) v wr r)
            w)
          Q)
      (sym verdict)
      (Returns-bind {B = Unit {0}} (IsUnanswered at w) Q
        (set_header wr (codes "Cache-Control") (codes "no-store"))
        (λ _. answer_probe (not_ready_template p) (b, results_of w (checks w)) wr r) w
        (no_store-IsUnanswered at w h) (λ _ w' q. k w' q))

template_status : (p : Problem) → (not_ready_template p).status ≡ 503
unfolding not_ready_template
template_status p = refl

-- The readiness probe answers 200 with every check's name and state, in order, when every check is ready,
-- a nil checker being unready and no checks being ready, and otherwise with a 503 problem. The body of
-- that is one document, whose "checks" member has every check's name and state, in order, whatever extras
-- the template brings, unless the template has an extra that JSON cannot encode. (Nothing is committed,
-- and the writes do not fail.)
pub readiness-Answers :
    (p : Problem) (checks : World → List Check) (r : Request) (at : ℕ) (w : World)
    → Agrees at none w
    → (AreReady w (checks w)
        → Returns
            (readiness p checks (recorder at connection) r w)
            (IsSent 200 (ready_document w (checks w)) w))
      × (¬ AreReady w (checks w)
          → Returns
              (readiness p checks (recorder at connection) r w)
              (IsUnready p.extras (arr (states w (checks w))) w))
unfolding not_ready_template
readiness-Answers p checks r at w h =
    let rs = results_of w (checks w) in
    let (forth, back) = probe_verdict w true (checks w) in
    (
      λ all.
          subst (λ v. Returns (readiness p checks (recorder at connection) r w) (IsSent 200 v w))
            (ready_body-ready_document w (checks w))
            (readiness_lem p checks r at w true (IsSent 200 (ready_body rs) w) h (back (refl, all))
              λ w' q. answer_ready (not_ready_template p) rs r at w w' q),
      λ some_not.
          subst
            (λ items.
              Returns (readiness p checks (recorder at connection) r w)
                (IsUnready p.extras (arr items) w))
            (results-states w (checks w))
            (readiness_lem p checks r at w false (IsUnready p.extras (results_json rs) w) h
              (elim (Bool-cases (probe w true (checks w)).0) [
                | inl good ↦ absurd (some_not (forth good).1)
                | inr bad ↦ bad
              ])
              λ w' q.
                answer_probe-IsUnready (not_ready_template p) rs r at w w' (template_status p)
                  q.fresh q.unsent),
    )
