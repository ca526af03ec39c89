-- ===== src/Health/Unready.antt =====
-- health.go: what the readiness probe writes when a check is not ready.
use go_web_sdk.Health.{answer_probe, with_checks, results_items, results_json, CheckResult}
use go_web_sdk.Health.Probed.{checks_member, find_last-checks}
use go_web_sdk.Http.Json
use go_web_sdk.Http.Json.{Doc, obj, Json}
use go_web_sdk.Http.Request.{Request}
use go_web_sdk.Http.World.{json, World, pure}
use go_web_sdk.Http.Writer.{connection, recorder}
use go_web_sdk.Problem.{apply_defaults, for_request, members, members_of, write_for, Problem}
use go_web_sdk.Problem.Body.{
  doc_encodable-put, doc_encodable-copy, sent_document, sent_document-encodable, IsBodyOf,
  write_for-IsBodyOf,
}
use go_web_sdk.Problem.Document.{find-marshal}
use go_web_sdk.Problem.Written.{IsProblem, write_for-IsProblem}
use go_web_sdk.Recorder.{Agrees, Returns, Returns-bind, Returns-both}
use go_web_sdk.Text.{bytes_eq}
use go_web_sdk.Common.{
  ◌≡◌, ◌⊎◌, ◌∷◌, ◌++◌, ◌∙◌, [], ℕ, true, false, some, none, inl, inr, refl, ap, subst, arith, List,
  Bool-cases,
}

-- A 503 problem is on the wire, and a document whose "checks" member is this one is all that was added
-- to the body, unless one of these extras has no JSON.
pub record IsUnready (extras : Doc) (checks : Json) (w w' : World) : Type 0 where
  pub problem : IsProblem 503 w'
  pub document :
      (Json.doc_encodable extras ≡ false)
      ⊎ ((d : Doc) × (w'.conn.body ≡ w.conn.body ++ json (obj (members_of d)) ∷ [])
          × (Json.find d checks_member ≡ some checks))

pub results_encodable : (rs : List CheckResult) → Json.are_encodable (results_items rs) ≡ true
unfolding Json.are_encodable
results_encodable [] = refl
results_encodable (r ∷ rs) = results_encodable rs

with_checks-encodable :
    (p : Problem) (rs : List CheckResult)
    → Json.doc_encodable p.extras ≡ true
    → Json.doc_encodable (with_checks p rs).extras ≡ true
unfolding with_checks Json.is_encodable Json.doc_encodable
with_checks-encodable p rs h =
    doc_encodable-put (Json.copy [] p.extras) checks_member (results_json rs)
      (doc_encodable-copy [] p.extras refl h) (results_encodable rs)

find-sent_document :
    (p : Problem) (rs : List CheckResult) (r : Request)
    → Json.find (sent_document (with_checks p rs) r) checks_member ≡ some (results_json rs)
unfolding bytes_eq apply_defaults
find-sent_document p rs r =
    let q = apply_defaults (for_request (with_checks p rs) r) in
    find-marshal q checks_member
    ∙ ap (λ o. elim o [ some v ↦ some v | none ↦ Json.find (members q) checks_member ])
        (find_last-checks p rs r)

IsBodyOf-IsUnready :
    (p : Problem) (rs : List CheckResult) (r : Request) (w w' w2 : World)
    → w'.conn.body ≡ w.conn.body
    → IsProblem 503 w2
    → IsBodyOf (sent_document (with_checks p rs) r) w' w2
    → IsUnready p.extras (results_json rs) w w2
IsBodyOf-IsUnready p rs r w w' w2 same problem body = record {
  problem = problem;
  document = elim (Bool-cases (Json.doc_encodable p.extras)) [
    | inl fits ↦ inr (
      sent_document (with_checks p rs) r,
      body.sent (sent_document-encodable (with_checks p rs) r (with_checks-encodable p rs fits))
          ∙ ap (λ b. b ++ json (obj (members_of (sent_document (with_checks p rs) r))) ∷ []) same,
      find-sent_document p rs r,
    )
    | inr refused ↦ inl refused
  ];
}

pub answer_probe-IsUnready :
    (p : Problem) (rs : List CheckResult) (r : Request) (at : ℕ) (w w' : World)
    → p.status ≡ 503
    → Agrees at none w'
    → w'.conn.body ≡ w.conn.body
    → Returns
        (answer_probe p (false, rs) (recorder at connection) r w')
        (IsUnready p.extras (results_json rs) w)
unfolding answer_probe with_checks
answer_probe-IsUnready p rs r at w w' e fresh same =
    let send = write_for (with_checks p rs) (recorder at connection) r in
    let problem : Returns (send w') (IsProblem 503) =
      subst (λ n. Returns (send w') (IsProblem n)) e
        (write_for-IsProblem (with_checks p rs) r at w' fresh (omega (arith, e))
          (omega (arith, e))) in
    Returns-bind {B = Unit {0}} (IsUnready p.extras (results_json rs) w)
      (IsUnready p.extras (results_json rs) w) send (λ _. pure tt) w'
      (Returns-both (IsProblem 503) (IsBodyOf (sent_document (with_checks p rs) r) w')
        (IsUnready p.extras (results_json rs) w) (send w') problem
        (write_for-IsBodyOf (with_checks p rs) r at w' fresh (omega (arith, e)) (omega (arith, e))
          (omega (arith, e)) (omega (arith, e)))
        λ w2 sent body. IsBodyOf-IsUnready p rs r w w' w2 same sent body)
      λ _ w2 k. k
