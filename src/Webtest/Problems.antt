-- ===== src/Webtest/Problems.antt =====
-- webtest/client.go: the problem that a client reads is the one that was written.
use go_web_sdk.Problem.Unmarshal.{unmarshal}
use go_web_sdk.Problem.Unmarshal.RoundTrip.{unmarshal-marshal}
use go_web_sdk.Problem.Unmarshal.Fields.{HasPlainKeys}
use go_web_sdk.Text.Int.{max_int}
use go_web_sdk.Problem.{marshal, problem_media_type, Problem}
use go_web_sdk.Http.Json.{Doc}
use go_web_sdk.Text.{codes, has_prefix, Bytes}
use go_web_sdk.Http.Header
use go_web_sdk.Http.Json
use go_web_sdk.Webtest.{
  unmarshal, Problem, Doc, Bytes, decode_problem, json_of, expect, ClientResponse, response_problem,
}
use go_web_sdk.Common.{refl, some, ==_iff, ◌==◌, ap, ◌≤◌, inr, true, ◌≡◌, ◌⊎◌, ok, []}

decode_problem_lem :
    (parse : Bytes → Bytes ⊎ Doc) (body : Bytes) (doc : Doc) (q : Problem)
    → parse body ≡ inr doc
    → unmarshal doc ≡ some q
    → decode_problem parse body ≡ inr q
unfolding decode_problem
decode_problem_lem parse body doc q parses reads = rw (parses, reads, decode_problem) refl

-- A response that carries a marshaled problem with its status and the media type of problems is read back
-- as that problem, less the order of its extras. (The body parses to what was marshaled, the status fits
-- an int, and no extra's name is a standard one, in whatever case.)
pub response_problem-marshal :
    (parse : Bytes → Bytes ⊎ Doc) (r : ClientResponse) (p : Problem)
    → r.status ≡ p.status
    → has_prefix (Header.get r.header (codes "Content-Type")) problem_media_type ≡ true
    → parse r.body ≡ inr (marshal p)
    → p.status ≤ max_int
    → HasPlainKeys p.extras
    → (q : Problem) × (response_problem parse r p.status ≡ ok q)
      × (record q { extras = [] } ≡ record p { extras = [] })
      × ((k : Bytes) → Json.find q.extras k ≡ Json.find_last p.extras k)
unfolding response_problem expect json_of
response_problem-marshal parse r p same media parses small plain =
    let (q, reads, fields, extras) = unmarshal-marshal p small plain in
    let status : q.status ≡ p.status = ap (λ x. x.status) fields in
    let agrees : (q.status == p.status) ≡ true = (==_iff q.status p.status).1 status in
    let expected : (r.status == p.status) ≡ true = (==_iff r.status p.status).1 same in
    let decoded = decode_problem_lem parse r.body (marshal p) q parses reads in
    (q, rw (expected, media, decoded, agrees, response_problem, json_of) refl, fields, extras)
