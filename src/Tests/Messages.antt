-- ===== src/Tests/Messages.antt =====
-- Attachments, uploads and problems that are read back, at fixed inputs.
use go_web_sdk.Text.{contains_byte}
use go_web_sdk.Webtest.{ClientResponse, response_problem}
use go_web_sdk.Webtest.Problems.{response_problem-marshal}
use go_web_sdk.Reading.{read_upload, MediaParser}
use go_web_sdk.Reading.Uploads.{IsMedia, IsRefused, read_upload-Judges}
use go_web_sdk.Problem.Unmarshal.{unmarshal, is_standard, fold_from}
use go_web_sdk.Problem.Unmarshal.Fields.{HasPlainKeys}
use go_web_sdk.Problem.Unmarshal.RoundTrip.{unmarshal-marshal}
use go_web_sdk.Http.Json.{Doc, str}
use go_web_sdk.Text.Int.{◌<ℤ◌, ◌≤ℤ◌, pos}
use go_web_sdk.Http.Json.{num}
use go_web_sdk.Http.Request.{Request}
use go_web_sdk.Text.{has_prefix, codes, bytes_eq, Bytes}
use go_web_sdk.Problem.{problem_media_type, marshal, with_only_status, Problem}
use go_web_sdk.Tests.Fixtures.{request}
use go_web_sdk.Http.Header
use go_web_sdk.Http.Json
use go_web_sdk.Common.{refl, true, some, [], ◌⊎◌, ◌≡◌, ◌∷◌, inr, arith, ok}

abbrev parse_png : MediaParser
parse_png s = inr (s, [])

abbrev uploading : Request
uploading = record request {
  header = (codes "Content-Type", codes "image/png" ∷ []) ∷ [];
  content_length = pos 12;
}

read_upload-Judges_example :
    ((media_type : Bytes)
      → IsMedia (λ s. s) parse_png (Header.get uploading.header (codes "Content-Type")) media_type
      → (pos 0 ≤ℤ pos 12
          → pos 12 ≤ℤ pos 1000
          → read_upload (λ s. s) parse_png uploading (pos 1000)
            ≡ ok (record {
              content_type = Header.get uploading.header (codes "Content-Type");
              media_type = media_type;
              size = pos 12;
              body_limits = pos 1000 ∷ [];
            }))
        × (pos 12 <ℤ pos 0 → IsRefused (read_upload (λ s. s) parse_png uploading (pos 1000)) 411)
        × (pos 0 ≤ℤ pos 12
            → pos 1000 <ℤ pos 12
            → IsRefused (read_upload (λ s. s) parse_png uploading (pos 1000)) 413))
    × (((media_type : Bytes)
          → ¬ IsMedia
              (λ s. s)
              parse_png
              (Header.get uploading.header (codes "Content-Type"))
              media_type)
        → IsRefused (read_upload (λ s. s) parse_png uploading (pos 1000)) 415)
read_upload-Judges_example = read_upload-Judges (λ s. s) parse_png uploading (pos 1000)

abbrev conflict : Problem
conflict = record (with_only_status 409) {
  detail = codes "taken";
  extras = (codes "owner", str (codes "ann")) ∷ [];
}

conflict-HasPlainKeys : HasPlainKeys conflict.extras
unfolding is_standard fold_from bytes_eq has_prefix
conflict-HasPlainKeys = (refl, tt)

unmarshal-marshal_example :
    (q : Problem) × (unmarshal (marshal conflict) ≡ some q)
    × (record q { extras = [] } ≡ record conflict { extras = [] })
    × ((k : Bytes) → Json.find q.extras k ≡ Json.find_last conflict.extras k)
unmarshal-marshal_example = unmarshal-marshal conflict (omega arith) conflict-HasPlainKeys

-- A parser that knows one body.
abbrev parse_conflict : Bytes → Bytes ⊎ Doc
parse_conflict s = inr (marshal conflict)

abbrev answered : ClientResponse
answered = record {
  status = 409;
  header = (codes "Content-Type", problem_media_type ∷ []) ∷ [];
  body = codes "taken";
}

answered_media :
    has_prefix (Header.get answered.header (codes "Content-Type")) problem_media_type ≡ true
unfolding has_prefix Header.get bytes_eq Header.canonical contains_byte
answered_media = refl

response_problem-marshal_example :
    (q : Problem) × (response_problem parse_conflict answered 409 ≡ ok q)
    × (record q { extras = [] } ≡ record conflict { extras = [] })
    × ((k : Bytes) → Json.find q.extras k ≡ Json.find_last conflict.extras k)
response_problem-marshal_example =
    response_problem-marshal parse_conflict answered conflict refl answered_media refl (omega arith)
      conflict-HasPlainKeys
