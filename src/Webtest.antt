-- ===== src/Webtest.antt =====
-- webtest/client.go: `Client`. A test that fails is an error. What net/http builds and sends, and a
-- body's decoding, are parameters.
pub mod Problems
use go_web_sdk.Bundled.Selection.{health_path}
use go_web_sdk.Response.{json_media_type}
use go_web_sdk.Problem.{problem_media_type, Problem}
use go_web_sdk.Problem.Unmarshal.{unmarshal}
use go_web_sdk.Http.World.{json, raw, Chunk}
use go_web_sdk.Http.Json.{Doc, Json}
use go_web_sdk.Text.{is_empty, has_prefix, codes, Bytes, trim_left}
use go_web_sdk.Http.Header.{HeaderMap}
use go_web_sdk.Http.Header
use go_web_sdk.Http.Json
use go_web_sdk.Common.{panicked, some, none, Option}
use go_web_sdk.Common.{
  reject_if, inr, not, ok, ◌&&◌, err, ◌++◌, inl, if◌then◌else◌, true, Result, ◌⊎◌, List, false,
  Option, ◌==◌, Bool, ℕ, ◌>>=◌, ◌>>◌, [], ◌∷◌,
}
use mathlib.Core.List.{reverse}

-- `strings.TrimRight(base, "/")`
unfoldable pub trim_slashes : Bytes → Bytes
unfolding trim_left
trim_slashes s = reverse (trim_left (λ c. c == b'/') (reverse s))

pub record Client : Type 0 where
  pub base : Bytes

-- `NewClient`
unfoldable pub new_client : Bytes → Client
unfolding trim_slashes
new_client base = record { base = trim_slashes base }

-- The types that `Do` tells apart in a body; `raw_pointer none` is a nil pointer.
pub data RequestBody : Type 0 where
  no_body : RequestBody
  raw_body : Bytes → Bytes → RequestBody
  raw_pointer : Option (Bytes × Bytes) → RequestBody
  bytes_body : Bytes → RequestBody
  text_body : Bytes → RequestBody
  value_body : Json → RequestBody

-- A request as it is sent, and a response read whole.
pub record SentRequest : Type 0 where
  pub method : Bytes
  pub url : Bytes
  pub header : HeaderMap
  pub body : Option Chunk

pub record ClientResponse : Type 0 where
  pub status : ℕ
  pub header : HeaderMap
  pub body : Bytes

-- Why a test fails.
pub data Failure : Type 0 where
  unencodable : Failure
  unbuilt : Bytes → Failure
  unsent : Bytes → Failure
  other_status : ℕ → ℕ → Failure
  undecoded : Bytes → Failure
  other_media_type : Bytes → Failure
  other_problem_status : ℕ → ℕ → Failure

-- The switch on the body: the reader, and the Content-Type.
unfoldable pub reader_of : RequestBody → Result Failure (Option Chunk × Bytes)
unfolding Json.is_encodable
reader_of no_body = ok (none, json_media_type)
reader_of (raw_body content_type b) = ok (some (raw b), content_type)
reader_of (raw_pointer none) = panicked
reader_of (raw_pointer (some (content_type, b))) = ok (some (raw b), content_type)
reader_of (bytes_body b) = ok (some (raw b), json_media_type)
reader_of (text_body b) = ok (some (raw b), json_media_type)
reader_of (value_body v) =
    if Json.is_encodable v then ok (some (json v), json_media_type) else err unencodable

abbrev pub has_body : RequestBody → Bool
has_body no_body = false
has_body (raw_body content_type b) = true
has_body (raw_pointer p) = true
has_body (bytes_body b) = true
has_body (text_body b) = true
has_body (value_body v) = true

-- The loop that sets the headers.
unfoldable pub set_all : HeaderMap → List (Bytes × Bytes) → HeaderMap
set_all h [] = h
set_all h ((name, value) ∷ headers) = set_all (Header.set h name value) headers

abbrev pub from_text {ℓ} : {V : Type ℓ} → (Bytes → Failure) → Bytes ⊎ V → Result Failure V
from_text f (inl text) = err (f text)
from_text f (inr v) = ok v

-- `build` is what `http.NewRequest` makes of a method and a URL: the headers that it starts from.
module _ (build : Bytes → Bytes → Bytes ⊎ HeaderMap)
    (send : SentRequest → Bytes ⊎ ClientResponse) where
  -- `Client.Do`
  unfoldable pub do_request :
      Client → Bytes → Bytes → RequestBody → List (Bytes × Bytes) → Result Failure ClientResponse
  unfolding reader_of set_all
  do_request c method path body headers = reader_of body >>= λ part.
      from_text unbuilt (build method (c.base ++ path)) >>= λ header. from_text unsent (
        send (record {
          method = method;
          url = c.base ++ path;
          header =
              set_all
                (if has_body body && not (is_empty part.1)
                  then Header.set header (codes "Content-Type") part.1
                  else header)
                headers;
          body = part.0;
        }))

  -- `Get`, `Post`, `Put` and `Delete`.
  unfoldable pub get_path : Client → Bytes → List (Bytes × Bytes) → Result Failure ClientResponse
  unfolding do_request
  get_path c path headers = do_request c (codes "GET") path no_body headers

  unfoldable pub post :
      Client → Bytes → RequestBody → List (Bytes × Bytes) → Result Failure ClientResponse
  unfolding do_request
  post c path body headers = do_request c (codes "POST") path body headers

  unfoldable pub put_path :
      Client → Bytes → RequestBody → List (Bytes × Bytes) → Result Failure ClientResponse
  unfolding do_request
  put_path c path body headers = do_request c (codes "PUT") path body headers

  unfoldable pub delete_path : Client → Bytes → List (Bytes × Bytes) → Result Failure ClientResponse
  unfolding do_request
  delete_path c path headers = do_request c (codes "DELETE") path no_body headers

-- `Response.Expect`
unfoldable pub expect : ClientResponse → ℕ → Result Failure ClientResponse
expect r status = if r.status == status then ok r else err (other_status r.status status)

-- `Response.JSON`, by the decoder of the value's type.
unfoldable pub json_of {ℓ} : {V : Type ℓ} → (Bytes → Bytes ⊎ V) → ClientResponse → Result Failure V
json_of decode r = from_text undecoded (decode r.body)

-- `Decode`
unfoldable pub decode_response {ℓ} :
    {V : Type ℓ} → (Bytes → Bytes ⊎ V) → ClientResponse → ℕ → Result Failure V
unfolding expect json_of
decode_response decode r status = expect r status >>= λ r'. json_of decode r'

-- `parse` reads a body as a JSON object.
module _ (parse : Bytes → Bytes ⊎ Doc) where
  -- A body as a problem, by its `UnmarshalJSON`.
  unfoldable pub decode_problem : Bytes → Bytes ⊎ Problem
  unfolding unmarshal
  decode_problem body = elim (parse body) [
    | inl text ↦ inl text
    | inr doc ↦ elim (unmarshal doc) [
      | none ↦ inl (codes "json: cannot unmarshal")
      | some p ↦ inr p
    ]
  ]

  -- `Response.Problem`
  unfoldable pub response_problem : ClientResponse → ℕ → Result Failure Problem
  unfolding expect json_of decode_problem has_prefix
  response_problem r status = expect r status >>= λ r'.
      let media_type = Header.get r'.header (codes "Content-Type") in
      reject_if (not (has_prefix media_type problem_media_type)) (other_media_type media_type)
      >> json_of decode_problem r'
      >>= λ p. reject_if (not (p.status == status)) (other_problem_status p.status status) >> ok p

-- webtest/live.go: `Live`, by the status that a GET gives, if it gives one.
unfoldable pub live : (Bytes → Option ℕ) → Bytes → Bool
live get base = elim (get (base ++ health_path)) [ none ↦ false | some status ↦ status == 200 ]
