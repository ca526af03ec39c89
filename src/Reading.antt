-- ===== src/Reading.antt =====
-- request.go: `PathUUID`, `DecodeJSON` and `ReadUpload`. The decoder of encoding/json, the parser of
-- UUIDs, `mime.ParseMediaType` and the verb %q are parameters, and what a decoder answers an argument.
pub mod Uploads
use go_web_sdk.Text.{is_empty, codes, contains_byte, Bytes}
use go_web_sdk.Errors.{UploadError, PathError, BodyError}
use go_web_sdk.Text.Decimal.{print_int}
use go_web_sdk.Text.Int.{pos, ltb_ℤ, ℤ}
use go_web_sdk.Http.Request.{Request}
use go_web_sdk.Http.Header
use go_web_sdk.Common.{
  inl, inr, ◌⊎◌, none, panicked, ◌++◌, ok, some, if◌then◌else◌, Bool, List, ◌∷◌, err, false, true,
  String, Option, Result, ◌>>=◌, ◌>>◌,
}

module _ (path_value : Request → Bytes → Bytes) (parse_uuid : Bytes → Option Bytes) where
  -- `PathUUID`: `parse_uuid` gives the canonical form.
  unfoldable pub path_uuid : Request → Bytes → Result PathError Bytes
  path_uuid r name = elim (parse_uuid (path_value r name)) [
    | none ↦ err (record { name = name; value = path_value r name })
    | some id ↦ ok id
  ]

-- The errors of a decoder: the limit that a read ran over, the end of the input, a syntax error, or
-- another, with their text.
pub data DecodeError : Type 0 where
  over_limit : ℤ → DecodeError
  end_of_input : DecodeError
  syntax : Bytes → DecodeError
  other : Bytes → DecodeError

-- `bodyError`
unfoldable pub body_error : DecodeError → BodyError
unfolding print_int
body_error (over_limit n) = record {
  too_large = true;
  reason = codes "exceeds the " ++ (print_int n ++ codes "-byte limit");
}
body_error end_of_input = record { too_large = false; reason = codes "empty body" }
body_error (syntax t) = record { too_large = false; reason = t }
body_error (other t) = record { too_large = false; reason = t }

abbrev pub trailing : BodyError
trailing = record { too_large = false; reason = codes "unexpected data after the JSON value" }

-- `DecodeJSON` behind the first value: the decoder's next token, `none` for one that is there.
unfoldable pub after_value {ℓ} : {T : Type ℓ} → T → Option DecodeError → Result BodyError T
unfolding body_error
after_value v none = err trailing
after_value v (some end_of_input) = ok v
after_value v (some (syntax t)) = err trailing
after_value v (some (over_limit n)) = err (body_error (over_limit n))
after_value v (some (other t)) = err (body_error (other t))

-- `DecodeJSON`, on a decoder that reads the request's body within its limits: the first value or an
-- error, and the token that follows it.
unfoldable pub decode_json {ℓ} :
    {T : Type ℓ}
    → (Request → (DecodeError ⊎ T) × Option DecodeError)
    → Request
    → ℤ
    → Result BodyError T
unfolding after_value
decode_json decoder r limit =
    let (first, then_token) = decoder (record r { body_limits = limit ∷ r.body_limits }) in
    elim first [ inr v ↦ after_value v then_token | inl e ↦ err (body_error e) ]

-- `Upload`, whose body is the request's within these limits.
pub record Upload : Type 0 where
  pub content_type : Bytes
  pub media_type : Bytes
  pub size : ℤ
  pub body_limits : List ℤ

abbrev pub upload_error : String → Bool → Bytes → UploadError
upload_error header too_large reason = record {
  header = codes header;
  too_large = too_large;
  reason = reason;
}

-- A media type with its parameters, or the text of an error.
abbrev pub MediaParser : Type 0
MediaParser = Bytes → Bytes ⊎ (Bytes × List (Bytes × Bytes))

-- The refusals that need no media type, and the upload that is accepted.
abbrev pub no_media : UploadError
no_media = upload_error "Content-Type" false (codes "the request requires a Content-Type header")

abbrev pub no_length : UploadError
no_length =
    upload_error "Content-Length" false
      (codes "the request requires a Content-Length header, not a chunked body")

abbrev pub over_length : ℤ → ℤ → UploadError
over_length size limit = upload_error "" true (
    codes "the declared "
    ++ (print_int size ++ (codes " bytes exceed the " ++ (print_int limit ++ codes "-byte limit"))))

abbrev pub upload_of : Request → ℤ → Bytes → Upload
upload_of r limit media_type = record {
  content_type = Header.get r.header (codes "Content-Type");
  media_type = media_type;
  size = r.content_length;
  body_limits = limit ∷ r.body_limits;
}

-- The check of the declared size.
unfoldable pub check_size : ℤ → ℤ → Result UploadError (Unit {0})
unfolding print_int
check_size size limit =
    if ltb_ℤ size (pos 0)
    then err no_length
    else if ltb_ℤ limit size
    then err (over_length size limit)
    else ok tt

module _ (quote : Bytes → Bytes) (parse_media_type : MediaParser) where
  -- The refusal of a Content-Type, with what is wrong with it.
  abbrev pub bad_media : Bytes → Bytes → UploadError
  bad_media ct text =
      upload_error "Content-Type" false
        (codes "Content-Type " ++ (quote ct ++ (codes ": " ++ text)))

  -- The media type of a Content-Type that is not empty.
  unfoldable pub media_type_of : Bytes → Result UploadError Bytes
  unfolding contains_byte
  media_type_of ct = elim (parse_media_type ct) [
    | inl text ↦ err (bad_media ct text)
    | inr (media_type, params) ↦
        if contains_byte media_type b'/'
        then ok media_type
        else err (bad_media ct (codes "not a type/subtype media type"))
  ]

  -- `ReadUpload`
  unfoldable pub read_upload : Request → ℤ → Result UploadError Upload
  unfolding media_type_of check_size
  read_upload r limit =
      let ct = Header.get r.header (codes "Content-Type") in
      if is_empty ct
      then err no_media
      else (media_type_of ct >>= λ media_type.
          check_size r.content_length limit >> ok (upload_of r limit media_type))
