-- ===== src/Reading/Uploads.antt =====
-- request.go: which uploads are accepted, and the status of a refusal.
use go_web_sdk.Text.Int.{◌<ℤ◌, ◌≤ℤ◌, pos, ℤ}
use go_web_sdk.Http.Request.{Request}
use go_web_sdk.Errors.{upload, own_status, UploadError}
use go_web_sdk.Reading.{
  no_media, upload_of, over_length, no_length, pos, bad_media, contains_byte, check_size, codes, ℤ,
  Request, Upload, read_upload, media_type_of, UploadError, is_empty, MediaParser,
}
use go_web_sdk.Text.{contains_byte, codes, bytes_eq, is_empty, Bytes}
use go_web_sdk.Common.{
  ◌∷◌, sym, subst, ap, arith, ◌∙◌, refl, Bool-cases, inl, true, ◌⊎◌, inr, err, List, ok, ℕ, false,
  ◌≡◌, Result,
}
use go_web_sdk.Http.Header
use go_web_sdk.Common.{◌>>◌, Result, Bool-cases}
use go_web_sdk.Errors.{upload}

-- The error is one that is answered with this status.
abbrev pub IsRefused {ℓ} : {V : Type ℓ} → Result UploadError V → ℕ → Type ℓ
IsRefused result status = (e : UploadError) × (result ≡ err e) × (own_status (upload e) ≡ status)

check_size-fits : (n limit : ℤ) → pos 0 ≤ℤ n → n ≤ℤ limit → check_size n limit ≡ ok tt
unfolding check_size
check_size-fits n limit low high = ground arith

check_size-missing : (n limit : ℤ) → n <ℤ pos 0 → IsRefused (check_size n limit) 411
unfolding check_size own_status bytes_eq
check_size-missing n limit missing = (no_length, ground arith, refl)

check_size-over : (n limit : ℤ) → pos 0 ≤ℤ n → limit <ℤ n → IsRefused (check_size n limit) 413
unfolding check_size own_status
check_size-over n limit low over = (over_length n limit, ground arith, refl)

IsRefused->> :
    (r : Result UploadError (Unit {0})) (next : Result UploadError Upload) (status : ℕ)
    → IsRefused r status
    → IsRefused (r >> next) status
IsRefused->> r next status (e, run, answers) = (e, rw run refl, answers)

module _ (quote : Bytes → Bytes) (parse_media_type : MediaParser) where
  -- The header is not empty and parses to a media type that has a slash.
  abbrev pub IsMedia : Bytes → Bytes → Type 0
  IsMedia ct media_type =
      (is_empty ct ≡ false)
      × (params : List (Bytes × Bytes)) × (parse_media_type ct ≡ inr (media_type, params))
      × (contains_byte media_type b'/' ≡ true)

  media_type_of-IsMedia :
      (ct media_type : Bytes)
      → IsMedia ct media_type
      → media_type_of quote parse_media_type ct ≡ ok media_type
  unfolding media_type_of
  media_type_of-IsMedia ct media_type (given, params, e, slash) = rw (e, slash, media_type_of) refl

  media_type_of-refused :
      (ct : Bytes)
      → is_empty ct ≡ false
      → ((media_type : Bytes) → ¬ IsMedia ct media_type)
      → (e : UploadError) × (media_type_of quote parse_media_type ct ≡ err e)
        × (own_status (upload e) ≡ 415)
  unfolding media_type_of own_status bytes_eq
  media_type_of-refused ct given none_fits = by_parse (parse_media_type ct) refl
    where
      by_parse :
          (p : Bytes ⊎ (Bytes × List (Bytes × Bytes)))
          → parse_media_type ct ≡ p
          → (e : UploadError) × (media_type_of quote parse_media_type ct ≡ err e)
            × (own_status (upload e) ≡ 415)
      by_parse (inl text) e =
          (bad_media quote parse_media_type ct text, rw (e, media_type_of) refl, refl)
      by_parse (inr (mt, params)) e = elim (Bool-cases (contains_byte mt b'/')) [
        | inl slash ↦ absurd (none_fits mt (given, params, e, slash))
        | inr bare ↦ (
          bad_media quote parse_media_type ct (codes "not a type/subtype media type"),
          rw (e, bare, media_type_of) refl,
          refl,
        )
      ]

  read_upload_lem :
      (r : Request) (limit : ℤ) (media_type : Bytes)
      → IsMedia (Header.get r.header (codes "Content-Type")) media_type
      → read_upload quote parse_media_type r limit
        ≡ (check_size r.content_length limit >> ok (upload_of r limit media_type))
  unfolding read_upload
  read_upload_lem r limit media_type h =
      let given = h.0 in
      let e = media_type_of-IsMedia (Header.get r.header (codes "Content-Type")) media_type h in
      rw (given, e) refl

  read_upload_unfit :
      (r : Request) (limit : ℤ)
      → ((media_type : Bytes) → ¬ IsMedia (Header.get r.header (codes "Content-Type")) media_type)
      → IsRefused (read_upload quote parse_media_type r limit) 415
  unfolding read_upload own_status bytes_eq
  read_upload_unfit r limit none_fits =
      elim (Bool-cases (is_empty (Header.get r.header (codes "Content-Type")))) [
        | inl e ↦ (no_media, rw (e, read_upload) refl, refl)
        | inr e ↦
            let (bad, run, answers) =
              media_type_of-refused (Header.get r.header (codes "Content-Type")) e none_fits in
            (bad, rw (e, run, read_upload) refl, answers)
      ]

  -- What `ReadUpload` answers on every request. Behind a Content-Type that parses to a type with a subtype,
  -- a declared size from zero to the limit is accepted, with the headers' values and the body bounded at
  -- the limit; a size that is not declared is refused with a 411, and one above the limit with a 413. Any
  -- other Content-Type, or none, is refused with a 415.
  pub read_upload-Judges :
      (r : Request) (limit : ℤ)
      → ((media_type : Bytes)
          → IsMedia (Header.get r.header (codes "Content-Type")) media_type
          → (pos 0 ≤ℤ r.content_length
              → r.content_length ≤ℤ limit
              → read_upload quote parse_media_type r limit
                ≡ ok (record {
                  content_type = Header.get r.header (codes "Content-Type");
                  media_type = media_type;
                  size = r.content_length;
                  body_limits = limit ∷ r.body_limits;
                }))
            × (r.content_length <ℤ pos 0
                → IsRefused (read_upload quote parse_media_type r limit) 411)
            × (pos 0 ≤ℤ r.content_length
                → limit <ℤ r.content_length
                → IsRefused (read_upload quote parse_media_type r limit) 413))
        × (((media_type : Bytes)
              → ¬ IsMedia (Header.get r.header (codes "Content-Type")) media_type)
            → IsRefused (read_upload quote parse_media_type r limit) 415)
  unfolding check_size own_status bytes_eq
  read_upload-Judges r limit = (
    λ media_type h.
        let e = read_upload_lem r limit media_type h in
        (
          λ low high.
              e
              ∙ ap (λ c. c >> ok (upload_of r limit media_type))
                  (check_size-fits r.content_length limit low high),
          λ missing.
              subst (λ o. IsRefused o 411) (sym e)
                (IsRefused->> _ (ok (upload_of r limit media_type)) 411
                  (check_size-missing r.content_length limit missing)),
          λ low over.
              subst (λ o. IsRefused o 413) (sym e)
                (IsRefused->> _ (ok (upload_of r limit media_type)) 413
                  (check_size-over r.content_length limit low over)),
        ),
    λ none_fits. read_upload_unfit r limit none_fits,
  )
