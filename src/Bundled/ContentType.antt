-- ===== src/Bundled/ContentType.antt =====
-- middleware/contenttype.go: `ContentType` and `reject`. `mime.ParseMediaType` is a parameter.
pub mod Rejects
use go_web_sdk.Middleware.{Middleware}
use go_web_sdk.Http.Request.{Request}
use go_web_sdk.Http.Writer.{Writer}
use go_web_sdk.Text.{is_empty, codes, join, contains, contains_byte, Bytes}
use go_web_sdk.Problem.{send_status, write_status, write_for}
use go_web_sdk.Common.{
  none, err, ◌++◌, some, ◌∷◌, [], panicked, if◌then◌else◌, ok, List, Option, Result,
}
use go_web_sdk.Http.Header
use go_web_sdk.Http.World.{pure, Effect, ◌>>=◌, ◌>>◌}

-- `reject`: the encoder's error is dropped.
unfoldable pub reject : Writer → Request → Bytes → Bytes → Effect
unfolding send_status
reject wr r why accepted = send_status wr r 415 [] (why ++ (codes "; accepted: " ++ accepted))

-- The media type and the parameters that a value parses to, or `none` for an error.
module _ (parse_media_type : Bytes → Option (Bytes × List (Bytes × Bytes))) where
  -- The media type of an entry that is a bare type/subtype.
  unfoldable pub bare_type : Bytes → Option Bytes
  unfolding contains_byte
  bare_type a = elim (parse_media_type a) [
    | none ↦ none
    | some (mt, []) ↦ if contains_byte mt b'/' then some mt else none
    | some (mt, p ∷ ps) ↦ none
  ]

  -- The loop over the allowed types, which are kept once each.
  unfoldable pub collect {ℓ} : {E : Type ℓ} → List Bytes → List Bytes → Result E (List Bytes)
  unfolding bare_type contains
  collect [] types = ok types
  collect (a ∷ allowed) types = elim (bare_type a) [
    | none ↦ panicked
    | some mt ↦ collect allowed (if contains types mt then types else types ++ mt ∷ [])
  ]

  -- What is wrong with a Content-Type header, if anything.
  unfoldable pub refusal : List Bytes → Bytes → Option Bytes
  unfolding contains
  refusal types raw =
      if is_empty raw
      then some (codes "the request has no Content-Type header")
      else elim (parse_media_type raw) [
        | none ↦ some (codes "the Content-Type header is not a media type")
        | some (mt, params) ↦
            if contains types mt
            then none
            else some (codes "Content-Type " ++ (mt ++ codes " is not accepted"))
      ]

  -- The middleware that `ContentType` makes of the types.
  unfoldable pub accepting : List Bytes → Middleware
  unfolding reject refusal join
  accepting types next wr r = elim (refusal types (Header.get r.header (codes "Content-Type"))) [
    | some why ↦ reject wr r why (join types (codes ", "))
    | none ↦ next wr r
  ]

  -- `ContentType`
  unfoldable pub content_type {ℓ} : {E : Type ℓ} → List Bytes → Result E Middleware
  unfolding collect accepting
  content_type [] = panicked
  content_type {E} (a ∷ allowed) = elim (collect {E = E} (a ∷ allowed) []) [
    | ok types ↦ ok (accepting types)
    | err e ↦ err e
    | panicked ↦ panicked
  ]
