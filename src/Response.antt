-- ===== src/Response.antt =====
-- response.go: `WriteJSON`, `WriteObject` and `NewPage`. Formatting a date is a parameter, beside the
-- parsing and truncation that the preconditions take.
pub mod Objects
pub mod Attachment
use go_web_sdk.Text.Decimal.{print_int}
use go_web_sdk.Caching.{not_modified}
use go_web_sdk.Http.Request.{Request}
use go_web_sdk.Http.Json.{Json}
use go_web_sdk.Query.{Query}
use go_web_sdk.Text.Int.{pos, leb_ℤ, ℤ}
use go_web_sdk.Errors.{query, opaque, GoError}
use go_web_sdk.Http.Writer.{read_from, Writer, write_header, write, del_header, set_header}
use go_web_sdk.Text.{bytes_eq, is_empty, codes, Bytes}
use go_web_sdk.Http.Json
use go_web_sdk.Http.World.{
  json, Run, Outcome, Chunk, Effect, error, ◌>>=◌, ◌>>◌, pure, returned, panicking, continue, when,
}
use go_web_sdk.Common.{if◌then◌else◌, Bool, not, ◌∷◌, [], ℕ, Option, List, none, some}

abbrev pub json_media_type : Bytes
json_media_type = codes "application/json"

-- `json.NewEncoder(w).Encode(data)`: the text of the error, or none.
unfoldable pub encode_value : Writer → Json → Run (Option Bytes)
unfolding write Json.is_encodable
encode_value wr v =
    if Json.is_encodable v then write wr (json v) else pure (some (codes "json: unsupported type"))

-- `WriteJSON`
unfoldable pub write_json : Writer → ℕ → Json → Run (Option Bytes)
unfolding set_header write_header encode_value
write_json wr status v =
    set_header wr (codes "Content-Type") json_media_type
    >> write_header wr status
    >> encode_value wr v

-- `modified_at` is `none` for a zero time.
pub record Object : Type 0 where
  pub content_type : Bytes
  pub size : ℤ
  pub etag : Bytes
  pub modified_at : Option ℕ

-- What `open` returns: an error, or a body that is only a reader and a closer, which gives these chunks
-- and then ends or fails.
pub record Body : Type 0 where
  pub chunks : List Chunk
  pub failure : Option Bytes
  pub close : Effect

pub data Opened : Type 0 where
  unopened : GoError → Opened
  opened : Body → Opened

-- `representation`
abbrev pub representation : List Bytes
representation =
    codes "Cache-Control"
    ∷ codes "Content-Disposition"
    ∷ codes "Content-Encoding"
    ∷ codes "Content-Length"
    ∷ codes "Content-Range"
    ∷ codes "ETag"
    ∷ codes "Expires"
    ∷ codes "Last-Modified"
    ∷ []

-- The loop that deletes headers.
unfoldable pub clear_headers : Writer → List Bytes → Effect
unfolding del_header
clear_headers wr [] = pure tt
clear_headers wr (name ∷ names) = del_header wr name >> clear_headers wr names

-- A failed open: nothing of the object's headers stays.
unfoldable pub refuse_object : Writer → GoError → Run (Option GoError)
unfolding clear_headers set_header
refuse_object wr e =
    clear_headers wr representation
    >> set_header wr (codes "Cache-Control") (codes "no-store")
    >> pure (some e)

abbrev pub as_error : Option Bytes → Option GoError
as_error none = none
as_error (some t) = some (opaque t)

-- The headers and the body of a 200; a HEAD has no body.
unfoldable pub send_object : Writer → Object → Option Body → Run (Option GoError)
unfolding set_header write_header read_from print_int
send_object wr o body = do
  set_header wr (codes "Content-Type")
      (if is_empty o.content_type then codes "application/octet-stream" else o.content_type)
  when (leb_ℤ (pos 0) o.size) (set_header wr (codes "Content-Length") (print_int o.size))
  set_header wr (codes "X-Content-Type-Options") (codes "nosniff")
  write_header wr 200
  elim body [
    | none ↦ pure none
    | some b ↦ read_from wr b.chunks b.failure >>= λ failed. pure (as_error failed)
  ]

-- `defer body.Close()`: the body is closed on a panic too.
abbrev pub closing : Effect → Outcome (Option GoError) → Outcome (Option GoError)
closing close (returned e w) = continue (close w) (λ _ w'. returned e w')
closing close (panicking p w) = continue (close w) (λ _ w'. panicking p w')

module _ (parse_time : Bytes → Option ℕ) (truncate : ℕ → ℕ) (format_time : ℕ → Bytes) where
  -- Last-Modified, unless the time is zero.
  unfoldable pub set_modified : Writer → Option ℕ → Effect
  unfolding set_header
  set_modified wr none = pure tt
  set_modified wr (some t) = set_header wr (codes "Last-Modified") (format_time t)

  -- The validators, before the preconditions are looked at.
  unfoldable pub set_validators : Writer → Object → Effect
  unfolding set_header set_modified
  set_validators wr o =
      when (not (is_empty o.etag)) (set_header wr (codes "ETag") o.etag)
      >> set_modified wr o.modified_at

  -- `WriteObject` past the preconditions.
  unfoldable pub proxy_object : Writer → Request → Object → Run Opened → Run (Option GoError)
  unfolding send_object refuse_object
  proxy_object wr r o opening =
      if bytes_eq r.method (codes "HEAD")
      then send_object wr o none
      else (opening >>= λ result. elim result [
        | unopened e ↦ refuse_object wr e
        | opened b ↦ λ w. closing b.close (send_object wr o (some b) w)
      ])

  -- `WriteObject`: its error, or none.
  unfoldable pub write_object : Writer → Request → Object → Run Opened → Run (Option GoError)
  unfolding set_validators not_modified proxy_object write_header
  write_object wr r o opening = do
    set_validators wr o
    if not_modified parse_time truncate r (record { etag = o.etag; modified_at = o.modified_at })
        then (write_header wr 304 >> pure none)
        else proxy_object wr r o opening

-- `Paging`; `total` is `none` for a read that did not count.
pub record Paging : Type 0 where
  pub total : Option ℤ
  pub more : Bool
  pub next : Bytes

-- `Page`, whose items are never null.
pub record Page {ℓ} (T : Type ℓ) : Type ℓ where
  pub items : List T
  pub page : ℤ
  pub size : ℤ
  pub total : Option ℤ
  pub more : Bool
  pub next : Bytes

abbrev pub items_or_empty {ℓ} : {T : Type ℓ} → Option (List T) → List T
items_or_empty none = []
items_or_empty (some items) = items

-- `NewPage`; `none` is a nil slice.
unfoldable pub new_page {ℓ} : {T : Type ℓ} → Option (List T) → Query → Paging → Page T
new_page items q p = record {
  items = items_or_empty items;
  page = q.page;
  size = q.size;
  total = p.total;
  more = p.more;
  next = p.next;
}
