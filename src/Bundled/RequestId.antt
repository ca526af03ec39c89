-- ===== src/Bundled/RequestId.antt =====
-- middleware/requestid.go: `RequestID`.
pub mod Safe
use go_web_sdk.Http.Header
use go_web_sdk.Middleware.{Middleware}
use go_web_sdk.Http.Writer.{set_header}
use go_web_sdk.Http.Request.{with_request_id, Request}
use go_web_sdk.Common.{
  zero, length, ◌%◌, ◌-◌, ◌||◌, ◌&&◌, ok, suc, some, none, ◌/◌, ltb, not, true, leb, panicked, ◌+◌,
  [], if◌then◌else◌, Bool, ◌∷◌, Result, ℕ, List, Option,
}
use go_web_sdk.Text.{is_empty, codes, Bytes}
use go_web_sdk.Http.World.{◌>>=◌, ◌>>◌, Run, pure, returned}

abbrev pub request_id_header : Bytes
request_id_header = codes "X-Request-Id"

-- `none` is the nil source; an empty header trusts none.
pub record RequestIdConfig : Type 0 where
  pub source : Option (Request → Bytes)
  pub header : Bytes

abbrev pub RequestIdOption : Type 0
RequestIdOption = RequestIdConfig → RequestIdConfig

-- `WithIDSource`
unfoldable pub with_id_source {ℓ} :
    {E : Type ℓ} → Option (Request → Bytes) → Result E RequestIdOption
with_id_source none = panicked
with_id_source (some fn) = ok (λ c. record c { source = some fn })

-- `WithTrustedHeader`
unfoldable pub with_trusted_header {ℓ} : {E : Type ℓ} → Bytes → Result E RequestIdOption
with_trusted_header name = if is_empty name then panicked else ok (λ c. record c { header = name })

-- The loop over the options, nil ones skipped.
unfoldable pub configure : List (Option RequestIdOption) → RequestIdConfig → RequestIdConfig
configure [] c = c
configure (none ∷ opts) c = configure opts c
configure (some opt ∷ opts) c = configure opts (opt c)

abbrev pub is_visible : ℕ → Bool
is_visible c = leb b'!' c && leb c b'~'

all_visible : Bytes → Bool
all_visible [] = true
all_visible (c ∷ s) = is_visible c && all_visible s

-- `validID`
unfoldable pub valid_id : Bytes → Bool
unfolding all_visible
valid_id id = not (is_empty id || ltb 128 (length id)) && all_visible id

abbrev pub hex_digit : ℕ → ℕ
hex_digit n = if ltb n 10 then b'0' + n else b'a' + (n - 10)

-- `hex.EncodeToString`
unfoldable pub encode_hex : Bytes → Bytes
encode_hex [] = []
encode_hex (b ∷ bs) = hex_digit (b / 16) ∷ hex_digit (b % 16) ∷ encode_hex bs

-- The next bytes of the random source.
unfoldable pub draw : ℕ → (ℕ → ℕ) → Bytes
draw zero e = []
draw (suc n) e = e 0 % 256 ∷ draw n (λ i. e (suc i))

-- `generateID`
unfoldable pub generate_id : Run Bytes
unfolding encode_hex draw
generate_id w =
    returned (encode_hex (draw 16 w.entropy)) (record w { entropy = λ i. w.entropy (i + 16) })

-- `requestIDConfig.id` behind the source.
unfoldable pub trusted_id : RequestIdConfig → Request → Run Bytes
unfolding generate_id valid_id
trusted_id c r =
    if not (is_empty c.header) && valid_id (Header.get r.header c.header)
    then pure (Header.get r.header c.header)
    else generate_id

-- The source is asked first, if there is one.
unfoldable pub ask_source : Option (Request → Bytes) → RequestIdConfig → Request → Run Bytes
unfolding trusted_id
ask_source none c r = trusted_id c r
ask_source (some source) c r = if is_empty (source r) then trusted_id c r else pure (source r)

-- `requestIDConfig.id`
unfoldable pub resolve_id : RequestIdConfig → Request → Run Bytes
unfolding ask_source
resolve_id c r = ask_source c.source c r

-- The middleware that `RequestID` makes of a configuration.
unfoldable pub identify : RequestIdConfig → Middleware
unfolding resolve_id set_header
identify c next wr r = do
  id ← resolve_id c r
  set_header wr request_id_header id
  next wr (record r { context = with_request_id id r.context })

-- `RequestID`
unfoldable pub request_id : List (Option RequestIdOption) → Middleware
unfolding configure identify
request_id opts = identify (configure opts (record { source = none; header = [] }))
