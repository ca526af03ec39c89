-- ===== src/Bundled/Selection.antt =====
-- middleware/maybe.go: `Maybe`, `NotProbe`. middleware/headers.go: `Headers`. middleware/bodylimit.go:
-- `BodyLimit`. health.go: the probes' paths.
use go_web_sdk.Http.Header
use go_web_sdk.Middleware.{Middleware}
use go_web_sdk.Text.Int.{pos, leb_ℤ, ℤ}
use go_web_sdk.Http.Writer.{Writer, set_header}
use go_web_sdk.Http.Request.{Request}
use go_web_sdk.Text.{is_empty, bytes_eq, codes, contains, Bytes}
use go_web_sdk.Common.{
  ◌||◌, none, err, ◌&&◌, ok, some, ◌∷◌, if◌then◌else◌, [], not, panicked, Result, Bool, List,
  Option,
}
use go_web_sdk.Http.World.{Effect, ◌>>◌, pure}

-- `Maybe`: `none` is a nil middleware or predicate, on which it panics.
unfoldable pub maybe {ℓ} :
    {E : Type ℓ} → Option Middleware → Option (Request → Bool) → Result E Middleware
maybe none pred = panicked
maybe (some mw) none = panicked
maybe (some mw) (some pred) = ok (λ next wr r. if pred r then mw next wr r else next wr r)

abbrev pub health_path : Bytes
health_path = codes "/healthz"

abbrev pub ready_path : Bytes
ready_path = codes "/readyz"

-- `NotProbe`
unfoldable pub not_probe : Request → Bool
not_probe r = not (bytes_eq r.path health_path) && not (bytes_eq r.path ready_path)

-- A fixed header, its name canonical.
pub record FixedHeader : Type 0 where
  pub name : Bytes
  pub value : Bytes

-- The loop of `Headers` over its map, in the order it is ranged over; it panics on an empty name or
-- one that is seen already.
unfoldable pub fix_headers {ℓ} :
    {E : Type ℓ} → List (Bytes × Bytes) → List Bytes → Result E (List FixedHeader)
unfolding contains Header.canonical
fix_headers [] seen = ok []
fix_headers ((name, value) ∷ headers) seen =
    let canonical = Header.canonical name in
    let rest = fix_headers headers (canonical ∷ seen) in
    if is_empty name || contains seen canonical then panicked else elim rest [
      | ok fixed ↦ ok (record { name = canonical; value = value } ∷ fixed)
      | err e ↦ err e
      | panicked ↦ panicked
    ]

-- The loop that sets the fixed headers.
unfoldable pub set_fixed : Writer → List FixedHeader → Effect
unfolding set_header
set_fixed wr [] = pure tt
set_fixed wr (h ∷ hs) = set_header wr h.name h.value >> set_fixed wr hs

-- `Headers`
unfoldable pub headers {ℓ} : {E : Type ℓ} → List (Bytes × Bytes) → Result E Middleware
unfolding fix_headers set_fixed
headers {E} fields = elim (fix_headers {E = E} fields []) [
  | ok fixed ↦ ok (λ next wr r. set_fixed wr fixed >> next wr r)
  | err e ↦ err e
  | panicked ↦ panicked
]

-- `BodyLimit`: the limit is the innermost on the body that the next handler reads.
unfoldable pub body_limit {ℓ} : {E : Type ℓ} → ℤ → Result E Middleware
body_limit n =
    if leb_ℤ n (pos 0)
    then panicked
    else ok (λ next wr r. next wr (record r { body_limits = n ∷ r.body_limits }))
