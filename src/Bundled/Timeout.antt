-- ===== src/Bundled/Timeout.antt =====
-- middleware/timeout.go: `Timeout`. A deadline is kept as its distance, and the cancellation once the
-- handler is done is not read again.
use go_web_sdk.Http.Request.{with_deadline}
use go_web_sdk.Middleware.{Middleware}
use go_web_sdk.Text.Int.{pos_part, pos, leb_ℤ, ℤ}
use go_web_sdk.Common.{ok, panicked, if◌then◌else◌, Result}

-- `Timeout`
unfoldable pub timeout {ℓ} : {E : Type ℓ} → ℤ → Result E Middleware
timeout d =
    if leb_ℤ d (pos 0)
    then panicked
    else ok (λ next wr r. next wr (record r { context = with_deadline (pos_part d) r.context }))
