-- ===== src/RateLimit/Made.antt =====
-- middleware/rate-limit/ratelimit.go: a finalized configuration makes a limiter.
use go_web_sdk.Problem.Written.{send_status-IsProblem, IsProblem}
use go_web_sdk.Http.Writer.{connection, recorder}
use go_web_sdk.Recorder.{Returns, Agrees}
use go_web_sdk.Http.World.{World}
use go_web_sdk.Http.Request.{Request}
use go_web_sdk.Config.Valid.{deref-eq-ok}
use go_web_sdk.Text.{codes, Bytes}
use go_web_sdk.Config.{finalized, invalid, deref, second, EnvApi}
use go_web_sdk.Common.{
  refl, [], none, ℕ, arith, Option, reject_if, subst, >>-eq-ok, >>=-eq-ok, ok, some, ◌≡◌,
}
use go_web_sdk.Text.Int.{ltb_ℤ, leb_ℤ, ◌≤ℤ◌, pos, ℤ}
use go_web_sdk.RateLimit.{
  Request, key_by_remote_addr, failed, limited, codes, limiter, new, ltb_ℤ, leb_ℤ, LimitBy, pos,
  Bytes, EnvApi, ℤ, Config, validate, finalize_block, new_env, apply_env, apply_defaults,
}

abbrev pub IsLimit : Config → ℤ → ℤ → Type 0
IsLimit c requests window =
    (c.requests ≡ some requests)
    × (c.window ≡ some window)
    × (pos 1 ≤ℤ requests)
    × (pos second ≤ℤ window)

positive-eq-ok :
    (n : ℤ) → reject_if (leb_ℤ n (pos 0)) (invalid (codes "requests") n) ≡ ok tt → pos 1 ≤ℤ n
positive-eq-ok n h = ground arith

whole_second-eq-ok :
    (d : ℤ)
    → reject_if (ltb_ℤ d (pos second)) (invalid (codes "window") d) ≡ ok tt
    → pos second ≤ℤ d
whole_second-eq-ok d h = ground arith

validate-eq-ok :
    (c : Config) → validate c ≡ ok tt → (requests : ℤ) × (window : ℤ) × IsLimit c requests window
unfolding validate
validate-eq-ok c h =
    let (n, e0, h0) = >>=-eq-ok (deref c.requests) _ h in
    let (e1, h1) = >>-eq-ok (reject_if (leb_ℤ n (pos 0)) (invalid (codes "requests") n)) _ h0 in
    let (d, e2, h2) = >>=-eq-ok (deref c.window) _ h1 in
    (
      n,
      d,
      (
        deref-eq-ok c.requests n e0,
        deref-eq-ok c.window d e2,
        positive-eq-ok n e1,
        whole_second-eq-ok d h2,
      ),
    )

finalize_block-valid :
    (api : EnvApi) (prefix block : Bytes) (c c' : Config)
    → finalize_block api prefix block c ≡ ok c'
    → validate c' ≡ ok tt
unfolding finalize_block
finalize_block-valid api prefix block c c' h =
    let (c1, e1, h1) =
      >>=-eq-ok (apply_env api (apply_defaults (record c { env = new_env api prefix block }))) _
        h in
    let (e2, h2) = >>-eq-ok (validate c1) (ok c1) h1 in
    let same : c1 ≡ c' = cc in subst (λ d. validate d ≡ ok tt) same e2

module _ (limit_by : LimitBy) (split_host_port : Bytes → Option (Bytes × Bytes))
    (canonicalize_ip : Bytes → Bytes) (print_duration : ℤ → Bytes) where
  new_of_IsLimit {ℓ} :
      {E : Type ℓ} (c : Config) (n d : ℤ)
      → validate c ≡ ok tt
      → IsLimit c n d
      → new print_duration limit_by split_host_port canonicalize_ip {E = E} c
        ≡ ok (limiter print_duration limit_by split_host_port canonicalize_ip n d)
  unfolding new finalized
  new_of_IsLimit c n d valid (e, k, low, long) = rw (valid, e, k) refl

  -- A rate limit that is finalized without an error never makes `New` panic: it makes the limiter of its
  -- own requests, one at least, and window, a second at least, and the handlers that the limiter is
  -- given answer with a 429 problem over the limit and a 500 problem on an error. (For the answers:
  -- nothing is committed, and the writes do not fail.)
  pub new_of_finalize_block {ℓ} :
      {E : Type ℓ} (api : EnvApi) (prefix block : Bytes) (c c' : Config)
      → finalize_block api prefix block c ≡ ok c'
      → (n : ℤ) × (d : ℤ) × IsLimit c' n d
        × (new print_duration limit_by split_host_port canonicalize_ip {E = E} c'
            ≡ ok (
                limit_by n d
                  (key_by_remote_addr split_host_port canonicalize_ip)
                  (limited print_duration n d)
                  failed))
        × ((r : Request) (at : ℕ) (w : World)
            → Agrees at none w
            → Returns (limited print_duration n d (recorder at connection) r w) (IsProblem 429))
        × ((reason : Bytes) (r : Request) (at : ℕ) (w : World)
            → Agrees at none w
            → Returns (failed reason (recorder at connection) r w) (IsProblem 500))
  unfolding limiter limited failed
  new_of_finalize_block {E} api prefix block c c' h =
      let valid = finalize_block-valid api prefix block c c' h in
      let (n, d, limit) = validate-eq-ok c' valid in
      (
        n,
        d,
        limit,
        new_of_IsLimit {E = E} c' n d valid limit,
        λ r at w fresh. send_status-IsProblem r at w 429 [] _ fresh (omega arith) (omega arith),
        λ reason r at w fresh.
            send_status-IsProblem r at w 500 [] _ fresh (omega arith) (omega arith),
      )
