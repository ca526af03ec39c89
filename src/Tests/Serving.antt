-- ===== src/Tests/Serving.antt =====
-- The server and the rate limit at fixed inputs.
use go_web_sdk.Problem.Written.{IsProblem}
use go_web_sdk.Http.Writer.{connection, recorder}
use go_web_sdk.Recorder.{Returns, Agrees}
use go_web_sdk.Http.World.{World}
use go_web_sdk.Http.Request.{Request}
use go_web_sdk.Config.{
  second, default_idle_timeout, default_read_header_timeout, default_read_timeout,
}
use go_web_sdk.Text.Int.{pos, ℤ}
use go_web_sdk.Common.{arith, ℕ, sym, false, [], ok, ◌*◌, none, refl, Option, ◌≡◌, some}
use go_web_sdk.Server.Lifecycle.{
  serve_ends, started_once, call_start, here, reached-IsSound, next, IsSound, Steps, IsFresh,
}
use go_web_sdk.Text.{join, Bytes, bytes_eq, codes}
use go_web_sdk.Server
use go_web_sdk.Server.{idle, server_addr, serve_failed, serving, end_serving, bound, Server}
use go_web_sdk.RateLimit
use go_web_sdk.RateLimit.{new, limited, failed, key_by_remote_addr, LimitBy}
use go_web_sdk.RateLimit.Made.{IsLimit, new_of_finalize_block}
use go_web_sdk.Tests.Configured.{env}

abbrev fresh : Server
fresh = record {
  http = record {
    addr = codes "0.0.0.0:9000";
    read_timeout = default_read_timeout;
    read_header_timeout = default_read_header_timeout;
    write_timeout = pos 0;
    idle_timeout = default_idle_timeout;
    max_header_bytes = pos 0;
  };
  errs = [];
  errs_closed = false;
  listener = none;
  goroutine = idle;
  draining = false;
  connections_closed = false;
}

fresh-IsFresh : IsFresh fresh
fresh-IsFresh = record {
  unbound = refl;
  quiet = refl;
  unclosed = refl;
  waits = refl;
  accepts = refl;
}

abbrev serving_at : Server
serving_at = record fresh { listener = some (codes "[::]:9000"); goroutine = serving }

serving_started : (Server.start (bound (codes "[::]:9000")) fresh).1 ≡ serving_at
unfolding Server.start
serving_started = refl

abbrev broken : Server
broken = end_serving (serve_failed (codes "accept: closed")) serving_at

-- The server is started, and its serving fails.
to_broken : Steps fresh broken
to_broken =
    next (next here (call_start (bound (codes "[::]:9000")) (sym serving_started)))
      (serve_ends (serve_failed (codes "accept: closed")) refl (λ e. absurd (ground arith)) refl)

reached-IsSound_example : IsSound broken
reached-IsSound_example = reached-IsSound fresh broken fresh-IsFresh to_broken

started_once_example :
    (Server.start (bound (codes "[::]:9001")) (Server.start (bound (codes "[::]:9000")) fresh).1
      ≡ (some (codes "server already started"), (Server.start (bound (codes "[::]:9000")) fresh).1))
    × (server_addr (Server.start (bound (codes "[::]:9000")) fresh).1 ≡ codes "[::]:9000")
started_once_example =
    started_once fresh (Server.start (bound (codes "[::]:9000")) fresh).1 (codes "[::]:9000")
      (bound (codes "[::]:9001")) refl here

abbrev rate : RateLimit.Config
rate = record {
  requests = some (pos 5);
  window = none;
  env = record { requests = []; window = [] };
}

abbrev resolved_rate : RateLimit.Config
resolved_rate = record {
  requests = some (pos 5);
  window = some (pos (60 * second));
  env = RateLimit.new_env env (codes "app") (codes "login");
}

rate_resolves : RateLimit.finalize_block env (codes "app") (codes "login") rate ≡ ok resolved_rate
unfolding RateLimit.finalize_block bytes_eq join
rate_resolves = refl

-- A limiter that lets every request through, and one client for every address.
abbrev unlimited : LimitBy
unlimited requests window key over failing inner = inner

abbrev split : Bytes → Option (Bytes × Bytes)
split addr = none

abbrev same_ip : Bytes → Bytes
same_ip ip = ip

abbrev shown : ℤ → Bytes
shown d = codes "1m0s"

new_of_finalize_block_example :
    (n : ℤ) × (d : ℤ) × IsLimit resolved_rate n d
    × (new shown unlimited split same_ip {E = Bytes} resolved_rate
        ≡ ok (unlimited n d (key_by_remote_addr split same_ip) (limited shown n d) failed))
    × ((r : Request) (at : ℕ) (w : World)
        → Agrees at none w
        → Returns (limited shown n d (recorder at connection) r w) (IsProblem 429))
    × ((reason : Bytes) (r : Request) (at : ℕ) (w : World)
        → Agrees at none w
        → Returns (failed reason (recorder at connection) r w) (IsProblem 500))
new_of_finalize_block_example =
    new_of_finalize_block unlimited split same_ip shown {E = Bytes} env (codes "app")
      (codes "login") rate resolved_rate rate_resolves
