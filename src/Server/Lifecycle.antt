-- ===== src/Server/Lifecycle.antt =====
-- server.go: the interleavings of a server's callers with the goroutine that serves.
use go_web_sdk.Text.{codes, Bytes}
use go_web_sdk.Config.{is_given}
use go_web_sdk.Server.{
  server_addr, codes, drained, serve_failed, drain_failed, context_ended, failed, bound, close_errs,
  Bytes, closing, send_error, server_closed, done, serving, end_serving, ServeEnd, idle, shutdown,
  Drain, sending, start, Bind, Goroutine, Server,
}
use go_web_sdk.Common.{
  ap, ◌∙◌, sym, subst, arith, ◌∷◌, List, ◌<◌, ◌≤◌, true, false, [], length, Bool, ◌≡◌, none, some,
}

-- One step of a caller or of the goroutine. `Serve` returns `http.ErrServerClosed` only once a shutdown
-- has begun, and a send waits for room in the channel.
pub data Step (s u : Server) : Type 0 where
  call_start : (b : Bind) → u ≡ (start b s).1 → Step s u
  call_shutdown : (d : Drain) → u ≡ (shutdown d s).1 → Step s u
  serve_ends :
      (e : ServeEnd)
      → s.goroutine ≡ serving
      → (e ≡ server_closed → s.draining ≡ true)
      → u ≡ end_serving e s
      → Step s u
  sends : (t : Bytes) → s.goroutine ≡ sending t → length s.errs < 1 → u ≡ send_error t s → Step s u
  closes : s.goroutine ≡ closing → u ≡ close_errs s → Step s u
  receives : (t : Bytes) (ts : List Bytes) → s.errs ≡ t ∷ ts → u ≡ record s { errs = ts } → Step s u

pub data Steps (s : Server) : Server → Type 0 where
  here : Steps s s
  next : {t u : Server} → Steps s t → Step t u → Steps s u

-- A server that `NewServer` made and no one has started.
pub record IsFresh (s : Server) : Type 0 where
  pub unbound : s.listener ≡ none
  pub quiet : s.errs ≡ []
  pub unclosed : s.errs_closed ≡ false
  pub waits : s.goroutine ≡ idle
  pub accepts : s.draining ≡ false

abbrev pub HasEnded : Goroutine → Type 0
HasEnded idle = ⊥
HasEnded serving = ⊥
HasEnded (sending t) = ⊥
HasEnded closing = Unit
HasEnded done = Unit

abbrev pub has_started : Goroutine → Bool
has_started idle = false
has_started serving = true
has_started (sending t) = true
has_started closing = true
has_started done = true

abbrev pub is_done : Goroutine → Bool
is_done done = true
is_done idle = false
is_done serving = false
is_done (sending t) = false
is_done closing = false

-- The channel holds an error only once the goroutine has sent it, one at most; it is closed exactly when
-- the goroutine is done; and a listener is there exactly when the goroutine was started.
pub record IsSound (s : Server) : Type 0 where
  pub capacity : length s.errs ≤ 1
  pub silent : ¬ HasEnded s.goroutine → s.errs ≡ []
  pub closed_iff : s.errs_closed ≡ is_done s.goroutine
  pub bound_iff : is_given s.listener ≡ has_started s.goroutine

fresh-IsSound : (s : Server) → IsFresh s → IsSound s
fresh-IsSound s h =
    let unbound = h.unbound in
    let quiet = h.quiet in let unclosed = h.unclosed in let waits = h.waits in ground arith

start-IsSound : (b : Bind) (s : Server) → IsSound s → IsSound (start b s).1
unfolding start
start-IsSound (bound a) s h = ground arith
start-IsSound (failed t) s h = ground arith

shutdown-IsSound : (d : Drain) (s : Server) → IsSound s → IsSound (shutdown d s).1
unfolding shutdown
shutdown-IsSound drained s h = ground arith
shutdown-IsSound (context_ended t) s h = ground arith
shutdown-IsSound (drain_failed t) s h = ground arith

Step-IsSound : (s u : Server) → Step s u → IsSound s → IsSound u
unfolding end_serving send_error close_errs
Step-IsSound s u (call_start b e) h = subst IsSound (sym e) (start-IsSound b s h)
Step-IsSound s u (call_shutdown d e) h = subst IsSound (sym e) (shutdown-IsSound d s h)
Step-IsSound s u (serve_ends server_closed g k e) h = subst IsSound (sym e) (ground arith)
Step-IsSound s u (serve_ends (serve_failed t) g k e) h = subst IsSound (sym e) (ground arith)
Step-IsSound s u (sends t g room e) h = subst IsSound (sym e) (ground arith)
Step-IsSound s u (closes g e) h = subst IsSound (sym e) (ground arith)
Step-IsSound s u (receives t ts g e) h = subst IsSound (sym e) (ground arith)

Steps-IsSound : {s u : Server} → IsFresh s → Steps s u → IsSound u
Steps-IsSound h here = fresh-IsSound _ h
Steps-IsSound h (next r st) = Step-IsSound _ _ st (Steps-IsSound h r)

-- Whatever callers and the goroutine do with a new server, in any order: the channel never holds more
-- than one error, holds none before the goroutine has sent it, is closed exactly when the goroutine is
-- done, and a listener is there exactly from the start that succeeded on.
pub reached-IsSound : (s u : Server) → IsFresh s → Steps s u → IsSound u
reached-IsSound s u h r = Steps-IsSound h r

-- The goroutine is past `Serve`, at its send or its close.
abbrev pub IsLeaving : Goroutine → Type 0
IsLeaving idle = ⊥
IsLeaving serving = ⊥
IsLeaving (sending t) = Unit
IsLeaving closing = Unit
IsLeaving done = ⊥

-- The goroutine ends: the channel is closed, which was open, and holds the error that was to be sent.
abbrev pub Finishes : Server → Type 0
Finishes s =
    (s.errs_closed ≡ false)
    × (v : Server) × Steps s v
    × (v.goroutine ≡ done)
    × (v.errs_closed ≡ true)
    × ((t : Bytes) → s.goroutine ≡ sending t → v.errs ≡ t ∷ [])

start_bound :
    (a : Bytes) (b : Bind) (s : Server)
    → s.listener ≡ some a
    → start b s ≡ (some (codes "server already started"), s)
unfolding start
start_bound a (bound a') s h = ground arith
start_bound a (failed t) s h = ground arith

start_listens :
    (a : Bytes) (s : Server) → s.listener ≡ none → (start (bound a) s).1.listener ≡ some a
unfolding start
start_listens a s h = ground arith

shutdown_bound : (d : Drain) (s : Server) → (shutdown d s).1.listener ≡ s.listener
unfolding shutdown
shutdown_bound drained s = ground arith
shutdown_bound (context_ended t) s = ground arith
shutdown_bound (drain_failed t) s = ground arith

Step-bound : (a : Bytes) (s u : Server) → Step s u → s.listener ≡ some a → u.listener ≡ some a
unfolding end_serving send_error close_errs
Step-bound a s u (call_start b e) h =
    ap (λ v. v.listener) e ∙ ap (λ p. (p.1).listener) (start_bound a b s h) ∙ h
Step-bound a s u (call_shutdown d e) h = ap (λ v. v.listener) e ∙ shutdown_bound d s ∙ h
Step-bound a s u (serve_ends server_closed g k e) h = ap (λ v. v.listener) e ∙ h
Step-bound a s u (serve_ends (serve_failed t) g k e) h = ap (λ v. v.listener) e ∙ h
Step-bound a s u (sends t g room e) h = ap (λ v. v.listener) e ∙ h
Step-bound a s u (closes g e) h = ap (λ v. v.listener) e ∙ h
Step-bound a s u (receives t ts g e) h = ap (λ v. v.listener) e ∙ h

Steps-bound : {s u : Server} (a : Bytes) → s.listener ≡ some a → Steps s u → u.listener ≡ some a
Steps-bound a h here = h
Steps-bound a h (next r st) = Step-bound a _ _ st (Steps-bound a h r)

-- A server is single-use: from a start that succeeded on, a shutdown or the end of serving in between
-- included, every further start is refused and changes nothing, and the address stays the bound one.
pub started_once :
    (s u : Server) (a : Bytes) (b : Bind)
    → s.listener ≡ none
    → Steps (start (bound a) s).1 u
    → (start b u ≡ (some (codes "server already started"), u)) × (server_addr u ≡ a)
started_once s u a b h r =
    let there = Steps-bound a (start_listens a s h) r in
    (
      start_bound a b u there,
      unfold server_addr in ap (λ o. elim o [ none ↦ u.http.addr | some x ↦ x ]) there,
    )
