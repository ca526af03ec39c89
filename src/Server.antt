-- ===== src/Server.antt =====
-- server.go: `Server`. What the operating system and net/http answer (a bind, the end of serving, a
-- drain) is an argument of the operation that waits for it.
pub mod Lifecycle
use go_web_sdk.Text.Int.{pos, ℤ}
use go_web_sdk.Config.{Config, addr, finalized}
use go_web_sdk.Text.{codes, Bytes}
use go_web_sdk.Common.{false, if◌then◌else◌, [], ℕ, ◌∷◌, ◌++◌, Bool, true, Option, List, none, some}

-- `http.Server` as `NewServer` fills it.
pub record HttpServer : Type 0 where
  pub addr : Bytes
  pub read_timeout : ℤ
  pub read_header_timeout : ℤ
  pub write_timeout : ℤ
  pub idle_timeout : ℤ
  pub max_header_bytes : ℤ

-- The goroutine of `Start`: not started, in `Serve`, at the send of its error, at the close of the
-- channel, or done.
pub data Goroutine : Type 0 where
  idle serving closing done : Goroutine
  sending : Bytes → Goroutine

-- `errs` is the channel's buffer, of capacity 1; `draining` is net/http's mark of a shutdown.
pub record Server : Type 0 where
  pub http : HttpServer
  pub errs : List Bytes
  pub errs_closed : Bool
  pub listener : Option Bytes
  pub goroutine : Goroutine
  pub draining : Bool
  pub connections_closed : Bool

abbrev pub or_zero : Option ℤ → ℤ
or_zero none = pos 0
or_zero (some v) = v

-- `NewServer`, with a logger or none; `none` is a panic.
unfoldable pub new_server : Config → Option ℕ → Option Server
unfolding finalized addr
new_server c none = none
new_server c (some logger) =
    if finalized c
    then some (record {
      http = record {
        addr = addr c;
        read_timeout = or_zero c.read_timeout;
        read_header_timeout = or_zero c.read_header_timeout;
        write_timeout = or_zero c.write_timeout;
        idle_timeout = or_zero c.idle_timeout;
        max_header_bytes = or_zero c.max_header_bytes;
      };
      errs = [];
      errs_closed = false;
      listener = none;
      goroutine = idle;
      draining = false;
      connections_closed = false;
    })
    else none

-- A bind: the bound address, or the error's text.
pub data Bind : Type 0 where
  bound : Bytes → Bind
  failed : Bytes → Bind

-- `Server.Start`: the text of its error, or none, and the server.
unfoldable pub start : Bind → Server → Option Bytes × Server
start b s = elim s.listener [
  | some a ↦ (some (codes "server already started"), s)
  | none ↦ elim b [
    | failed t ↦ (some (codes "listen " ++ (s.http.addr ++ (codes ": " ++ t))), s)
    | bound a ↦ (none, record s { listener = some a; goroutine = serving })
  ]
]

-- How `Serve` returns: with `http.ErrServerClosed`, or with another error.
pub data ServeEnd : Type 0 where
  server_closed : ServeEnd
  serve_failed : Bytes → ServeEnd

abbrev pub address_of : Server → Bytes
address_of s = elim s.listener [ none ↦ s.http.addr | some a ↦ a ]

-- The goroutine behind `Serve`.
unfoldable pub end_serving : ServeEnd → Server → Server
end_serving server_closed s = record s { goroutine = closing }
end_serving (serve_failed t) s = record s {
  goroutine = sending (codes "serve " ++ (address_of s ++ (codes ": " ++ t)));
}

-- `s.errs <- …`
unfoldable pub send_error : Bytes → Server → Server
send_error t s = record s { errs = s.errs ++ t ∷ []; goroutine = closing }

-- `close(s.errs)`
unfoldable pub close_errs : Server → Server
close_errs s = record s { errs_closed = true; goroutine = done }

-- `Server.Addr`
unfoldable pub server_addr : Server → Bytes
server_addr s = address_of s

-- How `http.Server.Shutdown` returns: drained, with the context's error, or with another.
pub data Drain : Type 0 where
  drained : Drain
  context_ended : Bytes → Drain
  drain_failed : Bytes → Drain

-- `Server.Shutdown`
unfoldable pub shutdown : Drain → Server → Option Bytes × Server
shutdown d s = elim s.listener [
  | none ↦ (none, s)
  | some a ↦ elim d [
    | drained ↦ (none, record s { draining = true })
    | context_ended t ↦ (some t, record s { draining = true; connections_closed = true })
    | drain_failed t ↦ (some t, record s { draining = true })
  ]
]
