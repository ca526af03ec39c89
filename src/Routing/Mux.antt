-- ===== src/Routing/Mux.antt =====
-- miss.go: `serveMux` over an `http.ServeMux`, of which the code registers handlers on patterns, asks
-- for the handler of a request, and serves a request.
use go_web_sdk.Http.Writer.{write_header, miss, load_miss, set_header}
use go_web_sdk.Http.Request.{proto_at_least, Request}
use go_web_sdk.Common.{not, ◌+◌, ◌||◌, [], none, ◌==◌, some, if◌then◌else◌, ℕ, Option, Bool}
use go_web_sdk.Text.{bytes_eq, Bytes, codes, is_empty}
use go_web_sdk.Http.Header
use go_web_sdk.Http.Handler.{Handler}
use go_web_sdk.Http.World.{when, Miss, pure, returned, ◌>>=◌, ◌>>◌, Run}
use go_web_sdk.Problem.{with_only_status, write_for}

-- `register` is `mux.Handle`, which panics (`none`) on a malformed or duplicate pattern; `lookup` is
-- `mux.Handler`, with an empty pattern for a miss; `serve` is `mux.ServeHTTP`.
pub record MuxApi : Type 1 where
  pub ServeMux : Type 0
  pub empty : ServeMux
  pub register : Bytes → Handler → ServeMux → Option ServeMux
  pub lookup : ServeMux → Request → Handler × Bytes
  pub serve : ServeMux → Handler

-- `var rec missRecorder`
unfoldable pub new_miss : Run ℕ
new_miss w = returned w.next (record w {
  misses = λ i. if i == w.next then record { header = []; status = 0 } else w.misses i;
  next = w.next + 1;
})

-- `problemHandler`: the encoder's error is dropped.
unfoldable pub problem_handler : ℕ → Handler
unfolding write_for
problem_handler status wr r = write_for (with_only_status status) wr r >>= λ _. pure tt

abbrev pub default_not_found : Handler
default_not_found = problem_handler 404

abbrev pub default_method_not_allowed : Handler
default_method_not_allowed = problem_handler 405

-- `orDefault`
abbrev pub or_default : Option Handler → Handler → Handler
or_default none default = default
or_default (some h) default = h

abbrev pub is_redirect : ℕ → Bool
is_redirect status = status == 301 || (status == 307 || status == 308)

-- The answer by the status that the miss handler recorded.
unfoldable pub answer_miss : Handler → Handler → Handler → Miss → Handler
unfolding set_header
answer_miss h not_found method_not_allowed m wr r =
    if is_redirect m.status
    then h wr r
    else if m.status == 405
    then (when (not (is_empty (Header.get m.header (codes "Allow"))))
          (set_header wr (codes "Allow") (Header.get m.header (codes "Allow")))
        >> method_not_allowed wr r)
    else not_found wr r

-- A miss: the mux's own handler runs into a recorder first.
unfoldable pub serve_miss : Handler → Handler → Handler → Handler
unfolding new_miss load_miss answer_miss
serve_miss h not_found method_not_allowed wr r = do
  at ← new_miss
  h (miss at) r
  m ← load_miss at
  answer_miss h not_found method_not_allowed m wr r

-- The request for "*", which `ServeMux.ServeHTTP` refuses and `Handler` does not.
unfoldable pub refuse_asterisk : Handler
unfolding set_header write_header
refuse_asterisk wr r =
    when (proto_at_least r 1 1) (set_header wr (codes "Connection") (codes "close"))
    >> write_header wr 400

module _ (api : MuxApi) where
  open api use {ServeMux, lookup, serve}

  -- `serveMux`
  unfoldable pub serve_mux : ServeMux → Handler → Handler → Handler
  unfolding refuse_asterisk serve_miss
  serve_mux mux not_found method_not_allowed wr r =
      if bytes_eq r.request_uri (codes "*")
      then refuse_asterisk wr r
      else if is_empty (lookup mux r).1
      then serve_miss (lookup mux r).0 not_found method_not_allowed wr r
      else serve mux wr r
