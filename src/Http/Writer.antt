-- ===== src/Http/Writer.antt =====
-- `http.ResponseWriter`: net/http's own response, and recorder.go: `Recorder` around a writer.
use go_web_sdk.Common.{List}
use go_web_sdk.Http.Header.{HeaderMap}
use go_web_sdk.Common.{
  [], ◌∷◌, ◌++◌, ◌+◌, leb, ltb, ◌==◌, if◌then◌else◌, ℕ, Bool, true, false, Option, none, some, ◌||◌,
  ◌&&◌, not,
}
use go_web_sdk.Text.{codes, Bytes}
use go_web_sdk.Http.Header
use go_web_sdk.Http.World.{
  Miss, invalid_status, pure, panicking, ◌>>=◌, ◌>>◌, nil_dereference, when, raise, returned, Conn,
  Recording, Chunk, Run, Effect,
}

-- The connection's writer, a `*missRecorder` at an address, or a `*Recorder` at an address with the
-- writer that it embeds.
pub data Writer : Type 0 where
  connection : Writer
  miss : ℕ → Writer
  recorder : ℕ → Writer → Writer

-- A missRecorder's fields, read and written.
unfoldable pub load_miss : ℕ → Run Miss
load_miss at w = returned (w.misses at) w

unfoldable pub store_miss : ℕ → Miss → Effect
store_miss at m w = returned tt (record w { misses = λ i. if i == at then m else w.misses i })

-- A change of `w.Header()`: a recorder shares the map of the writer that it embeds.
unfoldable pub edit_header : Writer → (HeaderMap → HeaderMap) → Effect
unfolding load_miss store_miss
edit_header connection f w =
    returned tt (record w { conn = record (w.conn) { header = f w.conn.header } })
edit_header (miss at) f w =
    store_miss at (record (w.misses at) { header = f (w.misses at).header }) w
edit_header (recorder at beneath) f w = edit_header beneath f w

-- `w.Header().Set(name, value)`
unfoldable pub set_header : Writer → Bytes → Bytes → Effect
unfolding edit_header
set_header wr name value = edit_header wr (λ h. Header.set h name value)

-- `w.Header().Del(name)`
unfoldable pub del_header : Writer → Bytes → Effect
unfolding edit_header
del_header wr name = edit_header wr (λ h. Header.del h name)

abbrev pub has_status : Conn → Bool
has_status c = elim c.status [ none ↦ false | some _ ↦ true ]

-- net/http, response.WriteHeader: the first final status goes out with the headers of that moment, a
-- 1xx other than 101 is informational, and a code outside 100 to 999 panics.
unfoldable pub conn_write_header : ℕ → Effect
conn_write_header code w =
    let c = w.conn in
    if has_status c
    then returned tt w
    else if ltb code 100 || ltb 999 code
    then panicking (invalid_status code) w
    else if ltb code 200 && not (code == 101)
    then returned tt (record w { conn = record c { informational = c.informational ++ code ∷ [] } })
    else returned tt (record w { conn = record c { status = some code; sent = c.header } })

-- A response of this status carries a body.
abbrev pub body_allowed : Option ℕ → Bool
body_allowed none = true
body_allowed (some code) = not (code == 204) && (not (code == 304) && leb 200 code)

-- net/http, response.Write, behind its implicit WriteHeader(200): the text of the error, or none.
unfoldable pub conn_append : Chunk → Run (Option Bytes)
conn_append chunk w =
    let c = w.conn in
    if not (body_allowed c.status)
    then returned (some (codes "http: request method or response status code does not allow body"))
        w
    else elim c.fault [
      | some text ↦ returned (some text) w
      | none ↦ returned none (record w { conn = record c { body = c.body ++ chunk ∷ [] } })
    ]

unfoldable pub conn_write : Chunk → Run (Option Bytes)
unfolding conn_write_header conn_append
conn_write chunk = conn_write_header 200 >> conn_append chunk

-- The recorder at an address, read and written.
unfoldable pub load : ℕ → Run Recording
load at w = returned (w.recordings at) w

unfoldable pub store : ℕ → Recording → Effect
store at r w = returned tt (record w { recordings = λ i. if i == at then r else w.recordings i })

-- `&Recorder{ResponseWriter: w}`
unfoldable pub new_recorder : Writer → Run Writer
new_recorder wr w = returned (recorder w.next wr) (record w {
  recordings =
      λ i. if i == w.next then record { status = 0; committed = false } else w.recordings i;
  next = w.next + 1;
})

-- `WrapWriter`
unfoldable pub wrap_writer : Writer → Run Writer
unfolding new_recorder
wrap_writer (recorder at beneath) w = returned (recorder at beneath) w
wrap_writer connection w = new_recorder connection w
wrap_writer (miss at) w = new_recorder (miss at) w

-- `rec.Status()` and `rec.Committed()`; a writer that is no recorder has neither method.
unfoldable pub recording : Writer → Run Recording
unfolding load
recording connection = raise nil_dereference
recording (miss at) = raise nil_dereference
recording (recorder at beneath) = load at

-- The code is a final one: not informational.
abbrev pub is_final : ℕ → Bool
is_final code = ltb code 100 || (ltb 199 code || code == 101)

-- `Recorder.WriteHeader`'s bookkeeping.
abbrev pub commit : ℕ → Bool → ℕ → Recording → Effect
commit at final code r =
    when (final && not r.committed) (store at (record { status = code; committed = true }))

-- `missRecorder.WriteHeader`: the first status is kept.
unfoldable pub miss_write_header : ℕ → ℕ → Effect
unfolding load_miss store_miss
miss_write_header at code = do
  m ← load_miss at
  when (m.status == 0) (store_miss at (record m { status = code }))

-- `w.WriteHeader(code)`
unfoldable pub write_header : Writer → ℕ → Effect
unfolding conn_write_header miss_write_header load store
write_header connection code = conn_write_header code
write_header (miss at) code = miss_write_header at code
write_header (recorder at beneath) code = do
  r ← load at
  commit at (is_final code) code r
  write_header beneath code

-- `w.Write(b)`: the text of the error, or none.
unfoldable pub write : Writer → Chunk → Run (Option Bytes)
unfolding conn_write miss_write_header load store
write connection chunk = conn_write chunk
write (miss at) chunk = miss_write_header at 200 >> pure none
write (recorder at beneath) chunk = do r ← load at; commit at true 200 r; write beneath chunk

-- net/http, response.FlushError.
unfoldable pub conn_flush : Run (Option Bytes)
unfolding conn_write_header
conn_flush = conn_write_header 200 >> λ w. returned w.conn.fault w

-- `Recorder.FlushError`, reached through `http.ResponseController` as it unwraps writers.
unfoldable pub flush_error : Writer → Run (Option Bytes)
unfolding conn_flush load store
flush_error connection = conn_flush
flush_error (miss at) = pure (some (codes "feature not supported"))
flush_error (recorder at beneath) = do
  failed ← flush_error beneath
  r ← load at
  commit at (elim failed [ none ↦ true | some _ ↦ false ]) 200 r
  pure failed

-- `Recorder.Flush` drops the error.
unfoldable pub flush : Writer → Effect
unfolding flush_error
flush wr = flush_error wr >>= λ _. pure tt

-- `io.Copy` from a source that gives these chunks and then ends, or fails with a text.
unfoldable pub copy : Writer → List Chunk → Option Bytes → Run (Option Bytes)
unfolding write
copy wr [] failure = pure failure
copy wr (c ∷ cs) failure =
    write wr c >>= λ failed. elim failed [ none ↦ copy wr cs failure | some t ↦ pure (some t) ]

-- `Recorder.ReadFrom`; net/http's own ReadFrom copies.
unfoldable pub read_from : Writer → List Chunk → Option Bytes → Run (Option Bytes)
unfolding copy load store
read_from connection cs failure = copy connection cs failure
read_from (miss at) cs failure = copy (miss at) cs failure
read_from (recorder at beneath) cs failure = do
  r ← load at
  commit at true 200 r
  read_from beneath cs failure
