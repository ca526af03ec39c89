-- ===== src/Lib.antt =====
-- The web SDK: the request and response layer of an HTTP service over net/http.
--
-- The program's parts, and the files that model them:
--   query.go          ParseQuery, a list endpoint's query vocabulary: Query (Values, Limits,
--                     parse_page, parse_cursor, parse_size, parse_sort, parse_filter_key,
--                     collect_filters, parse_query, in the order of the source's checks).
--   errors.go         the typed errors, their status and text: Errors.
--   problem.go        RFC 9457 problem documents, their members, how they are written
--                     and read back: Problem.
--   errorwriter.go    an error mapped to a problem, what is disclosed and what is logged: ErrorWriter.
--   handler.go        Handle, an erroring handler as an http.Handler: Handle.
--   recorder.go       the response recorder, with the writers it stands on: Http.Writer, Recorder.
--   miss.go           requests that no pattern claims: Http.Writer (the recorder), Routing.Mux.
--   router.go         longest prefix dispatch over modules: Routing.Prefix, Routing.Router.
--   group.go, module.go   a group's registrations, sealing and compilation: Group.
--   middleware.go     Chain: Middleware.
--   request.go        If-Match, a command's version: Conditional; bodies and uploads: Reading.
--   response.go       the cache preconditions: Caching; JSON, stored objects,
--                     attachments, pages: Response.
--   middleware/requestid.go, recoverer.go   correlation ids, and panics: Bundled.RequestId,
--                     Bundled.Recoverer.
--   middleware/maybe.go, headers.go, bodylimit.go   Bundled.Selection.
--   middleware/logger.go   the access log: Bundled.AccessLog.
--   middleware/contenttype.go, timeout.go   Bundled.ContentType, Bundled.Timeout.
--   config.go         merging, defaults, environment, validation: Config.
--   transfer.go       the deadlines of a body's transfer: Transfer.
--   server.go         the server's lifecycle, as steps of callers and of its goroutine: Server.
--   health.go         liveness and readiness: Health.
--   middleware/rate-limit/ratelimit.go   the limit's configuration and answers: RateLimit.
--   webtest/client.go, live.go   the test client and its checks: Webtest.
-- Common, Text, Sorting and the rest of Http are shared: the standard library's functions that the
-- code calls, written from their documented behaviour where the code's meaning depends on it.
--
-- How they meet. Handle wraps the writer in a Recorder, runs the handler and gives its error to
-- the ErrorWriter, which maps it to a Problem and writes that to the same writer. The router
-- sends a request to a module or to its own mux; a request that no pattern claims is run
-- against a miss recorder and then answered by the not-found or method-not-allowed handler.
-- A finalized Config is what the server and a Transfer are made of; the rate limit has its own, on the
-- same helpers. The access log and the recoverer read the Recorder, which they share when they wrap the
-- same writer. The test client reads the documents that Problem writes.
--
-- State. A handler is a function of a writer, a request and a World: the connection (status,
-- sent headers, body, the error its writes give), the recorders and miss recorders by address, a
-- counter for new addresses, the log, the clock and the connection's deadlines. It returns a value
-- or panics, with the world it leaves.
-- A writer is the connection or names a recorder, so that one recorder can be reached from many
-- writers; wrap_writer gives back a recorder it is given, as WrapWriter does. A server is a record of
-- its listener, its error channel and its goroutine, which the callers and the goroutine step.
--
-- Bounds. An int is 64 bits, in sign and magnitude (Text.Int), and parse_int checks its range as
-- strconv does; a status is a natural number. slices.SortFunc is insertion sort.
-- Recursion is on a list, a number or an error's tree. compile takes a depth of calls, since
-- groups on the heap may be nested under themselves; where children rank below their parents, any
-- depth above the root's rank is enough.
-- The scan of an If-None-Match takes as many rounds as the header has bytes; a round takes two or more.
--
-- Parameters. %q (quote), http.ServeMux (MuxApi), a panic's text, the stack's text, the text of a
-- duration, date parsing and formatting, mime.ParseMediaType, net.SplitHostPort, the limiter of httprate
-- and the error of a connection's writes (fault) are not the repository's code and stay arguments. So do
-- go-core's environment setters (EnvApi, with EnvLaws) and the operations on float64 (FloatApi, with
-- FloatLaws: they keep the order, and integers up to 2^53 are exact).
--
-- A string's characters (runes, to_valid_utf8), the decoder of a request's body and its answers, the
-- parser of UUIDs and http.StripPrefix are arguments too.
--
-- Not modelled: the helpers of internal/handlertest, which are calls of net/http/httptest, and
-- encoding/json below the level of documents, whose numbers are the natural ones. Contexts end where
-- the model says so (Context.ended): no timer runs.
pub mod Common
pub mod Text
pub mod Sorting
pub mod Query
pub mod Http
pub mod Recorder
pub mod Problem
pub mod Errors
pub mod ErrorWriter
pub mod Handle
pub mod Middleware
pub mod Routing
pub mod Group
pub mod Caching
pub mod Conditional
pub mod Bundled
pub mod Config
pub mod Transfer
pub mod Server
pub mod RateLimit
pub mod Reading
pub mod Response
pub mod Health
pub mod Webtest
pub mod Tests
