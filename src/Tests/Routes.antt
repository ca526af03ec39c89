-- ===== src/Tests/Routes.antt =====
-- Dispatch and chains at fixed modules.
use go_web_sdk.Routing.Router.Mounting.{mount_module-IsOrdered}
use go_web_sdk.Routing.Mux.{serve_miss}
use go_web_sdk.Http.Writer.{connection, miss}
use go_web_sdk.Http.Header
use go_web_sdk.Routing.Miss.{serve_miss-answer, IsAnswered, Untouched, no_miss, miss_of}
use go_web_sdk.Routing.Router.Longest.{select_iff, Owns, IsOrdered}
use mathlib.Core.List.{Perm}
use go_web_sdk.Common.{
  if◌then◌else◌, ◌≢◌, All, ◌++◌, ◌⊎◌, arith, Any, ◌↔◌, ℕ, ◌≡◌, refl, [], ◌∷◌, some, none, List,
}
use go_web_sdk.Text.{bytes_eq, Bytes, codes}
use go_web_sdk.Http.Handler.{Handler}
use go_web_sdk.Tests.Fixtures.{start, request}
use go_web_sdk.Http.World.{raw, World}
use go_web_sdk.Routing.Router.{Module, select, mount_module}
use go_web_sdk.Text.Laws.{ne_of_bytes_eq}
use go_web_sdk.Routing.Prefix.{matches}
use go_web_sdk.Recorder.{Call, perform_all}

-- A handler that answers with a status.
abbrev answering : ℕ → Handler
answering code wr r = perform_all wr (Call.status code ∷ [])

abbrev module_at : Bytes → ℕ → Module
module_at prefix code = record { prefix = prefix; handler = answering code }

abbrev mounted : List Module
mounted =
    module_at (codes "/api/v1") 201
    ∷ module_at (codes "/api") 202
    ∷ module_at (codes "/web") 203
    ∷ []

abbrev remounted : List Module
remounted =
    module_at (codes "/api/v1") 201
    ∷ module_at (codes "/web") 203
    ∷ module_at (codes "/api") 202
    ∷ []

routes : Unit {0}
unfolding select mount_module matches
routes = tt

select_tests :
    (select mounted (codes "/api/v1/items") ≡ some (module_at (codes "/api/v1") 201))
    × (select mounted (codes "/api/v10") ≡ some (module_at (codes "/api") 202))
    × (select mounted (codes "/apiary") ≡ none)
unfolding routes
select_tests = (refl, refl, refl)

mounted-IsOrdered : IsOrdered mounted
unfolding bytes_eq
mounted-IsOrdered = (
  ((omega arith, ne_of_bytes_eq _ _ refl), ((omega arith, ne_of_bytes_eq _ _ refl), tt)),
  (((omega arith, ne_of_bytes_eq _ _ refl), tt), (tt, tt)),
)

remounted-IsOrdered : IsOrdered remounted
unfolding bytes_eq
remounted-IsOrdered = (
  ((omega arith, ne_of_bytes_eq _ _ refl), ((omega arith, ne_of_bytes_eq _ _ refl), tt)),
  (((omega arith, ne_of_bytes_eq _ _ refl), tt), (tt, tt)),
)

select_iff_example :
    (select mounted (codes "/api/v10") ≡ some (module_at (codes "/api") 202))
    ↔ Owns mounted (codes "/api/v10") (module_at (codes "/api") 202)
select_iff_example =
    select_iff mounted (codes "/api/v10") (module_at (codes "/api") 202) mounted-IsOrdered

mount_module-IsOrdered_example :
    ((mount_module mounted (module_at (codes "/web/x") 204) ≡ none)
      × Any (λ n. n.prefix ≡ codes "/web/x") mounted)
    ⊎ ((ns : List Module) × (mount_module mounted (module_at (codes "/web/x") 204) ≡ some ns)
        × All (λ n. n.prefix ≢ codes "/web/x") mounted
        × Perm ns (mounted ++ module_at (codes "/web/x") 204 ∷ [])
        × IsOrdered ns)
mount_module-IsOrdered_example =
    mount_module-IsOrdered mounted (module_at (codes "/web/x") 204) mounted-IsOrdered

-- What ServeMux does for a path registered under another method, by `http.Error`, which deletes a
-- header first; and for a path that is to be cleaned, where the redirect has a body for a GET alone.
abbrev refusing : List Call
refusing =
    Call.header (codes "Allow") (codes "GET, HEAD")
    ∷ Call.removal (codes "Content-Length")
    ∷ Call.header (codes "Content-Type") (codes "text/plain; charset=utf-8")
    ∷ Call.status 405
    ∷ Call.body (raw (codes "Method Not Allowed"))
    ∷ []

abbrev cleaning : List Call
cleaning = Call.header (codes "Location") (codes "/a") ∷ Call.status 301 ∷ []

abbrev mux_handler : Handler
mux_handler wr r = perform_all wr (if bytes_eq r.path (codes "/a//") then cleaning else refusing)

mux_handler-refuses :
    (at : ℕ) (w : World)
    → w.misses at ≡ no_miss
    → mux_handler (miss at) request w ≡ perform_all (miss at) refusing w
unfolding bytes_eq
mux_handler-refuses at w e = refl

serve_miss-answer_example :
    (w' : World) × Untouched start w'
    × IsAnswered mux_handler
        (answering 404)
        (answering 405)
        connection
        request
        w'
        (miss_of no_miss refusing).status
        (Header.get (miss_of no_miss refusing).header (codes "Allow"))
        (serve_miss mux_handler (answering 404) (answering 405) connection request start)
serve_miss-answer_example =
    serve_miss-answer refusing mux_handler (answering 404) (answering 405) connection request start
      mux_handler-refuses
