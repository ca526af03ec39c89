-- ===== src/Group.antt =====
-- group.go: `Group`, on a heap since groups are shared by pointer. module.go: `compile`, `NewModule`.
pub mod Sealing
pub mod Depth
pub mod Registered
use go_web_sdk.Routing.Router.{Module}
use go_web_sdk.Middleware.{Middleware, chain}
use go_web_sdk.ErrorWriter.{ErrorWriter}
use go_web_sdk.Http.Handler.{Handler}
use go_web_sdk.Routing.Mux.{
  default_method_not_allowed, default_not_found, or_default, serve_mux, MuxApi,
}
use go_web_sdk.Handle.{HandlerFunc, handle, adapted}
use go_web_sdk.Routing.Prefix.{valid_prefix}
use go_web_sdk.Text.{codes, is_empty, Bytes}
use go_web_sdk.Common.{
  ◌||◌, zero, ◌&&◌, suc, not, true, false, ◌∷◌, [], ◌==◌, Result, Bool, ◌++◌, if◌then◌else◌, List,
  Option, ℕ, none, some, ok, err, panicked, ◌>>=◌, ◌>>◌,
}

pub record Route : Type 0 where
  pub method : Bytes
  pub pattern : Bytes
  pub handler : Handler
  pub middleware : List (Option Middleware)

-- `groups` are the children's addresses; `none` is a nil handler or a nil error writer.
pub record Group : Type 0 where
  pub prefix : Bytes
  pub middleware : List (Option Middleware)
  pub routes : List Route
  pub groups : List ℕ
  pub errors : Option ErrorWriter
  pub not_found : Option Handler
  pub method_not_allowed : Option Handler
  pub sealed : Bool

abbrev pub Groups : Type 0
Groups = ℕ → Group

unfoldable pub put_group : ℕ → Group → Groups → Groups
put_group at g gs i = if i == at then g else gs i

-- `NewGroup`; `none` is a panic, here and below.
unfoldable pub new_group : Bytes → Option Group
unfolding valid_prefix
new_group prefix =
    if valid_prefix prefix
    then some (record {
      prefix = prefix;
      middleware = [];
      routes = [];
      groups = [];
      errors = none;
      not_found = none;
      method_not_allowed = none;
      sealed = false;
    })
    else none

-- A mutation behind `checkSeal`.
unfoldable pub edit_group : ℕ → (Group → Group) → Groups → Option Groups
unfolding put_group
edit_group at f gs = if (gs at).sealed then none else some (put_group at (f (gs at)) gs)

-- `Group.Use`
unfoldable pub use_group : ℕ → List (Option Middleware) → Groups → Option Groups
unfolding edit_group
use_group at mw = edit_group at (λ g. record g { middleware = g.middleware ++ mw })

-- `Group.Handle`
unfoldable pub handle_route :
    ℕ → Bytes → Bytes → Handler → List (Option Middleware) → Groups → Option Groups
unfolding edit_group
handle_route at method pattern h mw = edit_group at λ g. record g {
  routes =
      g.routes ++ record { method = method; pattern = pattern; handler = h; middleware = mw } ∷ [];
}

-- `Group.SetErrorWriter`
unfoldable pub set_error_writer : ℕ → Option ErrorWriter → Groups → Option Groups
unfolding edit_group
set_error_writer at ew = edit_group at (λ g. record g { errors = ew })

-- `Group.SetNotFound`
unfoldable pub set_group_not_found : ℕ → Option Handler → Groups → Option Groups
unfolding edit_group
set_group_not_found at h = edit_group at (λ g. record g { not_found = h })

-- `Group.SetMethodNotAllowed`
unfoldable pub set_group_method_not_allowed : ℕ → Option Handler → Groups → Option Groups
unfolding edit_group
set_group_method_not_allowed at h = edit_group at (λ g. record g { method_not_allowed = h })

-- `Group.HandleErr`
unfoldable pub handle_err :
    (Bytes → Bytes)
    → ℕ
    → Bytes
    → Bytes
    → HandlerFunc
    → List (Option Middleware)
    → Groups
    → Option Groups
unfolding handle_route adapted
handle_err quote at method pattern fn mw gs = elim (gs at).errors [
  | none ↦ none
  | some ew ↦ handle_route at method pattern (adapted quote fn ew) mw gs
]

-- `Group.Mount`
unfoldable pub mount_group : ℕ → ℕ → Groups → Option Groups
unfolding edit_group
mount_group at child = edit_group at (λ g. record g { groups = g.groups ++ child ∷ [] })

abbrev pub is_set {ℓ} : {A : Type ℓ} → Option A → Bool
is_set none = false
is_set (some h) = true

-- The pattern under which a route is registered.
abbrev pub full_pattern : Bytes → Route → Bytes
full_pattern prefix rt =
    if is_empty rt.method
    then prefix ++ rt.pattern
    else rt.method ++ (codes " " ++ (prefix ++ rt.pattern))

-- A loop over children.
unfoldable pub each {ℓ κ} :
    {E : Type ℓ} {S : Type κ} → (ℕ → S → Result E S) → List ℕ → S → Result E S
each visit [] s = ok s
each visit (c ∷ cs) s = visit c s >>= each visit cs

module _ (api : MuxApi) where
  open api use {ServeMux, empty, register}

  -- The loop over a group's routes.
  unfoldable pub register_routes :
      Bytes → List (Option Middleware) → List Route → ServeMux → Option ServeMux
  unfolding chain
  register_routes prefix outer [] mux = some mux
  register_routes prefix outer (rt ∷ rts) mux =
      elim (register (full_pattern prefix rt) (chain rt.handler (outer ++ rt.middleware)) mux) [
        | none ↦ none
        | some mux' ↦ register_routes prefix outer rts mux'
      ]

  -- The panic on a nested group with a miss handler, and the routes.
  unfoldable pub compile_routes :
      Bytes → List (Option Middleware) → Group → ServeMux → Result (Unit {0}) ServeMux
  unfolding register_routes
  compile_routes parent outer g mux =
      if not (is_empty parent) && (is_set g.not_found || is_set g.method_not_allowed)
      then panicked
      else elim (register_routes (parent ++ g.prefix) (outer ++ g.middleware) g.routes mux) [
        | none ↦ panicked
        | some mux' ↦ ok mux'
      ]

  -- `compile` to a depth of calls; `err` stands for the recursion on a group that is its own
  -- descendant, which does not end.
  unfoldable pub compile :
      ℕ
      → Bytes
      → List (Option Middleware)
      → ℕ
      → ServeMux × Groups
      → Result (Unit {0}) (ServeMux × Groups)
  unfolding compile_routes each put_group
  compile zero parent outer at s = err tt
  compile (suc depth) parent outer at (mux, gs) =
      compile_routes parent outer (gs at) mux >>= λ mux'.
      each (compile depth (parent ++ (gs at).prefix) (outer ++ (gs at).middleware)) (gs at).groups
        (mux', put_group at (record (gs at) { sealed = true }) gs)

  -- `NewModule`, with the groups as it leaves them.
  unfoldable pub new_module : ℕ → ℕ → Groups → Result (Unit {0}) (Module × Groups)
  unfolding compile serve_mux
  new_module depth at gs = compile depth [] [] at (empty, gs) >>= λ s. ok (
    record {
      prefix = (gs at).prefix;
      handler =
          serve_mux api s.0 (or_default (gs at).not_found default_not_found)
            (or_default (gs at).method_not_allowed default_method_not_allowed);
    },
    s.1,
  )

-- `NewHandlerModule`, over `http.StripPrefix`.
unfoldable pub new_handler_module {ℓ} :
    {E : Type ℓ}
    → (Bytes → Handler → Handler)
    → Bytes
    → Handler
    → List (Option Middleware)
    → Result E Module
unfolding valid_prefix chain
new_handler_module strip_prefix prefix handler middleware =
    if valid_prefix prefix
    then ok (record { prefix = prefix; handler = strip_prefix prefix (chain handler middleware) })
    else panicked
