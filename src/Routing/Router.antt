-- ===== src/Routing/Router.antt =====
-- router.go: `Router`. module.go: the type `Module`.
pub mod Longest
pub mod Mounting
use go_web_sdk.Common.{
  ◌||◌, false, ◌++◌, if◌then◌else◌, Bool, length, Option, none, some, List, [], ◌∷◌, Ordering,
  compare, Result, ok, panicked,
}
use go_web_sdk.Text.{Bytes, bytes_eq}
use go_web_sdk.Sorting.{sort_func}
use go_web_sdk.Middleware.{Middleware, chain}
use go_web_sdk.Http.Handler.{Handler}
use go_web_sdk.Routing.Mux.{
  MuxApi, serve_mux, or_default, default_not_found, default_method_not_allowed,
}
use go_web_sdk.Routing.Prefix.{matches, valid_prefix}

pub record Module : Type 0 where
  pub prefix : Bytes
  pub handler : Handler

-- `slices.SortFunc`'s comparison in `Mount`: longer prefixes first.
abbrev pub by_length : Module → Module → Ordering
by_length a b = compare (length b.prefix) (length a.prefix)

-- The loop of `Mount`: a module is mounted at the prefix.
unfoldable pub is_mounted : List Module → Bytes → Bool
is_mounted [] prefix = false
is_mounted (m ∷ ms) prefix = bytes_eq m.prefix prefix || is_mounted ms prefix

-- `Mount` on the modules; `none` is its panic.
unfoldable pub mount_module : List Module → Module → Option (List Module)
unfolding is_mounted sort_func
mount_module modules m =
    if is_mounted modules m.prefix then none else some (sort_func by_length (modules ++ m ∷ []))

-- The loop of `dispatch`.
unfoldable pub select : List Module → Bytes → Option Module
select [] path = none
select (m ∷ ms) path = if matches path m.prefix then some m else select ms path

module _ (api : MuxApi) where
  open api use {ServeMux, empty, register}

  -- `composed` is the middleware with which the field `handler` was composed last.
  pub record Router : Type 0 where
    pub mux : ServeMux
    pub modules : List Module
    pub middleware : List (Option Middleware)
    pub composed : List (Option Middleware)
    pub not_found : Handler
    pub method_not_allowed : Handler

  -- `NewRouter`
  unfoldable pub new_router : Router
  new_router = record {
    mux = empty;
    modules = [];
    middleware = [];
    composed = [];
    not_found = default_not_found;
    method_not_allowed = default_method_not_allowed;
  }

  -- `SetNotFound`
  unfoldable pub set_not_found : Option Handler → Router → Router
  set_not_found h r = record r { not_found = or_default h default_not_found }

  -- `SetMethodNotAllowed`
  unfoldable pub set_method_not_allowed : Option Handler → Router → Router
  set_method_not_allowed h r = record r {
    method_not_allowed = or_default h default_method_not_allowed;
  }

  -- `Handle`; `none` is the mux's panic.
  unfoldable pub handle : Bytes → Handler → Router → Option Router
  handle pattern h r = elim (register pattern h r.mux) [
    | none ↦ none
    | some mux ↦ some (record r { mux = mux })
  ]

  -- `Use`
  unfoldable pub use_middleware : List (Option Middleware) → Router → Router
  use_middleware mw r = record r { middleware = r.middleware ++ mw; composed = r.middleware ++ mw }

  -- `Mount`
  unfoldable pub mount : Module → Router → Option Router
  unfolding mount_module
  mount m r = elim (mount_module r.modules m) [
    | none ↦ none
    | some modules ↦ some (record r { modules = modules })
  ]

  -- `dispatch`
  unfoldable pub dispatch : Router → Handler
  unfolding select serve_mux
  dispatch r wr req = elim (select r.modules req.path) [
    | some m ↦ m.handler wr req
    | none ↦ serve_mux api r.mux r.not_found r.method_not_allowed wr req
  ]

  -- `ServeHTTP`: the composed handler reads the router's modules when it dispatches.
  unfoldable pub serve_http : Router → Handler
  unfolding dispatch chain
  serve_http r = chain (dispatch r) r.composed
