-- ===== src/Group/Registered.antt =====
-- module.go: what `compile` registers in the mux.
use go_web_sdk.Middleware.{chain, Middleware}
use go_web_sdk.Http.Handler.{Handler}
use go_web_sdk.Text.{Bytes}
use go_web_sdk.Routing.Mux.{MuxApi}
use go_web_sdk.Group.{chain, full_pattern, Route, Middleware, Handler, Bytes, Group, Groups}
use go_web_sdk.Common.{◌++◌, Any, Option, ◌≡◌, List, false, ℕ, some}

-- The groups nest: from `at`, under a parent prefix and an outer chain, to `i` under its own.
pub data Reaches (gs : Groups)
    : ℕ → Bytes → List (Option Middleware) → ℕ → Bytes → List (Option Middleware) → Type 0 where
  here : (at : ℕ) (p : Bytes) (o : List (Option Middleware)) → Reaches gs at p o at p o
  into :
      (at c i : ℕ) (p p' : Bytes) (o o' : List (Option Middleware))
      → Any (λ d. d ≡ c) (gs at).groups
      → Reaches gs c (p ++ (gs at).prefix) (o ++ (gs at).middleware) i p' o'
      → Reaches gs at p o i p' o'

-- A pattern and its chain, as a route of a group at or nested under `at` declares them: the prefixes on
-- the way joined, and the middleware on the way around the route's own.
pub record Declares (gs : Groups) (at : ℕ) (p : Bytes) (o : List (Option Middleware))
    (pattern : Bytes) (h : Handler) : Type 0 where
  pub group : ℕ
  pub parent : Bytes
  pub outer : List (Option Middleware)
  pub route : Route
  pub reached : Reaches gs at p o group parent outer
  pub listed : Any (λ rt. rt ≡ route) (gs group).routes
  pub spelled : pattern ≡ full_pattern (parent ++ (gs group).prefix) route
  pub chained : h ≡ chain route.handler ((outer ++ (gs group).middleware) ++ route.middleware)

-- A route of the group itself.
abbrev Own : Bytes → List (Option Middleware) → Group → Bytes → Handler → Type 0
Own p o g q k =
    (rt : Route) × Any (λ r. r ≡ rt) g.routes
    × (q ≡ full_pattern (p ++ g.prefix) rt)
    × (k ≡ chain rt.handler ((o ++ g.middleware) ++ rt.middleware))

-- A route that one of the group's children declares.
abbrev Nested : Groups → Bytes → List (Option Middleware) → Group → Bytes → Handler → Type 0
Nested gs p o g q k =
    (c : ℕ) × Any (λ d. d ≡ c) g.groups × Declares gs c (p ++ g.prefix) (o ++ g.middleware) q k

abbrev opened : Group → Group
opened g = record g { sealed = false }

-- The groups are the same but for their seals.
abbrev AreAlike : Groups → Groups → Type 0
AreAlike gs gs' = (i : ℕ) → opened (gs' i) ≡ opened (gs i)

-- `register` keeps what is registered, and adds the new pattern with its handler.
pub record MuxLaws (api : MuxApi) (Has : api.ServeMux → Bytes → Handler → Type 0) : Type 0 where
  pub added :
      (p : Bytes) (h : Handler) (m m' : api.ServeMux) → api.register p h m ≡ some m' → Has m' p h
  pub kept :
      (p : Bytes) (h : Handler) (m m' : api.ServeMux) (q : Bytes) (k : Handler)
      → api.register p h m ≡ some m'
      → Has m q k
      → Has m' q k

module _ (api : MuxApi) (Has : api.ServeMux → Bytes → Handler → Type 0)
    (laws : MuxLaws api Has) where
  open api use {ServeMux, register}

  -- From one mux to another nothing is lost, and what `P` names is there.
  record Adds (P : Bytes → Handler → Type 0) (m m' : ServeMux) : Type 0 where
    stays : (q : Bytes) (k : Handler) → Has m q k → Has m' q k
    adds : (q : Bytes) (k : Handler) → P q k → Has m' q k
