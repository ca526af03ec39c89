-- ===== src/Tests/Grouping.antt =====
-- A group with a nested group, compiled into a table of patterns that stands for a mux.
use go_web_sdk.Recorder.{Call, perform_all}
use go_web_sdk.Group.Depth.{new_module-Ends, Ends, IsRanked}
use go_web_sdk.Routing.Router.{Module}
use go_web_sdk.Group.{
  put_group, each, register_routes, compile_routes, compile, Group, new_module, Groups, Route,
}
use go_web_sdk.Http.Handler.{Handler}
use go_web_sdk.Routing.Mux.{default_not_found, MuxApi}
use go_web_sdk.Http.Request.{Request}
use go_web_sdk.Text.{bytes_eq, codes, Bytes}
use go_web_sdk.Common.{
  Any, panicked, inr, ◌||◌, inl, arith, ◌==◌, ◌∷◌, false, err, Bool-cases, ◌≡◌, if◌then◌else◌, [],
  ◌++◌, Option, Bool, ℕ, List, ok, none, some,
}

abbrev Table : Type 0
Table = List (Bytes × Handler)

is_known : Bytes → Table → Bool
is_known pattern [] = false
is_known pattern ((p, h) ∷ table) = bytes_eq p pattern || is_known pattern table

-- A duplicate pattern panics; a request for a pattern spelled by method and path is served by it.
register_in : Bytes → Handler → Table → Option Table
unfolding is_known
register_in pattern h table = if is_known pattern table then none else some ((pattern, h) ∷ table)

find_in : Table → Bytes → Handler × Bytes
find_in [] pattern = (default_not_found, [])
find_in ((p, h) ∷ table) pattern = if bytes_eq p pattern then (h, p) else find_in table pattern

abbrev look_up : Table → Request → Handler × Bytes
look_up table r = find_in table (r.method ++ (codes " " ++ r.path))

abbrev tables : MuxApi
tables = record {
  ServeMux = Table;
  empty = [];
  register = register_in;
  lookup = look_up;
  serve = λ table wr r. (look_up table r).0 wr r;
}

abbrev plain : Bytes → List Route → List ℕ → Group
plain prefix routes groups = record {
  prefix = prefix;
  middleware = [];
  routes = routes;
  groups = groups;
  errors = none;
  not_found = none;
  method_not_allowed = none;
  sealed = false;
}

abbrev accepting : Handler
accepting wr r = perform_all wr (Call.status 202 ∷ [])

abbrev item_route : Route
item_route = record {
  method = codes "GET";
  pattern = codes "/{id}";
  handler = accepting;
  middleware = [];
}

-- Group 0 at "/api" holds group 1 at "/items".
abbrev declared : Groups
declared i =
    if i == 0 then plain (codes "/api") [] (1 ∷ []) else plain (codes "/items") (item_route ∷ []) []

grouping : Unit {0}
unfolding new_module compile compile_routes register_routes each register_in is_known put_group
    bytes_eq
grouping = tt

-- The module that group 0 makes, and the groups that are left.
abbrev compiled : Module × Groups
unfolding grouping
compiled = elim (new_module tables 2 0 declared) [
  | ok r ↦ r
  | err e ↦ (record { prefix = []; handler = accepting }, declared)
  | panicked ↦ (record { prefix = []; handler = accepting }, declared)
]

-- Group 0 ranks above group 1.
abbrev rank : ℕ → ℕ
rank i = if i == 0 then 1 else 0

declared-IsRanked : IsRanked rank declared
declared-IsRanked i = elim (Bool-cases (i == 0)) [
  | inl e ↦ rw e (omega arith, tt)
  | inr e ↦ rw e tt
]

new_module-Ends_example : Ends (new_module tables 2 0 declared)
new_module-Ends_example = new_module-Ends tables rank 2 0 declared declared-IsRanked (omega arith)

abbrev IsListed : Table → Bytes → Handler → Type 0
IsListed table pattern h = Any (λ e. e ≡ (pattern, h)) table

-- What compiling group 0 leaves.
abbrev registered : Table × Groups
unfolding grouping
registered = elim (compile tables 2 [] [] 0 ([], declared)) [
  | ok r ↦ r
  | err e ↦ ([], declared)
  | panicked ↦ ([], declared)
]
