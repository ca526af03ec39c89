-- ===== src/Middleware.antt =====
-- middleware.go: `Middleware` and `Chain`. `none` is a nil middleware.
pub mod Order
use mathlib.Core.List.{reverse}
use go_web_sdk.Common.{Option, none, some, List, [], ◌∷◌}
use go_web_sdk.Http.Handler.{Handler}

abbrev pub Middleware : Type 0
Middleware = Handler → Handler

-- One round of the loop: a nil entry is skipped.
abbrev pub apply : Option Middleware → Handler → Handler
apply none handler = handler
apply (some m) handler = m handler

wrap_each : Handler → List (Option Middleware) → Handler
wrap_each handler [] = handler
wrap_each handler (m ∷ ms) = wrap_each (apply m handler) ms

-- `Chain`: the loop runs over the middleware backwards.
unfoldable pub chain : Handler → List (Option Middleware) → Handler
unfolding wrap_each
chain handler middleware = wrap_each handler (reverse middleware)
