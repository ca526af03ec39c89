-- ===== src/Errors.antt =====
-- errors.go: the package's own errors, and the Go errors that a handler may return. The verb %q of
-- package fmt is the parameter `quote`.
use go_web_sdk.Common.{[], ◌∷◌, ◌++◌, if◌then◌else◌, ℕ, Bool, true, false, Option, none, some, ◌||◌}
use go_web_sdk.Text.{bytes_eq, Bytes, codes}
use go_web_sdk.Query.{QueryError}
use go_web_sdk.Problem.{problem_text, Problem}

pub record PreconditionError : Type 0 where
  pub missing : Bool
  pub value : Bytes

pub record BodyError : Type 0 where
  pub too_large : Bool
  pub reason : Bytes

pub record UploadError : Type 0 where
  pub header : Bytes
  pub too_large : Bool
  pub reason : Bytes

pub record PathError : Type 0 where
  pub name : Bytes
  pub value : Bytes

-- The implementations of `statusError`.
pub data OwnError : Type 0 where
  query : QueryError → OwnError
  precondition : PreconditionError → OwnError
  body : BodyError → OwnError
  upload : UploadError → OwnError
  path : PathError → OwnError

-- The `status` methods.
unfoldable pub own_status : OwnError → ℕ
own_status (query e) = 400
own_status (precondition e) = if e.missing then 428 else 400
own_status (body e) = if e.too_large then 413 else 400
own_status (upload e) =
    if e.too_large then 413 else if bytes_eq e.header (codes "Content-Length") then 411 else 415
own_status (path e) = 400

-- A Go error: one of the package's own, a `Problem`, a `*Problem` (`none` is the nil pointer),
-- `context.Canceled`, any other with its text, one that wraps another under its own text, and
-- `errors.Join` of two.
pub data GoError : Type 0 where
  own : OwnError → GoError
  problem : Problem → GoError
  problem_pointer : Option Problem → GoError
  canceled : GoError
  opaque : Bytes → GoError
  wrapping : Bytes → GoError → GoError
  joined : GoError → GoError → GoError

abbrev or_else : Option OwnError → Option OwnError → Option OwnError
or_else (some e) other = some e
or_else none other = other

-- The text of joined errors: a line for each.
abbrev both_lines : Option Bytes → Option Bytes → Option Bytes
both_lines (some s) (some t) = some (s ++ 10 ∷ t)
both_lines (some s) none = none
both_lines none t = none

-- `errors.AsType[statusError](err)`: the first own error in the tree, with its status.
unfoldable pub find_own : GoError → Option OwnError
find_own (own e) = some e
find_own (problem p) = none
find_own (problem_pointer p) = none
find_own canceled = none
find_own (opaque t) = none
find_own (wrapping t e) = find_own e
find_own (joined a b) = or_else (find_own a) (find_own b)

-- `errors.Is(err, context.Canceled)`
unfoldable pub is_canceled : GoError → Bool
is_canceled (own e) = false
is_canceled (problem p) = false
is_canceled (problem_pointer p) = false
is_canceled canceled = true
is_canceled (opaque t) = false
is_canceled (wrapping t e) = is_canceled e
is_canceled (joined a b) = is_canceled a || is_canceled b

module _ (quote : Bytes → Bytes) where
  -- The `Error` methods of the own errors.
  unfoldable pub own_text : OwnError → Bytes
  own_text (query e) =
      codes "query " ++ (e.param ++ (codes "=" ++ (quote e.value ++ (codes ": " ++ e.reason))))
  own_text (precondition e) =
      if e.missing
      then codes "the request requires an If-Match header"
      else codes "If-Match "
        ++ (quote e.value
            ++ (codes ": must be one entity-tag containing an integer version, like "
                ++ (34 ∷ codes "3")
                ++ 34 ∷ []))
  own_text (body e) = codes "body: " ++ e.reason
  own_text (upload e) = codes "upload: " ++ e.reason
  own_text (path e) =
      codes "path " ++ (e.name ++ (codes "=" ++ (quote e.value ++ codes ": must be a UUID")))

  -- `err.Error()`, `none` where it dereferences a nil `*Problem` and panics.
  unfoldable pub error_text : GoError → Option Bytes
  unfolding own_text problem_text
  error_text (own e) = some (own_text e)
  error_text (problem p) = some (problem_text p)
  error_text (problem_pointer none) = none
  error_text (problem_pointer (some p)) = some (problem_text p)
  error_text canceled = some (codes "context canceled")
  error_text (opaque t) = some t
  error_text (wrapping t e) = some t
  error_text (joined a b) = both_lines (error_text a) (error_text b)
