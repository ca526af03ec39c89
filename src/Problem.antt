-- ===== src/Problem.antt =====
-- problem.go: the problem document, its marshaling and its writing.
pub mod Document
pub mod Written
pub mod Body
pub mod Unmarshal
use go_web_sdk.Text.Decimal.{print_nat}
use go_web_sdk.Http.Request.{Request, request_id_from}
use go_web_sdk.Http.Status.{status_text}
use go_web_sdk.Common.{
  ◌++◌, ◌==◌, if◌then◌else◌, String, ℕ, Bool, true, false, Option, none, some, List, [], ◌∷◌,
}
use go_web_sdk.Text.{Bytes, codes, is_empty}
use go_web_sdk.Http.Json.{obj, member, end, num, Members, str, Json, Doc}
use go_web_sdk.Http.Json
use go_web_sdk.Http.Writer.{Writer, write, write_header, set_header}
use go_web_sdk.Http.World.{pure, json, ◌>>=◌, ◌>>◌, Run, Effect}

abbrev pub problem_media_type : Bytes
problem_media_type = codes "application/problem+json"

abbrev pub problem_type_blank : Bytes
problem_type_blank = codes "about:blank"

-- requestid.go: the member that carries the correlation id.
abbrev pub request_id_member : Bytes
request_id_member = codes "request_id"

-- `Type` is `kind` here. `extras` has each key once, as a Go map does; an empty map is as a nil one.
pub record Problem : Type 0 where
  pub kind : Bytes
  pub title : Bytes
  pub status : ℕ
  pub detail : Bytes
  pub instance_path : Bytes
  pub extras : Doc

abbrev pub with_only_status : ℕ → Problem
with_only_status status = record {
  kind = [];
  title = [];
  status = status;
  detail = [];
  instance_path = [];
  extras = [];
}

-- A member with `omitempty`.
abbrev unless_empty : String → Bytes → Doc → Doc
unless_empty key value rest = if is_empty value then rest else (codes key, str value) ∷ rest

-- `problemMembers`, in the order of its fields.
unfoldable pub members : Problem → Doc
members p =
    (codes "type", str p.kind)
    ∷ unless_empty "title" p.title (
        (codes "status", num p.status)
        ∷ unless_empty "detail" p.detail (unless_empty "instance" p.instance_path []))

abbrev is_nil : Doc → Bool
is_nil [] = true
is_nil (_ ∷ _) = false

-- `Problem.MarshalJSON`, less the order in which a map's keys are printed.
unfoldable pub marshal : Problem → Doc
unfolding members Json.copy Json.put
marshal p =
    if is_nil p.extras
    then members p
    else Json.put (Json.copy (members p) p.extras) (codes "status") (num p.status)

-- `applyDefaults`
unfoldable pub apply_defaults : Problem → Problem
unfolding status_text
apply_defaults p =
    let status = if p.status == 0 then 500 else p.status in
    record p {
      status = status;
      kind = if is_empty p.kind then problem_type_blank else p.kind;
      title = if is_empty p.title then status_text status else p.title;
    }

-- A document as one JSON value.
abbrev pub members_of : Doc → Members
members_of [] = end
members_of ((k, v) ∷ d) = member k v (members_of d)

-- `json.NewEncoder(w).Encode`: a value that does not marshal is refused before a byte is written.
unfoldable pub encode : Writer → Doc → Run (Option Bytes)
unfolding write Json.doc_encodable
encode wr doc =
    if Json.doc_encodable doc
    then write wr (json (obj (members_of doc)))
    else pure (some (codes "json: unsupported type"))

-- `Problem.Write`: the text of the error, or none.
unfoldable pub write_problem : Problem → Writer → Run (Option Bytes)
unfolding apply_defaults set_header write_header encode marshal
write_problem p wr =
    let q = apply_defaults p in
    set_header wr (codes "Content-Type") problem_media_type
    >> write_header wr q.status
    >> encode wr (marshal q)

-- The problem that `Problem.WriteFor` sends for the request.
unfoldable pub for_request : Problem → Request → Problem
unfolding request_id_from Json.put
for_request p r =
    let located = record p {
      instance_path = if is_empty p.instance_path then r.path else p.instance_path;
    } in
    elim (request_id_from r.context) [
      | none ↦ located
      | some id ↦
          if is_empty id
          then located
          else record located { extras = Json.put p.extras request_id_member (str id) }
    ]

-- `Problem.WriteFor`
unfoldable pub write_for : Problem → Writer → Request → Run (Option Bytes)
unfolding for_request write_problem
write_for p wr r = write_problem (for_request p r) wr

-- `WriteProblem`
abbrev pub write_status : Writer → Request → ℕ → Bytes → Bytes → Run (Option Bytes)
write_status wr r status title detail =
    write_for (record (with_only_status status) { title = title; detail = detail }) wr r

-- `_ = WriteProblem(w, r, status, title, detail)`
unfoldable pub send_status : Writer → Request → ℕ → Bytes → Bytes → Effect
unfolding write_for
send_status wr r status title detail = write_status wr r status title detail >>= λ _. pure tt

-- `Problem.Error`
unfoldable pub problem_text : Problem → Bytes
unfolding status_text print_nat
problem_text p =
    let title = if is_empty p.title then status_text p.status else p.title in
    let line = print_nat p.status ++ (codes " " ++ title) in
    if is_empty p.detail then line else line ++ (codes ": " ++ p.detail)
