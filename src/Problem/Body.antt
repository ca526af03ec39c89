-- ===== src/Problem/Body.antt =====
-- problem.go: the document that a written problem puts in the body.
use go_web_sdk.Problem.Document.{marshal_plain, marshal_merged}
use go_web_sdk.Problem.Written.{for_request-status, apply_defaults-status}
use go_web_sdk.Problem.{
  unless_empty, members, marshal, apply_defaults, for_request, write_for, write_problem, encode,
  members_of, Problem, problem_media_type, request_id_member,
}
use go_web_sdk.Http.Json
use go_web_sdk.Http.Json.{Doc, Json, obj, str, num}
use go_web_sdk.Http.Request.{Request, request_id_from}
use go_web_sdk.Http.World.{json, World, Run, ◌>>=◌}
use go_web_sdk.Http.Writer.{connection, recorder, set_header, write_header, write}
use go_web_sdk.Recorder.{Agrees, Returns, Returns-bind}
use go_web_sdk.Text.{Bytes, codes}
use go_web_sdk.Common.{
  ◌∙◌, Bool-cases, ◌≡◌, ◌≢◌, ◌≤◌, ◌∷◌, [], ℕ, true, false, ◌++◌, some, none, refl, arith, String,
  Option, inl, inr,
}

pub doc_encodable-put :
    (d : Doc) (k : Bytes) (v : Json)
    → Json.doc_encodable d ≡ true
    → Json.is_encodable v ≡ true
    → Json.doc_encodable (Json.put d k v) ≡ true
unfolding Json.doc_encodable Json.put
doc_encodable-put [] k v h e = rw e refl
doc_encodable-put ((j, w) ∷ d) k v h e = ground (arith, doc_encodable-put d k v)

pub doc_encodable-copy :
    (dst src : Doc)
    → Json.doc_encodable dst ≡ true
    → Json.doc_encodable src ≡ true
    → Json.doc_encodable (Json.copy dst src) ≡ true
unfolding Json.copy Json.doc_encodable
doc_encodable-copy dst [] h k = h
doc_encodable-copy dst ((j, v) ∷ src) h k =
    doc_encodable-copy (Json.put dst j v) src (doc_encodable-put dst j v h (ground arith))
      (ground arith)

unless_empty-encodable :
    (key : String) (value : Bytes) (rest : Doc)
    → Json.doc_encodable rest ≡ true
    → Json.doc_encodable (unless_empty key value rest) ≡ true
unfolding Json.doc_encodable Json.is_encodable
unless_empty-encodable key [] rest h = h
unless_empty-encodable key (c ∷ s) rest h = h

members-encodable : (p : Problem) → Json.doc_encodable (members p) ≡ true
unfolding members Json.doc_encodable Json.is_encodable
members-encodable p = unless_empty-encodable "title" p.title _ (
    unless_empty-encodable "detail" p.detail _
      (unless_empty-encodable "instance" p.instance_path [] refl))

marshal-encodable :
    (p : Problem) → Json.doc_encodable p.extras ≡ true → Json.doc_encodable (marshal p) ≡ true
unfolding Json.is_encodable
marshal-encodable p h = by_extras p.extras refl
  where
    by_extras : (d : Doc) → p.extras ≡ d → Json.doc_encodable (marshal p) ≡ true
    by_extras [] e = rw (marshal_plain p e) (members-encodable p)
    by_extras (x ∷ d) e = rw (marshal_merged p x d e) (
        doc_encodable-put (Json.copy (members p) p.extras) (codes "status") (num p.status)
          (doc_encodable-copy (members p) p.extras (members-encodable p) h) refl)

for_request-encodable :
    (p : Problem) (r : Request)
    → Json.doc_encodable p.extras ≡ true
    → Json.doc_encodable (for_request p r).extras ≡ true
unfolding for_request Json.is_encodable
for_request-encodable p r h = by_id (request_id_from r.context) refl
  where
    by_id :
        (o : Option Bytes)
        → request_id_from r.context ≡ o
        → Json.doc_encodable (for_request p r).extras ≡ true
    by_id none e = rw (e, for_request) h
    by_id (some []) e = rw (e, for_request) h
    by_id (some (c ∷ id)) e =
        rw (e, for_request) (doc_encodable-put p.extras request_id_member (str (c ∷ id)) h refl)

-- The document that is sent for a request.
abbrev pub sent_document : Problem → Request → Doc
sent_document p r = marshal (apply_defaults (for_request p r))

pub sent_document-encodable :
    (p : Problem) (r : Request)
    → Json.doc_encodable p.extras ≡ true
    → Json.doc_encodable (sent_document p r) ≡ true
unfolding apply_defaults
sent_document-encodable p r h =
    marshal-encodable (apply_defaults (for_request p r)) (for_request-encodable p r h)

-- The document is the one chunk that was added to the body; one that does not marshal adds none.
pub record IsBodyOf (d : Doc) (w w' : World) : Type 0 where
  pub sent :
      Json.doc_encodable d ≡ true → w'.conn.body ≡ w.conn.body ++ json (obj (members_of d)) ∷ []
  pub unsent : Json.doc_encodable d ≡ false → w'.conn.body ≡ w.conn.body

-- A response with this status is open for its body, of which nothing is there yet.
record IsStarted (at : ℕ) (s : Option ℕ) (w w' : World) : Type 0 where
  agreed : Agrees at s w'
  unsent : w'.conn.body ≡ w.conn.body

set_header-IsStarted :
    (at : ℕ) (w : World) (name value : Bytes)
    → Agrees at none w
    → Returns (set_header (recorder at connection) name value w) (IsStarted at none w)
unfolding set_header
set_header-IsStarted at w name value h = record {
  agreed = record { wire = h.wire; recorded = h.recorded; status = h.status; sound = h.sound };
  unsent = refl;
}

write_header-IsStarted :
    (at status : ℕ) (w w' : World)
    → IsStarted at none w w'
    → 200 ≤ status
    → status ≤ 999
    → Returns (write_header (recorder at connection) status w') (IsStarted at (some status) w)
unfolding write_header
write_header-IsStarted at status w w' h low high =
    let uncommitted = h.agreed.recorded in
    let open_wire = h.agreed.wire in
    let sound = h.agreed.sound in let empty = h.unsent in ground arith

encode-IsBodyOf :
    (at status : ℕ) (d : Doc) (w w' : World)
    → IsStarted at (some status) w w'
    → 200 ≤ status
    → status ≢ 204
    → status ≢ 304
    → Returns (encode (recorder at connection) d w') (IsBodyOf d w)
unfolding encode write
encode-IsBodyOf at status d w w' h low some_content modified =
    let committed = h.agreed.recorded in
    let wire = h.agreed.wire in
    let sound = h.agreed.sound in
    let empty = h.unsent in
    elim (Bool-cases (Json.doc_encodable d)) [
      | inl fits ↦ rw (fits, encode) (ground arith)
      | inr refused ↦ rw (refused, encode) (ground arith)
    ]

-- A problem written for a request where nothing is committed puts its document in the body.
pub write_for-IsBodyOf :
    (p : Problem) (r : Request) (at : ℕ) (w : World)
    → Agrees at none w
    → 200 ≤ p.status
    → p.status ≤ 999
    → p.status ≢ 204
    → p.status ≢ 304
    → Returns (write_for p (recorder at connection) r w) (IsBodyOf (sent_document p r) w)
unfolding write_for write_problem
write_for-IsBodyOf p r at w h low high some_content modified =
    let q = apply_defaults (for_request p r) in
    let same : q.status ≡ p.status =
      apply_defaults-status (for_request p r) (ground (arith, for_request-status p r))
      ∙ for_request-status p r in
    let wr = recorder at connection in
    let last : Unit {0} → Run (Option Bytes) = λ _. encode wr (marshal q) in
    Returns-bind {B = Option Bytes} (IsStarted at none w) (IsBodyOf (marshal q) w)
      (set_header wr (codes "Content-Type") problem_media_type)
      (λ _. write_header wr q.status >>= last) w
      (set_header-IsStarted at w (codes "Content-Type") problem_media_type h)
      λ _ w1 ready.
        Returns-bind {B = Option Bytes} (IsStarted at (some q.status) w) (IsBodyOf (marshal q) w)
          (write_header wr q.status) last w1
          (write_header-IsStarted at q.status w w1 ready (omega (arith, same))
            (omega (arith, same)))
          λ _ w2 sent.
            encode-IsBodyOf at q.status (marshal q) w w2 sent (omega (arith, same))
              (omega (arith, same)) (omega (arith, same))
