-- ===== src/Problem/Written.antt =====
-- What a written problem leaves on the wire.
use go_web_sdk.Http.World.{pure, ◌>>=◌}
use go_web_sdk.Http.Json.{obj, Doc}
use go_web_sdk.Text.Laws.{bytes_eq_refl}
use go_web_sdk.Text.{Bytes, codes}
use go_web_sdk.Http.World.{json, Run, Chunk, World}
use go_web_sdk.Http.Request.{Request}
use go_web_sdk.Http.Writer.{write, connection, recorder, write_header, set_header}
use go_web_sdk.Http.Header.{HeaderMap}
use go_web_sdk.Common.{
  inr, Option, inl, Bool-cases, subst, if◌then◌else◌, ap, ◌≤◌, ◌∙◌, ℕ, arith, ◌≡◌, ◌≢◌, some, none,
}
use go_web_sdk.Problem.{
  with_only_status, write_status, send_status, members_of, Bytes, marshal, Doc, encode, codes,
  Request, set_header, Problem, write_problem, apply_defaults, for_request, write_for,
  problem_media_type,
}
use go_web_sdk.Recorder.{Returns-bind, Agrees, Returns}
use go_web_sdk.Http.Header
use go_web_sdk.Http.Json

-- The wire carries the status, and the headers sent with it the media type of problems.
pub record IsProblem (status : ℕ) (w : World) : Type 0 where
  pub wire : w.conn.status ≡ some status
  pub media_type : Header.get w.conn.sent (codes "Content-Type") ≡ problem_media_type

content_type-set :
    (h : HeaderMap)
    → Header.get (Header.set h (codes "Content-Type") problem_media_type) (codes "Content-Type")
      ≡ problem_media_type
content_type-set h =
    Header.get-set h (codes "Content-Type") (codes "Content-Type") problem_media_type
    ∙ ap (λ b. if b then problem_media_type else Header.get h (codes "Content-Type"))
        (bytes_eq_refl (Header.canonical (codes "Content-Type")))

-- The header is set, and nothing is committed.
record IsReady (at : ℕ) (w : World) : Type 0 where
  fresh : Agrees at none w
  typed : Header.get w.conn.header (codes "Content-Type") ≡ problem_media_type

set_header-IsReady :
    (at : ℕ) (w : World)
    → Agrees at none w
    → Returns
        (set_header (recorder at connection) (codes "Content-Type") problem_media_type w)
        (IsReady at)
unfolding set_header
set_header-IsReady at w h = record {
  fresh = record { wire = h.wire; recorded = h.recorded; status = h.status; sound = h.sound };
  typed = content_type-set w.conn.header;
}

write_header-IsProblem :
    (at status : ℕ) (w : World)
    → IsReady at w
    → 200 ≤ status
    → status ≤ 999
    → Returns (write_header (recorder at connection) status w) (IsProblem status)
unfolding write_header
write_header-IsProblem at status w h low high =
    let uncommitted = h.fresh.recorded in let open_wire = h.fresh.wire in ground arith

-- Once a final status is out, no write of the body changes it.
pub write-IsProblem :
    (at status : ℕ) (chunk : Chunk) (w : World)
    → IsProblem status w
    → Returns (write (recorder at connection) chunk w) (IsProblem status)
unfolding write
write-IsProblem at status chunk w h = ground arith

encode-IsProblem :
    (at status : ℕ) (d : Doc) (w : World)
    → IsProblem status w
    → Returns (encode (recorder at connection) d w) (IsProblem status)
unfolding encode
encode-IsProblem at status d w h = elim (Bool-cases (Json.doc_encodable d)) [
  | inl fits ↦ rw (fits, encode) (write-IsProblem at status (json (obj (members_of d))) w h)
  | inr refused ↦ rw (refused, encode) h
]

write_problem-IsProblem :
    (p : Problem) (at : ℕ) (w : World)
    → Agrees at none w
    → 200 ≤ (apply_defaults p).status
    → (apply_defaults p).status ≤ 999
    → Returns (write_problem p (recorder at connection) w) (IsProblem (apply_defaults p).status)
unfolding write_problem
write_problem-IsProblem p at w h low high =
    let q = apply_defaults p in
    let wr = recorder at connection in
    let last : Unit {0} → Run (Option Bytes) = λ _. encode wr (marshal q) in
    Returns-bind {B = Option Bytes} (IsReady at) (IsProblem q.status)
      (set_header wr (codes "Content-Type") problem_media_type)
      (λ _. write_header wr q.status >>= last) w (set_header-IsReady at w h)
      λ _ w1 ready.
        Returns-bind {B = Option Bytes} (IsProblem q.status) (IsProblem q.status)
          (write_header wr q.status) last w1 (write_header-IsProblem at q.status w1 ready low high)
          λ _ w2 sent. encode-IsProblem at q.status (marshal q) w2 sent

pub apply_defaults-status : (p : Problem) → p.status ≢ 0 → (apply_defaults p).status ≡ p.status
unfolding apply_defaults
apply_defaults-status p h = ground arith

pub for_request-status : (p : Problem) (r : Request) → (for_request p r).status ≡ p.status
unfolding for_request
for_request-status p r = ground arith

-- A problem with a status from 200 to 999, written for a request on a writer that has committed
-- nothing, puts its status on the wire under the problem media type.
pub write_for-IsProblem :
    (p : Problem) (r : Request) (at : ℕ) (w : World)
    → Agrees at none w
    → 200 ≤ p.status
    → p.status ≤ 999
    → Returns (write_for p (recorder at connection) r w) (IsProblem p.status)
unfolding write_for
write_for-IsProblem p r at w h low high =
    let same : (apply_defaults (for_request p r)).status ≡ p.status =
      apply_defaults-status (for_request p r) (ground (arith, for_request-status p r))
      ∙ for_request-status p r in
    subst (λ s. Returns (write_problem (for_request p r) (recorder at connection) w) (IsProblem s))
      same
      (write_problem-IsProblem (for_request p r) at w h (omega (arith, same)) (omega (arith, same)))

pub send_status-IsProblem :
    (r : Request) (at : ℕ) (w : World) (status : ℕ) (title detail : Bytes)
    → Agrees at none w
    → 200 ≤ status
    → status ≤ 999
    → Returns (send_status (recorder at connection) r status title detail w) (IsProblem status)
unfolding send_status
send_status-IsProblem r at w status title detail h low high =
    Returns-bind {B = Unit {0}} (IsProblem status) (IsProblem status)
      (write_status (recorder at connection) r status title detail) (λ _. pure tt) w
      (write_for-IsProblem (record (with_only_status status) { title = title; detail = detail }) r
        at w h low high)
      λ _ w' sent. sent
