-- ===== src/Response/Objects.antt =====
-- response.go: what a failed open leaves of an object's response.
use go_web_sdk.Caching.{not_modified}
use go_web_sdk.Http.Request.{Request}
use go_web_sdk.Text.Laws.{bytes_eq_refl}
use go_web_sdk.Errors.{GoError}
use go_web_sdk.Recorder.{Agrees}
use go_web_sdk.Http.Writer.{connection, recorder, edit_header, set_header, del_header}
use go_web_sdk.Text.{contains_byte, is_empty, bytes_eq, codes, Bytes}
use go_web_sdk.Response.{
  set_modified, unopened, not_modified, Opened, Request, is_empty, proxy_object, write_object,
  bytes_eq, Object, GoError, set_validators, codes, set_header, representation, del_header,
  refuse_object, clear_headers,
}
use go_web_sdk.Http.Header.{HeaderMap}
use go_web_sdk.Http.Header
use go_web_sdk.Http.World.{Run, Effect, World, ◌>>◌, pure, returned, continue, when}
use go_web_sdk.Common.{
  All, false, true, if◌then◌else◌, not, ap, subst, Bool, refl, inr, inl, ◌∙◌, [], Any, ◌≡◌, ◌∷◌,
  Option, List, ℕ, none, some,
}

abbrev pub with_header : HeaderMap → World → World
with_header h w = record w { conn = record (w.conn) { header = h } }

with_header-Agrees :
    (at : ℕ) (s : Option ℕ) (h : HeaderMap) (w : World)
    → Agrees at s w
    → Agrees at s (with_header h w)
with_header-Agrees at s h w k = record {
  wire = k.wire;
  recorded = k.recorded;
  status = k.status;
  sound = k.sound;
}

abbrev del_all : List Bytes → HeaderMap → HeaderMap
del_all [] h = h
del_all (name ∷ names) h = del_all names (Header.del h name)

if_nil : (b : Bool) (s : Bytes) → s ≡ [] → (if b then [] else s) ≡ []
if_nil true s e = refl
if_nil false s e = e

del_all_keeps :
    (names : List Bytes) (h : HeaderMap) (name : Bytes)
    → Header.get h name ≡ []
    → Header.get (del_all names h) name ≡ []
del_all_keeps [] h name e = e
del_all_keeps (n ∷ names) h name e = del_all_keeps names (Header.del h n) name (
    Header.get-del h n name
    ∙ if_nil (bytes_eq (Header.canonical n) (Header.canonical name)) (Header.get h name) e)

del_all_deletes :
    (names : List Bytes) (h : HeaderMap) (name : Bytes)
    → Any (λ n. n ≡ name) names
    → Header.get (del_all names h) name ≡ []
del_all_deletes [] h name m = elim m [ ]
del_all_deletes (n ∷ names) h name (inl e) = del_all_keeps names (Header.del h n) name (
    subst (λ x. Header.get (Header.del h n) x ≡ []) e
      (Header.get-del h n n
        ∙ ap (λ b. if b then [] else Header.get h n) (bytes_eq_refl (Header.canonical n))))
del_all_deletes (n ∷ names) h name (inr m) = del_all_deletes names (Header.del h n) name m

clear_headers_lem :
    (at : ℕ) (names : List Bytes) (w : World)
    → clear_headers (recorder at connection) names w
      ≡ returned tt (with_header (del_all names w.conn.header) w)
unfolding clear_headers del_header edit_header
clear_headers_lem at [] w = refl
clear_headers_lem at (n ∷ names) w =
    clear_headers_lem at names (with_header (Header.del w.conn.header n) w)

-- What `refuse_object` leaves in the headers.
abbrev refused_header : HeaderMap → HeaderMap
refused_header h = Header.set (del_all representation h) (codes "Cache-Control") (codes "no-store")

-- The headers that describe an object, but for Cache-Control.
abbrev pub describing : List Bytes
describing =
    codes "Content-Disposition"
    ∷ codes "Content-Encoding"
    ∷ codes "Content-Length"
    ∷ codes "Content-Range"
    ∷ codes "ETag"
    ∷ codes "Expires"
    ∷ codes "Last-Modified"
    ∷ []

refused_header-deleted :
    (h : HeaderMap) (name : Bytes)
    → Any (λ n. n ≡ name) representation
    → bytes_eq (Header.canonical (codes "Cache-Control")) (Header.canonical name) ≡ false
    → Header.get (refused_header h) name ≡ []
refused_header-deleted h name m other =
    Header.get-set (del_all representation h) (codes "Cache-Control") name (codes "no-store")
    ∙ ap (λ b. if b then codes "no-store" else Header.get (del_all representation h) name) other
    ∙ del_all_deletes representation h name m

refused_header-describing :
    (h : HeaderMap) → All (λ name. Header.get (refused_header h) name ≡ []) describing
unfolding bytes_eq Header.canonical contains_byte
refused_header-describing h = (
  refused_header-deleted h (codes "Content-Disposition") (inr (inl refl)) refl,
  (
    refused_header-deleted h (codes "Content-Encoding") (inr (inr (inl refl))) refl,
    (
      refused_header-deleted h (codes "Content-Length") (inr (inr (inr (inl refl)))) refl,
      (
        refused_header-deleted h (codes "Content-Range") (inr (inr (inr (inr (inl refl))))) refl,
        (
          refused_header-deleted h (codes "ETag") (inr (inr (inr (inr (inr (inl refl)))))) refl,
          (
            refused_header-deleted h (codes "Expires")
                (inr (inr (inr (inr (inr (inr (inl refl))))))) refl,
            (
              refused_header-deleted h (codes "Last-Modified")
                  (inr (inr (inr (inr (inr (inr (inr (inl refl)))))))) refl,
              tt,
            ),
          ),
        ),
      ),
    ),
  ),
)

refused_header-cache_control :
    (h : HeaderMap) → Header.get (refused_header h) (codes "Cache-Control") ≡ codes "no-store"
refused_header-cache_control h =
    Header.get-set (del_all representation h) (codes "Cache-Control") (codes "Cache-Control")
      (codes "no-store")
    ∙ ap
        (λ b.
          if b
          then codes "no-store"
          else Header.get (del_all representation h) (codes "Cache-Control"))
        (bytes_eq_refl (Header.canonical (codes "Cache-Control")))

refuse_object_lem :
    (at : ℕ) (e : GoError) (w : World)
    → refuse_object (recorder at connection) e w
      ≡ returned (some e) (with_header (refused_header w.conn.header) w)
unfolding refuse_object set_header edit_header
refuse_object_lem at e w =
    let wr = recorder at connection in
    let last : Unit {0} → Effect = λ _. set_header wr (codes "Cache-Control") (codes "no-store") in
    let result : Unit {0} → Run (Option GoError) = λ _. pure (some e) in
    ap (λ out. continue {B = Option GoError} (continue {B = Unit {0}} out last) result)
      (clear_headers_lem at representation w)

module _ (parse_time : Bytes → Option ℕ) (truncate : ℕ → ℕ) (format_time : ℕ → Bytes) where
  set_validators_lem :
      (at : ℕ) (o : Object) (w : World)
      → (h : HeaderMap) × (set_validators parse_time truncate format_time
            (recorder at connection)
            o
            w
          ≡ returned tt (with_header h w))
  unfolding set_validators set_modified set_header edit_header
  set_validators_lem at o w = by_parts (not (is_empty o.etag)) o.modified_at
    where
      by_parts :
          (b : Bool) (m : Option ℕ)
          → (h : HeaderMap) × ((when b (set_header (recorder at connection) (codes "ETag") o.etag)
                  >> set_modified parse_time truncate format_time (recorder at connection) m)
                w
              ≡ returned tt (with_header h w))
      by_parts true none = (Header.set w.conn.header (codes "ETag") o.etag, refl)
      by_parts false none = (w.conn.header, refl)
      by_parts true (some t) = (
        Header.set (Header.set w.conn.header (codes "ETag") o.etag) (codes "Last-Modified")
            (format_time t),
        refl,
      )
      by_parts false (some t) =
          (Header.set w.conn.header (codes "Last-Modified") (format_time t), refl)

  -- An object that a GET may not serve from the client's cache, and whose open fails, is answered by no
  -- one yet: the error is returned, nothing is committed, and the headers that describe the object, its
  -- caller's included, are left empty: Content-Disposition, Content-Encoding, Content-Length,
  -- Content-Range, ETag, Expires and Last-Modified. Cache-Control is no-store. (The open itself leaves
  -- the response alone.)
  pub write_object-unopened :
      (r : Request) (o : Object) (opening : Run Opened) (e : GoError) (at : ℕ) (w : World)
      → not_modified parse_time truncate r (record { etag = o.etag; modified_at = o.modified_at })
        ≡ false
      → bytes_eq r.method (codes "HEAD") ≡ false
      → ((w : World) → opening w ≡ returned (unopened e) w)
      → Agrees at none w
      → (w' : World) × (write_object parse_time truncate format_time
            (recorder at connection)
            r
            o
            opening
            w
          ≡ returned (some e) w')
        × Agrees at none w'
        × All (λ name. Header.get w'.conn.header name ≡ []) describing
        × (Header.get w'.conn.header (codes "Cache-Control") ≡ codes "no-store")
  unfolding write_object proxy_object
  write_object-unopened r o opening e at w stale get fails h =
      let (h1, e1) = set_validators_lem at o w in
      let w1 = with_header h1 w in
      (
        with_header (refused_header h1) w,
        rw (e1, stale, get, fails w1) (refuse_object_lem at e w1),
        with_header-Agrees at none (refused_header h1) w h,
        refused_header-describing h1,
        refused_header-cache_control h1,
      )
