-- ===== src/Recorder.antt =====
-- recorder.go: what a `Recorder` reports against what is on the wire. The type and its methods stand
-- beside the connection's own writer in Http/Writer.antt.
use go_web_sdk.Common.{
  ◌==◌, ◌⊎◌, subst, refl, ◌<◌, All, arith, true, [], false, ◌≡◌, if◌then◌else◌, ◌∷◌, some, none, ℕ,
  ◌≤◌, List, Option,
}
use go_web_sdk.Text.{Bytes}
use go_web_sdk.Http.World.{
  invalid_status, continue, panicking, returned, World, pure, Chunk, Outcome, ◌>>=◌, ◌>>◌, Run,
  Effect,
}
use go_web_sdk.Http.Writer.{
  del_header, read_from, wrap_writer, is_final, set_header, Writer, recorder, connection,
  write_header, write, flush_error,
}

-- A handler's calls on its writer.
pub data Call : Type 0 where
  header : Bytes → Bytes → Call
  removal : Bytes → Call
  status : ℕ → Call
  body : Chunk → Call
  flush : Call

discard : Run (Option Bytes) → Effect
discard m = m >>= λ _. pure tt

unfoldable pub perform : Writer → Call → Effect
unfolding discard set_header del_header write_header write flush_error
perform wr (header name value) = set_header wr name value
perform wr (removal name) = del_header wr name
perform wr (status code) = write_header wr code
perform wr (body chunk) = discard (write wr chunk)
perform wr flush = discard (flush_error wr)

unfoldable pub perform_all : Writer → List Call → Effect
unfolding perform
perform_all wr [] = pure tt
perform_all wr (c ∷ cs) = perform wr c >> perform_all wr cs

-- The status that a call commits, if nothing is committed yet.
abbrev pub commits : Call → Option ℕ
commits (header name value) = none
commits (removal name) = none
commits (status code) = if is_final code then some code else none
commits (body chunk) = some 200
commits flush = some 200

-- The status after the calls: the first that is committed stays.
abbrev pub committed_by : Option ℕ → List Call → Option ℕ
committed_by (some code) cs = some code
committed_by none [] = none
committed_by none (c ∷ cs) = committed_by (commits c) cs

-- net/http takes the code.
abbrev pub IsValidCall : Call → Type 0
IsValidCall (status code) = (100 ≤ code) × (code ≤ 999)
IsValidCall _ = Unit

-- The recorder at `at` agrees with the wire on the status `s`.
pub record Agrees (at : ℕ) (s : Option ℕ) (w : World) : Type 0 where
  pub wire : w.conn.status ≡ s
  pub recorded : (w.recordings at).committed ≡ elim s [ none ↦ false | some _ ↦ true ]
  pub status : (code : ℕ) → s ≡ some code → (w.recordings at).status ≡ code
  pub sound : w.conn.fault ≡ none

-- A call that returns in a world where `P` holds.
abbrev pub Returns {ℓ} : {A : Type ℓ} → Outcome A → (World → Type 0) → Type 0
Returns (returned a w) P = P w
Returns (panicking p w) P = ⊥

perform-Agrees :
    (at : ℕ) (c : Call) (s : Option ℕ) (w : World)
    → IsValidCall c
    → Agrees at s w
    → Returns (perform (recorder at connection) c w) (Agrees at (committed_by s (c ∷ [])))
unfolding perform
perform-Agrees at (header name value) none w v h = ground arith
perform-Agrees at (header name value) (some t) w v h = ground arith
perform-Agrees at (removal name) none w v h = ground arith
perform-Agrees at (removal name) (some t) w v h = ground arith
perform-Agrees at (status code) none w v h = ground arith
perform-Agrees at (status code) (some t) w v h = ground arith
perform-Agrees at (body chunk) none w v h = ground arith
perform-Agrees at (body chunk) (some t) w v h = ground arith
perform-Agrees at flush none w v h = ground arith
perform-Agrees at flush (some t) w v h = ground arith

-- What holds after the first part, and carries over the second, holds after both.
pub Returns-bind {ℓ κ} :
    {A : Type ℓ} {B : Type κ} (P Q : World → Type 0) (m : Run A) (k : A → Run B) (w : World)
    → Returns (m w) P
    → ((a : A) (w' : World) → P w' → Returns (k a w') Q)
    → Returns ((m >>= k) w) Q
Returns-bind {A} {B} P Q m k w h f = by_outcome (m w) h
  where
    by_outcome : (o : Outcome A) → Returns o P → Returns (continue o k) Q
    by_outcome (returned a w') p = f a w' p
    by_outcome (panicking p w') bad = absurd bad

-- Two facts of one outcome, and what follows from both.
pub Returns-both {ℓ} :
    {A : Type ℓ} (P Q R : World → Type 0) (o : Outcome A)
    → Returns o P
    → Returns o Q
    → ((w : World) → P w → Q w → R w)
    → Returns o R
Returns-both P Q R (returned a w) p q k = k w p q
Returns-both P Q R (panicking v w) p q k = p

committed_by-cons :
    (s : Option ℕ) (c : Call) (cs : List Call)
    → committed_by (committed_by s (c ∷ [])) cs ≡ committed_by s (c ∷ cs)
committed_by-cons (some t) c cs = refl
committed_by-cons none c cs = first_call (commits c)
  where
    first_call : (o : Option ℕ) → committed_by (committed_by o []) cs ≡ committed_by o cs
    first_call none = refl
    first_call (some t) = refl

perform_all-Agrees :
    (at : ℕ) (cs : List Call) (s : Option ℕ) (w : World)
    → All IsValidCall cs
    → Agrees at s w
    → Returns (perform_all (recorder at connection) cs w) (Agrees at (committed_by s cs))
unfolding perform_all
perform_all-Agrees at [] none w v h = h
perform_all-Agrees at [] (some t) w v h = h
perform_all-Agrees at (c ∷ cs) s w (v, vs) h =
    Returns-bind {B = Unit {0}} (Agrees at (committed_by s (c ∷ [])))
      (Agrees at (committed_by s (c ∷ cs))) (perform (recorder at connection) c)
      (λ _. perform_all (recorder at connection) cs) w (perform-Agrees at c s w v h)
      λ _ w' h'.
        subst (λ t. Returns (perform_all (recorder at connection) cs w') (Agrees at t))
          (committed_by-cons s c cs) (perform_all-Agrees at cs (committed_by s (c ∷ [])) w' vs h')

-- Whatever a handler does with its writer, by statuses from 100 to 999, bodies, flushes and header edits,
-- the calls return, and the recorder made for it reports the status on the wire: the first final one
-- given, or 200 where a body or a flush came before it. (The connection's writes do not fail.)
pub recorder-Agrees :
    (cs : List Call) (w : World)
    → All IsValidCall cs
    → w.conn.status ≡ none
    → w.conn.fault ≡ none
    → Returns
        ((wrap_writer connection >>= λ rec. perform_all rec cs) w)
        (Agrees w.next (committed_by none cs))
unfolding wrap_writer
recorder-Agrees cs w v fresh sound =
    perform_all-Agrees w.next cs none _ v
      (record { wire = fresh; recorded = ground arith; status = λ code e. cc; sound = sound })

-- A status outside 100 to 999 makes net/http panic before anything is on the wire, yet leaves the
-- recorder reporting a committed response of that status.
pub invalid_status_commits :
    (at code : ℕ) (w : World)
    → (code < 100) ⊎ (999 < code)
    → w.conn.status ≡ none
    → (w.recordings at).committed ≡ false
    → (w' : World) × (write_header (recorder at connection) code w
        ≡ panicking (invalid_status code) w')
      × ((w'.recordings at).committed ≡ true)
      × ((w'.recordings at).status ≡ code)
      × (w'.conn.status ≡ none)
unfolding write_header
invalid_status_commits at code w bad fresh open_yet = (
  record w {
    recordings =
        λ i. if i == at then record { status = code; committed = true } else w.recordings i;
  },
  ground arith,
  ground arith,
  ground arith,
  fresh,
)

-- Copying from a source that gives no bytes puts nothing on the connection, yet leaves the recorder
-- reporting a committed 200, whether the source ends or fails.
pub read_from_nothing :
    (at : ℕ) (failure : Option Bytes) (w : World)
    → (w.recordings at).committed ≡ false
    → (w' : World) × (read_from (recorder at connection) [] failure w ≡ returned failure w')
      × ((w'.recordings at).committed ≡ true)
      × ((w'.recordings at).status ≡ 200)
      × (w'.conn ≡ w.conn)
unfolding read_from
read_from_nothing at failure w open_yet = (
  record w {
    recordings = λ i. if i == at then record { status = 200; committed = true } else w.recordings i;
  },
  ground arith,
  ground arith,
  ground arith,
  refl,
)
