-- ===== src/Routing/Miss.antt =====
-- miss.go: what the dry run of the mux's own miss handler records, and the answer it leads to.
use go_web_sdk.Http.World.{◌>>=◌, ◌>>◌, Outcome}
use go_web_sdk.Text.{Bytes}
use go_web_sdk.Text.{codes, is_empty}
use go_web_sdk.Http.Request.{Request}
use go_web_sdk.Http.Writer.{set_header, Writer, load_miss, miss_write_header, miss}
use go_web_sdk.Http.World.{when, continue, returned, World, Miss}
use go_web_sdk.Http.Header.{HeaderMap}
use go_web_sdk.Common.{
  true, sym, ◌≢◌, subst, ◌⊎◌, inr, inl, not, ◌∙◌, Bool-cases, ap, ◌==◌, [], if◌then◌else◌, ◌∷◌,
  List, ℕ, arith, ◌≡◌, refl,
}
use go_web_sdk.Http.Header
use go_web_sdk.Http.Handler.{Handler}
use go_web_sdk.Recorder.{flush, body, status, removal, header, Call, perform, perform_all}
use go_web_sdk.Routing.Mux.{is_redirect, new_miss, serve_miss, answer_miss}

-- What a `missRecorder` holds after a handler's calls: the first status, and the headers as they were edited.
abbrev pub recorded_status : ℕ → Call → ℕ
recorded_status s (header name value) = s
recorded_status s (removal name) = s
recorded_status s (status code) = if s == 0 then code else s
recorded_status s (body chunk) = if s == 0 then 200 else s
recorded_status s flush = s

abbrev pub recorded_header : HeaderMap → Call → HeaderMap
recorded_header h (header name value) = Header.set h name value
recorded_header h (removal name) = Header.del h name
recorded_header h _ = h

abbrev pub miss_of : Miss → List Call → Miss
miss_of m [] = m
miss_of m (c ∷ cs) =
    miss_of (record { header = recorded_header m.header c; status = recorded_status m.status c }) cs

-- A run that leaves the connection and the logs alone.
pub record Untouched (w w' : World) : Type 0 where
  pub conn : w'.conn ≡ w.conn
  pub logs : w'.logs ≡ w.logs

pub record Recorded (at : ℕ) (m : Miss) (w w' : World) : Type 0 where
  pub untouched : Untouched w w'
  pub miss : w'.misses at ≡ m

miss_write_header-miss :
    (at code : ℕ) (w : World)
    → (w' : World) × (miss_write_header at code w ≡ returned tt w')
      × Recorded at (miss_of (w.misses at) (status code ∷ [])) w w'
unfolding miss_write_header
miss_write_header-miss at code w = elim (Bool-cases ((w.misses at).status == 0)) [
  | inl unset ↦ (
    record w {
      misses = λ i. if i == at then record (w.misses at) { status = code } else w.misses i;
    },
    rw (unset, miss_write_header) refl,
    record { untouched = record { conn = refl; logs = refl }; miss = ground arith },
  )
  | inr given ↦ (
    w,
    rw (given, miss_write_header) refl,
    record { untouched = record { conn = refl; logs = refl }; miss = rw given refl },
  )
]

perform-miss :
    (at : ℕ) (c : Call) (w : World)
    → (w' : World) × (perform (miss at) c w ≡ returned tt w')
      × Recorded at (miss_of (w.misses at) (c ∷ [])) w w'
unfolding perform
perform-miss at (header name value) w =
    (_, refl, record { untouched = record { conn = refl; logs = refl }; miss = ground arith })
perform-miss at (removal name) w =
    (_, refl, record { untouched = record { conn = refl; logs = refl }; miss = ground arith })
perform-miss at (status code) w = miss_write_header-miss at code w
perform-miss at (body chunk) w =
    let (w', run, recorded) = miss_write_header-miss at 200 w in
    (w', rw (run, perform) refl, recorded)
perform-miss at flush w =
    (w, refl, record { untouched = record { conn = refl; logs = refl }; miss = refl })

perform_all-miss :
    (at : ℕ) (cs : List Call) (w : World)
    → (w' : World) × (perform_all (miss at) cs w ≡ returned tt w')
      × Recorded at (miss_of (w.misses at) cs) w w'
unfolding perform_all
perform_all-miss at [] w =
    (w, refl, record { untouched = record { conn = refl; logs = refl }; miss = refl })
perform_all-miss at (c ∷ cs) w =
    let (w1, run1, r1) = perform-miss at c w in
    let (w2, run2, r2) = perform_all-miss at cs w1 in
    (
      w2,
      ap (λ o. continue o (λ _. perform_all (miss at) cs)) run1 ∙ run2,
      record {
        untouched = record {
          conn = r2.untouched.conn ∙ r1.untouched.conn;
          logs = r2.untouched.logs ∙ r1.untouched.logs;
        };
        miss = r2.miss ∙ ap (λ m. miss_of m cs) r1.miss;
      },
    )

abbrev pub no_miss : Miss
no_miss = record { header = []; status = 0 }

new_miss_lem :
    (w : World) → (w' : World) × (new_miss w ≡ returned w.next w') × Recorded w.next no_miss w w'
unfolding new_miss
new_miss_lem w =
    (_, refl, record { untouched = record { conn = refl; logs = refl }; miss = ground arith })

-- The outcome for the status and the Allow header that the dry run recorded: a redirect is served by
-- the mux's handler on the connection, a 405 by the handler for it, behind the Allow header where there
-- is one, and anything else by the not-found handler.
pub data IsAnswered (h not_found method_not_allowed : Handler) (wr : Writer) (r : Request)
    (w : World) : ℕ → Bytes → Outcome (Unit {0}) → Type 0 where
  redirected :
      (s : ℕ) (allow : Bytes)
      → (s ≡ 301) ⊎ (s ≡ 307) ⊎ (s ≡ 308)
      → IsAnswered h not_found method_not_allowed wr r w s allow (h wr r w)
  refused : IsAnswered h not_found method_not_allowed wr r w 405 [] (method_not_allowed wr r w)
  allowed :
      (allow : Bytes)
      → allow ≢ []
      → IsAnswered h not_found method_not_allowed wr r w 405 allow
          ((set_header wr (codes "Allow") allow >> method_not_allowed wr r) w)
  missed :
      (s : ℕ) (allow : Bytes)
      → s ≢ 301
      → s ≢ 307
      → s ≢ 308
      → s ≢ 405
      → IsAnswered h not_found method_not_allowed wr r w s allow (not_found wr r w)

is_redirect-cases : (s : ℕ) → is_redirect s ≡ true → (s ≡ 301) ⊎ (s ≡ 307) ⊎ (s ≡ 308)
is_redirect-cases s h = elim (Bool-cases (s == 301)) [
  | inl e ↦ inl (ground arith)
  | inr e ↦ elim (Bool-cases (s == 307)) [
    | inl e' ↦ inr (inl (ground arith))
    | inr e' ↦ inr (inr (ground arith))
  ]
]

refused-IsAnswered :
    (h not_found method_not_allowed : Handler) (wr : Writer) (r : Request) (w : World)
    (allow : Bytes)
    → IsAnswered h not_found method_not_allowed wr r w 405 allow (
        (when (not (is_empty allow)) (set_header wr (codes "Allow") allow)
            >> method_not_allowed wr r)
          w)
refused-IsAnswered h not_found method_not_allowed wr r w [] = IsAnswered.refused
refused-IsAnswered h not_found method_not_allowed wr r w (c ∷ s) =
    IsAnswered.allowed (c ∷ s) (λ e. cc)

answer_miss-IsAnswered :
    (h not_found method_not_allowed : Handler) (m : Miss) (wr : Writer) (r : Request) (w : World)
    → IsAnswered h not_found method_not_allowed wr r w m.status
        (Header.get m.header (codes "Allow"))
        (answer_miss h not_found method_not_allowed m wr r w)
unfolding answer_miss
answer_miss-IsAnswered h not_found method_not_allowed m wr r w =
    let allow = Header.get m.header (codes "Allow") in
    elim (Bool-cases (is_redirect m.status)) [
      | inl e ↦ rw e (IsAnswered.redirected m.status allow (is_redirect-cases m.status e))
      | inr e ↦ elim (Bool-cases (m.status == 405)) [
        | inl e' ↦
            let same : m.status ≡ 405 = ground arith in
            rw (e, e', same) (refused-IsAnswered h not_found method_not_allowed wr r w allow)
        | inr e' ↦
            rw (e, e')
              (IsAnswered.missed m.status allow (ground arith) (ground arith) (ground arith)
                (ground arith))
      ]
    ]

-- A request that no route takes, and for which the mux's own handler makes these calls on a fresh
-- `missRecorder`, is answered by what they record there: where the first status is a 301, 307 or 308
-- the mux's handler is run on the connection, a 405 goes to the method-not-allowed handler with the
-- Allow header that the calls leave set, and anything else goes to the not-found handler. The dry run
-- itself has put nothing on the connection and nothing in the logs.
pub serve_miss-answer :
    (cs : List Call) (h not_found method_not_allowed : Handler) (wr : Writer) (r : Request)
    (w : World)
    → ((at : ℕ) (w1 : World)
        → w1.misses at ≡ no_miss
        → h (miss at) r w1 ≡ perform_all (miss at) cs w1)
    → (w' : World) × Untouched w w'
      × IsAnswered h not_found method_not_allowed wr r w'
          (miss_of no_miss cs).status
          (Header.get (miss_of no_miss cs).header (codes "Allow"))
          (serve_miss h not_found method_not_allowed wr r w)
unfolding serve_miss load_miss
serve_miss-answer cs h not_found method_not_allowed wr r w calls =
    let (w1, run1, r1) = new_miss_lem w in
    let (w2, run2, r2) = perform_all-miss w.next cs w1 in
    let finish = λ (m : Miss). answer_miss h not_found method_not_allowed m wr r in
    let same : w2.misses w.next ≡ miss_of no_miss cs = r2.miss ∙ ap (λ m. miss_of m cs) r1.miss in
    let run : serve_miss h not_found method_not_allowed wr r w ≡ finish (miss_of no_miss cs) w2 =
      ap (λ o. continue o (λ at. h (miss at) r >> (load_miss at >>= finish))) run1
      ∙ ap (λ o. continue o (λ _. load_miss w.next >>= finish)) (calls w.next w1 r1.miss ∙ run2)
      ∙ ap (λ m. finish m w2) same in
    (
      w2,
      record {
        conn = r2.untouched.conn ∙ r1.untouched.conn;
        logs = r2.untouched.logs ∙ r1.untouched.logs;
      },
      subst
          (IsAnswered h not_found method_not_allowed wr r w2 (miss_of no_miss cs).status
            (Header.get (miss_of no_miss cs).header (codes "Allow")))
          (sym run)
          (answer_miss-IsAnswered h not_found method_not_allowed (miss_of no_miss cs) wr r w2),
    )
