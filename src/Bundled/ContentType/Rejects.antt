-- ===== src/Bundled/ContentType/Rejects.antt =====
-- middleware/contenttype.go: which requests `ContentType` lets through.
use go_web_sdk.Http.Header
use go_web_sdk.Problem.Written.{send_status-IsProblem, IsProblem}
use go_web_sdk.Http.Writer.{connection, recorder}
use go_web_sdk.Recorder.{Returns, Agrees}
use go_web_sdk.Http.World.{World}
use go_web_sdk.Http.Request.{Request}
use go_web_sdk.Http.Handler.{Handler}
use go_web_sdk.Middleware.{Middleware}
use go_web_sdk.Text.Laws.{bytes_eq_iff}
use go_web_sdk.Bundled.ContentType.{
  join, codes, Request, reject, err, Result, accepting, Middleware, content_type, refusal, ok, some,
  [], collect, bare_type,
}
use go_web_sdk.Text.{join, codes, bytes_eq, is_empty, Bytes, contains}
use go_web_sdk.Common.{
  ◌∙◌, ap, ℕ, panicked, err, Result, refl, sym, none, Bool, subst, inr, inl, Bool-cases, ◌⊎◌, arith,
  ◌↔◌, Any, true, ◌||◌, ok, some, [], false, ◌∷◌, ◌≡◌, if◌then◌else◌, ◌++◌, List, Option,
}

contains-snoc :
    (types : List Bytes) (mt t : Bytes)
    → contains (types ++ mt ∷ []) t ≡ (contains types t || bytes_eq mt t)
unfolding contains
contains-snoc [] mt t = ground arith
contains-snoc (a ∷ types) mt t = ground (arith, contains-snoc types mt t)

-- One round of the loop keeps the set of the types, with the new one.
kept_iff :
    (types : List Bytes) (mt t : Bytes)
    → (contains (if contains types mt then types else types ++ mt ∷ []) t ≡ true)
      ↔ ((contains types t ≡ true) ⊎ (mt ≡ t))
kept_iff types mt t = by_seen (contains types mt) refl
  where
    by_seen :
        (b : Bool)
        → contains types mt ≡ b
        → (contains (if b then types else types ++ mt ∷ []) t ≡ true)
          ↔ ((contains types t ≡ true) ⊎ (mt ≡ t))
    by_seen true e = (
      λ h. inl h,
      λ h. elim h [ inl k ↦ k | inr same ↦ subst (λ s. contains types s ≡ true) same e ],
    )
    by_seen false e =
        let grown = contains-snoc types mt t in
        let (forth, back) = bytes_eq_iff mt t in
        (
          λ h. elim (Bool-cases (contains types t)) [
            | inl k ↦ inl k
            | inr k ↦ inr (forth (ground (arith, grown)))
          ],
          λ h. elim h [
            | inl k ↦ ground (arith, grown)
            | inr same ↦ let k = back same in ground (arith, grown)
          ],
        )

module _ (parse_media_type : Bytes → Option (Bytes × List (Bytes × Bytes))) where
  -- The header's value is not empty and parses to the media type of one of the entries.
  abbrev pub IsAccepted : List Bytes → Bytes → Type 0
  IsAccepted allowed raw =
      (is_empty raw ≡ false)
      × (mt : Bytes) × (params : List (Bytes × Bytes)) × (parse_media_type raw ≡ some (mt, params))
      × Any (λ a. parse_media_type a ≡ some (mt, [])) allowed

  bare_type-eq-some :
      (a mt : Bytes) → bare_type parse_media_type a ≡ some mt → parse_media_type a ≡ some (mt, [])
  unfolding bare_type
  bare_type-eq-some a mt h = by_parse (parse_media_type a) refl
    where
      by_parse :
          (o : Option (Bytes × List (Bytes × Bytes))) → parse_media_type a ≡ o → o ≡ some (mt, [])
      by_parse none e = cc
      by_parse (some (m, [])) e = ground arith
      by_parse (some (m, p ∷ ps)) e = cc

  collect_iff {ℓ} :
      {E : Type ℓ} (allowed types collected : List Bytes) (t : Bytes)
      → collect parse_media_type {E = E} allowed types ≡ ok collected
      → (contains collected t ≡ true)
        ↔ ((contains types t ≡ true) ⊎ Any (λ a. parse_media_type a ≡ some (t, [])) allowed)
  unfolding collect
  collect_iff [] types collected t h =
      let same : types ≡ collected = cc in
      (
        λ k. inl (subst (λ ts. contains ts t ≡ true) (sym same) k),
        λ k. elim k [
          | inl k' ↦ subst (λ ts. contains ts t ≡ true) same k'
          | inr bad ↦ elim bad [ ]
        ],
      )
  collect_iff {E} (a ∷ allowed) types collected t h =
      by_entry (λ ts. collect_iff {E = E} allowed ts collected t) (bare_type parse_media_type a)
        refl
    where
      by_entry :
          ((ts : List Bytes)
            → collect parse_media_type {E = E} allowed ts ≡ ok collected
            → (contains collected t ≡ true)
              ↔ ((contains ts t ≡ true) ⊎ Any (λ a. parse_media_type a ≡ some (t, [])) allowed))
          → (o : Option Bytes) → bare_type parse_media_type a ≡ o
          → (contains collected t ≡ true) ↔ (
              (contains types t ≡ true)
              ⊎ Any (λ a. parse_media_type a ≡ some (t, [])) (a ∷ allowed))
      by_entry later none e = absurd (ground arith)
      by_entry later (some mt) e =
          let (forth, back) = later _ (rw (e, collect) at h) in
          let (keeps, kept) = kept_iff types mt t in
          let parsed = bare_type-eq-some a mt e in
          (
            λ k. elim (forth k) [
              | inl k' ↦ elim (keeps k') [
                | inl old ↦ inl old
                | inr same ↦ inr (inl (subst (λ s. parse_media_type a ≡ some (s, [])) same parsed))
              ]
              | inr rest ↦ inr (inr rest)
            ],
            λ k. elim k [
              | inl old ↦ back (inl (kept (inl old)))
              | inr (inl here) ↦ back (inl (kept (inr cc)))
              | inr (inr rest) ↦ back (inr rest)
            ],
          )

  listed {ℓ} :
      {E : Type ℓ} (allowed types : List Bytes)
      → collect parse_media_type {E = E} allowed [] ≡ ok types
      → (t : Bytes)
      → (contains types t ≡ true) ↔ Any (λ a. parse_media_type a ≡ some (t, [])) allowed
  unfolding contains
  listed {E} allowed types e t =
      let (forth, back) = collect_iff {E = E} allowed [] types t e in
      (
        λ h. elim (forth h) [ inl nothing ↦ absurd (ground arith) | inr any ↦ any ],
        λ any. back (inr any),
      )

  refusal_iff :
      (allowed types : List Bytes) (raw : Bytes)
      → ((t : Bytes)
          → (contains types t ≡ true) ↔ Any (λ a. parse_media_type a ≡ some (t, [])) allowed)
      → (refusal parse_media_type types raw ≡ none) ↔ IsAccepted allowed raw
  unfolding refusal
  refusal_iff allowed types [] listed = (λ h. absurd (ground arith), λ h. absurd (ground arith))
  refusal_iff allowed types (c ∷ raw) listed = by_parse (parse_media_type (c ∷ raw)) refl
    where
      by_parse :
          (o : Option (Bytes × List (Bytes × Bytes)))
          → parse_media_type (c ∷ raw) ≡ o
          → (refusal parse_media_type types (c ∷ raw) ≡ none) ↔ IsAccepted allowed (c ∷ raw)
      by_parse none e =
          (λ h. absurd (ground arith), λ (given, mt, params, k, any). absurd (ground arith))
      by_parse (some (mt, params)) e =
          let (forth, back) = listed mt in
          (
            λ h. (refl, mt, params, e, forth (ground arith)),
            λ (given, m, ps, k, any).
                let same : m ≡ mt = ground arith in
                let kept =
                  back
                    (subst (λ t. Any (λ a. parse_media_type a ≡ some (t, [])) allowed) same any) in
                ground arith,
          )

  content_type-eq-ok {ℓ} :
      {E : Type ℓ} (allowed : List Bytes) (mw : Middleware)
      → content_type parse_media_type {E = E} allowed ≡ ok mw
      → (types : List Bytes) × (collect parse_media_type {E = E} allowed [] ≡ ok types)
        × (mw ≡ accepting parse_media_type types)
  unfolding content_type
  content_type-eq-ok [] mw h = absurd (ground arith)
  content_type-eq-ok {E} (a ∷ allowed) mw h =
      by_types (collect parse_media_type {E = E} (a ∷ allowed) []) refl
    where
      by_types :
          (res : Result E (List Bytes))
          → collect parse_media_type {E = E} (a ∷ allowed) [] ≡ res
          → (types : List Bytes) × (res ≡ ok types) × (mw ≡ accepting parse_media_type types)
      by_types (ok types) e = (types, refl, ground arith)
      by_types (err failure) e = absurd (ground arith)
      by_types panicked e = absurd (ground arith)

  reject-IsProblem :
      (why accepted : Bytes) (r : Request) (at : ℕ) (w : World)
      → Agrees at none w
      → Returns (reject (recorder at connection) r why accepted w) (IsProblem 415)
  unfolding reject
  reject-IsProblem why accepted r at w h =
      send_status-IsProblem r at w 415 [] (why ++ (codes "; accepted: " ++ accepted)) h
        (omega arith) (omega arith)

  -- A content-type middleware that is made of some entries hands a request on untouched when its
  -- Content-Type is not empty and parses to the media type of one of them, and answers every other
  -- request with a 415 problem, without the handler. (For the answer: nothing is committed, and the
  -- writes do not fail.)
  pub content_type-Filters {ℓ} :
      {E : Type ℓ} (allowed : List Bytes) (mw : Middleware) (next : Handler) (r : Request) (at : ℕ)
      (w : World)
      → content_type parse_media_type {E = E} allowed ≡ ok mw
      → (IsAccepted allowed (Header.get r.header (codes "Content-Type"))
          → mw next (recorder at connection) r w ≡ next (recorder at connection) r w)
        × (¬ IsAccepted allowed (Header.get r.header (codes "Content-Type"))
            → Agrees at none w
            → Returns (mw next (recorder at connection) r w) (IsProblem 415))
  unfolding accepting
  content_type-Filters {E} allowed mw next r at w h =
      let (types, e, made) = content_type-eq-ok {E = E} allowed mw h in
      by_refusal types e made
        (refusal parse_media_type types (Header.get r.header (codes "Content-Type"))) refl
    where
      raw : Bytes
      raw = Header.get r.header (codes "Content-Type")

      by_refusal :
          (types : List Bytes)
          → collect parse_media_type {E = E} allowed [] ≡ ok types
          → mw ≡ accepting parse_media_type types
          → (o : Option Bytes) → refusal parse_media_type types raw ≡ o
          → (IsAccepted allowed raw
              → mw next (recorder at connection) r w ≡ next (recorder at connection) r w)
            × (¬ IsAccepted allowed raw
                → Agrees at none w
                → Returns (mw next (recorder at connection) r w) (IsProblem 415))
      by_refusal types e made none k = (
        λ h'. ap (λ m. m next (recorder at connection) r w) made ∙ rw (k, accepting) refl,
        λ not_accepted.
            absurd
              (not_accepted ((refusal_iff allowed types raw (listed {E = E} allowed types e)).0 k)),
      )
      by_refusal types e made (some why) k = (
        λ accepted.
            let shown =
              (refusal_iff allowed types raw (listed {E = E} allowed types e)).1 accepted in
            absurd (ground arith),
        λ _ fresh.
            subst (λ m. Returns (m next (recorder at connection) r w) (IsProblem 415)) (sym made)
              (rw (k, accepting) (reject-IsProblem why (join types (codes ", ")) r at w fresh)),
      )
