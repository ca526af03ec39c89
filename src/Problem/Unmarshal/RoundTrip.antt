-- ===== src/Problem/Unmarshal/RoundTrip.antt =====
-- problem.go: a problem that is marshaled and read back.
use go_web_sdk.Problem.Document.{marshal_merged, marshal_plain}
use go_web_sdk.Text.Laws.{bytes_eq_iff}
use go_web_sdk.Text.Int.{max_int}
use go_web_sdk.Problem.Unmarshal.Fields.{
  read_members-dropped, read_members-copy, drop_status, read_members-append, drop_status-copy,
  put_status, read_members-members, plain_ne, plain_fields, HasPlainKeys,
}
use go_web_sdk.Text.{has_prefix, codes, bytes_eq, Bytes}
use go_web_sdk.Problem.{codes, with_only_status, marshal, Bytes, Problem, members}
use go_web_sdk.Problem.Unmarshal.{
  standard, has_prefix, folds_to, fold_from, read_member, bytes_eq, read_members, max_int,
  is_standard, strip,
}
use go_web_sdk.Http.Json.{num, Json, Doc}
use go_web_sdk.Http.Json
use go_web_sdk.Problem.Unmarshal.{unmarshal, read_members, then_read}
use go_web_sdk.Common.{
  ◌++◌, if◌then◌else◌, leb, inr, All, sym, subst, inl, Bool-cases, ap, Option, refl, arith, ◌∙◌,
  true, false, ◌≡◌, ◌≤◌, [], ◌∷◌, none, some, ℕ,
}

find-strip_plain :
    (d : Doc) (k : Bytes) → is_standard k ≡ false → Json.find (strip d) k ≡ Json.find d k
unfolding strip Json.find
find-strip_plain [] k h = refl
find-strip_plain ((j, v) ∷ d) k h = ground (arith, find-strip_plain d k h, bytes_eq_iff j k)

find-strip_standard : (d : Doc) (k : Bytes) → is_standard k ≡ true → Json.find (strip d) k ≡ none
unfolding strip Json.find
find-strip_standard [] k h = refl
find-strip_standard ((j, v) ∷ d) k h = ground (arith, find-strip_standard d k h, bytes_eq_iff j k)

find_last-plain :
    (d : Doc) (k : Bytes) → HasPlainKeys d → is_standard k ≡ true → Json.find_last d k ≡ none
unfolding Json.find_last
find_last-plain [] k h e = refl
find_last-plain ((j, v) ∷ d) k (h, hs) e =
    ground (arith, find_last-plain d k hs e, plain_ne j k h e)

find_last-copy :
    (dst src : Doc) (k : Bytes)
    → Json.find_last (Json.copy dst src) k
      ≡ elim (Json.find_last src k) [ some w ↦ some w | none ↦ Json.find_last dst k ]
unfolding Json.copy Json.find_last
find_last-copy dst [] k = refl
find_last-copy dst ((j, v) ∷ src) k =
    find_last-copy (Json.put dst j v) src k ∙ ground (arith, Json.find_last-put dst j k v)

standard_ne :
    (name k : Bytes) → is_standard name ≡ true → is_standard k ≡ false → bytes_eq name k ≡ false
standard_ne name k e h = elim (Bool-cases (bytes_eq name k)) [
  | inl t ↦
      let same : is_standard k ≡ true =
        subst (λ i. is_standard i ≡ true) ((bytes_eq_iff name k).0 t) e in
      cc
  | inr f ↦ f
]

are_standard : All (λ name. is_standard name ≡ true) standard
unfolding is_standard bytes_eq fold_from has_prefix
are_standard = (refl, (refl, (refl, (refl, (refl, tt)))))

find_last-members :
    (p : Problem) (k : Bytes) → is_standard k ≡ false → Json.find_last (members p) k ≡ none
unfolding Json.find_last members
find_last-members p k h = ground (
  arith,
  standard_ne (codes "type") k are_standard.0 h,
  standard_ne (codes "title") k are_standard.1.0 h,
  standard_ne (codes "status") k are_standard.1.1.0 h,
  standard_ne (codes "detail") k are_standard.1.1.1.0 h,
  standard_ne (codes "instance") k are_standard.1.1.1.1.0 h,
)

abbrev or_last : Option Json → Option Json → Option Json
or_last last before = elim last [ some w ↦ some w | none ↦ before ]

or_last-none : (o : Option Json) → or_last o none ≡ o
or_last-none none = refl
or_last-none (some v) = refl

find_last-marshal :
    (p : Problem) (k : Bytes)
    → is_standard k ≡ false
    → Json.find_last (marshal p) k ≡ Json.find_last p.extras k
unfolding Json.find_last
find_last-marshal p k h = by_extras p.extras refl
  where
    by_extras : (d : Doc) → p.extras ≡ d → Json.find_last (marshal p) k ≡ Json.find_last p.extras k
    by_extras [] e =
        ap (λ d. Json.find_last d k) (marshal_plain p e)
        ∙ find_last-members p k h
        ∙ ap (λ d. Json.find_last d k) (sym e)
    by_extras (x ∷ d) e =
        ap (λ d. Json.find_last d k) (marshal_merged p x d e)
        ∙ Json.find_last-put (Json.copy (members p) p.extras) (codes "status") k (num p.status)
        ∙ ap
            (λ b.
              if b then some (num p.status) else Json.find_last (Json.copy (members p) p.extras) k)
            (standard_ne (codes "status") k are_standard.1.1.0 h)
        ∙ find_last-copy (members p) p.extras k
        ∙ ap (λ o. or_last (Json.find_last p.extras k) o) (find_last-members p k h)
        ∙ or_last-none (Json.find_last p.extras k)

read_members-status :
    (p : Problem) (status : ℕ)
    → status ≤ max_int
    → read_members ((codes "status", num status) ∷ []) p ≡ some (record p { status = status })
unfolding read_members read_member folds_to fold_from bytes_eq has_prefix
read_members-status p status h =
    let small : leb status max_int ≡ true = ground arith in rw small refl

read_members-marshal :
    (p : Problem)
    → p.status ≤ max_int
    → HasPlainKeys p.extras
    → read_members (marshal p) (with_only_status 0) ≡ some (plain_fields p p.status)
read_members-marshal p h plain = by_extras p.extras refl
  where
    by_extras :
        (d : Doc)
        → p.extras ≡ d
        → read_members (marshal p) (with_only_status 0) ≡ some (plain_fields p p.status)
    by_extras [] e =
        ap (λ d. read_members d (with_only_status 0)) (marshal_plain p e) ∙ read_members-members p h
    by_extras (x ∷ d) e =
        ap (λ d. read_members d (with_only_status 0))
          (marshal_merged p x d e
            ∙ put_status (Json.copy (members p) p.extras) (num p.status)
            ∙ ap (λ d. d ++ (codes "status", num p.status) ∷ [])
                (drop_status-copy (members p) p.extras plain))
        ∙ read_members-append (Json.copy (drop_status (members p)) p.extras)
            ((codes "status", num p.status) ∷ []) (with_only_status 0)
        ∙ ap (λ o. then_read o (λ q. read_members ((codes "status", num p.status) ∷ []) q))
            (read_members-copy (drop_status (members p)) p.extras (with_only_status 0) plain
              ∙ read_members-dropped p)
        ∙ read_members-status (plain_fields p 0) p.status h

-- A problem that is marshaled reads back as itself: the five standard members, and of the extras each
-- key's last value and no other key. (The status fits an int, and no extra's name is a standard one, in
-- whatever case.)
pub unmarshal-marshal :
    (p : Problem)
    → p.status ≤ max_int
    → HasPlainKeys p.extras
    → (q : Problem) × (unmarshal (marshal p) ≡ some q)
      × (record q { extras = [] } ≡ record p { extras = [] })
      × ((k : Bytes) → Json.find q.extras k ≡ Json.find_last p.extras k)
unfolding unmarshal Json.find
unmarshal-marshal p h plain = (
  record p { extras = strip (Json.copy [] (marshal p)) },
  rw (read_members-marshal p h plain) refl,
  refl,
  λ k. elim (Bool-cases (is_standard k)) [
    | inl e ↦
        find-strip_standard (Json.copy [] (marshal p)) k e
        ∙ sym (find_last-plain p.extras k plain e)
    | inr e ↦
        find-strip_plain (Json.copy [] (marshal p)) k e
        ∙ Json.find-copy [] (marshal p) k
        ∙ ap (λ o. or_last o none) (find_last-marshal p k e)
        ∙ or_last-none (Json.find_last p.extras k)
  ],
)
