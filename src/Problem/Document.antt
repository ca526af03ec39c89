-- ===== src/Problem/Document.antt =====
-- The members of a marshaled problem, and of the problem sent for a request.
use go_web_sdk.Http.Request.{request_id_from, Request}
use go_web_sdk.Text.Laws.{bytes_eq_iff}
use go_web_sdk.Http.Json.{str, num, Json, Doc}
use go_web_sdk.Text.{codes, Bytes, bytes_eq}
use go_web_sdk.Common.{
  refl, none, sym, [], ap, ◌∙◌, ◌∷◌, inr, if◌then◌else◌, inl, Bool-cases, some, Option, arith, ◌≡◌,
  ◌≢◌,
}
use go_web_sdk.Problem.{
  request_id_member, Request, codes, Bytes, Problem, marshal, members, for_request,
}
use go_web_sdk.Http.Json

find_status-members : (p : Problem) → Json.find (members p) (codes "status") ≡ some (num p.status)
unfolding members Json.find bytes_eq
find_status-members p = ground arith

-- A member of the document: the status, else the last extra of that name, else the standard member.
abbrev pub member_of : Problem → Bytes → Option Json
member_of p k =
    if bytes_eq (codes "status") k
    then some (num p.status)
    else elim (Json.find_last p.extras k) [ some v ↦ some v | none ↦ Json.find (members p) k ]

pub marshal_plain : (p : Problem) → p.extras ≡ [] → marshal p ≡ members p
unfolding marshal
marshal_plain p e = rw e

pub marshal_merged :
    (p : Problem) (x : Bytes × Json) (d : Doc)
    → p.extras ≡ x ∷ d
    → marshal p ≡ Json.put (Json.copy (members p) p.extras) (codes "status") (num p.status)
unfolding marshal
marshal_merged p x d e = rw e

member_of_plain :
    (p : Problem) (k : Bytes) → p.extras ≡ [] → Json.find (members p) k ≡ member_of p k
unfolding Json.find_last
member_of_plain p k e = elim (Bool-cases (bytes_eq (codes "status") k)) [
  | inl t ↦
      let same : codes "status" ≡ k = (bytes_eq_iff _ _).0 t in
      ap (Json.find (members p)) (sym same)
      ∙ find_status-members p
      ∙ ap
          (λ b. if b then some (num p.status) else elim (Json.find_last p.extras k) [
            | some v ↦ some v
            | none ↦ Json.find (members p) k
          ])
          (sym t)
  | inr f ↦
      ap (λ d. elim (Json.find_last d k) [ some v ↦ some v | none ↦ Json.find (members p) k ])
        (sym e)
      ∙ ap
          (λ b. if b then some (num p.status) else elim (Json.find_last p.extras k) [
            | some v ↦ some v
            | none ↦ Json.find (members p) k
          ])
          (sym f)
]

-- Every member of a marshaled problem, whatever the name: "status" is always Status, any other name
-- is the extra of that name where there is one, and the standard member otherwise.
pub find-marshal : (p : Problem) (k : Bytes) → Json.find (marshal p) k ≡ member_of p k
find-marshal p k = by_extras p.extras refl
  where
    by_extras : (d : Doc) → p.extras ≡ d → Json.find (marshal p) k ≡ member_of p k
    by_extras [] e = ap (λ d. Json.find d k) (marshal_plain p e) ∙ member_of_plain p k e
    by_extras (x ∷ d) e =
        ap (λ d. Json.find d k) (marshal_merged p x d e)
        ∙ Json.find-put (Json.copy (members p) p.extras) (codes "status") k (num p.status)
        ∙ ap (λ o. if bytes_eq (codes "status") k then some (num p.status) else o)
            (Json.find-copy (members p) p.extras k)

abbrev or_member : Doc → Problem → Option Json
or_member d p = elim (Json.find_last d request_id_member) [
  | some v ↦ some v
  | none ↦ Json.find (members p) request_id_member
]

extras-for_request :
    (p : Problem) (r : Request) (id : Bytes)
    → request_id_from r.context ≡ some id
    → id ≢ []
    → (for_request p r).extras ≡ Json.put p.extras request_id_member (str id)
unfolding for_request
extras-for_request p r [] e ne = absurd (ne refl)
extras-for_request p r (c ∷ id) e ne = rw (e, for_request)

-- The document sent for a request that carries a correlation id has it as "request_id", whatever
-- the problem's own extras say.
pub find-request_id :
    (p : Problem) (r : Request) (id : Bytes)
    → request_id_from r.context ≡ some id
    → id ≢ []
    → Json.find (marshal (for_request p r)) request_id_member ≡ some (str id)
unfolding bytes_eq
find-request_id p r id e ne =
    find-marshal (for_request p r) request_id_member
    ∙ ap (λ d. or_member d (for_request p r)) (extras-for_request p r id e ne)
    ∙ ap
        (λ o. elim o [
          | some v ↦ some v
          | none ↦ Json.find (members (for_request p r)) request_id_member
        ])
        (Json.find_last-put p.extras request_id_member request_id_member (str id))
