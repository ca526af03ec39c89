-- ===== src/Problem/Unmarshal/Fields.antt =====
-- problem.go: the fields that `UnmarshalJSON` reads of a marshaled problem.
use go_web_sdk.Text.Int.{max_int}
use go_web_sdk.Text.Laws.{bytes_eq_iff}
use go_web_sdk.Problem.{with_only_status, members, codes, Problem}
use go_web_sdk.Text.{has_prefix, codes, bytes_eq, Bytes}
use go_web_sdk.Problem.Unmarshal.{
  max_int, folds_to, has_prefix, fold_from, then_read, bytes_eq, Bytes, is_standard, read_members,
  read_member,
}
use go_web_sdk.Http.Json.{Json, Doc}
use go_web_sdk.Common.{
  leb, ◌≤◌, true, none, Option, ap, inr, sym, subst, refl, inl, ◌++◌, if◌then◌else◌, ◌∙◌,
  Bool-cases, arith, some, false, ◌≡◌, All, ℕ,
}
use go_web_sdk.Http.Json
use go_web_sdk.Common.{[], ◌∷◌}

abbrev pub HasPlainKeys : Doc → Type 0
HasPlainKeys = All (λ e. is_standard e.0 ≡ false)

-- A member that is not a standard one changes nothing.
read_member-plain :
    (k : Bytes) (v : Json) (p : Problem) → is_standard k ≡ false → read_member k v p ≡ some p
unfolding read_member is_standard
read_member-plain k v p h = ground arith

then_read_ap :
    (o : Option Problem) (f g : Problem → Option Problem)
    → ((q : Problem) → f q ≡ g q)
    → then_read o f ≡ then_read o g
then_read_ap none f g h = refl
then_read_ap (some q) f g h = h q

then_read_assoc :
    (o : Option Problem) (f g : Problem → Option Problem)
    → then_read (then_read o f) g ≡ then_read o (λ q. then_read (f q) g)
then_read_assoc none f g = refl
then_read_assoc (some q) f g = refl

read_members-put :
    (d : Doc) (k : Bytes) (v : Json) (p : Problem)
    → is_standard k ≡ false
    → read_members (Json.put d k v) p ≡ read_members d p
unfolding read_members Json.put
read_members-put [] k v p h = rw (read_member-plain k v p h) refl
read_members-put ((j, w) ∷ d) k v p h = elim (Bool-cases (bytes_eq j k)) [
  | inl e ↦
      let same : is_standard j ≡ false =
        subst (λ i. is_standard i ≡ false) (sym ((bytes_eq_iff j k).0 e)) h in
      rw (e, read_member-plain j w p same) (read_members-put d k v p h)
  | inr e ↦
      rw e
        (then_read_ap (read_member j w p) _ (λ q. read_members d q) λ q. read_members-put d k v q h)
]

pub read_members-copy :
    (d src : Doc) (p : Problem)
    → HasPlainKeys src
    → read_members (Json.copy d src) p ≡ read_members d p
unfolding Json.copy
read_members-copy d [] p h = refl
read_members-copy d ((k, v) ∷ src) p (h, hs) =
    read_members-copy (Json.put d k v) src p hs ∙ read_members-put d k v p h

-- The document without its status.
abbrev pub drop_status : Doc → Doc
drop_status [] = []
drop_status ((k, v) ∷ d) =
    if bytes_eq k (codes "status") then drop_status d else (k, v) ∷ drop_status d

pub plain_ne :
    (k name : Bytes) → is_standard k ≡ false → is_standard name ≡ true → bytes_eq k name ≡ false
plain_ne k name h e = elim (Bool-cases (bytes_eq k name)) [
  | inl t ↦
      let same : is_standard k ≡ true =
        subst (λ i. is_standard i ≡ true) (sym ((bytes_eq_iff k name).0 t)) e in
      cc
  | inr f ↦ f
]

status_standard : is_standard (codes "status") ≡ true
unfolding is_standard bytes_eq fold_from has_prefix
status_standard = refl

drop_status-put :
    (d : Doc) (k : Bytes) (v : Json)
    → is_standard k ≡ false
    → drop_status (Json.put d k v) ≡ Json.put (drop_status d) k v
unfolding Json.put is_standard bytes_eq
drop_status-put [] k v h = let e = plain_ne k (codes "status") h status_standard in rw e refl
drop_status-put ((j, w) ∷ d) k v h =
    let e = plain_ne k (codes "status") h status_standard in
    ground (
      arith,
      drop_status-put d k v h,
      bytes_eq_iff j k,
      bytes_eq_iff j (codes "status"),
      bytes_eq_iff k (codes "status"),
    )

pub put_status :
    (d : Doc) (v : Json) → Json.put d (codes "status") v ≡ drop_status d ++ (codes "status", v) ∷ []
unfolding Json.put
put_status [] v = refl
put_status ((j, w) ∷ d) v = ground (arith, put_status d v)

pub read_members-append :
    (d e : Doc) (p : Problem)
    → read_members (d ++ e) p ≡ then_read (read_members d p) (λ q. read_members e q)
unfolding read_members
read_members-append [] e p = refl
read_members-append ((k, v) ∷ d) e p =
    then_read_ap (read_member k v p) _ _ (λ q. read_members-append d e q)
    ∙ sym (then_read_assoc (read_member k v p) (λ q. read_members d q) (λ q. read_members e q))

pub drop_status-copy :
    (d src : Doc) → HasPlainKeys src → drop_status (Json.copy d src) ≡ Json.copy (drop_status d) src
unfolding Json.copy
drop_status-copy d [] h = refl
drop_status-copy d ((k, v) ∷ src) (h, hs) =
    drop_status-copy (Json.put d k v) src hs ∙ ap (λ e. Json.copy e src) (drop_status-put d k v h)

-- The problem's own fields, under some status.
abbrev pub plain_fields : Problem → ℕ → Problem
plain_fields p status = record p { status = status; extras = [] }

pub read_members-members :
    (p : Problem)
    → p.status ≤ max_int
    → read_members (members p) (with_only_status 0) ≡ some (plain_fields p p.status)
unfolding read_members read_member members folds_to fold_from bytes_eq has_prefix
read_members-members p h = by_texts p.title p.detail p.instance_path
  where
    small : leb p.status max_int ≡ true
    small = ground arith

    by_texts :
        (title detail instance_path : Bytes)
        → read_members
            (members (record p { title = title; detail = detail; instance_path = instance_path }))
            (with_only_status 0)
          ≡ some (record p {
            title = title;
            detail = detail;
            instance_path = instance_path;
            extras = [];
          })
    by_texts [] [] [] = rw small refl
    by_texts [] [] (i ∷ is) = rw small refl
    by_texts [] (d ∷ ds) [] = rw small refl
    by_texts [] (d ∷ ds) (i ∷ is) = rw small refl
    by_texts (t ∷ ts) [] [] = rw small refl
    by_texts (t ∷ ts) [] (i ∷ is) = rw small refl
    by_texts (t ∷ ts) (d ∷ ds) [] = rw small refl
    by_texts (t ∷ ts) (d ∷ ds) (i ∷ is) = rw small refl

pub read_members-dropped :
    (p : Problem)
    → read_members (drop_status (members p)) (with_only_status 0) ≡ some (plain_fields p 0)
unfolding read_members read_member members folds_to fold_from bytes_eq has_prefix
read_members-dropped p = by_texts p.title p.detail p.instance_path
  where
    by_texts :
        (title detail instance_path : Bytes)
        → read_members
            (drop_status (
              members (record p { title = title; detail = detail; instance_path = instance_path })))
            (with_only_status 0)
          ≡ some (record p {
            title = title;
            detail = detail;
            instance_path = instance_path;
            status = 0;
            extras = [];
          })
    by_texts [] [] [] = refl
    by_texts [] [] (i ∷ is) = refl
    by_texts [] (d ∷ ds) [] = refl
    by_texts [] (d ∷ ds) (i ∷ is) = refl
    by_texts (t ∷ ts) [] [] = refl
    by_texts (t ∷ ts) [] (i ∷ is) = refl
    by_texts (t ∷ ts) (d ∷ ds) [] = refl
    by_texts (t ∷ ts) (d ∷ ds) (i ∷ is) = refl
