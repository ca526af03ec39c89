-- ===== src/Health/Probed.antt =====
-- health.go: what the loop over the checks finds, and the member that names them.
use go_web_sdk.Text.Laws.{bytes_eq_refl}
use go_web_sdk.Http.Json
use go_web_sdk.Http.Request.{request_id_from, Request}
use go_web_sdk.Problem.{request_id_member, Problem, for_request}
use go_web_sdk.Http.Json.{arr, end, bool, cons, member, nil, obj, Items, str, Json, Doc}
use go_web_sdk.Text.{bytes_eq, codes, Bytes}
use go_web_sdk.Health.{
  arr, end, bool, cons, member, nil, ready_body, results_items, obj, Items, str, results_json,
  Problem, with_checks, Json, codes, Bytes, is_ready, CheckResult, Check, probe,
}
use go_web_sdk.Http.World.{World}
use go_web_sdk.Common.{
  sym, Option, if◌then◌else◌, ◌∙◌, false, ap₂, refl, ◌&&◌, [], ◌↔◌, ap, true, ◌∷◌, ◌≡◌, All, Bool,
  List, none, some,
}

-- What a probe says of each check.
abbrev pub results_of : World → List Check → List CheckResult
results_of w [] = []
results_of w (c ∷ cs) = record { name = c.name; ready = is_ready w c } ∷ results_of w cs

-- The state of a checker when it is asked in this world: a nil one is not ready.
abbrev pub state_of : World → Option (World → Bool) → Bool
state_of w none = false
state_of w (some asked) = asked w

abbrev pub AreReady : World → List Check → Type 0
AreReady w = All (λ c. state_of w c.checker ≡ true)

-- The name and the state of each check, in order.
abbrev pub states : World → List Check → Items
states w [] = nil
states w (c ∷ cs) =
    cons
      (obj (
        member (codes "name") (str c.name)
          (member (codes "ready") (bool (state_of w c.checker)) end)))
      (states w cs)

-- The body of a ready answer.
abbrev pub ready_document : World → List Check → Json
ready_document w [] = obj (member (codes "status") (str (codes "ready")) end)
ready_document w (c ∷ cs) = obj (
    member (codes "status") (str (codes "ready"))
      (member (codes "checks") (arr (states w (c ∷ cs))) end))

is_ready_lem : (w : World) (c : Check) → is_ready w c ≡ state_of w c.checker
is_ready_lem w c = by_checker c.checker
  where
    by_checker :
        (o : Option (World → Bool))
        → (elim o [ none ↦ false | some asked ↦ asked w ]) ≡ state_of w o
    by_checker none = refl
    by_checker (some asked) = refl

pub results-states : (w : World) (cs : List Check) → results_items (results_of w cs) ≡ states w cs
results-states w [] = refl
results-states w (c ∷ cs) =
    ap₂
      (λ b items.
        cons (obj (member (codes "name") (str c.name) (member (codes "ready") (bool b) end))) items)
      (is_ready_lem w c) (results-states w cs)

pub ready_body-ready_document :
    (w : World) (cs : List Check) → ready_body (results_of w cs) ≡ ready_document w cs
ready_body-ready_document w [] = refl
ready_body-ready_document w (c ∷ cs) =
    ap
      (λ items.
        obj
          (member (codes "status") (str (codes "ready")) (member (codes "checks") (arr items) end)))
      (results-states w (c ∷ cs))

pub probe_results : (w : World) (b : Bool) (cs : List Check) → (probe w b cs).1 ≡ results_of w cs
unfolding probe
probe_results w b [] = refl
probe_results w b (c ∷ cs) =
    ap (λ rs. record { name = c.name; ready = is_ready w c } ∷ rs)
      (probe_results w (b && is_ready w c) cs)

and_true : (b d : Bool) → (b && d) ≡ true → (b ≡ true) × (d ≡ true)
and_true true true h = (refl, refl)
and_true true false h = cc
and_true false d h = cc

pub probe_verdict :
    (w : World) (b : Bool) (cs : List Check)
    → ((probe w b cs).0 ≡ true) ↔ ((b ≡ true) × AreReady w cs)
unfolding probe
probe_verdict w b [] = (λ h. (h, tt), λ h. h.0)
probe_verdict w b (c ∷ cs) =
    let (forth, back) = probe_verdict w (b && is_ready w c) cs in
    (
      λ h.
          let (now, later) = forth h in
          let (e, e') = and_true b (is_ready w c) now in (e, (sym (is_ready_lem w c) ∙ e', later)),
      λ (h, (now, later)). back (ap₂ (λ x y. x && y) h (is_ready_lem w c ∙ now), later),
    )

-- The member of a not-ready document that names the checks.
abbrev pub checks_member : Bytes
checks_member = codes "checks"

-- Some name's binding that is put last, behind at most one other name's.
find_last-put_other :
    (d : Doc) (j k : Bytes) (v w : Json)
    → bytes_eq j k ≡ false
    → Json.find_last (Json.put (Json.put d k v) j w) k ≡ some v
find_last-put_other d j k v w e =
    Json.find_last-put (Json.put d k v) j k w
    ∙ ap (λ b. if b then some w else Json.find_last (Json.put d k v) k) e
    ∙ Json.find_last-put d k k v
    ∙ ap (λ b. if b then some v else Json.find_last d k) (bytes_eq_refl k)

pub find_last-checks :
    (p : Problem) (rs : List CheckResult) (r : Request)
    → Json.find_last (for_request (with_checks p rs) r).extras checks_member
      ≡ some (results_json rs)
unfolding for_request with_checks bytes_eq
find_last-checks p rs r = by_id (request_id_from r.context) refl
  where
    v : Json
    v = results_json rs

    base : Doc
    base = Json.copy [] p.extras

    plain : Json.find_last (Json.put base checks_member v) checks_member ≡ some v
    plain =
        Json.find_last-put base checks_member checks_member v
        ∙ ap (λ b. if b then some v else Json.find_last base checks_member)
            (bytes_eq_refl checks_member)

    by_id :
        (o : Option Bytes)
        → request_id_from r.context ≡ o
        → Json.find_last (for_request (with_checks p rs) r).extras checks_member ≡ some v
    by_id none e = rw (e, for_request) plain
    by_id (some []) e = rw (e, for_request) plain
    by_id (some (c ∷ id)) e =
        rw (e, for_request)
          (find_last-put_other base request_id_member checks_member v (str (c ∷ id)) refl)
