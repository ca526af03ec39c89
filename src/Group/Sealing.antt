-- ===== src/Group/Sealing.antt =====
-- module.go: what `compile` seals.
use go_web_sdk.Routing.Router.{Module}
use go_web_sdk.Middleware.{Middleware}
use go_web_sdk.Text.{Bytes}
use go_web_sdk.Routing.Mux.{MuxApi}
use go_web_sdk.Group.{
  Group, Module, compile_routes, Middleware, Bytes, compile, put_group, each, Groups,
}
use go_web_sdk.Common.{
  refl, ◌++◌, ◌⊎◌, [], inr, zero, sym, suc, subst, inl, Option, >>=-eq-ok, arith, ◌∷◌, Result, true,
  ◌≡◌, Any, List, ℕ, ok,
}

-- The group `i` is the group `at` or nested under it, by the children of each.
pub data Under (kids : ℕ → List ℕ) : ℕ → ℕ → Type 0 where
  root : (at : ℕ) → Under kids at at
  below : (at c i : ℕ) → Any (λ d. d ≡ c) (kids at) → Under kids c i → Under kids at i

-- The group `i` is one of the groups `cs` or nested under one.
abbrev UnderAny : (ℕ → List ℕ) → List ℕ → ℕ → Type 0
UnderAny kids cs i = (c : ℕ) × Any (λ d. d ≡ c) cs × Under kids c i

Under-cases :
    (kids : ℕ → List ℕ) (at i : ℕ) → Under kids at i → (at ≡ i) ⊎ UnderAny kids (kids at) i
Under-cases kids _ _ (root at) = inl refl
Under-cases kids _ _ (below at c i m u) = inr (c, m, u)

-- The step keeps every group's children, opens no group, and seals those that satisfy `P`.
pub record Seals (kids : ℕ → List ℕ) (P : ℕ → Type 0) (gs gs' : Groups) : Type 0 where
  pub keeps : (i : ℕ) → (gs' i).groups ≡ kids i
  pub closed : (i : ℕ) → (gs i).sealed ≡ true → (gs' i).sealed ≡ true
  pub seals : (i : ℕ) → P i → (gs' i).sealed ≡ true

each-Seals :
    {S : Type 0} (kids : ℕ → List ℕ) (visit : ℕ → S × Groups → Result (Unit {0}) (S × Groups))
    (cs : List ℕ) (s s' : S × Groups)
    → ((c : ℕ) (s s' : S × Groups)
        → ((i : ℕ) → (s.1 i).groups ≡ kids i)
        → visit c s ≡ ok s'
        → Seals kids (Under kids c) s.1 s'.1)
    → ((i : ℕ) → (s.1 i).groups ≡ kids i)
    → each visit cs s ≡ ok s'
    → Seals kids (UnderAny kids cs) s.1 s'.1
unfolding each
each-Seals kids visit [] s s' step h e =
    let same : s ≡ s' = cc in
    subst (λ x. Seals kids (UnderAny kids []) s.1 x.1) same
      (record { keeps = h; closed = λ i k. k; seals = λ i (c, m, u). elim m [ ] })
each-Seals kids visit (c ∷ cs) s s' step h e =
    let (s1, e1, e2) = >>=-eq-ok (visit c s) (each visit cs) e in
    let first = step c s s1 h e1 in
    let rest = each-Seals kids visit cs s1 s' step first.keeps e2 in
    record {
      keeps = rest.keeps;
      closed = λ i k. rest.closed i (first.closed i k);
      seals = λ i (d, m, u). elim m [
        | inl same ↦ rest.closed i (first.seals i (subst (λ x. Under kids x i) (sym same) u))
        | inr later ↦ rest.seals i (d, later, u)
      ];
    }

pub seal-HasKids :
    (kids : ℕ → List ℕ) (gs : Groups) (at : ℕ)
    → ((i : ℕ) → (gs i).groups ≡ kids i)
    → (i : ℕ) → (put_group at (record (gs at) { sealed = true }) gs i).groups ≡ kids i
unfolding put_group
seal-HasKids kids gs at h i = ground (arith, h i, h at)

seal-closed :
    (gs : Groups) (at i : ℕ)
    → (gs i).sealed ≡ true
    → (put_group at (record (gs at) { sealed = true }) gs i).sealed ≡ true
unfolding put_group
seal-closed gs at i h = ground arith

seal-sealed :
    (gs : Groups) (at : ℕ) → (put_group at (record (gs at) { sealed = true }) gs at).sealed ≡ true
unfolding put_group
seal-sealed gs at = ground arith

module _ (api : MuxApi) (kids : ℕ → List ℕ) where
  open api use {ServeMux}

  pub compile-Seals :
      (depth : ℕ) (parent : Bytes) (outer : List (Option Middleware)) (at : ℕ)
      (s s' : ServeMux × Groups)
      → ((i : ℕ) → (s.1 i).groups ≡ kids i)
      → compile api depth parent outer at s ≡ ok s'
      → Seals kids (Under kids at) s.1 s'.1
  unfolding compile
  compile-Seals zero parent outer at s s' h e = cc
  compile-Seals (suc depth) parent outer at (mux, gs) s' h e =
      let inner = compile api depth (parent ++ (gs at).prefix) (outer ++ (gs at).middleware) in
      let shut = put_group at (record (gs at) { sealed = true }) gs in
      let (mux', e1, e2) =
        >>=-eq-ok (compile_routes api parent outer (gs at) mux)
          (λ mux'. each inner (gs at).groups (mux', shut)) e in
      let body =
        each-Seals kids inner (gs at).groups (mux', shut) s'
          (λ c t t' k e'.
            compile-Seals depth (parent ++ (gs at).prefix) (outer ++ (gs at).middleware) c t t' k
              e')
          (seal-HasKids kids gs at h) e2 in
      record {
        keeps = body.keeps;
        closed = λ i k. body.closed i (seal-closed gs at i k);
        seals = λ i u. elim (Under-cases kids at i u) [
          | inl same ↦ subst (λ j. (s'.1 j).sealed ≡ true) same (body.closed at (seal-sealed gs at))
          | inr (c, m, v) ↦ body.seals i (c, subst (λ l. Any (λ d. d ≡ c) l) (sym (h at)) m, v)
        ];
      }
