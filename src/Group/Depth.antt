-- ===== src/Group/Depth.antt =====
-- module.go: how deep `compile` calls itself.
use go_web_sdk.Group.Sealing.{seal-HasKids, compile-Seals}
use go_web_sdk.Middleware.{Middleware}
use go_web_sdk.Text.{is_empty, Bytes}
use go_web_sdk.Routing.Mux.{MuxApi}
use go_web_sdk.Group.{
  register_routes, put_group, is_set, is_empty, new_module, compile, each, Group, Middleware, Bytes,
  MuxApi, Groups, compile_routes,
}
use go_web_sdk.Common.{
  zero, sym, Option-cases, inr, subst, inl, ◌||◌, true, ◌++◌, ◌&&◌, suc, [], arith, ◌∷◌, not,
  Bool-cases, Option, List, ◌<◌, refl, All, ◌≡◌, Result, ℕ, ok, err, panicked, ◌>>=◌,
}

-- Children rank below their parents, so that no group is nested under itself.
abbrev pub IsRanked : (ℕ → ℕ) → Groups → Type 0
IsRanked rank gs = (i : ℕ) → All (λ c. rank c < rank i) (gs i).groups

-- The call ends: it returns or panics.
abbrev pub Ends {ℓ κ} : {E : Type ℓ} {A : Type κ} → Result E A → Type 0
Ends (ok a) = Unit
Ends (err e) = ⊥
Ends panicked = Unit

Ends-bind {ℓ κ} :
    {A : Type ℓ} {B : Type κ} (m : Result (Unit {0}) A) (f : A → Result (Unit {0}) B)
    → Ends m
    → ((a : A) → m ≡ ok a → Ends (f a))
    → Ends (m >>= f)
Ends-bind (ok a) f h k = k a refl
Ends-bind (err e) f h k = absurd h
Ends-bind panicked f h k = tt

compile_routes-Ends :
    (api : MuxApi) (parent : Bytes) (outer : List (Option Middleware)) (g : Group)
    (mux : api.ServeMux)
    → Ends (compile_routes api parent outer g mux)
unfolding compile_routes
compile_routes-Ends api parent outer g mux =
    elim (Bool-cases
      (not (is_empty parent) && (is_set g.not_found || is_set g.method_not_allowed))) [
        | inl e ↦ rw e tt
        | inr e ↦
            elim (Option-cases
              (register_routes api (parent ++ g.prefix) (outer ++ g.middleware) g.routes mux)) [
                | inl e' ↦ rw (e, e') tt
                | inr (mux', e') ↦ rw (e, e') tt
              ]
      ]

each-Ends :
    {S : Type 0} (kids : ℕ → List ℕ) (P : ℕ → Type 0)
    (visit : ℕ → S × Groups → Result (Unit {0}) (S × Groups)) (cs : List ℕ) (s : S × Groups)
    → ((c : ℕ) (s s' : S × Groups)
        → ((i : ℕ) → (s.1 i).groups ≡ kids i)
        → visit c s ≡ ok s'
        → (i : ℕ) → (s'.1 i).groups ≡ kids i)
    → ((c : ℕ) (s : S × Groups) → ((i : ℕ) → (s.1 i).groups ≡ kids i) → P c → Ends (visit c s))
    → All P cs
    → ((i : ℕ) → (s.1 i).groups ≡ kids i)
    → Ends (each visit cs s)
unfolding each
each-Ends kids P visit [] s keeps ends ps h = tt
each-Ends kids P visit (c ∷ cs) s keeps ends (p, ps) h =
    Ends-bind (visit c s) (each visit cs) (ends c s h p)
      λ s' e. each-Ends kids P visit cs s' keeps ends ps (keeps c s s' h e)

module _ (api : MuxApi) (rank : ℕ → ℕ) (kids : ℕ → List ℕ) where
  open api use {ServeMux}

  compile-Ends :
      (depth : ℕ) (parent : Bytes) (outer : List (Option Middleware)) (at : ℕ)
      (s : ServeMux × Groups)
      → ((i : ℕ) → All (λ c. rank c < rank i) (kids i))
      → rank at < depth
      → ((i : ℕ) → (s.1 i).groups ≡ kids i)
      → Ends (compile api depth parent outer at s)
  unfolding compile
  compile-Ends zero parent outer at s ranked low h = absurd (omega (arith, low))
  compile-Ends (suc depth) parent outer at (mux, gs) ranked low h =
      let inner = compile api depth (parent ++ (gs at).prefix) (outer ++ (gs at).middleware) in
      let shut = put_group at (record (gs at) { sealed = true }) gs in
      Ends-bind (compile_routes api parent outer (gs at) mux)
        (λ mux'. each inner (gs at).groups (mux', shut))
        (compile_routes-Ends api parent outer (gs at) mux)
        λ mux' _.
          each-Ends kids (λ c. rank c < rank at) inner (gs at).groups (mux', shut)
            (λ c t t' k e.
              (compile-Seals api kids depth (parent ++ (gs at).prefix) (outer ++ (gs at).middleware)
                c t t' k e).keeps)
            (λ c t k p.
              compile-Ends depth (parent ++ (gs at).prefix) (outer ++ (gs at).middleware) c t ranked
                (omega (arith, low, p)) k)
            (subst (λ l. All (λ c. rank c < rank at) l) (sym (h at)) (ranked at))
            (seal-HasKids kids gs at h)

-- Making a module of a group ends, by a return or by one of the documented panics, where children rank
-- below their parents and the depth exceeds the root's rank.
pub new_module-Ends :
    (api : MuxApi) (rank : ℕ → ℕ) (depth at : ℕ) (gs : Groups)
    → IsRanked rank gs
    → rank at < depth
    → Ends (new_module api depth at gs)
unfolding new_module
new_module-Ends api rank depth at gs ranked low =
    Ends-bind (compile api depth [] [] at (api.empty, gs)) _
      (compile-Ends api rank (λ i. (gs i).groups) depth [] [] at (api.empty, gs) ranked low
        (λ i. refl))
      λ s e. tt
