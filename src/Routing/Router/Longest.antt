-- ===== src/Routing/Router/Longest.antt =====
-- router.go: which module dispatch picks.
use go_web_sdk.Sorting.Laws.{All-perm}
use go_web_sdk.Text.Laws.{has_prefix_iff}
use mathlib.Core.Bool.{false≢true}
use mathlib.Core.List.Permᴰ
use mathlib.Core.List.{Permᴰ}
use go_web_sdk.Common.{
  take, ap₂, take-append, refl, ap, All-map, ◌∙◌, sym, subst, inl, Option-cases, false, Bool-cases,
  inr, ◌<◌, ◌≤◌, Any, length, true, List, arith, ◌≡◌, ◌≢◌, ◌⊎◌, ◌↔◌, [], ◌∷◌, some, none, All,
}
use go_web_sdk.Text.{Bytes}
use go_web_sdk.Routing.Router.{Module, select}
use go_web_sdk.Routing.Prefix.{matches-has_prefix, matches}

-- The modules stand at different prefixes, longer ones first.
abbrev pub IsOrdered : List Module → Type 0
IsOrdered [] = Unit
IsOrdered (m ∷ ms) =
    All (λ n. (length n.prefix ≤ length m.prefix) × (n.prefix ≢ m.prefix)) ms × IsOrdered ms

-- Two prefixes of one path of the same length are the same.
matches_same_length :
    (path p q : Bytes) → matches path p ≡ true → matches path q ≡ true → length p ≡ length q → p ≡ q
matches_same_length path p q hp hq e =
    let (a, pa) = has_prefix_iff path p (matches-has_prefix path p hp) in
    let (b, qb) = has_prefix_iff path q (matches-has_prefix path q hq) in
    sym (take-append p a) ∙ ap₂ take e (sym pa ∙ qb) ∙ take-append q b

-- The module owns the path: it stands among the modules, its prefix matches, and every other module
-- whose prefix matches has a shorter one.
pub record Owns (ms : List Module) (path : Bytes) (m : Module) : Type 0 where
  pub listed : Any (λ n. n ≡ m) ms
  pub matched : matches path m.prefix ≡ true
  pub longest :
      All (λ n. matches path n.prefix ≡ true → (n ≡ m) ⊎ (length n.prefix < length m.prefix)) ms

shorter :
    (path : Bytes) (m : Module)
    → matches path m.prefix ≡ true
    → (n : Module) → (length n.prefix ≤ length m.prefix) × (n.prefix ≢ m.prefix)
    → matches path n.prefix ≡ true
    → (n ≡ m) ⊎ (length n.prefix < length m.prefix)
shorter path m hm n (le, ne) hn =
    inr (lt_of_le (λ e. ne (matches_same_length path n.prefix m.prefix hn hm e)))
  where
    lt_of_le : length n.prefix ≢ length m.prefix → length n.prefix < length m.prefix
    lt_of_le h = omega arith

select-Owns :
    (ms : List Module) (path : Bytes) (m : Module)
    → IsOrdered ms
    → select ms path ≡ some m
    → Owns ms path m
unfolding select
select-Owns [] path m h e = cc
select-Owns (n ∷ ms) path m (h, hs) e = elim (Bool-cases (matches path n.prefix)) [
  | inl hit ↦
      let same : n ≡ m = ground arith in
      subst (Owns (n ∷ ms) path) same (record {
        listed = inl refl;
        matched = hit;
        longest = (λ _. inl refl, All-map (shorter path n hit) ms h);
      })
  | inr missed ↦
      let o = select-Owns ms path m hs (ground arith) in
      record {
        listed = inr o.listed;
        matched = o.matched;
        longest = (λ hit. absurd (false≢true (sym missed ∙ hit)), o.longest);
      }
]

-- What holds of every member and refutes one of them.
All-Any {ℓ κ μ} :
    {A : Type ℓ} {C : Type μ} (P : A → Type κ) (m : A) (ms : List A)
    → Any (λ n. n ≡ m) ms
    → All P ms
    → (P m → C)
    → C
All-Any P m [] x h f = elim x [ ]
All-Any P m (n ∷ ms) (inl e) (h, hs) f = f (subst P e h)
All-Any P m (n ∷ ms) (inr x) (h, hs) f = All-Any P m ms x hs f

select-none :
    (ms : List Module) (path : Bytes)
    → select ms path ≡ none
    → All (λ n. matches path n.prefix ≡ false) ms
unfolding select
select-none [] path e = tt
select-none (n ∷ ms) path e = (ground arith, select-none ms path (ground arith))

Owns-unique :
    (ms : List Module) (path : Bytes) (m n : Module) → Owns ms path m → Owns ms path n → m ≡ n
Owns-unique ms path m n a b = All-Any _ m ms a.listed b.longest λ f. by_length_of (f a.matched)
  where
    by_length_of : (m ≡ n) ⊎ (length m.prefix < length n.prefix) → m ≡ n
    by_length_of (inl e) = e
    by_length_of (inr lt) = All-Any _ n ms b.listed a.longest λ f. the_other (f b.matched) lt
      where
        the_other :
            (n ≡ m) ⊎ (length n.prefix < length m.prefix)
            → length m.prefix < length n.prefix
            → m ≡ n
        the_other (inl e) _ = sym e
        the_other (inr lt') lt = absurd (omega arith)

Owns-select :
    (ms : List Module) (path : Bytes) (m : Module)
    → IsOrdered ms
    → Owns ms path m
    → select ms path ≡ some m
Owns-select ms path m h o = elim (Option-cases (select ms path)) [
  | inl e ↦
      All-Any _ m ms o.listed (select-none ms path e)
        λ missed. absurd (false≢true (sym missed ∙ o.matched))
  | inr (n, e) ↦ e ∙ ap some (Owns-unique ms path n m (select-Owns ms path n h e) o)
]

-- Dispatch over modules at different prefixes, longer ones first, selects a module exactly when it
-- owns the path: its prefix matches at a segment's boundary, and any other that matches is shorter.
pub select_iff :
    (ms : List Module) (path : Bytes) (m : Module)
    → IsOrdered ms
    → (select ms path ≡ some m) ↔ Owns ms path m
select_iff ms path m h = (select-Owns ms path m h, Owns-select ms path m h)

Any-perm {ℓ κ} : {A : Type ℓ} (P : A → Type κ) {xs ys : List A} → Permᴰ xs ys → Any P xs → Any P ys
Any-perm P Permᴰ.nil h = h
Any-perm P (Permᴰ.cons e p) (inl h) = inl (subst P e h)
Any-perm P (Permᴰ.cons e p) (inr h) = inr (Any-perm P p h)
Any-perm P (Permᴰ.swap e e') (inl h) = inr (inl (subst P e h))
Any-perm P (Permᴰ.swap e e') (inr (inl h)) = inl (subst P e' h)
Any-perm P (Permᴰ.swap e e') (inr (inr h)) = inr (inr h)
Any-perm P (Permᴰ.trans p q) h = Any-perm P q (Any-perm P p h)

Owns-perm :
    {ms ns : List Module} (path : Bytes) (m : Module)
    → Permᴰ ms ns
    → Owns ms path m
    → Owns ns path m
Owns-perm path m p o = record {
  listed = Any-perm _ p o.listed;
  matched = o.matched;
  longest = All-perm _ p o.longest;
}

-- Two arrangements of the same modules, each at different prefixes with longer ones first, dispatch
-- every path alike: neither the order of mounting nor the sort's order of equal lengths shows.
pub select_perm :
    (ms ns : List Module) (path : Bytes)
    → Permᴰ ms ns
    → IsOrdered ms
    → IsOrdered ns
    → select ms path ≡ select ns path
select_perm ms ns path p h k = elim (Option-cases (select ms path)) [
  | inr (m, e) ↦ e ∙ sym (Owns-select ns path m k (Owns-perm path m p (select-Owns ms path m h e)))
  | inl e ↦ elim (Option-cases (select ns path)) [
    | inl e' ↦ e ∙ sym e'
    | inr (n, e') ↦
        Owns-select ms path n h (Owns-perm path n (Permᴰ.symm p) (select-Owns ns path n k e'))
        ∙ sym e'
  ]
]
