-- ===== src/Routing/Router/Mounting.antt =====
-- router.go: what `Mount` does to the modules.
use go_web_sdk.Text.Laws.{bytes_eq_iff}
use go_web_sdk.Text.{bytes_eq, Bytes}
use go_web_sdk.Sorting.Laws.{sort_func-perm, All-insert, All-sort_func}
use mathlib.Core.List.{Perm}
use go_web_sdk.Common.{
  refl, inr, inl, sym, Bool-cases, Ordering-cases, ◌⊎◌, All-append, true, false, ◌≤◌, ◌++◌, Any,
  length, All-map, List, arith, ◌≡◌, ◌≢◌, [], ◌∷◌, some, none, All,
}
use go_web_sdk.Routing.Router.{bytes_eq, Bytes, Module, by_length, mount_module, is_mounted}
use go_web_sdk.Routing.Router.Longest.{IsOrdered}
use go_web_sdk.Sorting.{insert, sort_func}

-- The modules stand at different prefixes.
abbrev pub HasDistinctPrefixes : List Module → Type 0
HasDistinctPrefixes [] = Unit
HasDistinctPrefixes (m ∷ ms) = All (λ n. n.prefix ≢ m.prefix) ms × HasDistinctPrefixes ms

IsOrdered-HasDistinctPrefixes : (ms : List Module) → IsOrdered ms → HasDistinctPrefixes ms
IsOrdered-HasDistinctPrefixes [] h = tt
IsOrdered-HasDistinctPrefixes (m ∷ ms) (h, hs) =
    (All-map (λ n k. k.1) ms h, IsOrdered-HasDistinctPrefixes ms hs)

insert-IsOrdered :
    (m : Module) (ms : List Module)
    → All (λ n. n.prefix ≢ m.prefix) ms
    → IsOrdered ms
    → IsOrdered (insert by_length m ms)
unfolding insert
insert-IsOrdered m [] h s = (tt, tt)
insert-IsOrdered m (n ∷ ms) (ne, h) (s, ss) = elim (Ordering-cases (by_length m n)) [
  | inr (inr shorter) ↦
      rw (shorter, insert)
        (All-insert by_length _ m ms (ground arith, λ e. ne (sym e)) s, insert-IsOrdered m ms h ss)
  | inl longer ↦ rw (longer, insert) (in_front (ground arith), (s, ss))
  | inr (inl same) ↦ rw (same, insert) (in_front (ground arith), (s, ss))
]
  where
    in_front :
        length n.prefix ≤ length m.prefix
        → All (λ n. (length n.prefix ≤ length m.prefix) × (n.prefix ≢ m.prefix)) (n ∷ ms)
    in_front le = ((le, ne), both ms h s)
      where
        both :
            (ks : List Module)
            → All (λ k. k.prefix ≢ m.prefix) ks
            → All (λ k. (length k.prefix ≤ length n.prefix) × (k.prefix ≢ n.prefix)) ks
            → All (λ k. (length k.prefix ≤ length m.prefix) × (k.prefix ≢ m.prefix)) ks
        both [] _ _ = tt
        both (k ∷ ks) (a, as') (b, bs) = ((omega (arith, b.0), a), both ks as' bs)

sort_func-IsOrdered :
    (ms : List Module) → HasDistinctPrefixes ms → IsOrdered (sort_func by_length ms)
unfolding sort_func
sort_func-IsOrdered [] h = tt
sort_func-IsOrdered (m ∷ ms) (h, hs) =
    insert-IsOrdered m (sort_func by_length ms) (All-sort_func by_length _ ms h)
      (sort_func-IsOrdered ms hs)

is_mounted-eq-false :
    (ms : List Module) (prefix : Bytes)
    → is_mounted ms prefix ≡ false
    → All (λ n. n.prefix ≢ prefix) ms
unfolding is_mounted
is_mounted-eq-false [] prefix h = tt
is_mounted-eq-false (m ∷ ms) prefix h =
    (ground (arith, bytes_eq_iff m.prefix prefix), is_mounted-eq-false ms prefix (ground arith))

is_mounted-eq-true :
    (ms : List Module) (prefix : Bytes)
    → is_mounted ms prefix ≡ true
    → Any (λ n. n.prefix ≡ prefix) ms
unfolding is_mounted
is_mounted-eq-true [] prefix h = cc
is_mounted-eq-true (m ∷ ms) prefix h = elim (Bool-cases (bytes_eq m.prefix prefix)) [
  | inl e ↦ inl ((bytes_eq_iff m.prefix prefix).0 e)
  | inr e ↦ inr (is_mounted-eq-true ms prefix (ground arith))
]

HasDistinctPrefixes-concat :
    (ms : List Module) (m : Module)
    → All (λ n. n.prefix ≢ m.prefix) ms
    → HasDistinctPrefixes ms
    → HasDistinctPrefixes (ms ++ m ∷ [])
HasDistinctPrefixes-concat [] m h d = (tt, tt)
HasDistinctPrefixes-concat (n ∷ ms) m (h, hs) (d, ds) =
    (All-append _ ms (m ∷ []) d (λ e. h (sym e), tt), HasDistinctPrefixes-concat ms m hs ds)

-- Mounting on modules at different prefixes, longer ones first, panics exactly when one stands at
-- the prefix already; otherwise the result holds those modules and the new one, again at different
-- prefixes, longer ones first.
pub mount_module-IsOrdered :
    (ms : List Module) (m : Module)
    → IsOrdered ms
    → ((mount_module ms m ≡ none) × Any (λ n. n.prefix ≡ m.prefix) ms)
      ⊎ ((ns : List Module) × (mount_module ms m ≡ some ns)
          × All (λ n. n.prefix ≢ m.prefix) ms
          × Perm ns (ms ++ m ∷ [])
          × IsOrdered ns)
unfolding mount_module
mount_module-IsOrdered ms m h = elim (Bool-cases (is_mounted ms m.prefix)) [
  | inl taken ↦ inl (rw (taken, mount_module) refl, is_mounted-eq-true ms m.prefix taken)
  | inr free ↦
      let distinct = is_mounted-eq-false ms m.prefix free in
      inr (
        sort_func by_length (ms ++ m ∷ []),
        rw (free, mount_module) refl,
        distinct,
        sort_func-perm by_length (ms ++ m ∷ []),
        sort_func-IsOrdered (ms ++ m ∷ [])
            (HasDistinctPrefixes-concat ms m distinct (IsOrdered-HasDistinctPrefixes ms h)),
      )
]
