-- ===== src/Routing/Prefix.antt =====
-- router.go: `matches`, and group.go: `validatePrefix`.
use go_web_sdk.Text.Laws.{has_prefix_iff, has_prefix-append}
use go_web_sdk.Common.{
  ◌∙◌, sym, subst, ap, inr, length-append, append-nil, drop-append, inl, drop, [], ◌||◌, not, ◌==◌,
  length, ◌∷◌, ◌&&◌, if◌then◌else◌, false, true, ◌++◌, Bool, arith, ◌≡◌, ◌⊎◌, ◌↔◌,
}
use go_web_sdk.Text.{Bytes, codes, has_prefix, has_suffix}

abbrev slash_at : Bytes → Bool
slash_at [] = false
slash_at (c ∷ _) = c == b'/'

-- `matches`; past its prefix the path ends, or goes on with a slash.
unfoldable pub matches : Bytes → Bytes → Bool
unfolding has_prefix
matches path prefix =
    if not (has_prefix path prefix)
    then false
    else length path == length prefix || slash_at (drop (length prefix) path)

-- `validatePrefix` does not panic.
unfoldable pub valid_prefix : Bytes → Bool
unfolding has_prefix has_suffix
valid_prefix prefix = has_prefix prefix (codes "/") && not (has_suffix prefix (codes "/"))

-- The path is the prefix, or stands below it at a segment's boundary.
abbrev pub IsUnder : Bytes → Bytes → Type 0
IsUnder path prefix = (path ≡ prefix) ⊎ ((rest : Bytes) × (path ≡ prefix ++ b'/' ∷ rest))

matches-append :
    (prefix rest : Bytes)
    → matches (prefix ++ rest) prefix ≡ (length (prefix ++ rest) == length prefix || slash_at rest)
unfolding matches
matches-append prefix rest = rw (has_prefix-append prefix rest, drop-append prefix rest)

pub matches-has_prefix :
    (path prefix : Bytes) → matches path prefix ≡ true → has_prefix path prefix ≡ true
unfolding matches
matches-has_prefix path prefix h = ground arith

-- A path matches a prefix exactly when it is the prefix or continues it with a slash, so "/apiary"
-- does not match "/api".
pub matches_iff : (path prefix : Bytes) → (matches path prefix ≡ true) ↔ IsUnder path prefix
matches_iff path prefix = (to, from)
  where
    to_rest :
        (rest : Bytes)
        → (length (prefix ++ rest) == length prefix || slash_at rest) ≡ true
        → IsUnder (prefix ++ rest) prefix
    to_rest [] h = inl (append-nil prefix)
    to_rest (c ∷ rest) h =
        let e : c ≡ b'/' = ground (arith, length-append prefix (c ∷ rest)) in
        inr (rest, ap (λ c. prefix ++ c ∷ rest) e)

    to : matches path prefix ≡ true → IsUnder path prefix
    to h =
        let (rest, e) = has_prefix_iff path prefix (matches-has_prefix path prefix h) in
        subst (λ p. IsUnder p prefix) (sym e)
          (to_rest rest (sym (matches-append prefix rest) ∙ ap (λ p. matches p prefix) (sym e) ∙ h))

    from : IsUnder path prefix → matches path prefix ≡ true
    from (inl e) =
        ap (λ p. matches p prefix) (e ∙ sym (append-nil prefix))
        ∙ matches-append prefix []
        ∙ ground (arith, append-nil prefix)
    from (inr (rest, e)) =
        ap (λ p. matches p prefix) e ∙ matches-append prefix (b'/' ∷ rest) ∙ ground arith
