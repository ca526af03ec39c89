-- ===== src/Text/Laws.antt =====
-- What the functions on strings compute, as equations of texts.
use mathlib.Core.List.{reverse, reverse-reverse, reverse-cons, reverse-append}
use go_web_sdk.Common.{
  append_assoc, ◌&&◌, ◌⊎◌, ℕ, suc, ◌+◌, Bool, true, false, none, some, [], ◌∷◌, ◌++◌, length, arith,
  ◌≡◌, ◌≢◌, ◌↔◌, refl, sym, ap, ◌∙◌, Option-cases, ◌==◌, Bool-cases, inl, inr, ==_iff,
}
use go_web_sdk.Text.Defs.{Bytes, bytes_eq, has_prefix, has_suffix, index_byte, count_byte, Lacks}

pub bytes_eq_iff : (s t : Bytes) → (bytes_eq s t ≡ true) ↔ (s ≡ t)
unfolding bytes_eq
bytes_eq_iff [] [] = ground arith
bytes_eq_iff [] (_ ∷ _) = ground arith
bytes_eq_iff (_ ∷ _) [] = ground arith
bytes_eq_iff (a ∷ s) (b ∷ t) = ground (arith, bytes_eq_iff s t)

pub bytes_eq_refl : (s : Bytes) → bytes_eq s s ≡ true
bytes_eq_refl s = (bytes_eq_iff s s).1 refl

pub ne_of_bytes_eq : (s t : Bytes) → bytes_eq s t ≡ false → s ≢ t
ne_of_bytes_eq s t h e = let h' = (bytes_eq_iff s t).1 e in ground arith

pub has_prefix_iff : (s t : Bytes) → has_prefix s t ≡ true → (rest : Bytes) × (s ≡ t ++ rest)
unfolding has_prefix
has_prefix_iff s [] h = (s, refl)
has_prefix_iff [] (b ∷ t) h = cc
has_prefix_iff (a ∷ s) (b ∷ t) h =
    let (rest, e) = has_prefix_iff s t (ground arith) in (rest, ground (arith, e))

pub has_prefix-append : (t rest : Bytes) → has_prefix (t ++ rest) t ≡ true
unfolding has_prefix
has_prefix-append [] rest = refl
has_prefix-append (b ∷ t) rest = ground (arith, has_prefix-append t rest)

pub has_suffix_byte :
    (s : Bytes) (c : ℕ) → has_suffix s (c ∷ []) ≡ true → (init : Bytes) × (s ≡ init ++ c ∷ [])
unfolding has_suffix
has_suffix_byte s c h =
    let (rest, e) = has_prefix_iff (reverse s) (c ∷ []) h in
    (reverse rest, sym (reverse-reverse s) ∙ ap reverse e ∙ reverse-cons c rest)

pub has_suffix-append_byte : (s : Bytes) (c : ℕ) → has_suffix (s ++ c ∷ []) (c ∷ []) ≡ true
unfolding has_suffix
has_suffix-append_byte s c = rw (reverse-append s (c ∷ [])) (has_prefix-append (c ∷ []) (reverse s))

pub index_byte-eq-none : (s : Bytes) (c : ℕ) → index_byte s c ≡ none → Lacks c s
unfolding index_byte
index_byte-eq-none [] c h = tt
index_byte-eq-none (a ∷ s) c h = (ground arith, index_byte-eq-none s c (ground arith))

pub index_byte_of_Lacks : (s : Bytes) (c : ℕ) → Lacks c s → index_byte s c ≡ none
unfolding index_byte
index_byte_of_Lacks [] c h = refl
index_byte_of_Lacks (a ∷ s) c (h, hs) = ground (arith, index_byte_of_Lacks s c hs)

-- An index found cuts the text behind its first occurrence.
pub index_byte-eq-some :
    (s : Bytes) (c : ℕ) (i : ℕ)
    → index_byte s c ≡ some i
    → (pre : Bytes) × (post : Bytes) × (s ≡ pre ++ c ∷ post) × Lacks c pre × (i ≡ length pre)
unfolding index_byte
index_byte-eq-some [] c i h = cc
index_byte-eq-some (a ∷ s) c i h = elim (Bool-cases (a == c)) [
  | inl e ↦ ([], s, ground arith, tt, ground arith)
  | inr e ↦ elim (Option-cases (index_byte s c)) [
    | inl missing ↦ absurd (ground arith)
    | inr (j, found) ↦
        let (pre, post, e1, lacks, e2) = index_byte-eq-some s c j found in
        (a ∷ pre, post, ap (λ l. a ∷ l) e1, (ground arith, lacks), ground (arith, e2))
  ]
]

pub index_byte-append :
    (pre : Bytes) (c : ℕ) (post : Bytes)
    → Lacks c pre
    → index_byte (pre ++ c ∷ post) c ≡ some (length pre)
unfolding index_byte
index_byte-append [] c post h = ground arith
index_byte-append (a ∷ pre) c post (h, hs) = ground (arith, index_byte-append pre c post hs)

pub count_byte-append :
    (s t : Bytes) (c : ℕ) → count_byte (s ++ t) c ≡ count_byte s c + count_byte t c
unfolding count_byte
count_byte-append [] t c = ground arith
count_byte-append (a ∷ s) t c = ground (arith, count_byte-append s t c)

pub count_byte_of_Lacks : (s : Bytes) (c : ℕ) → Lacks c s → count_byte s c ≡ 0
unfolding count_byte
count_byte_of_Lacks [] c h = refl
count_byte_of_Lacks (a ∷ s) c (h, hs) = ground (arith, count_byte_of_Lacks s c hs)

pub count_byte-eq-zero : (s : Bytes) (c : ℕ) → count_byte s c ≡ 0 → Lacks c s
unfolding count_byte
count_byte-eq-zero [] c h = tt
count_byte-eq-zero (a ∷ s) c h = (ground arith, count_byte-eq-zero s c (ground arith))

pub count_byte_self : (c : ℕ) (s : Bytes) → count_byte (c ∷ s) c ≡ suc (count_byte s c)
unfolding count_byte
count_byte_self c s = ground arith

pub count_byte_other : (a c : ℕ) (s : Bytes) → a ≢ c → count_byte (a ∷ s) c ≡ count_byte s c
unfolding count_byte
count_byte_other a c s h = ground arith

pub Lacks-append_left : (s t : Bytes) (c : ℕ) → Lacks c (s ++ t) → Lacks c s
Lacks-append_left [] t c h = tt
Lacks-append_left (a ∷ s) t c (h, hs) = (h, Lacks-append_left s t c hs)

-- A text is empty or has a last byte.
pub snoc-cases : (s : Bytes) → (s ≡ []) ⊎ ((t : Bytes) × (c : ℕ) × (s ≡ t ++ c ∷ []))
snoc-cases [] = inl refl
snoc-cases (a ∷ s) = elim (snoc-cases s) [
  | inl e ↦ inr ([], a, ap (λ l. a ∷ l) e)
  | inr (t, c, e) ↦ inr (a ∷ t, c, ap (λ l. a ∷ l) e)
]

pub has_suffix-snoc : (s : Bytes) (a c : ℕ) → has_suffix (s ++ a ∷ []) (c ∷ []) ≡ (a == c)
unfolding has_suffix
has_suffix-snoc s a c = rw (reverse-append s (a ∷ [])) (and_true (a == c))
  where
    and_true : (b : Bool) → (b && true) ≡ b
    and_true true = refl
    and_true false = refl

-- A suffix of one byte, in a text that is cut before another byte.
pub has_suffix_behind :
    (s : Bytes) (a : ℕ) (t : Bytes) (c : ℕ)
    → a ≢ c
    → has_suffix (s ++ a ∷ t) (c ∷ []) ≡ true
    → (init : Bytes) × (t ≡ init ++ c ∷ [])
has_suffix_behind s a t c ne h = elim (snoc-cases t) [
  | inl e ↦ absurd (ne ((==_iff a c).0 (sym (has_suffix-snoc s a c) ∙ (rw e at h))))
  | inr (init, d, e) ↦ (
    init,
    e
        ∙ ap (λ x. init ++ x ∷ [])
            ((==_iff d c).0 (
              sym (has_suffix-snoc (s ++ a ∷ init) d c)
              ∙ ap (λ l. has_suffix l (c ∷ [])) (append_assoc s (a ∷ init) (d ∷ []))
              ∙ (rw e at h))),
  )
]
