-- ===== src/Query/Keys.antt =====
-- What a filter key is: a name, or a name with a bracketed operator; `parse_filter_key` reads
-- exactly the keys that `print_key` writes.
use go_web_sdk.Text.Laws.{
  index_byte-append, index_byte_of_Lacks, index_byte-eq-some, index_byte-eq-none,
  count_byte-eq-zero, has_suffix_behind, count_byte_of_Lacks, count_byte_other, count_byte_self,
  count_byte-append, has_suffix-append_byte,
}
use go_web_sdk.Common.{
  ◌↔◌, ap₂, ◌||◌, inr, ◌==◌, inl, not, Option-cases, subst, ◌∙◌, drop_past, append_assoc, drop,
  take-append, sym, length-append, take, if◌then◌else◌, List, ℕ, zero, suc, ◌+◌, ◌-◌, true, false,
  some, [], ◌∷◌, ◌++◌, arith, ◌≡◌, ◌≢◌, refl, Result, ok, length, ap,
}
use go_web_sdk.Text.{Bytes, codes, Lacks, contains, has_suffix, count_byte, index_byte}
use go_web_sdk.Query.{
  rejected_key, QueryError, is_empty, FilterKey, parse_filter_key, parse_operator, reserved,
}

-- The spelling of a filter key.
abbrev pub print_key : FilterKey → Bytes
print_key k = if is_empty k.op then k.field else k.field ++ b'[' ∷ (k.op ++ b']' ∷ [])

abbrev HasNoBracket : Bytes → Type 0
HasNoBracket s = Lacks b'[' s × Lacks b']' s

-- The name is not empty, no bracket stands inside, and an operator hangs on no reserved name.
pub record IsFilterKey (k : FilterKey) : Type 0 where
  pub named : k.field ≢ []
  pub plain_field : HasNoBracket k.field
  pub plain_op : HasNoBracket k.op
  pub unreserved : k.op ≢ [] → contains reserved k.field ≡ false

-- A bracketed key cut at its opening bracket, and the three tests on it.
module _ (pre op : Bytes) where
  abbrev bracketed : Bytes
  bracketed = pre ++ b'[' ∷ (op ++ b']' ∷ [])

  field-bracketed : take (length pre) bracketed ≡ pre
  field-bracketed = take-append pre (b'[' ∷ (op ++ b']' ∷ []))

  length-bracketed : length bracketed ≡ length pre + length op + 2
  length-bracketed =
      omega (arith, length-append pre (b'[' ∷ (op ++ b']' ∷ [])), length-append op (b']' ∷ []))

  op-bracketed :
      take (length bracketed - 1 - (length pre + 1)) (drop (length pre + 1) bracketed) ≡ op
  op-bracketed =
      let n : length bracketed - 1 - (length pre + 1) ≡ length op =
        omega (arith, length-bracketed) in
      rw (n, drop_past pre b'[' (op ++ b']' ∷ [])) (take-append op (b']' ∷ []))

  has_suffix-bracketed : has_suffix bracketed (codes "]") ≡ true
  has_suffix-bracketed =
      ap (λ s. has_suffix s (codes "]")) (sym (append_assoc pre (b'[' ∷ op) (b']' ∷ [])))
      ∙ has_suffix-append_byte (pre ++ b'[' ∷ op) b']'

  count-open : count_byte bracketed b'[' ≡ count_byte pre b'[' + suc (count_byte op b'[')
  count-open =
      rw
        (
          count_byte-append pre (b'[' ∷ (op ++ b']' ∷ [])) b'[',
          count_byte_self,
          count_byte-append op (b']' ∷ []) b'[',
        )
        (ap (λ n. count_byte pre b'[' + suc n)
          (omega
            (arith, count_byte_other b']' b'[' [] (omega arith), count_byte_of_Lacks [] b'[' tt)))

  count-close : count_byte bracketed b']' ≡ count_byte pre b']' + suc (count_byte op b']')
  count-close =
      rw
        (
          count_byte-append pre (b'[' ∷ (op ++ b']' ∷ [])) b']',
          count_byte_other b'[' b']' (op ++ b']' ∷ []) (omega arith),
          count_byte-append op (b']' ∷ []) b']',
        )
        (omega (arith, count_byte_self b']' [], count_byte_of_Lacks [] b']' tt))

-- What `parse_operator` does with a bracketed key, its slices and tests computed.
abbrev judged : Bytes → Bytes → List Bytes → Result QueryError FilterKey
judged pre op values =
    if not (count_byte pre b'[' + suc (count_byte op b'[') == 1)
      || not (count_byte pre b']' + suc (count_byte op b']') == 1)
    then rejected_key values (bracketed pre op)
        "the operator must be one bracketed suffix, like name[op]"
    else if is_empty op
    then rejected_key values (bracketed pre op) "empty operator"
    else if contains reserved pre
    then rejected_key values pre "takes no operator"
    else ok (record { field = pre; op = op })

parse_operator-bracketed :
    (pre op : Bytes) (values : List Bytes)
    → parse_operator (bracketed pre op) values (length pre) ≡ judged pre op values
unfolding parse_operator
parse_operator-bracketed pre op values = rw (
  has_suffix-bracketed pre op,
  op-bracketed pre op,
  field-bracketed pre op,
  count-open pre op,
  count-close pre op,
)

-- A key that is not a bracketed one is refused.
parse_operator_suffix :
    (pre post : Bytes) (values : List Bytes) (k : FilterKey)
    → parse_operator (pre ++ b'[' ∷ post) values (length pre) ≡ ok k
    → has_suffix (pre ++ b'[' ∷ post) (codes "]") ≡ true
unfolding parse_operator
parse_operator_suffix pre post values k e = ground arith

judged-IsFilterKey :
    (pre op : Bytes) (values : List Bytes) (k : FilterKey)
    → pre ≢ []
    → judged pre op values ≡ ok k
    → IsFilterKey k × (bracketed pre op ≡ print_key k)
judged-IsFilterKey pre [] values k h e = absurd (ground arith)
judged-IsFilterKey pre (c ∷ op) values k h e =
    subst (λ k. IsFilterKey k × (bracketed pre (c ∷ op) ≡ print_key k)) same
      (
        record {
          named = h;
          plain_field = (
            count_byte-eq-zero pre b'[' (ground arith),
            count_byte-eq-zero pre b']' (ground arith),
          );
          plain_op = (
            count_byte-eq-zero (c ∷ op) b'[' (ground arith),
            count_byte-eq-zero (c ∷ op) b']' (ground arith),
          );
          unreserved = λ _. ground arith;
        },
        refl,
      )
  where
    same : ◌≡◌ {A = FilterKey} (record { field = pre; op = c ∷ op }) k
    same = ground arith

operator-IsFilterKey :
    (pre post : Bytes) (values : List Bytes) (k : FilterKey)
    → pre ≢ []
    → parse_operator (pre ++ b'[' ∷ post) values (length pre) ≡ ok k
    → IsFilterKey k × (pre ++ b'[' ∷ post ≡ print_key k)
operator-IsFilterKey pre post values k h e =
    let (op, cut) =
      has_suffix_behind pre b'[' post b']' (omega arith)
        (parse_operator_suffix pre post values k e) in
    let (valid, spelled) = judged-IsFilterKey pre op values k h (
      sym (parse_operator-bracketed pre op values)
      ∙ ap (λ t. parse_operator (pre ++ b'[' ∷ t) values (length pre)) (sym cut)
      ∙ e) in
    (valid, ap (λ t. pre ++ b'[' ∷ t) cut ∙ spelled)

-- A key that is accepted spells its name and its operator, which have no brackets.
pub parse_filter_key-IsFilterKey :
    (key : Bytes) (values : List Bytes) (k : FilterKey)
    → parse_filter_key key values ≡ ok k
    → IsFilterKey k × (key ≡ print_key k)
unfolding parse_filter_key
parse_filter_key-IsFilterKey [] values k e = cc
parse_filter_key-IsFilterKey (c ∷ s) values k e = elim (Option-cases (index_byte (c ∷ s) b'[')) [
  | inl missing ↦ elim (Option-cases (index_byte (c ∷ s) b']')) [
    | inl missing' ↦
        let same : ◌≡◌ {A = FilterKey} (record { field = c ∷ s; op = [] }) k = ground arith in
        subst (λ k. IsFilterKey k × (c ∷ s ≡ print_key k)) same
          (
            record {
              named = cc;
              plain_field = (
                index_byte-eq-none (c ∷ s) b'[' missing,
                index_byte-eq-none (c ∷ s) b']' missing',
              );
              plain_op = (tt, tt);
              unreserved = λ h. absurd (h refl);
            },
            refl,
          )
    | inr (i, found) ↦ absurd (ground arith)
  ]
  | inr (zero, found) ↦ absurd (ground arith)
  | inr (suc i, found) ↦
      let (pre, post, spelled, lacks, at) = index_byte-eq-some (c ∷ s) b'[' (suc i) found in
      let run : parse_operator (c ∷ s) values (suc i) ≡ ok k = ground arith in
      let (valid, same) =
        operator-IsFilterKey pre post values k
          (λ empty. absurd (omega (arith, at, ap (length {0}) empty)))
          (ap₂ (λ t j. parse_operator t values j) (sym spelled) (sym at) ∙ run) in
      (valid, spelled ∙ same)
]

judged_of_IsFilterKey :
    (pre op : Bytes) (values : List Bytes)
    → IsFilterKey (record { field = pre; op = op })
    → op ≢ []
    → judged pre op values ≡ ok (record { field = pre; op = op })
judged_of_IsFilterKey pre [] values h ne = absurd (ne refl)
judged_of_IsFilterKey pre (c ∷ op) values h ne = ground (
  arith,
  count_byte_of_Lacks pre b'[' h.plain_field.0,
  count_byte_of_Lacks pre b']' h.plain_field.1,
  count_byte_of_Lacks (c ∷ op) b'[' h.plain_op.0,
  count_byte_of_Lacks (c ∷ op) b']' h.plain_op.1,
  h.unreserved ne,
)

parse_filter_key-at :
    (c : ℕ) (s : Bytes) (values : List Bytes) (i : ℕ)
    → index_byte (c ∷ s) b'[' ≡ some (suc i)
    → parse_filter_key (c ∷ s) values ≡ parse_operator (c ∷ s) values (suc i)
unfolding parse_filter_key
parse_filter_key-at c s values i e = rw (e, parse_filter_key)

parse_filter_key-parts :
    (field op : Bytes) (values : List Bytes)
    → IsFilterKey (record { field = field; op = op })
    → parse_filter_key (print_key (record { field = field; op = op })) values
      ≡ ok (record { field = field; op = op })
unfolding parse_filter_key
parse_filter_key-parts [] op values h = absurd (h.named refl)
parse_filter_key-parts (c ∷ s) [] values h = cc (
  index_byte_of_Lacks (c ∷ s) b'[' h.plain_field.0,
  index_byte_of_Lacks (c ∷ s) b']' h.plain_field.1,
)
parse_filter_key-parts (c ∷ s) (d ∷ op) values h =
    parse_filter_key-at c (s ++ b'[' ∷ ((d ∷ op) ++ b']' ∷ [])) values (length s)
      (index_byte-append (c ∷ s) b'[' ((d ∷ op) ++ b']' ∷ []) h.plain_field.0)
    ∙ parse_operator-bracketed (c ∷ s) (d ∷ op) values
    ∙ judged_of_IsFilterKey (c ∷ s) (d ∷ op) values h (cc)

parse_filter_key-print_key :
    (k : FilterKey) (values : List Bytes)
    → IsFilterKey k
    → parse_filter_key (print_key k) values ≡ ok k
parse_filter_key-print_key k values h = parse_filter_key-parts k.field k.op values h

-- A key parses exactly when it is the spelling of a name and an operator, and then to those: neither has
-- brackets, the name is not empty, and no operator hangs on a reserved name.
pub parse_filter_key_iff :
    (key : Bytes) (values : List Bytes) (k : FilterKey)
    → (parse_filter_key key values ≡ ok k) ↔ (IsFilterKey k × (key ≡ print_key k))
parse_filter_key_iff key values k = (
  λ h. parse_filter_key-IsFilterKey key values k h,
  λ (valid, spelled).
      ap (λ s. parse_filter_key s values) spelled ∙ parse_filter_key-print_key k values valid,
)
