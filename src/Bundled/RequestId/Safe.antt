-- ===== src/Bundled/RequestId/Safe.antt =====
-- middleware/requestid.go: the ids that reach a handler, its log records and the response header.
use go_web_sdk.Http.Header
use go_web_sdk.Http.Writer.{set_header, Writer}
use go_web_sdk.Http.Handler.{Handler}
use go_web_sdk.Http.Request.{with_request_id, Request}
use go_web_sdk.Common.{
  none, Option, ◌+◌, ◌&&◌, ◌%◌, refl, inr, ◌⊎◌, zero, not, [], ◌/◌, inl, ◌∷◌, suc, Bool-cases, some,
  ◌*◌, true, arith, ◌<◌, All, length, ◌≡◌, ◌≤◌, ℕ,
}
use go_web_sdk.Bundled.RequestId.{
  Option, generate_id, ask_source, with_request_id, request_id_header, is_empty, set_header, not,
  [], returned, ◌∷◌, hex_digit, Request, all_visible, identify, resolve_id, trusted_id,
  RequestIdConfig, draw, encode_hex, valid_id,
}
use go_web_sdk.Text.{is_empty, Bytes}
use go_web_sdk.Http.World.{returned, World, Run, ◌>>◌}

-- 1 to 128 visible ASCII characters.
abbrev pub IsSafe : Bytes → Type 0
IsSafe id = (1 ≤ length id) × (length id ≤ 128) × All (λ c. (b'!' ≤ c) × (c ≤ b'~')) id

all_visible_lem : (s : Bytes) → all_visible s ≡ true → All (λ c. (b'!' ≤ c) × (c ≤ b'~')) s
unfolding all_visible
all_visible_lem [] h = tt
all_visible_lem (c ∷ s) h = ((ground arith, ground arith), all_visible_lem s (ground arith))

valid_id-IsSafe : (id : Bytes) → valid_id id ≡ true → IsSafe id
unfolding valid_id
valid_id-IsSafe [] h = cc
valid_id-IsSafe (c ∷ s) h = (omega arith, ground arith, all_visible_lem (c ∷ s) (ground arith))

encode_hex-length : (s : Bytes) → length (encode_hex s) ≡ 2 * length s
unfolding encode_hex
encode_hex-length [] = refl
encode_hex-length (b ∷ s) = let e = encode_hex-length s in omega (arith, e)

draw-length : (n : ℕ) (e : ℕ → ℕ) → length (draw n e) ≡ n
unfolding draw
draw-length zero e = refl
draw-length (suc n) e = let h = draw-length n (λ i. e (suc i)) in omega (arith, h)

draw_bytes : (n : ℕ) (e : ℕ → ℕ) → All (λ b. b < 256) (draw n e)
unfolding draw
draw_bytes zero e = tt
draw_bytes (suc n) e = (omega arith, draw_bytes n (λ i. e (suc i)))

hex_digit_visible : (n : ℕ) → n < 16 → (b'!' ≤ hex_digit n) × (hex_digit n ≤ b'~')
hex_digit_visible n h = (ground arith, ground arith)

encode_hex_visible :
    (s : Bytes) → All (λ b. b < 256) s → All (λ c. (b'!' ≤ c) × (c ≤ b'~')) (encode_hex s)
unfolding encode_hex
encode_hex_visible [] h = tt
encode_hex_visible (b ∷ s) (h, hs) = (
  hex_digit_visible (b / 16) (omega arith),
  (hex_digit_visible (b % 16) (omega arith), encode_hex_visible s hs),
)

generated-IsSafe : (e : ℕ → ℕ) → IsSafe (encode_hex (draw 16 e))
generated-IsSafe e =
    let n = encode_hex-length (draw 16 e) in
    let k = draw-length 16 e in
    (omega (arith, n, k), omega (arith, n, k), encode_hex_visible (draw 16 e) (draw_bytes 16 e))

-- The source declines, or its id is safe.
abbrev pub IsSafeSource : RequestIdConfig → Request → Type 0
IsSafeSource c r =
    (source : Request → Bytes) → c.source ≡ some source → (source r ≡ []) ⊎ IsSafe (source r)

-- A run that gives a safe id.
abbrev GivesSafe : Run Bytes → World → Type 0
GivesSafe m w = (id : Bytes) × (w' : World) × (m w ≡ returned id w') × IsSafe id

trusted_id-GivesSafe :
    (c : RequestIdConfig) (r : Request) (w : World) → GivesSafe (trusted_id c r) w
unfolding trusted_id
trusted_id-GivesSafe c r w =
    elim (Bool-cases (not (is_empty c.header) && valid_id (Header.get r.header c.header))) [
      | inl e ↦ (
        Header.get r.header c.header,
        w,
        rw e refl,
        valid_id-IsSafe (Header.get r.header c.header) (ground arith),
      )
      | inr e ↦ (
        encode_hex (draw 16 w.entropy),
        record w { entropy = λ i. w.entropy (i + 16) },
        unfold generate_id in rw e refl,
        generated-IsSafe w.entropy,
      )
    ]

ask_source-GivesSafe :
    (o : Option (Request → Bytes)) (c : RequestIdConfig) (r : Request) (w : World)
    → ((source : Request → Bytes) → o ≡ some source → (source r ≡ []) ⊎ IsSafe (source r))
    → GivesSafe (ask_source o c r) w
unfolding ask_source
ask_source-GivesSafe none c r w h = trusted_id-GivesSafe c r w
ask_source-GivesSafe (some source) c r w h = elim (Bool-cases (is_empty (source r))) [
  | inl e ↦ rw e (trusted_id-GivesSafe c r w)
  | inr e ↦ (source r, w, rw e refl, elim (h source refl) [ inl gone ↦ cc | inr safe ↦ safe ])
]

-- Every request reaches the next handler with one id of 1 to 128 visible ASCII characters, set both on
-- its context and on the response header before the handler runs, whatever the trusted header holds.
-- (The source, if there is one, declines or gives such an id.)
pub identify-IsSafe :
    (c : RequestIdConfig) (next : Handler) (wr : Writer) (r : Request) (w : World)
    → IsSafeSource c r
    → (id : Bytes) × (w' : World) × IsSafe id
      × (identify c next wr r w
          ≡ (set_header wr request_id_header id
                >> next wr (record r { context = with_request_id id r.context }))
              w')
unfolding identify resolve_id
identify-IsSafe c next wr r w h =
    let (id, w', e, safe) = ask_source-GivesSafe c.source c r w h in (id, w', safe, rw e refl)
