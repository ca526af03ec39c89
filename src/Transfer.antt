-- ===== src/Transfer.antt =====
-- transfer.go: `Transfer`. A `time.Duration` is its nanoseconds, and so is the time, from the Unix epoch;
-- the operations on float64 are `FloatApi`.
pub mod Bounds
use go_web_sdk.Text.{codes, Bytes}
use go_web_sdk.Http.Request.{Request}
use go_web_sdk.Http.Writer.{connection, recorder, miss, Writer}
use go_web_sdk.Config.{second, Config, finalized}
use go_web_sdk.Text.Int.{negsuc, max_int, pos, leb_ℤ, ltb_ℤ, ℤ}
use go_web_sdk.Http.World.{
  unsupported, failing, Refusal, thrown, Deadlines, PanicValue, ◌>>=◌, ◌>>◌, pure, raise, returned,
  Run, Effect, World,
}
use go_web_sdk.Common.{
  false, ◌-◌, ◌++◌, true, ◌+◌, ◌&&◌, ◌||◌, Bool, ℕ, if◌then◌else◌, Option, none, some, ok, err,
  panicked,
}

-- float64, as far as `Duration` uses it: `at_max` is `d >= math.MaxInt64`, and `truncated` converts to an
-- int64.
pub record FloatApi : Type 1 where
  pub Float : Type 0
  pub from_int : ℤ → Float
  pub div : Float → Float → Float
  pub mul : Float → Float → Float
  pub add : Float → Float → Float
  pub at_max : Float → Bool
  pub truncated : Float → ℤ

pub record Transfer : Type 0 where
  pub limit : ℤ
  pub rate : ℤ
  pub grace : ℤ
  pub read : Bool
  pub write : Bool

-- `NewTransfer`; `none` is a panic.
unfoldable pub new_transfer : ℤ → ℤ → ℤ → Option Transfer
new_transfer limit rate grace =
    if ltb_ℤ limit (pos 0) || (leb_ℤ rate (pos 0) || ltb_ℤ grace (pos 0))
    then none
    else some (record { limit = limit; rate = rate; grace = grace; read = true; write = true })

abbrev pub max_ℤ : ℤ → ℤ → ℤ
max_ℤ a b = if ltb_ℤ a b then b else a

-- `Config.Transfer`, on fields that the check has found set.
unfoldable pub transfer_of : ℤ → ℤ → ℤ → ℤ → Option Transfer
unfolding new_transfer
transfer_of limit rate read write = elim (new_transfer limit rate (max_ℤ read write)) [
  | none ↦ none
  | some t ↦ some (record t { read = ltb_ℤ (pos 0) read; write = ltb_ℤ (pos 0) write })
]

abbrev pub all_three :
    Option ℤ → Option ℤ → Option ℤ → (ℤ → ℤ → ℤ → Option Transfer) → Option Transfer
all_three (some a) (some b) (some c) f = f a b c
all_three (some a) (some b) none f = none
all_three (some a) none c f = none
all_three none b c f = none

-- `Config.Transfer`
unfoldable pub config_transfer : Config → ℤ → Option Transfer
unfolding finalized transfer_of
config_transfer c limit =
    if finalized c
    then all_three c.transfer_rate c.read_timeout c.write_timeout (transfer_of limit)
    else none

-- `Transfer.check`: a zero rate panics.
abbrev pub zero_transfer : PanicValue
zero_transfer = thrown (codes "web: zero Transfer: build it with Config.Transfer or NewTransfer")

unfoldable pub check_transfer : Transfer → Effect
check_transfer t =
    if leb_ℤ t.rate (pos 0) && leb_ℤ (pos 0) t.rate then raise zero_transfer else pure tt

-- `Transfer.Limit`
unfoldable pub limit_of : Transfer → Run ℤ
unfolding check_transfer
limit_of t = check_transfer t >> pure t.limit

-- The size that counts: capped at the limit, which stands for a negative one.
unfoldable pub counted : Transfer → ℤ → ℤ
counted t size = if ltb_ℤ size (pos 0) || ltb_ℤ t.limit size then t.limit else size

abbrev pub max_duration : ℤ
max_duration = pos max_int

-- `d == math.MaxInt64`
abbrev pub is_saturated : ℤ → Bool
is_saturated d = leb_ℤ max_duration d && leb_ℤ d max_duration

-- `time.Now().Add(d)`, or no deadline for a saturated duration. (A time before the epoch is the epoch.)
abbrev pub add_time : ℕ → ℤ → ℕ
add_time now (pos n) = now + n
add_time now (negsuc n) = now - (n + 1)

unfoldable pub deadline : ℤ → Run (Option ℕ)
deadline d w = returned (if is_saturated d then none else some (add_time w.clock d)) w

-- The refusal of a writer without deadlines is dropped, any other is the error.
abbrev pub refusal_text : Option Refusal → Bytes → Option Bytes
refusal_text none what = none
refusal_text (some unsupported) what = none
refusal_text (some (failing t)) what = some (what ++ (codes ": " ++ t))

-- The connection takes a deadline unless it refuses.
abbrev pub take_deadlines : Deadlines → Deadlines → Run (Option Refusal)
take_deadlines old new w = elim old.refusal [
  | none ↦ returned none (record w { deadlines = new })
  | some r ↦ returned (some r) w
]

-- `http.ResponseController` unwraps recorders; a miss recorder has no deadlines.
unfoldable pub set_read_deadline : Writer → Option ℕ → Run (Option Refusal)
set_read_deadline connection at w =
    take_deadlines w.deadlines (record (w.deadlines) { read = at }) w
set_read_deadline (miss i) at w = returned (some unsupported) w
set_read_deadline (recorder i beneath) at w = set_read_deadline beneath at w

unfoldable pub set_write_deadline : Writer → Option ℕ → Run (Option Refusal)
set_write_deadline connection at w =
    take_deadlines w.deadlines (record (w.deadlines) { write = at }) w
set_write_deadline (miss i) at w = returned (some unsupported) w
set_write_deadline (recorder i beneath) at w = set_write_deadline beneath at w

-- The write deadline of an upload: a grace after the read deadline.
abbrev pub graced : Option ℕ → ℤ → Option ℕ
graced none grace = none
graced (some at) grace = some (add_time at grace)

-- A deadline that the transfer leaves alone is not set.
abbrev pub widen : Bool → Run (Option Refusal) → Run (Option Refusal)
widen true set = set
widen false set = pure none

module _ (api : FloatApi) where
  open api use {from_int, div, mul, add, at_max, truncated}

  -- The computation of `Transfer.Duration` behind its check.
  unfoldable pub duration_of : Transfer → ℤ → ℤ
  unfolding counted
  duration_of t size =
      let d =
        add (from_int t.grace)
          (mul (div (from_int (counted t size)) (from_int t.rate)) (from_int (pos second))) in
      if at_max d then max_duration else truncated d

  -- `Transfer.Duration`
  unfoldable pub duration : Transfer → ℤ → Run ℤ
  unfolding check_transfer duration_of
  duration t size = check_transfer t >> pure (duration_of t size)

  -- `Transfer.WidenUpload`: the text of the error, or none.
  unfoldable pub widen_upload : Transfer → Writer → Request → Run (Option Bytes)
  unfolding duration deadline set_read_deadline set_write_deadline
  widen_upload t wr r = do
    d ← duration t r.content_length
    read ← deadline d
    refused ← widen t.read (set_read_deadline wr read)
    elim (refusal_text refused (codes "set the read deadline")) [
      | some text ↦ pure (some text)
      | none ↦ widen t.write (set_write_deadline wr (graced read t.grace)) >>= λ refused'.
          pure (refusal_text refused' (codes "set the write deadline"))
    ]

  -- `Transfer.WidenDownload`
  unfoldable pub widen_download : Transfer → Writer → ℤ → Run (Option Bytes)
  unfolding duration deadline set_write_deadline
  widen_download t wr size = do
    d ← duration t size
    if t.write
        then (deadline d >>= λ at. set_write_deadline wr at >>= λ refused.
            pure (refusal_text refused (codes "set the write deadline")))
        else pure none
