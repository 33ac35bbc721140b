-- ===== src/Http2/Frame.antt =====
-- http2/frame.rs. `flags & 2^k` is the bit `flags / 2^k % 2`, and `x & 0x7FFF_FFFF` is `x % 2^31`.
pub mod Streaming
use bagel.Prelude.{
  ℕ, ◌+◌, ◌-◌, ◌*◌, ◌/◌, ◌%◌, ◌^◌, Bool, true, false, not, ◌&&◌, ◌||◌, Option, none, some, List, [],
  ◌∷◌, ltb, leb, ◌==◌, if◌then◌else◌, length,
}
use bagel.Http2.Wire.{
  CaptureError, invalid, limited, Result, ok, err, ◌>>=◌, split_at?, take, byte, u16, u24, u32,
  finish, split_at?-append, split_at?-length,
}

pub record Priority : Type 0 where
  pub stream : ℕ
  pub exclusive : Bool
  pub parent : ℕ
  pub weight : ℕ

pub record HeaderFragment : Type 0 where
  pub stream : ℕ
  pub block : List ℕ
  pub complete : Bool

-- The pairs of identifier and value, in the order of the frame.
abbrev pub Settings : Type 0
Settings = List (ℕ × ℕ)

pub data Frame : Type 0 where
  settings : Settings → Frame
  settings_ack : Frame
  window_update : ℕ → ℕ → Frame
  priority : Priority → Frame
  headers : HeaderFragment → Frame
  continuation : HeaderFragment → Frame
  other : Frame

abbrev pub bit : ℕ → ℕ → Bool
bit k flags = flags / 2 ^ k % 2 == 1

abbrev pub low31 : ℕ → ℕ
low31 x = x % 2147483648

-- The values that the loop of `Settings::try_from` refuses.
unfoldable pub is_bad_setting : ℕ → ℕ → Bool
is_bad_setting id value =
    (id == 2 || id == 8 || id == 9) && ltb 1 value
    || id == 4 && ltb 2147483647 value
    || id == 5 && not (leb 16384 value && leb value 16777215)

unfoldable pub read_settings : List ℕ → Result Settings
read_settings [] = ok []
read_settings (a ∷ b ∷ c ∷ d ∷ e ∷ f ∷ rest) =
    let id = a * 256 + b in
    let value = c * 16777216 + d * 65536 + e * 256 + f in
    let entries = read_settings rest in
    if is_bad_setting id value then err invalid else do es ← entries; ok ((id, value) ∷ es)
read_settings _ = err invalid

unfoldable pub read_priority : ℕ → List ℕ → Result (Priority × List ℕ)
read_priority stream input = do
  (dependency, input) ← u32 input
  let parent = low31 dependency
  if stream == 0 || stream == parent then err invalid else do
    (weight, input) ← byte input
    ok (
      record {
        stream = stream;
        exclusive = not (dependency / 2147483648 == 0);
        parent = parent;
        weight = weight;
      },
      input,
    )

-- Padding is cut from the end of a HEADERS frame.
pub unpad : Bool → List ℕ → Result (List ℕ)
unpad false body = ok body
unpad true body = do
  (padding, body) ← byte body
  if ltb (length body) padding
      then err invalid
      else do (kept, _) ← take (length body - padding) body; ok kept

pub skip_priority : Bool → ℕ → List ℕ → Result (List ℕ)
skip_priority false stream body = ok body
skip_priority true stream body = do (_, rest) ← read_priority stream body; ok rest

unfoldable pub read_fragment : Bool → ℕ → ℕ → List ℕ → Result HeaderFragment
unfolding unpad skip_priority
read_fragment is_headers flags stream body =
    if stream == 0 || stream % 2 == 0 then err invalid else do
      body ← unpad (is_headers && bit 3 flags) body
      body ← skip_priority (is_headers && bit 5 flags) stream body
      ok (record { stream = stream; block = body; complete = bit 2 flags })

pub read_settings_frame : ℕ → ℕ → List ℕ → Result Frame
read_settings_frame flags stream payload =
    if not (stream == 0)
    then err invalid
    else if bit 0 flags
    then (do _ ← finish payload; ok settings_ack)
    else do es ← read_settings payload; ok (settings es)

pub read_window_update : ℕ → List ℕ → Result Frame
read_window_update stream payload = do
  (raw, rest) ← u32 payload
  if low31 raw == 0 then err invalid else do _ ← finish rest; ok (window_update stream (low31 raw))

unfoldable pub read_payload : ℕ → ℕ → ℕ → List ℕ → Result Frame
unfolding read_settings_frame read_window_update
read_payload kind flags stream payload =
    if kind == 4
    then read_settings_frame flags stream payload
    else if kind == 8
    then read_window_update stream payload
    else if kind == 2
    then (do (p, rest) ← read_priority stream payload; _ ← finish rest; ok (priority p))
    else if kind == 1
    then (do f ← read_fragment true flags stream payload; ok (headers f))
    else if kind == 9
    then (do f ← read_fragment false flags stream payload; ok (continuation f))
    else if kind == 0 || kind == 5
    then err invalid
    else ok other

-- The frame whose header has been read, once its payload is there.
unfoldable pub read_body : ℕ → ℕ → ℕ → ℕ → List ℕ → Result (Option (Frame × ℕ))
read_body n kind flags stream input = elim (split_at? n input) [
  | none ↦ ok none
  | some (payload, _) ↦ do frame ← read_payload kind flags stream payload; ok (some (frame, 9 + n))
]

unfoldable pub decode : List ℕ → Result (Option (Frame × ℕ))
decode bytes = if ltb (length bytes) 9 then ok none else do
  (n, input) ← u24 bytes
  if ltb 16384 n then err limited else do
    (kind, input) ← byte input
    (flags, input) ← byte input
    (raw, input) ← u32 input
    read_body n kind flags (low31 raw) input
