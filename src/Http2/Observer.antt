-- ===== src/Http2/Observer.antt =====
-- http2/mod.rs, `Http2Fingerprint`, `FingerprintStream` and `Observer`: the bytes that a connection
-- reads, up to its fingerprint. `huffman_decode` is `httlib_huffman::decode`, and `digits` the
-- length of what the standard library writes for a number.
pub mod Buffer
pub mod Rounds
pub mod Scan
pub mod Chunks
use bagel.Prelude.{
  ℕ, zero, suc, ◌+◌, ◌-◌, min, Bool, true, false, not, ◌&&◌, Option, none, some, List, [], ◌∷◌,
  ◌++◌, ltb, leb, ◌==◌, if◌then◌else◌, length,
}
use bagel.Http2.Wire.{CaptureError, incomplete, invalid, limited, Result, ok, err, split_at?}
use bagel.Http2.Frame.{Frame, settings, Settings, Priority, decode}
use bagel.Http2.Hpack.Order.{PseudoHeader}
use bagel.Http2.Capture.{ConnectionCapture, new_capture, Outcome, wait, done, frame}

-- `PRI * HTTP/2.0\r\n\r\nSM\r\n\r\n`
abbrev pub preface : List ℕ
preface =
    80 ∷ 82 ∷ 73 ∷ 32 ∷ 42 ∷ 32 ∷ 72 ∷ 84 ∷ 84 ∷ 80 ∷ 47 ∷ 50 ∷ 46 ∷ 48 ∷ 13 ∷ 10 ∷ 13 ∷ 10 ∷ 83
    ∷ 77 ∷ 13 ∷ 10 ∷ 13 ∷ 10 ∷ []

abbrev pub capture_limit : ℕ
capture_limit = 65536

pub record Http2Fingerprint : Type 0 where
  pub settings : Settings
  pub window_update : Option ℕ
  pub priorities : List Priority
  pub pseudo_headers : List PseudoHeader

-- `Capture<Http2Fingerprint>`
pub data Capture : Type 0 where
  unavailable : Capture
  failed : CaptureError → Capture
  complete : Http2Fingerprint → Capture

pub record Observer : Type 0 where
  pub buffer : List ℕ
  pub position : ℕ
  pub frames : ℕ
  pub capture : Option ConnectionCapture

-- What `Observer::feed` comes to when it gives no error: `Ok(None)`, `Ok(Some(..))` or a panic.
pub data Fed : Type 0 where
  waits : Observer → Fed
  found : Capture → Fed
  panics : Fed

-- What a frame comes to within its loop.
pub data Handled : Type 0 where
  kept : ConnectionCapture → Handled
  ended : Capture → Handled
  stuck : Handled

-- `&xs[..xs.len().min(n)]`
unfoldable pub first_bytes : ℕ → List ℕ → List ℕ
first_bytes zero xs = []
first_bytes (suc n) [] = []
first_bytes (suc n) (x ∷ xs) = x ∷ first_bytes n xs

unfoldable pub starts_with : List ℕ → List ℕ → Bool
starts_with xs [] = true
starts_with [] (y ∷ ys) = false
starts_with (x ∷ xs) (y ∷ ys) = x == y && starts_with xs ys

-- The buffer with as many of the incoming bytes as it has room for.
unfoldable pub filled : List ℕ → List ℕ → List ℕ
filled buffer incoming =
    buffer ++ first_bytes (min (capture_limit - length buffer) (length incoming)) incoming

-- `Frame::decode(&self.buffer[self.position..])`, `none` where the slice panics.
unfoldable pub next_frame : ℕ → List ℕ → Option (Result (Option (Frame × ℕ)))
next_frame position buffer = elim (split_at? position buffer) [
  | none ↦ none
  | some (_, rest) ↦ some (decode rest)
]

-- The lengths of the texts.
module _ (digits : ℕ → ℕ) where
  unfoldable pub settings_length : Settings → ℕ
  settings_length [] = 0
  settings_length ((id, value) ∷ []) = digits id + 1 + digits value
  settings_length ((id, value) ∷ s ∷ ss) =
      digits id + 1 + digits value + 1 + settings_length (s ∷ ss)

  unfoldable pub priority_length : Priority → ℕ
  priority_length p =
      digits p.stream
      + 1
      + digits (if p.exclusive then 1 else 0)
      + 1
      + digits p.parent
      + 1
      + digits (p.weight + 1)

  unfoldable pub priorities_length : List Priority → ℕ
  priorities_length [] = 1
  priorities_length (p ∷ []) = priority_length p
  priorities_length (p ∷ q ∷ ps) = priority_length p + 1 + priorities_length (q ∷ ps)

  unfoldable pub window_update_length : Option ℕ → ℕ
  window_update_length none = 2
  window_update_length (some value) = digits value

  unfoldable pub order_length : List PseudoHeader → ℕ
  order_length [] = 0
  order_length (h ∷ []) = 1
  order_length (h ∷ k ∷ hs) = 2 + order_length (k ∷ hs)

  unfoldable pub text_length : Http2Fingerprint → ℕ
  text_length f =
      settings_length f.settings
      + 1
      + window_update_length f.window_update
      + 1
      + priorities_length f.priorities
      + 1
      + order_length f.pseudo_headers

  -- The capture that a header block completes.
  unfoldable pub finish_capture : ConnectionCapture → List PseudoHeader → Result Handled
  finish_capture c order =
      let fingerprint : Http2Fingerprint = record {
        settings = c.settings;
        window_update = c.first_window_update;
        priorities = c.priorities;
        pseudo_headers = order;
      } in
      if ltb 4096 (text_length fingerprint) then err limited else ok (ended (complete fingerprint))

  module _ (huffman_decode : List ℕ → Option (List ℕ)) where
    unfoldable pub handle : Option ConnectionCapture → Frame → Result Handled
    handle none (settings s) = ok (kept (new_capture s))
    handle none _ = err invalid
    handle (some c) f = elim (frame huffman_decode c f) [
      | err e ↦ err e
      | ok (wait next) ↦ ok (kept next)
      | ok (done none) ↦ ok stuck
      | ok (done (some order)) ↦ finish_capture c order
    ]

    -- The `while let`, on fuel; where that runs out, `panics` stands for a loop without end.
    unfoldable pub feed_loop : ℕ → Observer → Result Fed
    feed_loop zero o = ok panics
    feed_loop (suc left) o = elim (next_frame o.position o.buffer) [
      | none ↦ ok panics
      | some (err e) ↦ err e
      | some (ok none) ↦ ok (waits o)
      | some (ok (some (f, consumed))) ↦
          if leb 128 o.frames then err limited else elim (handle o.capture f) [
            | err e ↦ err e
            | ok stuck ↦ ok panics
            | ok (ended c) ↦ ok (found c)
            | ok (kept c) ↦ feed_loop left (record {
              buffer = o.buffer;
              position = o.position + consumed;
              frames = o.frames + 1;
              capture = some c;
            })
          ]
    ]

    -- What follows the loop.
    unfoldable pub after_loop : Result Fed → Result Fed
    after_loop (ok (waits o)) =
        if length o.buffer == capture_limit then err limited else ok (waits o)
    after_loop r = r

    -- One round more than there are frames left of the 128.
    unfoldable pub scan_frames : Observer → Result Fed
    scan_frames o = after_loop (feed_loop (suc (128 - o.frames)) o)

    -- `feed` once the buffer is filled.
    unfoldable pub examine : Observer → Result Fed
    examine o =
        if o.position == 0
        then (if not (starts_with preface (first_bytes 24 o.buffer))
            then ok (found unavailable)
            else if ltb (length o.buffer) 24
            then ok (waits o)
            else scan_frames (record o { position = 24 }))
        else scan_frames o

    unfoldable pub feed : Observer → List ℕ → Result Fed
    feed o incoming = examine (record o { buffer = filled o.buffer incoming })

-- `inner` left out.
pub record FingerprintStream : Type 0 where
  pub observer : Option Observer
  pub fingerprint : Capture

abbrev pub new_stream : FingerprintStream
new_stream = record {
  observer = some (record { buffer = []; position = 0; frames = 0; capture = none });
  fingerprint = failed incomplete;
}

module _ (digits : ℕ → ℕ) (huffman_decode : List ℕ → Option (List ℕ)) where
  -- What a result of `feed` makes of the stream, `none` where `feed` panics.
  unfoldable pub publish : Capture → Result Fed → Option FingerprintStream
  publish old (err e) = some (record { observer = none; fingerprint = failed e })
  publish old (ok (found c)) = some (record { observer = none; fingerprint = c })
  publish old (ok (waits o)) = some (record { observer = some o; fingerprint = old })
  publish old (ok panics) = none

  -- `poll_read` after the inner stream has read the bytes.
  unfoldable pub poll_read : FingerprintStream → List ℕ → Option FingerprintStream
  poll_read s [] = some s
  poll_read s (b ∷ bs) = elim s.observer [
    | none ↦ some s
    | some o ↦ publish s.fingerprint (feed digits huffman_decode o (b ∷ bs))
  ]
