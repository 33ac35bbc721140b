-- ===== src/Http2/Capture.antt =====
-- http2/mod.rs, `ConnectionCapture`: what one frame changes, from the first SETTINGS up to the end
-- of the first header block. `huffman_decode` is `httlib_huffman::decode`.
pub mod Ends
use bagel.Prelude.{ℕ, not, Option, none, some, List, [], ◌∷◌, ◌++◌, ◌==◌, if◌then◌else◌}
use bagel.Http2.Wire.{invalid, Result, ok, err, ◌>>=◌}
use bagel.Http2.Frame.{
  Frame, settings, settings_ack, window_update, priority, headers, continuation, other, Priority,
  Settings, HeaderFragment,
}
use bagel.Http2.Hpack.Order.{PseudoHeader, parse}

pub data HeaderBlock : Type 0 where
  pending : HeaderBlock
  continuing : ℕ → List ℕ → HeaderBlock

pub record ConnectionCapture : Type 0 where
  pub settings : Settings
  pub first_window_update : Option ℕ
  pub priorities : List Priority
  pub block : HeaderBlock

unfoldable pub new_capture : Settings → ConnectionCapture
new_capture s = record {
  settings = s;
  first_window_update = none;
  priorities = [];
  block = pending;
}

-- What a frame leads to: more frames, or the result of reading the header block.
pub data Outcome : Type 0 where
  wait : ConnectionCapture → Outcome
  done : Option (List PseudoHeader) → Outcome

pub with_block : HeaderBlock → ConnectionCapture → ConnectionCapture
with_block b c = record {
  settings = c.settings;
  first_window_update = c.first_window_update;
  priorities = c.priorities;
  block = b;
}

-- The first increment of the connection's window, `get_or_insert`.
unfoldable pub with_window_update : ℕ → ℕ → ConnectionCapture → ConnectionCapture
with_window_update stream increment c =
    if stream == 0
    then record {
      settings = c.settings;
      first_window_update =
          some (elim c.first_window_update [ none ↦ increment | some first ↦ first ]);
      priorities = c.priorities;
      block = c.block;
    }
    else c

unfoldable pub with_priority : Priority → ConnectionCapture → ConnectionCapture
with_priority p c = record {
  settings = c.settings;
  first_window_update = c.first_window_update;
  priorities = c.priorities ++ (p ∷ []);
  block = c.block;
}

module _ (huffman_decode : List ℕ → Option (List ℕ)) where
  pub read_block : List ℕ → Result Outcome
  read_block encoded = do order ← parse huffman_decode encoded; ok (done order)

  pub on_frame : HeaderBlock → Frame → ConnectionCapture → Result Outcome
  on_frame pending (headers f) c =
      if f.complete
      then read_block f.block
      else ok (wait (with_block (continuing f.stream f.block) c))
  on_frame (continuing stream encoded) (continuation f) c =
      if not (stream == f.stream)
      then err invalid
      else if f.complete
      then read_block (encoded ++ f.block)
      else ok (wait (with_block (continuing stream (encoded ++ f.block)) c))
  on_frame pending (window_update stream increment) c =
      ok (wait (with_window_update stream increment c))
  on_frame pending (priority p) c = ok (wait (with_priority p c))
  on_frame pending (settings s) c = ok (wait c)
  on_frame pending settings_ack c = ok (wait c)
  on_frame pending other c = ok (wait c)
  on_frame _ _ c = err invalid

  pub frame : ConnectionCapture → Frame → Result Outcome
  frame c f = on_frame c.block f c
