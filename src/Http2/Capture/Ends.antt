-- ===== src/Http2/Capture/Ends.antt =====
-- `ConnectionCapture::frame` reads a header block without a panic.
use bagel.Prelude.{ℕ, ◌≡◌, not, Option, some, List, ◌==◌}
use bagel.Http2.Wire.{Ensures, Ensures-ok, Ensures-err, Ensures-bind, Ensures-if}
use bagel.Http2.Frame.{
  Frame, settings, settings_ack, window_update, priority, headers, continuation, other,
}
use bagel.Http2.Hpack.Order.{PseudoHeader}
use bagel.Http2.Hpack.Order.Ends.{parse_ends}
use bagel.Http2.Capture.{
  ConnectionCapture, HeaderBlock, pending, continuing, Outcome, wait, done, read_block, on_frame,
  frame,
}

-- The result of a header block that is read is there.
abbrev pub IsNamed : Outcome → Type 0
IsNamed (wait c) = Unit
IsNamed (done r) = (order : List PseudoHeader) × (r ≡ some order)

module _ (huffman_decode : List ℕ → Option (List ℕ)) where
  read_block-IsNamed : (encoded : List ℕ) → Ensures IsNamed (read_block huffman_decode encoded)
  unfolding read_block
  read_block-IsNamed encoded = Ensures-bind λ r e.
      let (order, named, _) = (parse_ends huffman_decode encoded).at r e in
      Ensures-ok (done r) (order, named)

  on_frame-IsNamed :
      (b : HeaderBlock) (f : Frame) (c : ConnectionCapture)
      → Ensures IsNamed (on_frame huffman_decode b f c)
  unfolding on_frame
  on_frame-IsNamed pending (headers f) c =
      Ensures-if f.complete (λ _. read_block-IsNamed f.block) (λ _. Ensures-ok _ tt)
  on_frame-IsNamed (continuing stream encoded) (continuation f) c =
      Ensures-if (not (stream == f.stream)) (λ _. Ensures-err _)
        λ _. Ensures-if f.complete (λ _. read_block-IsNamed _) (λ _. Ensures-ok _ tt)
  on_frame-IsNamed pending (window_update stream increment) c = Ensures-ok _ tt
  on_frame-IsNamed pending (priority p) c = Ensures-ok _ tt
  on_frame-IsNamed pending (settings s) c = Ensures-ok _ tt
  on_frame-IsNamed pending settings_ack c = Ensures-ok _ tt
  on_frame-IsNamed pending other c = Ensures-ok _ tt
  on_frame-IsNamed _ _ c = Ensures-err _

  pub frame-IsNamed :
      (c : ConnectionCapture) (f : Frame) → Ensures IsNamed (frame huffman_decode c f)
  unfolding frame
  frame-IsNamed c f = on_frame-IsNamed c.block f c
