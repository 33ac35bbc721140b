-- ===== src/Http2/Observer/Rounds.antt =====
-- The loop of `Observer::feed`: it ends within its limit of frames, without a panic, and goes on
-- from where it waits.
use bagel.Prelude.{
  ℕ, zero, suc, ◌+◌, ◌-◌, ◌≤◌, ◌≡◌, refl, sym, ap, ◌∙◌, ◌≢◌, ◌⊎◌, inl, inr, true, false, Option,
  none, some, List, ◌++◌, arith, leb, if◌then◌else◌, Bool-cases, length,
}
use bagel.Http2.Wire.{limited, Result, ok, err, Ensures}
use bagel.Http2.Frame.{Frame, settings, decode}
use bagel.Http2.Frame.Streaming.{decode-append, decode_consumes}
use bagel.Http2.Hpack.Order.{PseudoHeader}
use bagel.Http2.Capture.{ConnectionCapture, Outcome, wait, done, frame}
use bagel.Http2.Capture.Ends.{IsNamed, frame-IsNamed}
use bagel.Http2.Observer.{
  Observer, Fed, waits, found, panics, feed_loop, next_frame, handle, kept, ended, stuck, Handled,
  finish_capture,
}
use bagel.Http2.Observer.Buffer.{Sight, sight}

-- A frame is handled without a panic.
abbrev IsSound : Result Handled → Type 0
IsSound (ok stuck) = ⊥
IsSound _ = Unit

module _ (digits : ℕ → ℕ) (huffman_decode : List ℕ → Option (List ℕ)) where
  finish_capture-IsSound :
      (c : ConnectionCapture) (order : List PseudoHeader) → IsSound (finish_capture digits c order)
  unfolding finish_capture
  finish_capture-IsSound c order = ground arith

  handle-IsSound :
      (c : Option ConnectionCapture) (f : Frame) → IsSound (handle digits huffman_decode c f)
  unfolding handle
  handle-IsSound none (settings s) = tt
  handle-IsSound none _ = tt
  handle-IsSound (some c) f = sound (frame huffman_decode c f) (frame-IsNamed huffman_decode c f)
    where
      sound :
          (r : Result Outcome)
          → Ensures IsNamed r
          → IsSound (elim r [
            | err e ↦ err e
            | ok (wait next) ↦ ok (kept next)
            | ok (done none) ↦ ok stuck
            | ok (done (some order)) ↦ finish_capture digits c order
          ])
      sound (err e) h = tt
      sound (ok (wait next)) h = tt
      sound (ok (done none)) h = let (order, e) = h.at (done none) refl in absurd (cc e)
      sound (ok (done (some order))) h = finish_capture-IsSound c order

-- What comes out of an observer of a buffer: no panic, the same buffer, a position that does not
-- go back and stays within it.
abbrev pub IsSafe : Observer → Result Fed → Type 0
IsSafe o (ok (waits p)) =
    (p.buffer ≡ o.buffer) × (o.position ≤ p.position) × (p.position ≤ length p.buffer)
IsSafe o (ok panics) = ⊥
IsSafe o _ = Unit

abbrev pub extend : List ℕ → Observer → Observer
extend zs o = record o { buffer = o.buffer ++ zs }

-- What more bytes make of a result.
abbrev pub resume : (Observer → Result Fed) → List ℕ → Result Fed → Result Fed
resume go zs (ok (waits o)) = go (extend zs o)
resume go zs r = r

module _ (digits : ℕ → ℕ) (huffman_decode : List ℕ → Option (List ℕ)) where
  abbrev pub run : Observer → Result Fed
  run o = feed_loop digits huffman_decode (suc (128 - o.frames)) o

  -- The observer after a frame.
  abbrev stepped : Observer → ℕ → ConnectionCapture → Observer
  stepped o consumed c = record {
    buffer = o.buffer;
    position = o.position + consumed;
    frames = o.frames + 1;
    capture = some c;
  }

  -- What a frame that is handled leads to.
  abbrev after_frame : ℕ → Observer → ℕ → Result Handled → Result Fed
  after_frame k o n (err e) = err e
  after_frame k o n (ok stuck) = ok panics
  after_frame k o n (ok (ended c)) = ok (found c)
  after_frame k o n (ok (kept c)) = feed_loop digits huffman_decode k (stepped o n c)

  -- One round of the loop.
  abbrev one_round : ℕ → Observer → Result (Option (Frame × ℕ)) → Result Fed
  one_round k o (err e) = err e
  one_round k o (ok none) = ok (waits o)
  one_round k o (ok (some (f, n))) =
      if leb 128 o.frames
      then err limited
      else after_frame k o n (handle digits huffman_decode o.capture f)

  feed_loop-one_round :
      (k : ℕ) (o : Observer) (r : Result (Option (Frame × ℕ)))
      → next_frame o.position o.buffer ≡ some r
      → feed_loop digits huffman_decode (suc k) o ≡ one_round k o r
  unfolding feed_loop
  feed_loop-one_round k o (err e) h = rw (h, feed_loop) refl
  feed_loop-one_round k o (ok none) h = rw (h, feed_loop) refl
  feed_loop-one_round k o (ok (some (f, n))) h =
      rw (h, feed_loop) (handled (handle digits huffman_decode o.capture f))
    where
      handled :
          (r : Result Handled)
          → (if leb 128 o.frames then err limited else elim r [
            | err e ↦ err e
            | ok stuck ↦ ok panics
            | ok (ended c) ↦ ok (found c)
            | ok (kept c) ↦ feed_loop digits huffman_decode k (stepped o n c)
          ])
            ≡ (if leb 128 o.frames then err limited else after_frame k o n r)
      handled (err e) = refl
      handled (ok stuck) = refl
      handled (ok (ended c)) = refl
      handled (ok (kept c)) = refl

  -- What holds of a round's result and of the same round with more bytes.
  abbrev pub Extends : Observer → List ℕ → Result Fed → Result Fed → Type 0
  Extends o zs long short = IsSafe o short × (long ≡ resume run zs short)

  -- Safety from the observer after a frame is safety from the one before.
  IsSafe-stepped :
      (o : Observer) (n : ℕ) (c : ConnectionCapture) (r : Result Fed)
      → IsSafe (stepped o n c) r
      → IsSafe o r
  IsSafe-stepped o n c (ok (waits p)) (same, on, in_reach) = (same, omega (arith, on), in_reach)
  IsSafe-stepped o n c (ok (found x)) h = tt
  IsSafe-stepped o n c (ok panics) h = absurd h
  IsSafe-stepped o n c (err e) h = tt

  one_round_lem :
      (k : ℕ) (o : Observer) (zs : List ℕ)
      → k ≡ 128 - o.frames
      → o.position ≤ length o.buffer
      → (leb 128 o.frames ≡ false
          → (n : ℕ) (c : ConnectionCapture) → o.position + n ≤ length o.buffer
          → Extends
              (stepped o n c)
              zs
              (feed_loop digits huffman_decode k (extend zs (stepped o n c)))
              (feed_loop digits huffman_decode k (stepped o n c)))
      → Extends o zs
          (feed_loop digits huffman_decode (suc k) (extend zs o))
          (feed_loop digits huffman_decode (suc k) o)
  one_round_lem k o zs h le next = let s = sight o.position o.buffer le in go s (decode s.rest) refl
    where
      longer :
          (s : Sight o.position o.buffer) (r : Result (Option (Frame × ℕ)))
          → decode s.rest ≡ r
          → r ≢ ok none
          → feed_loop digits huffman_decode (suc k) (extend zs o) ≡ one_round k (extend zs o) r
      longer s r d ne =
          feed_loop-one_round k (extend zs o) r
            (s.later zs ∙ ap some (decode-append s.rest zs (λ e. ne (sym d ∙ e)) ∙ d))

      handled :
          (n : ℕ) (r : Result Handled)
          → o.position + n ≤ length o.buffer
          → leb 128 o.frames ≡ false
          → IsSound r
          → Extends o zs (after_frame k (extend zs o) n r) (after_frame k o n r)
      handled n (err e) fits b sound = (tt, refl)
      handled n (ok stuck) fits b sound = absurd sound
      handled n (ok (ended c)) fits b sound = (tt, refl)
      handled n (ok (kept c)) fits b sound =
          let (safe, same) = next b n c fits in (IsSafe-stepped o n c _ safe, same)

      bounded :
          (f : Frame) (n : ℕ)
          → o.position + n ≤ length o.buffer
          → (leb 128 o.frames ≡ true) ⊎ (leb 128 o.frames ≡ false)
          → Extends o zs
              (one_round k (extend zs o) (ok (some (f, n))))
              (one_round k o (ok (some (f, n))))
      bounded f n fits (inl b) = rw b (tt, refl)
      bounded f n fits (inr b) = rw b (
          handled n (handle digits huffman_decode o.capture f) fits b
            (handle-IsSound digits huffman_decode o.capture f))

      go :
          (s : Sight o.position o.buffer) (r : Result (Option (Frame × ℕ)))
          → decode s.rest ≡ r
          → Extends o zs
              (feed_loop digits huffman_decode (suc k) (extend zs o))
              (feed_loop digits huffman_decode (suc k) o)
      go s (err e) d =
          rw (feed_loop-one_round k o (err e) (s.now ∙ ap some d), longer s (err e) d (λ n. cc n))
            (tt, refl)
      go s (ok none) d = rw (feed_loop-one_round k o (ok none) (s.now ∙ ap some d)) (
        (refl, omega arith, le),
        ap (λ j. feed_loop digits huffman_decode (suc j) (extend zs o)) h,
      )
      go s (ok (some (f, n))) d =
          let (_, fits, _) = decode_consumes s.rest f n d in
          rw
            (
              feed_loop-one_round k o (ok (some (f, n))) (s.now ∙ ap some d),
              longer s (ok (some (f, n))) d (λ m. cc m),
            )
            (bounded f n (omega (arith, fits, s.size)) (Bool-cases (leb 128 o.frames)))

  pub feed_loop_lem :
      (k : ℕ) (o : Observer) (zs : List ℕ)
      → k ≡ 128 - o.frames
      → o.position ≤ length o.buffer
      → Extends o zs
          (feed_loop digits huffman_decode (suc k) (extend zs o))
          (feed_loop digits huffman_decode (suc k) o)
  feed_loop_lem zero o zs h le = one_round_lem zero o zs h le λ b n c fits. absurd (ground arith)
  feed_loop_lem (suc k) o zs h le =
      one_round_lem (suc k) o zs h le
        λ b n c fits. feed_loop_lem k (stepped o n c) zs (omega (arith, h)) fits
