-- ===== src/Http2/Observer/Scan.antt =====
-- What `Observer::feed` does once the buffer is filled: the preface, the loop and the buffer's limit.
use bagel.Prelude.{
  ℕ, ◌-◌, ◌≤◌, ◌<◌, ◌≡◌, refl, sym, ap, ◌∙◌, inl, inr, true, false, Option, List, [], ◌++◌, arith,
  ltb, ◌==◌, Bool-cases, ==→≡, length,
}
use mathlib.Core.List.{append-nil}
use bagel.Http2.Wire.{Result, ok, err}
use bagel.Http2.Observer.{
  Observer, Fed, waits, found, panics, first_bytes, starts_with, preface, scan_frames, examine,
  after_loop, unavailable,
}
use bagel.Http2.Observer.Buffer.{
  first_bytes_cong, first_bytes-append, length-append, starts_with-append,
}
use bagel.Http2.Observer.Rounds.{IsSafe, extend, run, resume, feed_loop_lem}

module _ (digits : ℕ → ℕ) (huffman_decode : List ℕ → Option (List ℕ)) where
  -- What follows the loop, where the buffer is not full.
  after_loop_lem :
      (o : Observer) (zs : List ℕ) (r : Result Fed)
      → (length o.buffer == 65536) ≡ false
      → IsSafe o r
      → IsSafe o (after_loop digits huffman_decode r)
        × (after_loop digits huffman_decode (resume (run digits huffman_decode) zs r)
            ≡ resume (scan_frames digits huffman_decode) zs (after_loop digits huffman_decode r))
  unfolding after_loop scan_frames
  after_loop_lem o zs (err e) b h = (tt, refl)
  after_loop_lem o zs (ok (found c)) b h = (tt, refl)
  after_loop_lem o zs (ok panics) b h = absurd h
  after_loop_lem o zs (ok (waits p)) b h =
      let room : (length p.buffer == 65536) ≡ false = ap (λ xs. length xs == 65536) h.0 ∙ b in
      rw room (h, refl)

  -- Where it is full, the capture ends.
  after_loop-full :
      (o : Observer) (zs : List ℕ) (r : Result Fed)
      → (length o.buffer == 65536) ≡ true
      → IsSafe o r
      → IsSafe o (after_loop digits huffman_decode r)
        × (after_loop digits huffman_decode r
            ≡ resume (scan_frames digits huffman_decode) zs (after_loop digits huffman_decode r))
  unfolding after_loop
  after_loop-full o zs (err e) b h = (tt, refl)
  after_loop-full o zs (ok (found c)) b h = (tt, refl)
  after_loop-full o zs (ok panics) b h = absurd h
  after_loop-full o zs (ok (waits p)) b h =
      let full : (length p.buffer == 65536) ≡ true = ap (λ xs. length xs == 65536) h.0 ∙ b in
      rw full (tt, refl)

  extend-nil : (o : Observer) (zs : List ℕ) → zs ≡ [] → extend zs o ≡ o
  extend-nil o zs h = ap (λ xs. record o { buffer = xs }) (rw h (append-nil o.buffer))

  scan_frames_lem :
      (o : Observer) (zs : List ℕ)
      → o.position ≤ length o.buffer
      → (length o.buffer ≡ 65536 → zs ≡ [])
      → IsSafe o (scan_frames digits huffman_decode o)
        × (scan_frames digits huffman_decode (extend zs o)
            ≡ resume (scan_frames digits huffman_decode) zs (scan_frames digits huffman_decode o))
  scan_frames_lem o zs le full =
      let (safe, same) = feed_loop_lem digits huffman_decode (128 - o.frames) o zs refl le in
      elim (Bool-cases (length o.buffer == 65536)) [
        | inl b ↦
            let (still, last) = after_loop-full o zs (run digits huffman_decode o) b safe in
            unfold scan_frames in
            (
              still,
              ap (scan_frames digits huffman_decode) (extend-nil o zs (full (==→≡ _ _ b))) ∙ last,
            )
        | inr b ↦
            let (still, later) = after_loop_lem o zs (run digits huffman_decode o) b safe in
            unfold scan_frames in (still, ap (after_loop digits huffman_decode) same ∙ later)
      ]

  -- The results of an observer that has passed the preface are those of another before it.
  IsSafe-moved :
      (o q : Observer) (r : Result Fed)
      → q.buffer ≡ o.buffer
      → o.position ≤ q.position
      → IsSafe q r
      → IsSafe o r
  IsSafe-moved o q (ok (waits p)) e le (same, on, in_reach) =
      (same ∙ e, omega (arith, le, on), in_reach)
  IsSafe-moved o q (ok (found x)) e le h = tt
  IsSafe-moved o q (ok panics) e le h = absurd h
  IsSafe-moved o q (err x) e le h = tt

  examine-scan_frames :
      (o : Observer)
      → 0 < o.position
      → examine digits huffman_decode o ≡ scan_frames digits huffman_decode o
  unfolding examine
  examine-scan_frames o h = let e : (o.position == 0) ≡ false = ground arith in rw e refl

  resume-examine :
      (o : Observer) (zs : List ℕ) (r : Result Fed)
      → 0 < o.position
      → IsSafe o r
      → resume (scan_frames digits huffman_decode) zs r
        ≡ resume (examine digits huffman_decode) zs r
  resume-examine o zs (ok (waits p)) h (same, on, in_reach) =
      sym (examine-scan_frames (extend zs p) (omega (arith, h, on)))
  resume-examine o zs (ok (found x)) h safe = refl
  resume-examine o zs (ok panics) h safe = refl
  resume-examine o zs (err x) h safe = refl

  -- The longer buffer begins as the shorter one does, once that holds the preface.
  preface-append : (xs zs : List ℕ) → 24 ≤ length xs → first_bytes 24 (xs ++ zs) ≡ first_bytes 24 xs
  preface-append xs zs h =
      first_bytes-append 24 xs zs
      ∙ ap (λ m. first_bytes 24 xs ++ m)
          (first_bytes_cong (24 - length xs) 0 zs (omega (arith, h)) ∙ first_bytes_zero zs)
      ∙ append-nil (first_bytes 24 xs)
    where
      first_bytes_zero : (zs : List ℕ) → first_bytes 0 zs ≡ []
      first_bytes_zero zs = unfold first_bytes in refl

  examine-mismatch :
      (o : Observer)
      → (o.position == 0) ≡ true
      → starts_with preface (first_bytes 24 o.buffer) ≡ false
      → examine digits huffman_decode o ≡ ok (found unavailable)
  unfolding examine
  examine-mismatch o z b = rw (z, b) refl

  examine-short :
      (o : Observer)
      → (o.position == 0) ≡ true
      → starts_with preface (first_bytes 24 o.buffer) ≡ true
      → ltb (length o.buffer) 24 ≡ true
      → examine digits huffman_decode o ≡ ok (waits o)
  unfolding examine
  examine-short o z b l = rw (z, b, l) refl

  examine-begun :
      (o : Observer)
      → (o.position == 0) ≡ true
      → starts_with preface (first_bytes 24 o.buffer) ≡ true
      → ltb (length o.buffer) 24 ≡ false
      → examine digits huffman_decode o
        ≡ scan_frames digits huffman_decode (record o { position = 24 })
  unfolding examine
  examine-begun o z b l = rw (z, b, l) refl

  -- At the start of the connection.
  examine-start :
      (o : Observer) (zs : List ℕ)
      → (o.position == 0) ≡ true
      → (length o.buffer ≡ 65536 → zs ≡ [])
      → IsSafe o (examine digits huffman_decode o)
        × (examine digits huffman_decode (extend zs o)
            ≡ resume (examine digits huffman_decode) zs (examine digits huffman_decode o))
  examine-start o zs z full = elim (Bool-cases (starts_with preface (first_bytes 24 o.buffer))) [
    | inr b ↦
        rw
          (
            examine-mismatch o z b,
            examine-mismatch (extend zs o) z (starts_with-append preface o.buffer zs b),
          )
          (tt, refl)
    | inl b ↦ elim (Bool-cases (ltb (length o.buffer) 24)) [
      | inl l ↦ rw (examine-short o z b l) ((refl, omega arith, ground arith), refl)
      | inr l ↦
          let long : 24 ≤ length o.buffer = ground arith in
          let more_long : ltb (length (o.buffer ++ zs)) 24 ≡ false =
            ground (arith, length-append o.buffer zs, long) in
          let begins = ap (starts_with preface) (preface-append o.buffer zs long) ∙ b in
          let q = record o { position = 24 } in
          let (safe, same) = scan_frames_lem q zs long full in
          rw (examine-begun o z b l, examine-begun (extend zs o) z begins more_long)
            (
              IsSafe-moved o q _ refl (ground arith) safe,
              same ∙ resume-examine q zs _ (omega arith) safe,
            )
    ]
  ]

  pub examine_lem :
      (o : Observer) (zs : List ℕ)
      → o.position ≤ length o.buffer
      → (length o.buffer ≡ 65536 → zs ≡ [])
      → IsSafe o (examine digits huffman_decode o)
        × (examine digits huffman_decode (extend zs o)
            ≡ resume (examine digits huffman_decode) zs (examine digits huffman_decode o))
  examine_lem o zs le full = elim (Bool-cases (o.position == 0)) [
    | inl z ↦ examine-start o zs z full
    | inr z ↦
        let past : 0 < o.position = ground arith in
        let (safe, same) = scan_frames_lem o zs le full in
        rw (examine-scan_frames o past, examine-scan_frames (extend zs o) past)
          (safe, same ∙ resume-examine o zs _ past safe)
  ]

  -- An observer that goes on has room left.
  abbrev pub IsRoomy : Result Fed → Type 0
  IsRoomy (ok (waits p)) = (length p.buffer == 65536) ≡ false
  IsRoomy _ = Unit

  after_loop-IsRoomy : (r : Result Fed) → IsRoomy (after_loop digits huffman_decode r)
  unfolding after_loop
  after_loop-IsRoomy (err e) = tt
  after_loop-IsRoomy (ok (found c)) = tt
  after_loop-IsRoomy (ok panics) = tt
  after_loop-IsRoomy (ok (waits p)) = elim (Bool-cases (length p.buffer == 65536)) [
    | inl b ↦ rw b tt
    | inr b ↦ rw b b
  ]

  scan_frames-IsRoomy : (o : Observer) → IsRoomy (scan_frames digits huffman_decode o)
  unfolding scan_frames
  scan_frames-IsRoomy o = after_loop-IsRoomy (run digits huffman_decode o)

  pub examine-IsRoomy : (o : Observer) → IsRoomy (examine digits huffman_decode o)
  examine-IsRoomy o = elim (Bool-cases (o.position == 0)) [
    | inr z ↦ rw (examine-scan_frames o (ground arith)) (scan_frames-IsRoomy o)
    | inl z ↦ elim (Bool-cases (starts_with preface (first_bytes 24 o.buffer))) [
      | inr b ↦ rw (examine-mismatch o z b) tt
      | inl b ↦ elim (Bool-cases (ltb (length o.buffer) 24)) [
        | inl l ↦ rw (examine-short o z b l) (ground arith)
        | inr l ↦ rw (examine-begun o z b l) (scan_frames-IsRoomy (record o { position = 24 }))
      ]
    ]
  ]
