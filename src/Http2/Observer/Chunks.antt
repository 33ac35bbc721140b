-- ===== src/Http2/Observer/Chunks.antt =====
-- `FingerprintStream`: the reads that the bytes arrive in do not show in the fingerprint.
use bagel.Prelude.{
  ℕ, ◌-◌, ◌≤◌, ◌<◌, min, ◌≡◌, refl, sym, ap, ◌∙◌, Option, none, some, List, [], ◌∷◌, ◌++◌, arith,
  length,
}
use mathlib.Core.List.{append-nil}
use bagel.Http2.Wire.{Result, ok, err}
use bagel.Http2.Observer.{
  Observer, Fed, waits, found, panics, first_bytes, filled, examine, feed, failed,
  FingerprintStream, new_stream, publish, poll_read, Capture,
}
use bagel.Http2.Observer.Buffer.{first_bytes_cong, filled-append, filled-length, filled-grows}
use bagel.Http2.Observer.Rounds.{IsSafe, resume}
use bagel.Http2.Observer.Scan.{examine_lem, IsRoomy, examine-IsRoomy}

-- What a buffer takes of the bytes.
abbrev taken : List ℕ → List ℕ → List ℕ
taken b ys = first_bytes (min (65536 - length b) (length ys)) ys

taken-full : (b ys : List ℕ) → length b ≡ 65536 → taken b ys ≡ []
taken-full b ys h =
    first_bytes_cong (min (65536 - length b) (length ys)) 0 ys (omega (arith, h))
    ∙ (unfold first_bytes in refl)

-- The position and the buffer of the observer, while there is one.
abbrev pub IsWithin : FingerprintStream → Type 0
IsWithin s = elim s.observer [
  | none ↦ Unit
  | some o ↦ (o.position ≤ length o.buffer) × (length o.buffer < 65536)
]

abbrev pub joined : List (List ℕ) → List ℕ
joined [] = []
joined (c ∷ cs) = c ++ joined cs

module _ (digits : ℕ → ℕ) (huffman_decode : List ℕ → Option (List ℕ)) where
  feed-append :
      (o : Observer) (xs ys : List ℕ)
      → o.position ≤ length o.buffer
      → length o.buffer ≤ 65536
      → IsSafe (record o { buffer = filled o.buffer xs }) (feed digits huffman_decode o xs)
        × (feed digits huffman_decode o (xs ++ ys)
            ≡ resume
                (examine digits huffman_decode)
                (taken (filled o.buffer xs) ys)
                (feed digits huffman_decode o xs))
  feed-append o xs ys le small =
      let q = record o { buffer = filled o.buffer xs } in
      let (safe, same) =
        examine_lem digits huffman_decode q (taken q.buffer ys) (within (filled-grows o.buffer xs))
          (taken-full q.buffer ys) in
      unfold feed in (safe, ap at (sym (filled-append o.buffer xs ys)) ∙ (unfold filled in same))
    where
      within :
          length o.buffer ≤ length (filled o.buffer xs) → o.position ≤ length (filled o.buffer xs)
      within h = omega (arith, le, h)

      at : List ℕ → Result Fed
      at b = examine digits huffman_decode (record o { buffer = b })

  abbrev gone : Capture → FingerprintStream
  gone c = record { observer = none; fingerprint = c }

  abbrev open_stream : Observer → Capture → FingerprintStream
  open_stream o old = record { observer = some o; fingerprint = old }

  -- Without an observer nothing is read.
  poll_read-gone :
      (c : Capture) (ys : List ℕ) → poll_read digits huffman_decode (gone c) ys ≡ some (gone c)
  unfolding poll_read
  poll_read-gone c [] = refl
  poll_read-gone c (y ∷ ys) = refl

  -- A read that is cut in two.
  record Cut (s : FingerprintStream) (xs : List ℕ) : Type 0 where
    next : FingerprintStream
    reads : poll_read digits huffman_decode s xs ≡ some next
    within : IsWithin next
    later :
        (ys : List ℕ)
        → poll_read digits huffman_decode next ys ≡ poll_read digits huffman_decode s (xs ++ ys)

  feed_again :
      (p : Observer) (b ys : List ℕ)
      → p.buffer ≡ b
      → feed digits huffman_decode p ys
        ≡ examine digits huffman_decode (record p { buffer = p.buffer ++ taken b ys })
  unfolding feed filled
  feed_again p b ys h =
      ap (λ c. examine digits huffman_decode (record p { buffer = p.buffer ++ taken c ys })) h

  settled :
      (o : Observer) (old : Capture) (x : ℕ) (xs : List ℕ) (r : Result Fed)
      → feed digits huffman_decode o (x ∷ xs) ≡ r
      → length o.buffer ≤ 65536
      → IsSafe (record o { buffer = filled o.buffer (x ∷ xs) }) r
      → IsRoomy digits huffman_decode r
      → ((ys : List ℕ)
          → feed digits huffman_decode o ((x ∷ xs) ++ ys)
            ≡ resume (examine digits huffman_decode) (taken (filled o.buffer (x ∷ xs)) ys) r)
      → Cut (open_stream o old) (x ∷ xs)
  unfolding poll_read publish
  settled o old x xs (err e) h small safe roomy ys_lem = record {
    next = gone (failed e);
    reads = rw h refl;
    within = tt;
    later = λ ys. poll_read-gone (failed e) ys ∙ rw (ys_lem ys) refl;
  }
  settled o old x xs (ok (found c)) h small safe roomy ys_lem = record {
    next = gone c;
    reads = rw h refl;
    within = tt;
    later = λ ys. poll_read-gone c ys ∙ rw (ys_lem ys) refl;
  }
  settled o old x xs (ok panics) h small safe roomy ys_lem = absurd safe
  settled o old x xs (ok (waits p)) h small (same, on, in_reach) roomy ys_lem = record {
    next = open_stream p old;
    reads = rw h refl;
    within =
        (in_reach, ground (arith, filled-length o.buffer (x ∷ xs) small, ap length same, roomy));
    later = elim [
      | [] ↦ rw (append-nil xs, h) refl
      | y ∷ ys ↦ rw (ys_lem (y ∷ ys)) (
          ap (publish digits huffman_decode old)
            (feed_again p (filled o.buffer (x ∷ xs)) (y ∷ ys) same))
    ];
  }

  cut : (s : FingerprintStream) (xs : List ℕ) → IsWithin s → Cut s xs
  cut s [] h = record { next = s; reads = unfold poll_read in refl; within = h; later = λ ys. refl }
  cut s (x ∷ xs) h = go s.observer s.fingerprint h
    where
      go :
          (o : Option Observer) (old : Capture)
          → IsWithin (record { observer = o; fingerprint = old })
          → Cut (record { observer = o; fingerprint = old }) (x ∷ xs)
      go none old h = record {
        next = gone old;
        reads = poll_read-gone old (x ∷ xs);
        within = tt;
        later = λ ys. poll_read-gone old ys ∙ sym (poll_read-gone old ((x ∷ xs) ++ ys));
      }
      go (some o) old (le, room) =
          let small : length o.buffer ≤ 65536 = omega (arith, room) in
          settled o old x xs (feed digits huffman_decode o (x ∷ xs)) refl small
            (feed-append o (x ∷ xs) [] le small).0
            (unfold feed in examine-IsRoomy digits huffman_decode _)
            (λ ys. (feed-append o (x ∷ xs) ys le small).1)

  -- The reads of a connection, one after the other.
  pub poll_all : FingerprintStream → List (List ℕ) → Option FingerprintStream
  poll_all s [] = some s
  poll_all s (c ∷ cs) = elim (poll_read digits huffman_decode s c) [
    | none ↦ none
    | some t ↦ poll_all t cs
  ]

  poll_all_lem :
      (s : FingerprintStream) (chunks : List (List ℕ))
      → IsWithin s
      → (t : FingerprintStream) × (poll_all s chunks ≡ some t)
        × (poll_read digits huffman_decode s (joined chunks) ≡ some t)
        × IsWithin t
  unfolding poll_all
  poll_all_lem s [] h = (s, refl, unfold poll_read in refl, h)
  poll_all_lem s (c ∷ cs) h =
      let one = cut s c h in
      let (t, e, k, fine) = poll_all_lem one.next cs one.within in
      (t, rw (one.reads, poll_all) e, sym (one.later (joined cs)) ∙ k, fine)

  -- However the bytes of a connection are cut into reads: no read panics, and they leave the
  -- stream, with its fingerprint, its error or what it waits for, as a single read of all the
  -- bytes does. Its observer, while there is one, holds less than 65536 bytes and stands within
  -- them.
  pub poll_all-joined :
      (chunks : List (List ℕ))
      → (t : FingerprintStream) × (poll_all new_stream chunks ≡ some t)
        × (poll_read digits huffman_decode new_stream (joined chunks) ≡ some t)
        × IsWithin t
  poll_all-joined chunks = poll_all_lem new_stream chunks (omega arith, omega arith)
