-- ===== src/Http2/Frame/Streaming.antt =====
-- `Frame::decode` on a buffer that grows: a verdict once given stands.
use bagel.Prelude.{
  ℕ, ◌+◌, ◌*◌, ◌≤◌, ◌≡◌, sym, ◌∙◌, ◌≢◌, inl, inr, Option, none, some, List, ◌∷◌, ◌++◌, arith, ltb,
  if◌then◌else◌, Bool-cases, Option-cases, length,
}
use bagel.Http2.Wire.{
  limited, Result, ok, err, ◌>>=◌, split_at?, byte, u24, u32, split_at?-append, split_at?-length,
}
use bagel.Http2.Frame.{Frame, decode, read_body, read_payload, low31}

-- The nine bytes of a frame header.
record Header : Type 0 where
  n : ℕ
  kind : ℕ
  flags : ℕ
  stream : ℕ

abbrev judged : Header → List ℕ → Result (Option (Frame × ℕ))
judged h rest = if ltb 16384 h.n then err limited else read_body h.n h.kind h.flags h.stream rest

-- Below nine bytes nothing is decided; above, all is read off the header and the rest.
data View (xs : List ℕ) : Type 0 where
  short : decode xs ≡ ok none → View xs
  long :
      (h : Header) (rest : List ℕ)
      → length xs ≡ 9 + length rest
      → decode xs ≡ judged h rest
      → ((ys : List ℕ) → decode (xs ++ ys) ≡ judged h (rest ++ ys))
      → View xs

decode_lem :
    (a b c k f s t u v : ℕ) (rest : List ℕ)
    → decode (a ∷ b ∷ c ∷ k ∷ f ∷ s ∷ t ∷ u ∷ v ∷ rest)
      ≡ judged
          (record {
            n = a * 65536 + b * 256 + c;
            kind = k;
            flags = f;
            stream = low31 (s * 16777216 + t * 65536 + u * 256 + v);
          })
          rest
unfolding decode u24 byte u32 ◌>>=◌
decode_lem a b c k f s t u v rest = ground arith

view : (xs : List ℕ) → View xs
unfolding decode ◌>>=◌
view (a ∷ b ∷ c ∷ k ∷ f ∷ s ∷ t ∷ u ∷ v ∷ rest) =
    long _ rest (omega arith) (decode_lem a b c k f s t u v rest)
      (λ ys. decode_lem a b c k f s t u v (rest ++ ys))
view _ = short (ground arith)

judged-append :
    (h : Header) (rest ys : List ℕ)
    → judged h rest ≢ ok none
    → judged h (rest ++ ys) ≡ judged h rest
unfolding read_body ◌>>=◌
judged-append h rest ys ne = elim (Bool-cases (ltb 16384 h.n)) [
  | inl e ↦ rw e
  | inr e ↦ elim (Option-cases (split_at? h.n rest)) [
    | inl m ↦ absurd (ne (rw (e, m, read_body)))
    | inr ((p, q), m) ↦ rw (e, m, read_body, split_at?-append h.n rest ys p q m)
  ]
]

-- A verdict of `Frame::decode` stands: once a buffer gives a frame or an error, it gives the
-- same whatever bytes follow.
pub decode-append : (xs ys : List ℕ) → decode xs ≢ ok none → decode (xs ++ ys) ≡ decode xs
decode-append xs ys ne = go (view xs)
  where
    go : View xs → decode (xs ++ ys) ≡ decode xs
    go (short e) = absurd (ne e)
    go (long h rest l e k) = k ys ∙ judged-append h rest ys (λ m. ne (e ∙ m)) ∙ sym e

abbrev sized : ℕ → Frame → Result (Option (Frame × ℕ))
sized n f = ok (some (f, n))

body-length :
    (h : Header) (rest : List ℕ) (f : Frame) (m : ℕ)
    → judged h rest ≡ ok (some (f, m))
    → (m ≡ 9 + h.n) × (h.n ≤ length rest) × (h.n ≤ 16384)
unfolding read_body ◌>>=◌
body-length h rest f m e = elim (Bool-cases (ltb 16384 h.n)) [
  | inl b ↦ absurd (cc (rw b at e))
  | inr b ↦ elim (Option-cases (split_at? h.n rest)) [
    | inl s ↦ absurd (cc (rw (b, s, read_body) at e))
    | inr ((p, q), s) ↦
        let fits = split_at?-length h.n rest p q s in
        framed (read_payload h.kind h.flags h.stream p) (rw (b, s, read_body) at e) (omega arith)
          (ground arith)
  ]
]
  where
    framed :
        (r : Result Frame)
        → (r >>= sized (9 + h.n)) ≡ ok (some (f, m))
        → h.n ≤ length rest
        → h.n ≤ 16384
        → (m ≡ 9 + h.n) × (h.n ≤ length rest) × (h.n ≤ 16384)
    framed (ok x) k le small = (cc k, le, small)
    framed (err x) k le small = absurd (cc k)

-- A frame that `Frame::decode` gives takes between 9 and 16393 bytes, and no more than the
-- buffer holds.
pub decode_consumes :
    (xs : List ℕ) (f : Frame) (m : ℕ)
    → decode xs ≡ ok (some (f, m))
    → (9 ≤ m) × (m ≤ length xs) × (m ≤ 16393)
decode_consumes xs f m d = go (view xs)
  where
    go : View xs → (9 ≤ m) × (m ≤ length xs) × (m ≤ 16393)
    go (short e) = absurd (cc (e, d))
    go (long h rest l e k) =
        let (a, b, c) = body-length h rest f m (sym e ∙ d) in
        (omega arith, omega arith, omega arith)
