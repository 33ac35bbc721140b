-- ===== src/Solver/Codec/Trip.antt =====
-- Blobs read back.
use bagel.Prelude.{
  ℕ, zero, suc, ◌+◌, ◌*◌, ◌/◌, ◌%◌, ◌^◌, ◌<◌, ◌≡◌, refl, ◌∙◌, some, List, [], ◌∷◌, ◌++◌, arith,
  ==_iff, length,
}
use native.Mathlib.Nat.{pow-suc}
use bagel.Http2.Wire.{split_at?}
use bagel.Solver.Seal.{keystream, seal-seal, seal-length, IsBytes}
use bagel.Solver.Codec.{
  Kind, sha256, scratch, tag, from_tag, Handoff, Solution, to_be_bytes, from_be_bytes, pack_handoff,
  handoff_of, unseal_handoff, unpack_handoff, pack_solution, probe_of, nonce_of, key_of,
  unseal_solution, unpack_solution,
}

split_at?-length-append :
    (n : ℕ) (xs ys : List ℕ) → length xs ≡ n → split_at? n (xs ++ ys) ≡ some (xs, ys)
unfolding split_at?
split_at?-length-append zero [] ys h = refl
split_at?-length-append zero (x ∷ xs) ys h = absurd (omega (arith, h))
split_at?-length-append (suc n) [] ys h = absurd (omega (arith, h))
split_at?-length-append (suc n) (x ∷ xs) ys h =
    rw (split_at?-length-append n xs ys (omega (arith, h))) refl

length-append : (xs ys : List ℕ) → length (xs ++ ys) ≡ length xs + length ys
length-append [] ys = omega arith
length-append (x ∷ xs) ys = omega (arith, length-append xs ys)

IsBytes-append : (xs ys : List ℕ) → IsBytes xs → IsBytes ys → IsBytes (xs ++ ys)
IsBytes-append [] ys h k = k
IsBytes-append (x ∷ xs) ys h k = (h.0, IsBytes-append xs ys h.1 k)

length-to_be_bytes : (n x : ℕ) → length (to_be_bytes n x) ≡ n
unfolding to_be_bytes
length-to_be_bytes zero x = refl
length-to_be_bytes (suc n) x =
    omega (
      arith,
      length-append (to_be_bytes n (x / 256)) (x % 256 ∷ []),
      length-to_be_bytes n (x / 256),
    )

to_be_bytes-IsBytes : (n x : ℕ) → IsBytes (to_be_bytes n x)
unfolding to_be_bytes
to_be_bytes-IsBytes zero x = tt
to_be_bytes-IsBytes (suc n) x =
    IsBytes-append (to_be_bytes n (x / 256)) _ (to_be_bytes-IsBytes n (x / 256)) (omega arith, tt)

from_be_bytes-append :
    (acc b : ℕ) (xs : List ℕ) → from_be_bytes acc (xs ++ (b ∷ [])) ≡ from_be_bytes acc xs * 256 + b
unfolding from_be_bytes
from_be_bytes-append acc b [] = refl
from_be_bytes-append acc b (x ∷ xs) = from_be_bytes-append (acc * 256 + x) b xs

from_be_bytes-to_be_bytes : (n x : ℕ) → x < 256 ^ n → from_be_bytes 0 (to_be_bytes n x) ≡ x
unfolding to_be_bytes from_be_bytes
from_be_bytes-to_be_bytes zero x h = omega (arith, h)
from_be_bytes-to_be_bytes (suc n) x h =
    let rest = from_be_bytes-to_be_bytes n (x / 256) (omega (arith, h, pow-suc 256 n)) in
    from_be_bytes-append 0 (x % 256) (to_be_bytes n (x / 256)) ∙ omega (arith, rest)

from_tag-tag : (k : Kind) → from_tag (tag k) ≡ some k
unfolding from_tag tag
from_tag-tag sha256 = refl
from_tag-tag scratch = refl

tag_byte : (k : Kind) → tag k < 256
unfolding tag
tag_byte sha256 = omega arith
tag_byte scratch = omega arith

-- A blob is its initialization vector and as many bytes as the payload has.
sealed_length :
    (iv body : List ℕ) (n : ℕ)
    → length iv ≡ 4
    → length body ≡ n
    → length (iv ++ keystream iv body) ≡ 4 + n
unfolding keystream
sealed_length iv body n four h =
    omega (arith, length-append iv (keystream iv body), seal-length _ body, four, h)

unsealed : (iv body : List ℕ) → IsBytes body → keystream iv (keystream iv body) ≡ body
unfolding keystream
unsealed iv body h = (seal-seal _ body h).0

-- The widths of the fields of a `Handoff`.
pub record IsHandoff (h : Handoff) : Type 0 where
  pub key_length : length h.key ≡ 32
  pub key_bytes : IsBytes h.key
  pub difficulty_byte : h.difficulty < 256
  pub blocks_byte : h.blocks_log2 < 256
  pub gpu_byte : h.gpu_difficulty < 256

unpack_handoff-pack_handoff :
    (iv : List ℕ) (h : Handoff)
    → length iv ≡ 4
    → IsHandoff h
    → unpack_handoff (pack_handoff iv h) ≡ some h
unfolding unpack_handoff pack_handoff unseal_handoff handoff_of
unpack_handoff-pack_handoff iv h four w =
    rw
      (
        (==_iff (length (pack_handoff iv h)) 40).1 (
            sealed_length iv (h.key ++ tail) 36 four
              (omega (arith, length-append h.key tail, w.key_length))),
        split_at?-length-append 4 iv (keystream iv (h.key ++ tail)) four,
        unsealed iv (h.key ++ tail) (
            IsBytes-append h.key tail w.key_bytes
              (tag_byte h.kind, (w.difficulty_byte, (w.blocks_byte, (w.gpu_byte, tt))))),
        split_at?-length-append 32 h.key tail w.key_length,
        from_tag-tag h.kind,
        unseal_handoff,
        handoff_of,
      )
      refl
  where
    tail : List ℕ
    tail = tag h.kind ∷ h.difficulty ∷ h.blocks_log2 ∷ h.gpu_difficulty ∷ []

-- The widths of the fields of a `Solution`.
pub record IsSolution (s : Solution) : Type 0 where
  pub key_length : length s.key ≡ 32
  pub key_bytes : IsBytes s.key
  pub nonce_u64 : s.nonce < 256 ^ 8
  pub difficulty_byte : s.difficulty < 256
  pub probe_u64 : s.probe < 256 ^ 8

split_at?-all : (n : ℕ) (xs : List ℕ) → length xs ≡ n → split_at? n xs ≡ some (xs, [])
unfolding split_at?
split_at?-all zero [] h = refl
split_at?-all zero (x ∷ xs) h = absurd (omega (arith, h))
split_at?-all (suc n) [] h = absurd (omega (arith, h))
split_at?-all (suc n) (x ∷ xs) h = rw (split_at?-all n xs (omega (arith, h))) refl

probe_of-some :
    (key nonce : List ℕ) (d : ℕ) (rest : List ℕ)
    → length rest ≡ 8
    → probe_of key nonce (some (d ∷ [], rest))
      ≡ some (record {
        key = key;
        nonce = from_be_bytes 0 nonce;
        difficulty = d;
        probe = from_be_bytes 0 rest;
      })
unfolding probe_of
probe_of-some key nonce d rest h = rw (split_at?-all 8 rest h, probe_of) refl

unpack_solution-pack_solution :
    (iv : List ℕ) (s : Solution)
    → length iv ≡ 4
    → IsSolution s
    → unpack_solution (pack_solution iv s) ≡ some s
unfolding unpack_solution pack_solution unseal_solution key_of nonce_of
unpack_solution-pack_solution iv s four w =
    rw
      (
        (==_iff (length (pack_solution iv s)) 53).1 (
            sealed_length iv (s.key ++ tail) 49 four
              (omega (arith, length-append s.key tail, w.key_length, tail_length))),
        split_at?-length-append 4 iv (keystream iv (s.key ++ tail)) four,
        unsealed iv (s.key ++ tail) (IsBytes-append s.key tail w.key_bytes tail_bytes),
        split_at?-length-append 32 s.key tail w.key_length,
        split_at?-length-append 8 (to_be_bytes 8 s.nonce) (s.difficulty ∷ to_be_bytes 8 s.probe)
            (length-to_be_bytes 8 s.nonce),
        split_at?-length-append 1 (s.difficulty ∷ []) (to_be_bytes 8 s.probe) refl,
        probe_of-some s.key (to_be_bytes 8 s.nonce) s.difficulty (to_be_bytes 8 s.probe)
            (length-to_be_bytes 8 s.probe),
        from_be_bytes-to_be_bytes 8 s.nonce w.nonce_u64,
        from_be_bytes-to_be_bytes 8 s.probe w.probe_u64,
      )
      refl
  where
    tail : List ℕ
    tail = to_be_bytes 8 s.nonce ++ (s.difficulty ∷ to_be_bytes 8 s.probe)

    tail_length : length tail ≡ 17
    tail_length = omega (
      arith,
      length-append (to_be_bytes 8 s.nonce) (s.difficulty ∷ to_be_bytes 8 s.probe),
      length-to_be_bytes 8 s.nonce,
      length-to_be_bytes 8 s.probe,
    )

    tail_bytes : IsBytes tail
    tail_bytes =
        IsBytes-append (to_be_bytes 8 s.nonce) (s.difficulty ∷ to_be_bytes 8 s.probe)
          (to_be_bytes-IsBytes 8 s.nonce) (w.difficulty_byte, to_be_bytes-IsBytes 8 s.probe)

-- With an initialization vector of four bytes and fields of their widths, unpacking reads back
-- the handoff and the solution that were packed.
pub unpack-pack :
    (iv : List ℕ) (h : Handoff) (s : Solution)
    → length iv ≡ 4
    → IsHandoff h
    → IsSolution s
    → (unpack_handoff (pack_handoff iv h) ≡ some h)
      × (unpack_solution (pack_solution iv s) ≡ some s)
unpack-pack iv h s four wh ws =
    (unpack_handoff-pack_handoff iv h four wh, unpack_solution-pack_solution iv s four ws)
