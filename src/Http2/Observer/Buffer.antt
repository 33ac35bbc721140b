-- ===== src/Http2/Observer/Buffer.antt =====
-- The buffer of `Observer`: the bytes it takes, and what `Frame::decode` sees of it.
use bagel.Prelude.{
  ℕ, zero, suc, ◌+◌, ◌-◌, ◌≤◌, min, ◌≡◌, refl, ap, ◌∙◌, inl, inr, false, some, List, [], ◌∷◌, ◌++◌,
  arith, ◌==◌, Bool-cases, length,
}
use mathlib.Core.List.{append_assoc}
use bagel.Http2.Wire.{split_at?, split_at?-append, split_at?-length}
use bagel.Http2.Frame.{decode}
use bagel.Http2.Observer.{first_bytes, starts_with, filled, next_frame}

pub first_bytes_cong : (m n : ℕ) (xs : List ℕ) → m ≡ n → first_bytes m xs ≡ first_bytes n xs
first_bytes_cong m n xs h = ap (λ k. first_bytes k xs) h

pub first_bytes-append :
    (n : ℕ) (xs ys : List ℕ)
    → first_bytes n (xs ++ ys) ≡ first_bytes n xs ++ first_bytes (n - length xs) ys
unfolding first_bytes
first_bytes-append zero xs ys = first_bytes_cong 0 (0 - length xs) ys (omega arith)
first_bytes-append (suc n) [] ys = first_bytes_cong (suc n) (suc n - 0) ys (omega arith)
first_bytes-append (suc n) (x ∷ xs) ys =
    let same = first_bytes_cong (n - length xs) (suc n - suc (length xs)) ys (omega arith) in
    rw (first_bytes-append n xs ys, same) refl

first_bytes-min : (n : ℕ) (xs : List ℕ) → first_bytes (min n (length xs)) xs ≡ first_bytes n xs
unfolding first_bytes
first_bytes-min zero xs = first_bytes_cong (min 0 (length xs)) 0 xs (omega arith)
first_bytes-min (suc n) [] = first_bytes_cong (min (suc n) 0) 0 [] (omega arith)
first_bytes-min (suc n) (x ∷ xs) =
    first_bytes_cong (min (suc n) (suc (length xs))) (suc (min n (length xs))) (x ∷ xs)
      (omega arith)
    ∙ ap (λ r. x ∷ r) (first_bytes-min n xs)

length-first_bytes : (n : ℕ) (xs : List ℕ) → length (first_bytes n xs) ≡ min n (length xs)
unfolding first_bytes
length-first_bytes zero xs = omega arith
length-first_bytes (suc n) [] = omega arith
length-first_bytes (suc n) (x ∷ xs) = omega (arith, length-first_bytes n xs)

pub length-append : (xs ys : List ℕ) → length (xs ++ ys) ≡ length xs + length ys
length-append [] ys = omega arith
length-append (x ∷ xs) ys = omega (arith, length-append xs ys)

-- A buffer that does not begin as the preface does not begin so when it is longer.
pub starts_with-append :
    (p xs ys : List ℕ)
    → starts_with p (first_bytes (length p) xs) ≡ false
    → starts_with p (first_bytes (length p) (xs ++ ys)) ≡ false
unfolding starts_with first_bytes
starts_with-append [] xs ys h = absurd (cc h)
starts_with-append (a ∷ p) [] ys h = absurd (cc h)
starts_with-append (a ∷ p) (x ∷ xs) ys h = elim (Bool-cases (a == x)) [
  | inl e ↦ rw e (starts_with-append p xs ys (rw e at h))
  | inr e ↦ rw e refl
]

pub filled-append : (b xs ys : List ℕ) → filled (filled b xs) ys ≡ filled b (xs ++ ys)
unfolding filled
filled-append b xs ys =
    let room = 65536 - length b in
    let one = first_bytes-min room xs in
    let both = first_bytes-min room (xs ++ ys) in
    let two = first_bytes-min (65536 - length (b ++ first_bytes room xs)) ys in
    let left =
      first_bytes_cong (65536 - length (b ++ first_bytes room xs)) (room - length xs) ys
        (omega (arith, length-append b (first_bytes room xs), length-first_bytes room xs)) in
    rw (one, both, two, left, first_bytes-append room xs ys) (append_assoc b _ _)

-- The buffer only grows, by nothing once it is full.
pub filled-length : (b xs : List ℕ) → length b ≤ 65536 → length (filled b xs) ≤ 65536
unfolding filled
filled-length b xs h = omega (
  arith,
  h,
  length-append b (first_bytes (min (65536 - length b) (length xs)) xs),
  length-first_bytes (min (65536 - length b) (length xs)) xs,
)

pub filled-grows : (b xs : List ℕ) → length b ≤ length (filled b xs)
unfolding filled
filled-grows b xs =
    omega (arith, length-append b (first_bytes (min (65536 - length b) (length xs)) xs))

split_at?-reaches :
    (n : ℕ) (xs : List ℕ)
    → n ≤ length xs
    → (a : List ℕ) × (b : List ℕ) × (split_at? n xs ≡ some (a, b))
unfolding split_at?
split_at?-reaches zero xs h = ([], xs, refl)
split_at?-reaches (suc n) [] h = absurd (omega (arith, h))
split_at?-reaches (suc n) (x ∷ xs) h =
    let (a, b, e) = split_at?-reaches n xs (omega (arith, h)) in (x ∷ a, b, rw e refl)

-- What the loop sees of a buffer from a position on, now and when it is longer.
pub record Sight (n : ℕ) (xs : List ℕ) : Type 0 where
  pub rest : List ℕ
  pub size : length xs ≡ n + length rest
  pub now : next_frame n xs ≡ some (decode rest)
  pub later : (zs : List ℕ) → next_frame n (xs ++ zs) ≡ some (decode (rest ++ zs))

pub sight : (n : ℕ) (xs : List ℕ) → n ≤ length xs → Sight n xs
unfolding next_frame
sight n xs h =
    let (a, b, e) = split_at?-reaches n xs h in
    record {
      rest = b;
      size = split_at?-length n xs a b e;
      now = rw (e, next_frame) refl;
      later = λ zs. rw (split_at?-append n xs zs a b e, next_frame) refl;
    }
