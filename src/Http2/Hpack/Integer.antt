-- ===== src/Http2/Hpack/Integer.antt =====
-- `Decoder::integer`: prefix integers of RFC 7541, section 5.1, on a 64-bit `usize`. `mask` is
-- 2^k - 1, so `byte & mask` is the remainder by `mask + 1`.
use bagel.Prelude.{
  ℕ, zero, suc, ◌+◌, ◌-◌, ◌*◌, ◌/◌, ◌%◌, ◌^◌, ◌≤◌, ◌<◌, ◌≡◌, refl, ap, ◌∙◌, inl, inr, false, ◌||◌,
  List, [], ◌∷◌, ◌++◌, arith, ltb, leb, ◌==◌, if◌then◌else◌, leb→le, ltb→lt, Bool-cases,
  ltb-false→ge, u64_max,
}
use native.Mathlib.Nat.{
  pow-suc, pow-le-pow_right, mul-le-mul_right, mod-add-div, mul-add-mod_self_left, mod-eq_of_lt,
}
use bagel.Http2.Wire.{invalid, Result, ok, err}

-- The loop over the continuation bytes.
unfoldable pub more : ℕ → ℕ → List ℕ → Result (ℕ × List ℕ)
more shift value [] = err invalid
more shift value (b ∷ rest) =
    let part = b % 128 * 2 ^ shift in
    let next = more (shift + 7) (value + part) rest in
    if leb 64 shift || ltb u64_max part || ltb u64_max (value + part)
    then err invalid
    else if b / 128 % 2 == 0
    then ok (value + part, rest)
    else next

unfoldable pub integer : ℕ → List ℕ → Result (ℕ × List ℕ)
integer mask [] = err invalid
integer mask (b ∷ rest) =
    let value = b % (mask + 1) in if ltb value mask then ok (value, rest) else more 0 value rest

-- What RFC 7541 writes for the part of a number above the prefix, in at most `n + 1` bytes.
pub digits : ℕ → ℕ → List ℕ
digits zero m = m ∷ []
digits (suc n) m =
    let rest = digits n (m / 128) in if ltb m 128 then m ∷ [] else (m % 128 + 128) ∷ rest

-- The number `n` after the high bits `high` of the first byte; ten bytes hold any `usize`.
pub encode : ℕ → ℕ → ℕ → List ℕ
encode mask high n =
    if ltb n mask
    then (high * (mask + 1) + n) ∷ []
    else (high * (mask + 1) + mask) ∷ digits 9 (n - mask)

-- Seven more bits are a factor of 128.
seven : (shift : ℕ) → 2 ^ (shift + 7) ≡ 2 ^ shift * 128
seven shift =
    let e : shift + 7 ≡ suc (suc (suc (suc (suc (suc (suc shift)))))) = omega arith in
    rw e omega (
      arith,
      pow-suc 2 shift,
      pow-suc 2 (suc shift),
      pow-suc 2 (suc (suc shift)),
      pow-suc 2 (suc (suc (suc shift))),
      pow-suc 2 (suc (suc (suc (suc shift)))),
      pow-suc 2 (suc (suc (suc (suc (suc shift))))),
      pow-suc 2 (suc (suc (suc (suc (suc (suc shift)))))),
    )

shift_bound : (shift q : ℕ) → 0 < q → q * 2 ^ (shift + 7) ≤ u64_max → shift + 7 < 64
shift_bound shift q pos le = elim (Bool-cases (leb 64 (shift + 7))) [
  | inl big ↦
      let power : 2 ^ 64 ≤ 2 ^ (shift + 7) =
        pow-le-pow_right (omega arith) (leb→le 64 (shift + 7) big) in
      let once : 1 * 2 ^ (shift + 7) ≤ q * 2 ^ (shift + 7) =
        mul-le-mul_right (2 ^ (shift + 7)) pos in
      absurd (omega (arith, power, once))
  | inr small ↦ ground arith
]

parts : (q r p : ℕ) → r * p + q * (p * 128) ≡ (r + 128 * q) * p
parts q r p = omega arith

split : (m p : ℕ) → m % 128 * p + m / 128 * (p * 128) ≡ m * p
split m p = parts (m / 128) (m % 128) p ∙ ap (λ x. x * p) (mod-add-div m 128)

-- The last byte ends the loop.
more-last :
    (m shift value : ℕ) (rest : List ℕ)
    → m < 128
    → shift < 64
    → value + m * 2 ^ shift ≤ u64_max
    → more shift value (m ∷ rest) ≡ ok (value + m * 2 ^ shift, rest)
unfolding more
more-last m shift value rest h s le = let same : m % 128 ≡ m = omega arith in rw same ground arith

-- Any other byte goes on with seven more bits.
more-next :
    (r shift value : ℕ) (rest : List ℕ)
    → r < 128
    → shift < 64
    → value + r * 2 ^ shift ≤ u64_max
    → more shift value ((r + 128) ∷ rest) ≡ more (shift + 7) (value + r * 2 ^ shift) rest
unfolding more
more-next r shift value rest h s le =
    let same : (r + 128) % 128 ≡ r = omega arith in
    let high : (r + 128) / 128 % 2 ≡ 1 = omega arith in rw (same, high) ground arith

more-digits :
    (n m shift value : ℕ) (rest : List ℕ)
    → m < 128 ^ suc n
    → shift < 64
    → value + m * 2 ^ shift ≤ u64_max
    → more shift value (digits n m ++ rest) ≡ ok (value + m * 2 ^ shift, rest)
unfolding more digits
more-digits zero m shift value rest h s le = more-last m shift value rest h s le
more-digits (suc n) m shift value rest h s le = elim (Bool-cases (ltb m 128)) [
  | inl e ↦ rw e (more-last m shift value rest (ltb→lt m 128 e) s le)
  | inr e ↦
      let p = 2 ^ shift in
      let high : m / 128 < 128 ^ suc n = omega (arith, pow-suc 128 (suc n)) in
      let sum = split m p in
      let s' : m / 128 * 2 ^ (shift + 7) ≡ m / 128 * (p * 128) =
        ap (λ x. m / 128 * x) (seven shift) in
      let some_left : 0 < m / 128 = omega (arith, ltb-false→ge m 128 e) in
      let next =
        more-digits n (m / 128) (shift + 7) (value + m % 128 * p) rest high
          (shift_bound shift (m / 128) some_left (omega arith)) (omega arith) in
      let total : value + m % 128 * p + m / 128 * 2 ^ (shift + 7) ≡ value + m * p = omega arith in
      let go =
        more-next (m % 128) shift value (digits n (m / 128) ++ rest) (omega arith) s
          (omega arith) in
      rw e (go ∙ next ∙ ap (λ x. ok (x, rest)) total)
]

prefix : (mask high n : ℕ) → n < mask + 1 → (high * (mask + 1) + n) % (mask + 1) ≡ n
prefix mask high n h =
    let swap : high * (mask + 1) + n ≡ (mask + 1) * high + n = omega arith in
    ap (λ x. x % (mask + 1)) swap ∙ mul-add-mod_self_left (mask + 1) high n ∙ mod-eq_of_lt h

-- Decoding reads back any 64-bit number that the prefix encoding of RFC 7541 writes, whatever
-- the high bits of its first byte are and whatever follows it.
pub integer-encode :
    (mask high n : ℕ) (rest : List ℕ)
    → n ≤ u64_max
    → integer mask (encode mask high n ++ rest) ≡ ok (n, rest)
unfolding integer encode
integer-encode mask high n rest le = elim (Bool-cases (ltb n mask)) [
  | inl e ↦ rw e (rw (prefix mask high n (omega (arith, ltb→lt n mask e))) (rw e refl))
  | inr e ↦
      let ge = ltb-false→ge n mask e in
      let wide : n - mask < 128 ^ 10 = omega arith in
      let small : mask + (n - mask) * 2 ^ 0 ≤ u64_max = omega arith in
      let total : mask + (n - mask) * 2 ^ 0 ≡ n = omega arith in
      let self : ltb mask mask ≡ false = ground arith in
      rw e (
        rw (prefix mask high mask (omega arith)) (
          rw self (
            more-digits 9 (n - mask) 0 mask rest wide (omega arith) small
            ∙ ap (λ x. ok (x, rest)) total)))
]
