-- ===== src/Solver/Seal.antt =====
-- `keystream`: bytes under an xorshift32 stream.
use bagel.Prelude.{
  ℕ, zero, suc, ◌+◌, ◌*◌, ◌/◌, ◌%◌, ◌^◌, ◌<◌, ◌≡◌, refl, ap, ◌∙◌, inl, inr, Bool, true, false, ◌&&◌,
  List, [], ◌∷◌, arith, ltb, ◌==◌, if◌then◌else◌, ltb→lt, Bool-cases, ==→≡, &&-true, length, All,
}
use Prim.Native.Nat.{bit_xor, bit_or}

-- One round of the generator on its 32 bits.
unfoldable pub advance : ℕ → ℕ
advance state =
    let a = bit_xor state (state * 2 ^ 13 % 2 ^ 32) in
    let b = bit_xor a (a / 2 ^ 17) in bit_xor b (b * 2 ^ 5 % 2 ^ 32)

pub seal : ℕ → List ℕ → List ℕ
seal state [] = []
seal state (b ∷ bs) = bit_xor b (advance state / 2 ^ 24 % 256) ∷ seal (advance state) bs

-- `u32::from_le_bytes`.
unfoldable pub from_le_bytes : List ℕ → ℕ
from_le_bytes [] = 0
from_le_bytes (b ∷ bs) = b + 256 * from_le_bytes bs

unfoldable pub keystream : List ℕ → List ℕ → List ℕ
keystream iv bytes = seal (bit_or (from_le_bytes iv) 1) bytes

abbrev pub IsBytes : List ℕ → Type 0
IsBytes = All (λ b. b < 256)

-- The test passes on every number under the bound.
passes : (ℕ → Bool) → ℕ → Bool
passes test zero = true
passes test (suc k) = if test k then passes test k else false

passes-under : (test : ℕ → Bool) (k m : ℕ) → m < k → passes test k ≡ true → test m ≡ true
unfolding passes
passes-under test zero m small full = absurd (omega (arith, small))
passes-under test (suc k) m small full = elim (Bool-cases (test k)) [
  | inr miss ↦ absurd (cc (rw miss at full))
  | inl hit ↦ elim (Bool-cases (m == k)) [
    | inl here ↦ ap test (==→≡ m k here) ∙ hit
    | inr there ↦ passes-under test k m (ground arith) (rw hit at full)
  ]
]

undone : ℕ → ℕ → Bool
undone y x = (bit_xor (bit_xor x y) y == x) && ltb (bit_xor x y) 256

undone_table : passes (λ y. passes (undone y) 256) 256 ≡ true
unfolding passes undone
undone_table = refl

bit_xor_byte : (x y : ℕ) → x < 256 → y < 256 → undone y x ≡ true
bit_xor_byte x y h k =
    passes-under (undone y) 256 x h (passes-under (λ z. passes (undone z) 256) 256 y k undone_table)

-- The stream undoes itself, and keeps bytes bytes.
pub seal-seal :
    (state : ℕ) (bs : List ℕ)
    → IsBytes bs
    → (seal state (seal state bs) ≡ bs) × IsBytes (seal state bs)
unfolding seal undone
seal-seal state [] h = (refl, tt)
seal-seal state (b ∷ bs) h =
    let (back, bound) =
      &&-true _ _ (bit_xor_byte b (advance state / 2 ^ 24 % 256) h.0 (omega arith)) in
    let (rest, bytes) = seal-seal (advance state) bs h.1 in
    (rw (==→≡ _ b back, rest) refl, (ltb→lt _ 256 bound, bytes))

pub seal-length : (state : ℕ) (bs : List ℕ) → length (seal state bs) ≡ length bs
unfolding seal
seal-length state [] = refl
seal-length state (b ∷ bs) = ap suc (seal-length (advance state) bs)
