-- ===== src/Http2/Wire.antt =====
-- wire.rs, `Cursor`: reads from the front of a buffer and returns what remains, big end first.
use bagel.Prelude.{
  ℕ, zero, suc, ◌+◌, ◌*◌, ◌≡◌, refl, ap, inl, inr, Bool, true, false, Option, none, some, List, [],
  ◌∷◌, ◌++◌, arith, if◌then◌else◌, Option-cases, length,
}

pub data CaptureError : Type 0 where
  incomplete invalid limited untrusted : CaptureError

pub data Result {ℓ} (Value : Type ℓ) : Type ℓ where
  ok : Value → Result Value
  err : CaptureError → Result Value

module _ {ℓ κ} {Value : Type ℓ} {Next : Type κ} where
  infixl 5 ◌>>=◌
  unfoldable pub ◌>>=◌ : Result Value → (Value → Result Next) → Result Next
  err reason >>= continue = err reason
  ok value >>= continue = continue value

-- What holds of every value that a reader ends well with.
pub record Ensures {ℓ κ} {A : Type ℓ} (P : A → Type κ) (r : Result A) : Type (ℓ ⊔ κ) where
  pub at : (a : A) → r ≡ ok a → P a

module _ {ℓ κ} {A : Type ℓ} {P : A → Type κ} where
  pub Ensures-ok : (a : A) → P a → Ensures P (ok a)
  Ensures-ok a h = record { at = λ b e. rw (← ok-injective e) h }
    where
      ok-injective : {a b : A} → ok a ≡ ok b → a ≡ b
      ok-injective {a} e = ap (or_first a) e
        where
          or_first : A → Result A → A
          or_first a (ok b) = b
          or_first a (err e) = a

  pub Ensures-err : (e : CaptureError) → Ensures P (err e)
  Ensures-err e = record { at = λ b h. absurd (cc h) }

  pub Ensures-bind {μ} :
      {B : Type μ} {r : Result B} {f : B → Result A}
      → ((b : B) → r ≡ ok b → Ensures P (f b))
      → Ensures P (r >>= f)
  unfolding ◌>>=◌
  Ensures-bind {r = ok b} h = h b refl
  Ensures-bind {r = err e} h = Ensures-err e

  pub Ensures-if :
      (t : Bool) {x y : Result A}
      → (t ≡ true → Ensures P x)
      → (t ≡ false → Ensures P y)
      → Ensures P (if t then x else y)
  Ensures-if true h k = h refl
  Ensures-if false h k = k refl

-- `split_at_checked`
unfoldable pub split_at? : ℕ → List ℕ → Option (List ℕ × List ℕ)
split_at? zero xs = some ([], xs)
split_at? (suc n) [] = none
split_at? (suc n) (x ∷ xs) = elim (split_at? n xs) [ none ↦ none | some (a, b) ↦ some (x ∷ a, b) ]

unfoldable pub take : ℕ → List ℕ → Result (List ℕ × List ℕ)
take n input = elim (split_at? n input) [ none ↦ err invalid | some p ↦ ok p ]

unfoldable pub byte : List ℕ → Result (ℕ × List ℕ)
byte [] = err invalid
byte (a ∷ r) = ok (a, r)

unfoldable pub u16 : List ℕ → Result (ℕ × List ℕ)
u16 (a ∷ b ∷ r) = ok (a * 256 + b, r)
u16 _ = err invalid

unfoldable pub u24 : List ℕ → Result (ℕ × List ℕ)
u24 (a ∷ b ∷ c ∷ r) = ok (a * 65536 + b * 256 + c, r)
u24 _ = err invalid

unfoldable pub u32 : List ℕ → Result (ℕ × List ℕ)
u32 (a ∷ b ∷ c ∷ d ∷ r) = ok (a * 16777216 + b * 65536 + c * 256 + d, r)
u32 _ = err invalid

unfoldable pub finish : List ℕ → Result (Unit {0})
finish [] = ok tt
finish (a ∷ r) = err invalid

pub split_at?-append :
    (n : ℕ) (xs ys a b : List ℕ)
    → split_at? n xs ≡ some (a, b)
    → split_at? n (xs ++ ys) ≡ some (a, b ++ ys)
unfolding split_at?
split_at?-append zero xs ys a b h = ground arith
split_at?-append (suc n) [] ys a b h = absurd (cc h)
split_at?-append (suc n) (x ∷ xs) ys a b h = elim (Option-cases (split_at? n xs)) [
  | inl e ↦ absurd (cc (rw e at h))
  | inr ((c, d), e) ↦ rw (split_at?-append n xs ys c d e) (ground (arith, rw e at h))
]

pub split_at?-length :
    (n : ℕ) (xs a b : List ℕ) → split_at? n xs ≡ some (a, b) → length xs ≡ n + length b
unfolding split_at?
split_at?-length zero xs a b h = ground arith
split_at?-length (suc n) [] a b h = absurd (cc h)
split_at?-length (suc n) (x ∷ xs) a b h = elim (Option-cases (split_at? n xs)) [
  | inl e ↦ absurd (cc (rw e at h))
  | inr ((c, d), e) ↦
      let same : d ≡ b = cc (rw e at h) in
      omega (arith, split_at?-length n xs c d e, ap length same)
]
