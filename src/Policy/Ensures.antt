-- ===== src/Policy/Ensures.antt =====
-- Results of the configuration of rules and scorecards.
use bagel.Prelude.{◌≡◌, refl, ap, Bool, true, false, if◌then◌else◌}
use bagel.Policy.Score.{Result, ok, err, ◌>>=◌, Error}

-- What holds of every value that a computation ends well with.
pub record Ensures {ℓ κ} {A : Type ℓ} (P : A → Type κ) (r : Result A) : Type (ℓ ⊔ κ) where
  pub at : (a : A) → r ≡ ok a → P a

ok-injective {ℓ} : {A : Type ℓ} {a b : A} → ok a ≡ ok b → a ≡ b
ok-injective {A} {a} e = ap or_first e
  where
    or_first : Result A → A
    or_first (ok b) = b
    or_first (err e) = a

module _ {ℓ κ} {A : Type ℓ} {P : A → Type κ} where
  pub Ensures-ok : (a : A) → P a → Ensures P (ok a)
  Ensures-ok a h = record { at = λ b e. rw (← ok-injective e) h }

  pub Ensures-err : (e : Error) → Ensures P (err e)
  Ensures-err e = record { at = λ b h. absurd (cc h) }

  pub Ensures-bind {μ} :
      {B : Type μ} {r : Result B} {f : B → Result A}
      → ((b : B) → r ≡ ok b → Ensures P (f b))
      → Ensures P (r >>= f)
  unfolding ◌>>=◌
  Ensures-bind {r = ok b} h = h b refl
  Ensures-bind {r = err e} h = Ensures-err e

  pub Ensures-if :
      (t : Bool) {x y : Result A}
      → (t ≡ true → Ensures P x)
      → (t ≡ false → Ensures P y)
      → Ensures P (if t then x else y)
  Ensures-if true h k = h refl
  Ensures-if false h k = k refl
