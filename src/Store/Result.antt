-- ===== src/Store/Result.antt =====
-- crates/bagel-runtime/src/store.rs: the errors that the store returns, by their cause, and SQLite
-- transactions.
use bagel.Prelude.{
  ℕ, ◌≡◌, refl, ap, ◌⊎◌, inl, inr, Bool, true, false, arith, leb, if◌then◌else◌, i64_max,
}

pub data Error : Type 0 where
  -- a timestamp that SQLite cannot hold
  out_of_range : ℕ → Error
  -- a PRIMARY KEY that is taken
  constraint : Error
  bad_json bad_network : Error
  unknown_lease : ℕ → Error
  -- firewall.rs: a scope without ports, a redirect of UDP, two redirects of one port, and nft
  ports_missing redirect_protocol redirect_conflict bad_table nft_failed : Error
  -- defense.rs: a name without a listener, an address that does not parse, an operator's request
  -- that is refused, and `getifaddrs`
  unknown_listener bad_address zero_duration protected_network shared_network no_interfaces : Error

pub data Result {ℓ} (Value : Type ℓ) : Type ℓ where
  ok : Value → Result Value
  err : Error → Result Value

module _ {ℓ κ} {Value : Type ℓ} {Next : Type κ} where
  infixl 5 ◌>>=◌
  unfoldable pub ◌>>=◌ : Result Value → (Value → Result Next) → Result Next
  err reason >>= continue = err reason
  ok value >>= continue = continue value

  -- Two steps end well only where each of them does.
  pub >>=-eq-ok :
      (first : Result Value) (continue : Value → Result Next) {last : Next}
      → first >>= continue ≡ ok last
      → (value : Value) × (first ≡ ok value) × (continue value ≡ ok last)
  unfolding ◌>>=◌
  >>=-eq-ok (err reason) continue done = absurd (cc done)
  >>=-eq-ok (ok value) continue done = (value, refl, done)

pub ok-injective {ℓ} : {A : Type ℓ} {a b : A} → ok a ≡ ok b → a ≡ b
ok-injective {A} {a} e = ap or_first e
  where
    or_first : Result A → A
    or_first (ok b) = b
    or_first (err e) = a

-- `sql_time`: a `u64` that fits the signed column.
unfoldable pub sql_time : ℕ → Result ℕ
sql_time t = if leb t i64_max then ok t else err (out_of_range t)

pub sql_time-ok : (t : ℕ) {u : ℕ} → sql_time t ≡ ok u → u ≡ t
unfolding sql_time
sql_time-ok t h = ground arith

-- A transaction that is dropped before its commit is rolled back.
unfoldable pub transact {ℓ} : {A S : Type ℓ} → S → Result (A × S) → Result A × S
transact s (ok (a, s')) = (ok a, s')
transact s (err e) = (err e, s)

-- What holds of every value that a computation ends well with.
pub record Ensures {ℓ κ} {A : Type ℓ} (P : A → Type κ) (r : Result A) : Type (ℓ ⊔ κ) where
  pub at : (a : A) → r ≡ ok a → P a

module _ {ℓ κ} {A : Type ℓ} {P : A → Type κ} where
  pub Ensures-ok : (a : A) → P a → Ensures P (ok a)
  Ensures-ok a h = record { at = λ b e. rw (← ok-injective e) h }

  pub Ensures-err : (e : Error) → Ensures P (err e)
  Ensures-err e = record { at = λ b h. absurd (cc h) }

  pub Ensures-bind {μ} :
      {B : Type μ} {r : Result B} {f : B → Result A}
      → ((b : B) → r ≡ ok b → Ensures P (f b))
      → Ensures P (r >>= f)
  unfolding ◌>>=◌
  Ensures-bind {r = ok b} h = h b refl
  Ensures-bind {r = err e} h = Ensures-err e

  pub Ensures-if :
      (t : Bool) {x y : Result A}
      → (t ≡ true → Ensures P x)
      → (t ≡ false → Ensures P y)
      → Ensures P (if t then x else y)
  Ensures-if true h k = h refl
  Ensures-if false h k = k refl

pub Result-cases {ℓ} :
    {A : Type ℓ} (r : Result A) → ((a : A) × (r ≡ ok a)) ⊎ ((e : Error) × (r ≡ err e))
Result-cases (ok a) = inl (a, refl)
Result-cases (err e) = inr (e, refl)
