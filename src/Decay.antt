-- ===== src/Decay.antt =====
-- crates/bagel-web/src/net/decay_map.rs, `DecayMap`. An `Instant` and a `Duration` are numbers, the
-- times that a call reads are inputs, and a `HashMap` is an association list. The lock is never
-- poisoned.
pub mod Laws
use bagel.Prelude.{
  ℕ, ◌-◌, Bool, ◌||◌, Option, none, some, List, [], ◌∷◌, ltb, leb, if◌then◌else◌, is_some, length,
  keep,
}

abbrev pub max_entries : ℕ
max_entries = 65_536

pub record DecayMap {ℓ κ} (K : Type ℓ) (V : Type κ) : Type (ℓ ⊔ κ) where
  pub inner : List (K × V × ℕ)
  pub ttl : ℕ

-- `new`
unfoldable pub empty_map {ℓ κ} : {K : Type ℓ} {V : Type κ} → ℕ → DecayMap K V
empty_map ttl = record { inner = []; ttl = ttl }

-- `same` is the keys' `Eq`.
module _ {ℓ κ} {K : Type ℓ} {V : Type κ} (same : K → K → Bool) where
  unfoldable pub lookup : K → List (K × V × ℕ) → Option (V × ℕ)
  lookup k [] = none
  lookup k ((l, v, t) ∷ rows) = if same k l then some (v, t) else lookup k rows

  unfoldable pub put : K → V → ℕ → List (K × V × ℕ) → List (K × V × ℕ)
  put k v t [] = (k, v, t) ∷ []
  put k v t ((l, w, u) ∷ rows) = if same k l then (l, v, t) ∷ rows else (l, w, u) ∷ put k v t rows

  unfoldable pub get : ℕ → K → DecayMap K V → Option V
  get now k m = elim (lookup k m.inner) [
    | none ↦ none
    | some (v, inserted) ↦ if ltb m.ttl (now - inserted) then none else some v
  ]

  -- `retain`, and the new entry where there is room for it.
  unfoldable pub store : ℕ → ℕ → K → V → DecayMap K V → DecayMap K V
  store now inserted k v m =
      let rows = keep (λ r. leb (now - r.2) m.ttl) m.inner in
      record {
        inner =
            if ltb (length rows) max_entries || is_some (lookup k rows)
            then put k v inserted rows
            else rows;
        ttl = m.ttl;
      }

  pub set : ℕ → K → V → DecayMap K V → DecayMap K V
  set now k v m = store now now k v m

  -- `none` is a panic: the entry would live longer than the map allows, or have begun before time.
  unfoldable pub set_with_ttl : ℕ → ℕ → K → V → ℕ → DecayMap K V → Option (DecayMap K V)
  set_with_ttl start now k v ttl m =
      if ltb m.ttl ttl || ltb start (m.ttl - ttl)
      then none
      else some (store now (start - (m.ttl - ttl)) k v m)
