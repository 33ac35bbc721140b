-- ===== src/Decay/Laws.antt =====
-- How long an entry of a `DecayMap` lives, and how many there are.
use bagel.Prelude.{
  ℕ, suc, ◌+◌, ◌-◌, ◌≤◌, ◌<◌, ◌≡◌, refl, ap, ◌∙◌, inl, inr, Bool, true, false, ◌||◌, Option, none,
  some, List, [], ◌∷◌, arith, ltb, leb, if◌then◌else◌, ltb→lt, Bool-cases, is_some, lt→ltb, length,
  keep,
}
use bagel.Decay.{DecayMap, max_entries, lookup, put, get, store, set, set_with_ttl}

module _ {ℓ κ} {K : Type ℓ} {V : Type κ} (same : K → K → Bool) where
  lookup-put :
      (k : K) (v : V) (t : ℕ) (rows : List (K × V × ℕ))
      → same k k ≡ true
      → lookup same k (put same k v t rows) ≡ some (v, t)
  unfolding lookup put
  lookup-put k v t [] h = rw h refl
  lookup-put k v t ((l, w, u) ∷ rows) h = elim (Bool-cases (same k l)) [
    | inl e ↦ rw (e, e) refl
    | inr e ↦ rw (e, e) (lookup-put k v t rows h)
  ]

  put-length :
      (k : K) (v : V) (t : ℕ) (rows : List (K × V × ℕ))
      → length (put same k v t rows)
        ≤ (if is_some (lookup same k rows) then length rows else length rows + 1)
  unfolding lookup put
  put-length k v t [] = omega arith
  put-length k v t ((l, w, u) ∷ rows) = elim (Bool-cases (same k l)) [
    | inl e ↦ rw e (omega arith)
    | inr e ↦ rw e (step _ (length rows) (is_some (lookup same k rows)) (put-length k v t rows))
  ]
    where
      step :
          (a b : ℕ) (c : Bool)
          → a ≤ (if c then b else b + 1)
          → suc a ≤ (if c then suc b else suc b + 1)
      step a b true h = omega arith
      step a b false h = omega arith

  keep-length :
      (p : K × V × ℕ → Bool) (rows : List (K × V × ℕ)) → length (keep p rows) ≤ length rows
  keep-length p [] = omega arith
  keep-length p (r ∷ rows) = elim (Bool-cases (p r)) [
    | inl e ↦ rw e (omega (arith, keep-length p rows))
    | inr e ↦ rw e (omega (arith, keep-length p rows))
  ]

  store-length :
      (now inserted : ℕ) (k : K) (v : V) (m : DecayMap K V)
      → length m.inner ≤ max_entries
      → length (store same now inserted k v m).inner ≤ max_entries
  unfolding store
  store-length now inserted k v m le =
      let rows = keep (λ r. leb (now - r.2) m.ttl) m.inner in
      let fewer = keep-length (λ r. leb (now - r.2) m.ttl) m.inner in
      let grown = put-length k v inserted rows in
      elim (Bool-cases (is_some (lookup same k rows))) [
        | inl known ↦ elim (Bool-cases (ltb (length rows) max_entries)) [
          | inl space ↦ rw (space) (omega (arith, rw known at grown, fewer))
          | inr full ↦ rw (full, known) (omega (arith, rw known at grown, fewer))
        ]
        | inr new_key ↦ elim (Bool-cases (ltb (length rows) max_entries)) [
          | inl space ↦
              rw (space)
                (omega (arith, rw new_key at grown, ltb→lt (length rows) max_entries space))
          | inr full ↦ rw (full, new_key) (omega (arith, fewer))
        ]
      ]

  within :
      (v : V) (ttl later now : ℕ)
      → now ≤ later
      → (if ltb ttl (later - now) then none else some v)
        ≡ (if leb later (now + ttl) then some v else none)
  within v ttl later now le = ground arith

  get-found :
      (now : ℕ) (k : K) (v : V) (t : ℕ) (m : DecayMap K V)
      → lookup same k m.inner ≡ some (v, t)
      → get same now k m ≡ (if ltb m.ttl (now - t) then none else some v)
  unfolding get
  get-found now k v t m h = rw (h, get) refl

  -- Under a reflexive key equality and with room in the map, an entry that is set is read back
  -- until its time to live is over, and not later.
  pub get-set :
      (now later : ℕ) (k : K) (v : V) (m : DecayMap K V)
      → same k k ≡ true
      → length m.inner < max_entries
      → now ≤ later
      → get same later k (set same now k v m) ≡ (if leb later (now + m.ttl) then some v else none)
  unfolding set store
  get-set now later k v m self lt le =
      let rows = keep (λ r. leb (now - r.2) m.ttl) m.inner in
      let fewer = keep-length (λ r. leb (now - r.2) m.ttl) m.inner in
      let space : ltb (length rows) max_entries ≡ true =
        lt→ltb (length rows) max_entries (omega (arith, fewer, lt)) in
      let after : DecayMap K V = record { inner = put same k v now rows; ttl = m.ttl } in
      rw space
        (get-found later k v now after (lookup-put k v now rows self) ∙ within v m.ttl later now le)

  -- On a map within its capacity, `set` and a `set_with_ttl` that does not panic leave the map
  -- within its capacity.
  pub set-length :
      (start now : ℕ) (k : K) (v : V) (ttl : ℕ) (m m' : DecayMap K V)
      → length m.inner ≤ max_entries
      → set_with_ttl same start now k v ttl m ≡ some m'
      → (length (set same now k v m).inner ≤ max_entries) × (length m'.inner ≤ max_entries)
  unfolding set set_with_ttl
  set-length start now k v ttl m m' le h = (
    store-length now now k v m le,
    elim (Bool-cases (ltb m.ttl ttl || ltb start (m.ttl - ttl))) [
      | inl panic ↦ absurd (cc (rw panic at h))
      | inr fine ↦
          let same_inner = ap (λ (o : Option (DecayMap K V)). length (inner_of o)) (rw fine at h) in
          omega (arith, same_inner, store-length now (start - (m.ttl - ttl)) k v m le)
    ],
  )
    where
      inner_of : Option (DecayMap K V) → List (K × V × ℕ)
      inner_of none = []
      inner_of (some n) = n.inner
