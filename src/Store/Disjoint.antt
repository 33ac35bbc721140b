-- ===== src/Store/Disjoint.antt =====
-- The terms of the leases of one policy on one network.
use bagel.Prelude.{
  ℕ, ◌≤◌, String, ◌≡◌, refl, inl, inr, Bool, true, false, not, ◌&&◌, ◌||◌, List, [], ◌∷◌, ◌++◌,
  arith, str_eq, eq_iff, if◌then◌else◌, Bool-cases, keep, update, any, count, All,
}
use bagel.Store.Rows.{LeaseRow}
use bagel.Store.Window.{is_live, is_for, is_active}
use bagel.Store.Leases.{has_ended}

abbrev pub same_flag : Bool → Bool → Bool
same_flag true b = b
same_flag false b = not b

-- Of two leases of one policy on one network, both manual or neither, the earlier is closed or has
-- ended when the later starts.
abbrev pub follows : LeaseRow → LeaseRow → Bool
follows a b =
    not (str_eq a.policy b.policy && str_eq a.network b.network && same_flag a.manual b.manual)
    || not (is_live a)
    || has_ended b.created_at a.expires_at

abbrev pub IsDisjoint : List LeaseRow → Type 0
IsDisjoint [] = Unit
IsDisjoint (r ∷ rs) = All (λ b. follows r b ≡ true) rs × IsDisjoint rs

-- A change of rows that keeps what `follows` says keeps the terms disjoint.
abbrev Keeps : (LeaseRow → LeaseRow) → Type 0
Keeps g = (a b : LeaseRow) → follows a b ≡ true → follows (g a) (g b) ≡ true

abbrev pub changed : (LeaseRow → Bool) → (LeaseRow → LeaseRow) → LeaseRow → LeaseRow
changed p f r = if p r then f r else r

module _ (p : LeaseRow → Bool) (f : LeaseRow → LeaseRow) (k : Keeps (changed p f)) where
  All-follows-update :
      (a : LeaseRow) (rows : List LeaseRow)
      → All (λ b. follows a b ≡ true) rows
      → All (λ b. follows (changed p f a) b ≡ true) (update p f rows)
  All-follows-update a [] h = tt
  All-follows-update a (r ∷ rs) h = (k a r h.0, All-follows-update a rs h.1)

  pub update-IsDisjoint : (rows : List LeaseRow) → IsDisjoint rows → IsDisjoint (update p f rows)
  update-IsDisjoint [] h = tt
  update-IsDisjoint (r ∷ rs) h = (All-follows-update r rs h.0, update-IsDisjoint rs h.1)

module _ (p : LeaseRow → Bool) where
  All-keep {ℓ} : (P : LeaseRow → Type ℓ) (rows : List LeaseRow) → All P rows → All P (keep p rows)
  All-keep P [] h = tt
  All-keep P (r ∷ rs) h = elim (Bool-cases (p r)) [
    | inl e ↦ rw e (h.0, All-keep P rs h.1)
    | inr e ↦ rw e (All-keep P rs h.1)
  ]

  pub keep-IsDisjoint : (rows : List LeaseRow) → IsDisjoint rows → IsDisjoint (keep p rows)
  keep-IsDisjoint [] h = tt
  keep-IsDisjoint (r ∷ rs) h = elim (Bool-cases (p r)) [
    | inl e ↦ rw e (All-keep (λ b. follows r b ≡ true) rs h.0, keep-IsDisjoint rs h.1)
    | inr e ↦ rw e (keep-IsDisjoint rs h.1)
  ]

pub append-IsDisjoint :
    (rows : List LeaseRow) (n : LeaseRow)
    → IsDisjoint rows
    → All (λ a. follows a n ≡ true) rows
    → IsDisjoint (rows ++ n ∷ [])
append-IsDisjoint [] n h k = (tt, tt)
append-IsDisjoint (r ∷ rs) n h k = (All-snoc rs h.0, append-IsDisjoint rs n h.1 k.1)
  where
    All-snoc :
        (xs : List LeaseRow)
        → All (λ b. follows r b ≡ true) xs
        → All (λ b. follows r b ≡ true) (xs ++ n ∷ [])
    All-snoc [] a = (k.0, tt)
    All-snoc (x ∷ xs) a = (a.0, All-snoc xs a.1)

-- The guard of `apply_offense`: with no lease in force the next one follows all the others.
pub All-follows_of_inactive :
    (rows : List LeaseRow) (n : LeaseRow)
    → any (λ r. is_for n.policy n.network r && is_active n.created_at r) rows ≡ false
    → All (λ a. follows a n ≡ true) rows
unfolding is_active
All-follows_of_inactive [] n h = tt
All-follows_of_inactive (r ∷ rs) n h = (ground arith, All-follows_of_inactive rs n (ground arith))

-- A row that is in force, and a later one that has started, cannot both be of one policy and network.
module _ (policy network : String) (manual : Bool) (now : ℕ) where
  abbrev in_force : LeaseRow → Bool
  in_force r = is_for policy network r && same_flag manual r.manual && is_active now r

  in_force_once :
      (a b : LeaseRow)
      → in_force a ≡ true
      → b.created_at ≤ now
      → follows a b ≡ true
      → in_force b ≡ false
  unfolding is_active
  in_force_once a b h le f = ground (
    arith,
    eq_iff a.policy policy,
    eq_iff b.policy policy,
    eq_iff a.policy b.policy,
    eq_iff a.network network,
    eq_iff b.network network,
    eq_iff a.network b.network,
  )

  count_after :
      (a : LeaseRow) (rows : List LeaseRow)
      → in_force a ≡ true
      → All (λ r. r.created_at ≤ now) rows
      → All (λ b. follows a b ≡ true) rows
      → count in_force rows ≡ 0
  count_after a [] h le f = refl
  count_after a (b ∷ rows) h le f =
      rw (in_force_once a b h le.0 f.0) (omega (arith, count_after a rows h le.1 f.1))

  pub IsDisjoint-unique :
      (rows : List LeaseRow)
      → All (λ r. r.created_at ≤ now) rows
      → IsDisjoint rows
      → count in_force rows ≤ 1
  IsDisjoint-unique [] le d = omega arith
  IsDisjoint-unique (r ∷ rows) le d = elim (Bool-cases (in_force r)) [
    | inl e ↦ rw e (omega (arith, count_after r rows e le.1 d.0))
    | inr e ↦ rw e (omega (arith, IsDisjoint-unique rows le.1 d.1))
  ]
