-- ===== src/Defense/Reconcile/Active.antt =====
-- The networks that a reconciliation hands to `ActiveLeases`.
use bagel.Prelude.{
  ℕ, String, ◌≡◌, refl, sym, ◌∙◌, inl, inr, Bool, true, false, not, ◌&&◌, Option, List, [], ◌∷◌,
  arith, ◌==◌, Bool-cases, ≡→==, &&-true, ||-true_right, All,
}
use bagel.Store.Result.{Result-cases, ok, ok-injective, Ensures, Ensures-ok, Ensures-bind}
use bagel.Store.Rows.{Services, Lease}
use bagel.Network.{Networks, IsPrefixed}
use bagel.Defense.Guard.{Settings, holds, is_protected}
use bagel.Firewall.{Membership}
use bagel.Store.Leases.{begin_reconcile, active_leases}
use bagel.Defense.Reconcile.{
  World, reconcile, list_leases, sort_leases, enforce, Sorted, add_lease, classify, has_id,
  is_observe, active_networks,
}
use bagel.Defense.Reconcile.Spares.{any-overlap, is_protected_lem}

module _ {Ip Network : Type 0} (nets : Networks Ip Network) where
  -- Every lease whose network has the address is among the protected ones.
  abbrev Guarded : Ip → List ℕ → List (Lease Network) → Type 0
  Guarded a ids ls = All (λ l. nets.contains l.network a ≡ true → has_id l.id ids ≡ true) ls

  Guarded-more :
      (a : Ip) (id : ℕ) (ids : List ℕ) (ls : List (Lease Network))
      → Guarded a ids ls
      → Guarded a (id ∷ ids) ls
  Guarded-more a id ids [] h = tt
  Guarded-more a id ids (l ∷ ls) h =
      (λ k. ||-true_right (id == l.id) (h.0 k), Guarded-more a id ids ls h.1)

  active-Guarded :
      (a : Ip) (c : Sorted Network) (ls : List (Lease Network))
      → Guarded a c.protected ls
      → holds nets (active_networks c ls) a ≡ false
  unfolding holds active_networks
  active-Guarded a c [] h = refl
  active-Guarded a c (l ∷ ls) h =
      elim (Bool-cases (not (is_observe l.action) && not (has_id l.id c.protected))) [
        | inl e ↦ elim (Bool-cases (nets.contains l.network a)) [
          | inl k ↦ absurd (clash (has_id l.id c.protected) (h.0 k) (&&-true _ _ e).1)
          | inr k ↦ rw (e, k) (active-Guarded a c ls h.1)
        ]
        | inr e ↦ rw e (active-Guarded a c ls h.1)
      ]
    where
      clash : (b : Bool) → b ≡ true → not b ≡ true → ⊥
      clash b h k = ground arith

  added :
      (guarded spared : Bool) (l : Lease Network) (ls : List (Lease Network)) (a : Ip)
      (ms : List (Membership Network)) (c : Sorted Network)
      → (nets.contains l.network a ≡ true → guarded ≡ true)
      → Guarded a c.protected ls
      → Guarded a (add_lease guarded spared l ms c).protected (l ∷ ls)
  unfolding add_lease
  added true spared l ls a ms c g k =
      (λ _. rw (≡→== l.id l.id refl) refl, Guarded-more a l.id c.protected ls k)
  added false true l ls a ms c g k = (λ inside. absurd (cc (g inside)), k)
  added false false l ls a ms c g k = (λ inside. absurd (cc (g inside)), k)

  module _ (law : IsPrefixed nets) (parse_port : String → Option ℕ) (s : Settings Network)
      (locals : List Ip) where
    -- A network with a protected address is protected.
    pub is_protected-guards :
        (a : Ip) (n : Network) (guarded : Bool)
        → holds nets s.protected a ≡ true
        → is_protected nets s (ok locals) n ≡ ok guarded
        → nets.contains n a ≡ true
        → guarded ≡ true
    unfolding holds
    is_protected-guards a n guarded h e k =
        rw
          (
            ok-injective (sym e ∙ is_protected_lem nets law parse_port s locals n),
            any-overlap nets law (λ p. p) n a s.protected k h,
          )
          refl

    classify-Guarded :
        (a : Ip)
        → holds nets s.protected a ≡ true
        → (ls : List (Lease Network))
        → Ensures (λ c. Guarded a c.protected ls) (classify nets parse_port s (ok locals) ls)
    unfolding classify
    classify-Guarded a h [] = Ensures-ok _ tt
    classify-Guarded a h (l ∷ ls) = Ensures-bind λ guarded e. Ensures-bind λ ms k.
        Ensures-bind λ c d. Ensures-ok _ (
          added guarded _ l ls a ms c (is_protected-guards a l.network guarded h e)
            ((classify-Guarded a h ls).at c d))

    module _ (v : Services Network) (nft : List (Membership Network) → Bool) (a : Ip)
        (h : holds nets s.protected a ≡ true) where
      enforce-active :
          (ls : List (Lease Network)) (w : World Network)
          → holds nets w.active a ≡ false
          → holds nets
              (enforce nets parse_port nft s ls
                (classify nets parse_port s (ok locals) ls)
                w).1.active
              a
            ≡ false
      unfolding enforce
      enforce-active ls w k = elim (Result-cases (classify nets parse_port s (ok locals) ls)) [
        | inl (c, e) ↦ rw e (active-Guarded a c ls ((classify-Guarded a h ls).at c e))
        | inr (r, e) ↦ rw e k
      ]

      -- Every return of `reconcile` leaves the protected address out.
      pub reconcile-active :
          (now : ℕ) (w : World Network)
          → holds nets w.active a ≡ false
          → holds nets (reconcile v nets parse_port nft s (ok locals) now w).1.active a ≡ false
      unfolding reconcile list_leases sort_leases
      reconcile-active now w k = elim (Result-cases (begin_reconcile now w.db)) [
        | inr (r, e) ↦ rw e k
        | inl ((n, db), e) ↦ rw e (elim (Result-cases (active_leases v db now)) [
          | inr (r, d) ↦ rw d k
          | inl (ls, d) ↦
              rw d (enforce-active ls (record { db = db; active = w.active; ready = w.ready }) k)
        ])
      ]
