-- ===== src/Defense/Upkeep/Unblock.antt =====
-- What `unblock` leaves in force, and what a reconciliation leaves of the leases.
use bagel.Prelude.{
  ℕ, ◌≤◌, String, ◌≡◌, refl, sym, ap, ◌∙◌, inl, inr, Bool, false, not, ◌&&◌, ◌||◌, Option, none,
  List, [], ◌∷◌, map, arith, str_eq, ◌==◌, Bool-cases, update, any, any-keep,
}
use bagel.Store.Result.{
  Result, Result-cases, ok, err, transact, Ensures, Ensures-ok, Ensures-err, Ensures-bind,
  Ensures-if,
}
use bagel.Store.Rows.{ApplyState, Db, LeaseRow, Services, Lease}
use bagel.Store.Window.{is_active}
use bagel.Store.Leases.{
  ApplyOutcome, begin_reconcile, active_leases, mark, mark_results, mark_apply_results,
  update_leases,
}
use bagel.Store.Leases
use bagel.Store.Housekeeping.{manual_unblock-active}
use bagel.Network.{Networks}
use bagel.Firewall.{Membership}
use bagel.Defense.Guard.{Settings}
use bagel.Defense.Reconcile.{
  World, Sorted, reconcile, list_leases, sort_leases, enforce, reconcile_firewall, outcome_of,
}
use bagel.Defense.Upkeep.{with_db, counted, unblock}

abbrev restate : ApplyState → Option String → LeaseRow → LeaseRow
restate state error r = record r { apply_state = state; apply_error = error }

-- A test that does not read how a lease was applied.
module _ (q : LeaseRow → Bool)
    (blind : (state : ApplyState) (error : Option String) (r : LeaseRow)
      → q (restate state error r) ≡ q r) where
  any-update :
      (p : LeaseRow → Bool) (state : ApplyState) (error : Option String) (rows : List LeaseRow)
      → any q (update p (restate state error) rows) ≡ any q rows
  any-update p state error [] = refl
  any-update p state error (r ∷ rows) = elim (Bool-cases (p r)) [
    | inl e ↦ rw (e, blind state error r, any-update p state error rows) refl
    | inr e ↦ rw (e, any-update p state error rows) refl
  ]

  begin_reconcile-any :
      (now : ℕ) (db : Db)
      → Ensures (λ p. any q p.1.leases ≡ any q db.leases) (begin_reconcile now db)
  unfolding begin_reconcile update_leases
  begin_reconcile-any now db =
      Ensures-bind λ t e. Ensures-ok _ (any-update (is_active t) ApplyState.pending none db.leases)

  mark-any :
      (id : ℕ) (outcome : ApplyOutcome) (db : Db)
      → any q (mark id outcome db).1.leases ≡ any q db.leases
  unfolding mark update_leases
  mark-any id outcome db = any-update (λ r. r.id == id) _ _ db.leases

  mark_results-any :
      (outcomes : List (ℕ × ApplyOutcome)) (db : Db)
      → Ensures (λ p. any q p.1.leases ≡ any q db.leases) (mark_results outcomes db)
  unfolding mark_results
  mark_results-any [] db = Ensures-ok _ refl
  mark_results-any ((id, outcome) ∷ rest) db =
      Ensures-if ((mark id outcome db).0 == 0) (λ _. Ensures-err _)
        (λ _. record {
          at =
              λ p e. (mark_results-any rest (mark id outcome db).1).at p e ∙ mark-any id outcome db;
        })

  mark_apply_results-any :
      (outcomes : List (ℕ × ApplyOutcome)) (db : Db)
      → any q (mark_apply_results outcomes db).1.leases ≡ any q db.leases
  unfolding mark_apply_results transact
  mark_apply_results-any outcomes db = elim (Result-cases (mark_results outcomes db)) [
    | inl (p, e) ↦ rw e ((mark_results-any outcomes db).at p e)
    | inr (x, e) ↦ rw e refl
  ]

  module _ {Ip Network : Type 0} (v : Services Network) (nets : Networks Ip Network)
      (parse_port : String → Option ℕ) (nft : List (Membership Network) → Bool)
      (s : Settings Network) (locals : Result (List Ip)) where
    enforce-any :
        (ls : List (Lease Network)) (c : Result (Sorted Network)) (w : World Network)
        → any q (enforce nets parse_port nft s ls c w).1.db.leases ≡ any q w.db.leases
    unfolding enforce
    enforce-any ls (err e) w = refl
    enforce-any ls (ok c) w =
        mark_apply_results-any
          (map (outcome_of s (reconcile_firewall nets parse_port nft s c.memberships w.ready).0 c)
            ls)
          w.db

    pub reconcile-any :
        (now : ℕ) (w : World Network)
        → any q (reconcile v nets parse_port nft s locals now w).1.db.leases ≡ any q w.db.leases
    unfolding reconcile list_leases sort_leases
    reconcile-any now w = elim (Result-cases (begin_reconcile now w.db)) [
      | inr (x, e) ↦ rw e refl
      | inl ((n, db), e) ↦
          let begun = (begin_reconcile-any now w.db).at (n, db) e in
          rw e (elim (Result-cases (active_leases v db now)) [
            | inr (x, d) ↦ rw d begun
            | inl (ls, d) ↦ rw d (enforce-any ls _ (with_db w db) ∙ begun)
          ])
    ]

module _ {Ip Network : Type 0} (v : Services Network) (nets : Networks Ip Network)
    (parse_port : String → Option ℕ) (nft : List (Membership Network) → Bool) (s : Settings Network)
    (locals : Result (List Ip)) where
  -- Some lease in force is of the network.
  abbrev pub in_force : ℕ → Network → LeaseRow → Bool
  in_force later n r = is_active later r && str_eq r.network (v.text n)

  manual_unblock-any :
      (n : Network) (now later : ℕ) (db : Db)
      → now ≤ later
      → Ensures (λ p. any (in_force later n) p.1.leases ≡ false) (Leases.manual_unblock v n now db)
  manual_unblock-any n now later db le = record {
    at = λ p e.
        sym (any-keep (λ r. str_eq r.network (v.text n)) (is_active later) p.1.leases)
        ∙ ap (any (λ r. str_eq r.network (v.text n)))
            ((manual_unblock-active v n now later db le).at p e)
        ∙ any-keep _ _ db.leases
        ∙ never db.leases;
  }
    where
      never :
          (rows : List LeaseRow)
          → any
              (λ r.
                (is_active later r && not (str_eq r.network (v.text n)))
                && str_eq r.network (v.text n))
              rows
            ≡ false
      never [] = refl
      never (r ∷ rows) = rw (never rows) (clash (is_active later r) (str_eq r.network (v.text n)))
        where
          clash : (a b : Bool) → (((a && not b) && b) || false) ≡ false
          clash a b = ground arith

  counted-world :
      (changed : ℕ) (r : Result (Unit {0}) × World Network)
      → (counted v nets parse_port nft s locals changed r).1 ≡ r.1
  unfolding counted
  counted-world changed (ok u, w) = refl
  counted-world changed (err e, w) = refl

  -- When `unblock` ends well, no lease of the network is in force, at its time or later, after
  -- the reconciliation that follows.
  pub unblock-active :
      (n : Network) (now later changed : ℕ) (w : World Network)
      → now ≤ later
      → (unblock v nets parse_port nft s locals (ok n) now w).0 ≡ ok changed
      → any (in_force later n) (unblock v nets parse_port nft s locals (ok n) now w).1.db.leases
        ≡ false
  unfolding unblock
  unblock-active n now later changed w le h =
      elim (Result-cases (Leases.manual_unblock v n now w.db)) [
        | inr (x, e) ↦ absurd (cc (rw (e, unblock) at h))
        | inl ((m, db), e) ↦
            rw (e, unblock)
              (ap (λ w. any (in_force later n) w.db.leases)
                  (counted-world m (reconcile v nets parse_port nft s locals now (with_db w db)))
                ∙ reconcile-any (in_force later n) (λ state error r. unfold is_active in refl) v
                    nets parse_port nft s locals now (with_db w db)
                ∙ (manual_unblock-any n now later w.db le).at (m, db) e)
      ]
