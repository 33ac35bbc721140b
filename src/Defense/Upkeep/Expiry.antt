-- ===== src/Defense/Upkeep/Expiry.antt =====
-- `expire` of defense_maintenance.rs, on every branch.
use bagel.Prelude.{ℕ, ◌-◌, ◌≤◌, ◌≡◌, refl, ap, ◌∙◌, inl, inr, keep}
use bagel.Store.Result.{Result-cases}
use bagel.Store.Rows.{Db}
use bagel.Store.Window.{is_active}
use bagel.Store.Leases.{prune_offenses, prune_leases}
use bagel.Store.Leases
use bagel.Store.Window.{Window, count_attempts}
use bagel.Store.Housekeeping.{
  expire-active, expire-offenses, prune_leases-active, prune_leases-offenses, prune_offenses-leases,
  prune_offenses-count,
}
use bagel.Defense.Upkeep.{prune_old_leases, prune_old_offenses, retention_of, expire}

-- The leases in force at a time, and the attempts of a window, are those of other tables.
abbrev Keeps : ℕ → Window → Db → Db → Type 0
Keeps later w db after =
    (keep (is_active later) after.leases ≡ keep (is_active later) db.leases)
    × (count_attempts w after.offenses ≡ count_attempts w db.offenses)

module _ (now later history : ℕ) (w : Window) (le : now ≤ later) where
  prune_old_leases-Keeps :
      (expired : ℕ) (db : Db) → Keeps later w db (prune_old_leases history now expired db).1
  unfolding prune_old_leases
  prune_old_leases-Keeps expired db = elim (Result-cases (prune_leases (now - history) now db)) [
    | inr (x, e) ↦ rw (e, prune_old_leases) (refl, refl)
    | inl (p, e) ↦
        rw (e, prune_old_leases)
          (
            (prune_leases-active (now - history) now later db le).at p e,
            ap (count_attempts w) ((prune_leases-offenses (now - history) now db).at p e),
          )
  ]

  prune_old_offenses-Keeps :
      (retention expired : ℕ) (db : Db)
      → now - retention ≤ w.start
      → Keeps later w db (prune_old_offenses retention history now expired db).1
  unfolding prune_old_offenses
  prune_old_offenses-Keeps retention expired db early =
      elim (Result-cases (prune_offenses (now - retention) db)) [
        | inr (x, e) ↦ rw (e, prune_old_offenses) (refl, refl)
        | inl (p, e) ↦
            let (leases, offenses) = prune_old_leases-Keeps expired p.1 in
            rw (e, prune_old_offenses)
              (
                leases
                    ∙ ap (keep (is_active later))
                        ((prune_offenses-leases (now - retention) db).at p e),
                offenses ∙ (prune_offenses-count (now - retention) w db early).at p e,
              )
      ]

  -- The expiry of defense_maintenance.rs, whether it succeeds or fails at any of its three
  -- statements, leaves the leases in force at its time or later as they were, and the count of
  -- every window that begins no earlier than its time less the retention, which is the longest
  -- window of a policy or a day.
  pub expire-Keeps :
      (max_findtime : ℕ) (db : Db)
      → now - retention_of max_findtime ≤ w.start
      → (keep (is_active later) (expire max_findtime history now db).1.leases
          ≡ keep (is_active later) db.leases)
        × (count_attempts w (expire max_findtime history now db).1.offenses
            ≡ count_attempts w db.offenses)
  unfolding expire
  expire-Keeps max_findtime db early = elim (Result-cases (Leases.expire now db)) [
    | inr (x, e) ↦ rw (e, expire) (refl, refl)
    | inl (p, e) ↦
        let (leases, offenses) =
          prune_old_offenses-Keeps (retention_of max_findtime) p.0 p.1 early in
        rw (e, expire)
          (
            leases ∙ (expire-active now later db le).at p e,
            offenses ∙ ap (count_attempts w) ((expire-offenses now db).at p e),
          )
  ]
