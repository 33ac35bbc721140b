-- ===== src/Store/Housekeeping.antt =====
-- What expiry, pruning and manual unblocking do to the leases in force and to the windows.
use bagel.Prelude.{
  ℕ, ◌≤◌, ◌≡◌, refl, inl, inr, Bool, true, false, not, ◌&&◌, some, List, [], ◌∷◌, arith, str_eq,
  ltb, Bool-cases, keep, update,
}
use bagel.Store.Result.{sql_time-ok, Ensures, Ensures-ok, Ensures-bind}
use bagel.Store.Rows.{Db, LeaseRow, Services}
use bagel.Store.Window.{is_live, is_active, Window, in_window, count_attempts}
use bagel.Store.Leases.{
  has_ended, is_stale, revoke, update_leases, manual_unblock, expire, prune_offenses, prune_leases,
}

-- An UPDATE whose rows pass neither test afterwards, on rows where the tests agree otherwise.
keep-update {ℓ} :
    {A : Type ℓ} (q s p : A → Bool) (f : A → A)
    → ((r : A) → p r ≡ true → (q (f r) ≡ false) × (s r ≡ false))
    → ((r : A) → p r ≡ false → q r ≡ s r)
    → (rows : List A) → keep q (update p f rows) ≡ keep s rows
keep-update q s p f h k [] = refl
keep-update q s p f h k (r ∷ rows) = elim (Bool-cases (p r)) [
  | inl e ↦ rw (e, (h r e).0, (h r e).1) (keep-update q s p f h k rows)
  | inr e ↦ rw (e, k r e, keep-update q s p f h k rows)
]

-- So is a DELETE of such rows.
keep-keep {ℓ} :
    {A : Type ℓ} (q p : A → Bool)
    → ((r : A) → p r ≡ false → q r ≡ false)
    → (rows : List A) → keep q (keep p rows) ≡ keep q rows
keep-keep q p h [] = refl
keep-keep q p h (r ∷ rows) = elim (Bool-cases (p r)) [
  | inl e ↦ rw (e, keep-keep q p h rows)
  | inr e ↦ rw (e, h r e) (keep-keep q p h rows)
]

-- When `expire` ends well, the leases in force at its time or later are the same as before.
pub expire-active :
    (now later : ℕ) (db : Db)
    → now ≤ later
    → Ensures
        (λ p. keep (is_active later) p.1.leases ≡ keep (is_active later) db.leases)
        (expire now db)
unfolding expire update_leases
expire-active now later db le = Ensures-bind λ t e. Ensures-ok _ (
    rw (sql_time-ok now e) (
      keep-update (is_active later) (is_active later) _ _ (λ r k. ended r k) (λ r _. refl)
        db.leases))
  where
    ended :
        (r : LeaseRow)
        → (is_live r && has_ended now r.expires_at) ≡ true
        → (is_active later (record r { expired_at = some now }) ≡ false)
          × (is_active later r ≡ false)
    ended r k = unfold is_active in (ground arith, ground arith)

-- When `prune_leases` ends well, the leases in force at its time `now` or later are the same as
-- before.
pub prune_leases-active :
    (before now later : ℕ) (db : Db)
    → now ≤ later
    → Ensures
        (λ p. keep (is_active later) p.1.leases ≡ keep (is_active later) db.leases)
        (prune_leases before now db)
unfolding prune_leases is_active
prune_leases-active before now later db le = Ensures-bind λ b _. Ensures-bind λ t e. Ensures-ok _ (
    rw (sql_time-ok now e)
      (keep-keep (is_active later) (λ r. not (is_stale b now r)) (λ r k. ground arith) db.leases))

pub expire-offenses :
    (now : ℕ) (db : Db) → Ensures (λ p. p.1.offenses ≡ db.offenses) (expire now db)
unfolding expire update_leases
expire-offenses now db = Ensures-bind λ t e. Ensures-ok _ refl

pub prune_leases-offenses :
    (before now : ℕ) (db : Db)
    → Ensures (λ p. p.1.offenses ≡ db.offenses) (prune_leases before now db)
unfolding prune_leases
prune_leases-offenses before now db = Ensures-bind λ b _. Ensures-bind λ t e. Ensures-ok _ refl

pub prune_offenses-leases :
    (before : ℕ) (db : Db) → Ensures (λ p. p.1.leases ≡ db.leases) (prune_offenses before db)
unfolding prune_offenses
prune_offenses-leases before db = Ensures-bind λ b _. Ensures-ok _ refl

-- When `prune_offenses` ends well, a window that begins no earlier than its cut counts the same
-- attempts as before.
pub prune_offenses-count :
    (before : ℕ) (w : Window) (db : Db)
    → before ≤ w.start
    → Ensures
        (λ p. count_attempts w p.1.offenses ≡ count_attempts w db.offenses)
        (prune_offenses before db)
unfolding prune_offenses count_attempts in_window
prune_offenses-count before w db le = Ensures-bind λ t e. Ensures-ok _ (
    rw (
      sql_time-ok before e,
      keep-keep (in_window w) (λ r. not (ltb r.observed_at before)) (λ r k. ground arith)
          db.offenses,
    ))

module _ {Network : Type 0} (v : Services Network) where
  -- When `manual_unblock` ends well, the leases in force, at its time and later, are those of
  -- the other networks.
  pub manual_unblock-active :
      (n : Network) (now later : ℕ) (db : Db)
      → now ≤ later
      → Ensures
          (λ p.
            keep (is_active later) p.1.leases
            ≡ keep (λ r. is_active later r && not (str_eq r.network (v.text n))) db.leases)
          (manual_unblock v n now db)
  unfolding manual_unblock update_leases
  manual_unblock-active n now later db le = Ensures-bind λ t e. Ensures-ok _ (
      rw (sql_time-ok now e) (
        keep-update (is_active later) (λ r. is_active later r && not (at_network r)) _ _
          (λ r k. (revoked r, hidden r k)) (λ r k. untouched r k) db.leases))
    where
      at_network : LeaseRow → Bool
      at_network r = str_eq r.network (v.text n)

      revoked : (r : LeaseRow) → is_active later (revoke now r) ≡ false
      revoked r = unfold is_active in ground arith

      hidden :
          (r : LeaseRow)
          → (str_eq r.network (v.text n) && is_active now r) ≡ true
          → (is_active later r && not (at_network r)) ≡ false
      hidden r k = ground arith

      untouched :
          (r : LeaseRow)
          → (str_eq r.network (v.text n) && is_active now r) ≡ false
          → is_active later r ≡ (is_active later r && not (at_network r))
      untouched r k = unfold is_active in ground arith
