-- ===== src/Store/Leases.antt =====
-- The other methods of `Store`: what is in force, expiry, pruning, manual bans and the outcomes of
-- a reconciliation.
use bagel.Prelude.{
  ℕ, String, Bool, true, false, not, ◌&&◌, ◌||◌, Option, none, some, List, [], ◌∷◌, str_eq, ltb,
  leb, ◌==◌, if◌then◌else◌, is_some, keep, update, any, count, saturating_add,
}
use bagel.Config.{Action}
use bagel.Store.Result.{
  Result, ok, err, Error, bad_json, bad_network, unknown_lease, sql_time, transact, ◌>>=◌,
}
use bagel.Store.Rows.{Checkpoint, CheckpointRow, LeaseRow, ApplyState, pending, Db, Services, Lease}
use bagel.Store.Window.{is_live, is_active, insert_lease}

abbrev pub manual_policy : String
manual_policy = "__manual__"

-- ApplyOutcome
pub data ApplyOutcome : Type 0 where
  applied observed : ApplyOutcome
  failed : String → ApplyOutcome

unfoldable pub found {ℓ} : {A : Type ℓ} → Option A → Error → Result A
found none e = err e
found (some a) e = ok a

-- An UPDATE of the leases: how many rows it changes, and the tables after it.
unfoldable pub update_leases : (LeaseRow → Bool) → (LeaseRow → LeaseRow) → Db → ℕ × Db
update_leases p f db = (count p db.leases, record db { leases = update p f db.leases })

abbrev pub revoke : ℕ → LeaseRow → LeaseRow
revoke t r = record r { revoked_at = some t }

-- manual = 1 AND network = ?2 AND revoked_at IS NULL AND expired_at IS NULL
abbrev pub is_held : String → LeaseRow → Bool
is_held network r = r.manual && str_eq r.network network && is_live r

module _ {Network : Type 0} (v : Services Network) where
  unfoldable pub find_checkpoint : String → List CheckpointRow → Option String
  find_checkpoint source [] = none
  find_checkpoint source (c ∷ cs) =
      if str_eq c.source source then some c.body else find_checkpoint source cs

  unfoldable pub decode_checkpoint : Option String → Result (Option Checkpoint)
  unfolding found
  decode_checkpoint none = ok none
  decode_checkpoint (some body) = do c ← found (v.checkpoint_of_json body) bad_json; ok (some c)

  unfoldable pub checkpoint : String → Db → Result (Option Checkpoint)
  unfolding decode_checkpoint find_checkpoint
  checkpoint source db = decode_checkpoint (find_checkpoint source db.checkpoints)

  unfoldable pub decode_lease : LeaseRow → Result (Lease Network)
  unfolding found
  decode_lease r = do
    network ← found (v.parse r.network) bad_network
    action ← found (v.action_of_json r.action) bad_json
    ok (record {
      id = r.id;
      network = network;
      policy = r.policy;
      action = action;
      created_at = r.created_at;
      expires_at = r.expires_at;
      escalation_count = r.escalation_count;
      manual = r.manual;
      apply_state = r.apply_state;
      last_error = r.apply_error;
    })

  unfoldable pub decode_leases : List LeaseRow → Result (List (Lease Network))
  decode_leases [] = ok []
  decode_leases (r ∷ rs) = do l ← decode_lease r; ls ← decode_leases rs; ok (l ∷ ls)

  unfoldable pub active_leases : Db → ℕ → Result (List (Lease Network))
  active_leases db now = do t ← sql_time now; decode_leases (keep (is_active t) db.leases)

  unfoldable pub manual_block : Network → Action → ℕ → Option ℕ → Db → Result (Lease Network × Db)
  manual_block network action now duration_secs db = do
    t ← sql_time now
    let rows = update (is_held (v.text network)) (revoke t) db.leases
    let expires_at : Option ℕ = elim duration_secs [
      | none ↦ none
      | some d ↦ some (saturating_add now d)
    ]
    (id, leases) ←
        insert_lease v
          (record {
            network = network;
            policy = manual_policy;
            action = action;
            created_at = now;
            expires_at = expires_at;
            escalation_count = 0;
            manual = true;
          })
          rows
    let lease : Lease Network = record {
      id = id;
      network = network;
      policy = manual_policy;
      action = action;
      created_at = now;
      expires_at = expires_at;
      escalation_count = 0;
      manual = true;
      apply_state = pending;
      last_error = none;
    }
    ok (lease, record db { leases = leases })

  unfoldable pub manual_unblock : Network → ℕ → Db → Result (ℕ × Db)
  unfolding update_leases
  manual_unblock network now db = do
    t ← sql_time now
    ok (update_leases (λ r. str_eq r.network (v.text network) && is_active t r) (revoke t) db)

-- expires_at IS NOT NULL AND expires_at <= t
abbrev pub has_ended : ℕ → Option ℕ → Bool
has_ended t none = false
has_ended t (some e) = leb e t

unfoldable pub expire : ℕ → Db → Result (ℕ × Db)
unfolding update_leases
expire now db = do
  t ← sql_time now
  ok (
      update_leases (λ r. is_live r && has_ended t r.expires_at)
        (λ r. record r { expired_at = some t }) db)

-- The events that no offense refers to go with the old offenses.
unfoldable pub prune_offenses : ℕ → Db → Result (ℕ × Db)
prune_offenses before db = do
  t ← sql_time before
  let offenses = keep (λ r. not (ltb r.observed_at t)) db.offenses
  ok (
    count (λ r. ltb r.observed_at t) db.offenses,
    record db {
      offenses = offenses;
      events =
          keep (λ e. any (λ o. str_eq o.source e.source && str_eq o.event_id e.event_id) offenses)
            db.events;
    },
  )

abbrev pub is_stale : ℕ → ℕ → LeaseRow → Bool
is_stale b t r =
    ltb r.created_at b && (is_some r.revoked_at || is_some r.expired_at || has_ended t r.expires_at)

unfoldable pub prune_leases : ℕ → ℕ → Db → Result (ℕ × Db)
prune_leases before now db = do
  b ← sql_time before
  t ← sql_time now
  ok (
    count (is_stale b t) db.leases,
    record db { leases = keep (λ r. not (is_stale b t r)) db.leases },
  )

unfoldable pub begin_reconcile : ℕ → Db → Result (ℕ × Db)
unfolding update_leases
begin_reconcile now db = do
  t ← sql_time now
  ok (update_leases (is_active t) (λ r. record r { apply_state = pending; apply_error = none }) db)

pub state_of : ApplyOutcome → ApplyState
state_of ApplyOutcome.applied = ApplyState.applied
state_of ApplyOutcome.observed = ApplyState.observed
state_of (ApplyOutcome.failed e) = ApplyState.failed

pub error_of : ApplyOutcome → Option String
error_of ApplyOutcome.applied = none
error_of ApplyOutcome.observed = none
error_of (ApplyOutcome.failed e) = some e

-- UPDATE leases SET apply_state = ?1, apply_error = ?2 WHERE id = ?3
unfoldable pub mark : ℕ → ApplyOutcome → Db → ℕ × Db
unfolding update_leases state_of error_of
mark id outcome =
    update_leases (λ r. r.id == id)
      (λ r. record r { apply_state = state_of outcome; apply_error = error_of outcome })

unfoldable pub mark_results : List (ℕ × ApplyOutcome) → Db → Result (Unit {0} × Db)
unfolding mark
mark_results [] db = ok (tt, db)
mark_results ((id, outcome) ∷ rest) db =
    if (mark id outcome db).0 == 0
    then err (unknown_lease id)
    else mark_results rest (mark id outcome db).1

unfoldable pub mark_apply_results : List (ℕ × ApplyOutcome) → Db → Result (Unit {0}) × Db
mark_apply_results outcomes db = transact db (mark_results outcomes db)
