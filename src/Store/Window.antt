-- ===== src/Store/Window.antt =====
-- The SQL of `apply_event`: the lease in force, the rolling window of offenses, the history of bans
-- and the rows that are written.
use bagel.Prelude.{
  ℕ, ◌+◌, ◌-◌, String, Bool, true, false, not, ◌&&◌, ◌||◌, Option, none, some, List, [], ◌∷◌, ◌++◌,
  str_eq, ltb, leb, if◌then◌else◌, is_some, is_none, length, keep, update, any, count,
}
use bagel.Config.{Action}
use bagel.Store.Result.{Result, ok, err, constraint, bad_json, sql_time, ◌>>=◌}
use bagel.Store.Rows.{Checkpoint, CheckpointRow, OffenseRow, LeaseRow, pending, Db, Services}

-- revoked_at IS NULL AND expired_at IS NULL
abbrev pub is_live : LeaseRow → Bool
is_live r = is_none r.revoked_at && is_none r.expired_at

-- expires_at IS NULL OR expires_at > t
abbrev pub ends_after : ℕ → Option ℕ → Bool
ends_after t none = true
ends_after t (some e) = ltb t e

unfoldable pub is_active : ℕ → LeaseRow → Bool
is_active t r = is_live r && ends_after t r.expires_at

abbrev pub is_for : String → String → LeaseRow → Bool
is_for policy network r = str_eq r.policy policy && str_eq r.network network

unfoldable pub has_active_lease : List LeaseRow → String → String → ℕ → Result Bool
has_active_lease rows policy network now = do
  t ← sql_time now
  ok (any (λ r. is_for policy network r && is_active t r) rows)

-- (?5 IS NULL OR attempt_key = ?5); a NULL key equals nothing.
abbrev pub key_matches : Option String → Option String → Bool
key_matches none k = true
key_matches (some g) none = false
key_matches (some g) (some k) = str_eq k g

-- `offense_window!`, with its five parameters.
pub record Window : Type 0 where
  pub policy : String
  pub network : String
  pub start : ℕ
  pub until : ℕ
  pub group_key : Option String

unfoldable pub in_window : Window → OffenseRow → Bool
in_window w r =
    str_eq r.policy w.policy
    && str_eq r.network w.network
    && not r.consumed
    && leb w.start r.observed_at
    && leb r.observed_at w.until
    && key_matches w.group_key r.attempt_key

abbrev pub same_key : Option String → Option String → Bool
same_key (some a) (some b) = str_eq a b
same_key _ _ = false

-- COUNT(DISTINCT attempt_key)
unfoldable pub count_distinct : List OffenseRow → ℕ
count_distinct [] = 0
count_distinct (r ∷ rs) =
    (if is_none r.attempt_key || any (λ x. same_key r.attempt_key x.attempt_key) rs then 0 else 1)
    + count_distinct rs

unfoldable pub attempts_of : Option String → List OffenseRow → ℕ
attempts_of (some g) found = length found
attempts_of none found =
    count_distinct found + length found - count (λ r. is_some r.attempt_key) found

-- COUNT_GROUPED_ATTEMPTS for an offense with a group key, COUNT_DISTINCT_ATTEMPTS without one.
unfoldable pub count_attempts : Window → List OffenseRow → ℕ
count_attempts w rows = attempts_of w.group_key (keep (in_window w) rows)

abbrev pub consume : OffenseRow → OffenseRow
consume r = record r { consumed = true }

-- CONSUME_ATTEMPTS
unfoldable pub consume_attempts : Window → List OffenseRow → List OffenseRow
consume_attempts w = update (in_window w) consume

-- The bans of the network in the history, by any policy or by this one.
unfoldable pub escalation_count : List LeaseRow → String → String → Bool → ℕ → Result ℕ
escalation_count rows policy network overall history_start = do
  t ← sql_time history_start
  ok (
      count
        (λ r.
          str_eq r.network network
          && (overall || str_eq r.policy policy)
          && not r.manual
          && leb t r.created_at)
        rows)

-- PRIMARY KEY(source, event_id, policy)
abbrev pub same_offense : String → String → String → OffenseRow → Bool
same_offense source event_id policy r =
    str_eq r.source source && str_eq r.event_id event_id && str_eq r.policy policy

unfoldable pub insert_offense : OffenseRow → List OffenseRow → Result (List OffenseRow)
insert_offense r rows =
    if any (same_offense r.source r.event_id r.policy) rows
    then err constraint
    else ok (rows ++ r ∷ [])

unfoldable pub json_of : Option String → Result String
json_of none = err bad_json
json_of (some s) = ok s

unfoldable pub sql_time_option : Option ℕ → Result (Option ℕ)
sql_time_option none = ok none
sql_time_option (some t) = do u ← sql_time t; ok (some u)

pub record NewLease (Network : Type 0) : Type 0 where
  pub network : Network
  pub policy : String
  pub action : Action
  pub created_at : ℕ
  pub expires_at : Option ℕ
  pub escalation_count : ℕ
  pub manual : Bool

module _ {Network : Type 0} (v : Services Network) where
  -- The row id of the new lease, and the table with it.
  unfoldable pub insert_lease : NewLease Network → List LeaseRow → Result (ℕ × List LeaseRow)
  insert_lease n rows = do
    serialized ← json_of (v.action_json n.action)
    created ← sql_time n.created_at
    expires ← sql_time_option n.expires_at
    escalation ← sql_time n.escalation_count
    let row : LeaseRow = record {
      id = v.fresh_id rows;
      network = v.text n.network;
      policy = n.policy;
      action = serialized;
      created_at = created;
      expires_at = expires;
      escalation_count = escalation;
      manual = n.manual;
      revoked_at = none;
      expired_at = none;
      apply_state = pending;
      apply_error = none;
    }
    ok (v.fresh_id rows, rows ++ row ∷ [])

  -- ON CONFLICT(source) DO UPDATE
  unfoldable pub put_checkpoint : CheckpointRow → List CheckpointRow → List CheckpointRow
  put_checkpoint c [] = c ∷ []
  put_checkpoint c (d ∷ ds) = if str_eq d.source c.source then c ∷ ds else d ∷ put_checkpoint c ds

  unfoldable pub upsert_checkpoint : String → String → Checkpoint → ℕ → Db → Result Db
  unfolding put_checkpoint
  upsert_checkpoint source event_id checkpoint observed_at db = do
    body ← json_of (v.checkpoint_json checkpoint)
    updated ← sql_time observed_at
    let row : CheckpointRow = record {
      source = source;
      event_id = event_id;
      body = body;
      updated_at = updated;
    }
    ok (record db { checkpoints = put_checkpoint row db.checkpoints })
