-- ===== src/Store/Events.antt =====
-- `process_event` and `process_events`: a source record and all that it leads to, in one transaction.
use bagel.Prelude.{
  ℕ, ◌-◌, min, String, Bool, true, false, ◌&&◌, Option, none, some, List, [], ◌∷◌, ◌++◌, str_eq,
  ltb, if◌then◌else◌, length, update, any, i64_max, saturating_add,
}
use bagel.Store.Result.{Result, ok, sql_time, transact, ◌>>=◌}
use bagel.Store.Rows.{
  EventRow, LeaseRow, pending, Db, Services, Lease, OffenseInput, EventInput, EventOutcome,
}
use bagel.Store.Schedule.{ban_duration}
use bagel.Store.Window.{
  has_active_lease, NewLease, Window, count_attempts, consume, consume_attempts, escalation_count,
  same_offense, insert_offense, insert_lease, upsert_checkpoint,
}

abbrev pub or_else {ℓ} : {A : Type ℓ} → Option A → A → A
or_else none d = d
or_else (some a) d = a

-- group_key.or(attempt_key)
abbrev pub or_key : Option String → Option String → Option String
or_key none b = b
or_key (some a) b = some a

abbrev pub map_option : (ℕ → ℕ) → Option ℕ → Option ℕ
map_option f none = none
map_option f (some a) = some (f a)

abbrev pub same_event : String → String → EventRow → Bool
same_event source event_id r = str_eq r.source source && str_eq r.event_id event_id

module _ {Network : Type 0} (v : Services Network) where
  -- The lease of a ban that starts when the offense was observed.
  abbrev pub new_lease : OffenseInput Network → ℕ → ℕ → List LeaseRow → NewLease Network
  new_lease offense observed_at escalation rows = record {
    network = offense.network;
    policy = offense.policy;
    action = offense.action;
    created_at = observed_at;
    expires_at =
        map_option (λ d. min (saturating_add observed_at d) i64_max)
          (ban_duration offense.ban escalation (v.draw (length rows)));
    escalation_count = escalation;
    manual = false;
  }

  -- The ban that follows when the window holds `max_attempts`: a lease, and the attempts consumed.
  unfoldable pub ban : OffenseInput Network → ℕ → Window → Db → Result (Lease Network × Db)
  ban offense observed_at w db = do
    escalation ←
        escalation_count db.leases offense.policy (v.text offense.network) offense.ban.overall
          (observed_at - offense.history_retention_secs)
    let new = new_lease offense observed_at escalation db.leases
    (id, leases) ← insert_lease v new db.leases
    let lease : Lease Network = record {
      id = id;
      network = offense.network;
      policy = offense.policy;
      action = offense.action;
      created_at = observed_at;
      expires_at = new.expires_at;
      escalation_count = escalation;
      manual = false;
      apply_state = pending;
      last_error = none;
    }
    ok (lease, record db { leases = leases; offenses = consume_attempts w db.offenses })

  -- Below the limit of attempts nothing follows.
  unfoldable pub judge :
      OffenseInput Network → ℕ → Window → Db → Result (Option (Lease Network) × Db)
  judge offense observed_at w db =
      if ltb (count_attempts w db.offenses) offense.max_attempts
      then ok (none, db)
      else do (lease, db') ← ban offense observed_at w db; ok (some lease, db')

  -- The body of the loop of `apply_event`.
  unfoldable pub apply_offense :
      EventInput Network → OffenseInput Network → Db → Result (Option (Lease Network) × Db)
  apply_offense input offense db = do
    let observed_at = or_else offense.observed_at input.observed_at
    offense_observed_at ← sql_time observed_at
    let network = v.text offense.network
    offenses ←
        insert_offense
          (record {
            source = input.source;
            event_id = input.event_id;
            policy = offense.policy;
            network = network;
            observed_at = offense_observed_at;
            attempt_key = or_key offense.group_key offense.attempt_key;
            consumed = false;
          })
          db.offenses
    active ← has_active_lease db.leases offense.policy network observed_at
    if active
        then ok (
          none,
          record db {
            offenses =
                update (same_offense input.source input.event_id offense.policy) consume offenses;
          },
        )
        else do
          window_start ← sql_time (observed_at - offense.findtime_secs)
          judge offense observed_at
              (record {
                policy = offense.policy;
                network = network;
                start = window_start;
                until = offense_observed_at;
                group_key = offense.group_key;
              })
              (record db { offenses = offenses })

  unfoldable pub apply_offenses :
      EventInput Network → List (OffenseInput Network) → Db → Result (List (Lease Network) × Db)
  apply_offenses input [] db = ok ([], db)
  apply_offenses input (o ∷ os) db = do
    (found, db') ← apply_offense input o db
    (rest, db'') ← apply_offenses input os db'
    ok (elim found [ none ↦ rest | some lease ↦ lease ∷ rest ], db'')

  unfoldable pub apply_event : EventInput Network → Db → Result (EventOutcome Network × Db)
  apply_event input db = do
    observed_at ← sql_time input.observed_at
    if any (same_event input.source input.event_id) db.events
        then ok (record { duplicate = true; leases = [] }, db)
        else do
          let event : EventRow = record {
            source = input.source;
            event_id = input.event_id;
            observed_at = observed_at;
          }
          (leases, db') ←
              apply_offenses input input.offenses (record db { events = db.events ++ event ∷ [] })
          db'' ←
              upsert_checkpoint v input.source input.event_id input.checkpoint input.observed_at db'
          ok (record { duplicate = false; leases = leases }, db'')

  unfoldable pub process_event : EventInput Network → Db → Result (EventOutcome Network) × Db
  process_event input db = transact db (apply_event input db)

  -- An event with no offenses only moves the checkpoint.
  unfoldable pub apply_listed :
      EventInput Network → List (OffenseInput Network) → Db → Result (EventOutcome Network × Db)
  apply_listed input [] db = do
    db' ← upsert_checkpoint v input.source input.event_id input.checkpoint input.observed_at db
    ok (record { duplicate = false; leases = [] }, db')
  apply_listed input (o ∷ os) db = apply_event input db

  unfoldable pub apply_one : EventInput Network → Db → Result (EventOutcome Network × Db)
  unfolding apply_listed
  apply_one input db = apply_listed input input.offenses db

  unfoldable pub apply_events :
      List (EventInput Network) → Db → Result (List (EventOutcome Network) × Db)
  apply_events [] db = ok ([], db)
  apply_events (i ∷ is) db = do
    (outcome, db') ← apply_one i db
    (rest, db'') ← apply_events is db'
    ok (outcome ∷ rest, db'')

  unfoldable pub process_events :
      List (EventInput Network) → Db → Result (List (EventOutcome Network)) × Db
  process_events inputs db = transact db (apply_events inputs db)
