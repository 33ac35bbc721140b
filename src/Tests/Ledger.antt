-- ===== src/Tests/Ledger.antt =====
-- crates/bagel-runtime/src/store.rs on concrete tables, with networks as texts and a JSON form for
-- one action and one checkpoint.
use bagel.Prelude.{
  ℕ, zero, ◌+◌, ◌≤◌, ◌<◌, max, String, ◌≡◌, refl, false, not, ◌&&◌, Option, none, some, List, [],
  ◌∷◌, arith, str_eq, keep, count, All,
}
use bagel.Config.{Action, drop_all, BanSchedule}
use bagel.Store.Result.{Result, ok, err, Ensures, transact, ◌>>=◌, sql_time}
use bagel.Store.Rows.{
  Checkpoint, listener, Db, create_schema, LeaseRow, Services, IsLawful, EventInput, EventOutcome,
  OffenseInput,
}
use bagel.Store.Window.{
  Window, is_active, is_for, count_attempts, insert_offense, has_active_lease, attempts_of,
  count_distinct, in_window, escalation_count, insert_lease, consume_attempts, json_of,
  put_checkpoint, sql_time_option, upsert_checkpoint,
}
use bagel.Store.Events.{process_event, judge, apply_event, apply_offenses, apply_offense, ban}
use bagel.Store.Leases.{manual_block, manual_unblock}
use bagel.Store.Calls.{Call, event, block, run, step, after}
use bagel.Store.Disjoint.{same_flag}
use bagel.Store.Schedule.{ban_duration, step_of}
use bagel.Store.Terms.{run_unique}
use bagel.Store.Commit.{process_event-commits, Committed}
use bagel.Store.Replay.{process_event_again, replayed}
use bagel.Store.Threshold.{judge-Judged, Judged}
use bagel.Store.Housekeeping.{manual_unblock-active}
use bagel.Store.Schedule.Bounds.{ban_duration-exact, ban_duration_mono, duration_or}

abbrev text : String → String
text s = s

abbrev action_json : Action → Option String
action_json drop_all = some "drop_all"
action_json _ = none

abbrev checkpoint_json : Checkpoint → Option String
checkpoint_json (listener zero) = some "listener"
checkpoint_json _ = none

abbrev fresh_id : List LeaseRow → ℕ
fresh_id [] = 1
fresh_id (r ∷ rs) = max (r.id + 1) (fresh_id rs)

abbrev services : Services String
services = record {
  text = text;
  parse = λ s. some s;
  action_json = action_json;
  action_of_json = λ s. some drop_all;
  checkpoint_json = checkpoint_json;
  checkpoint_of_json = λ s. some (listener 0);
  fresh_id = fresh_id;
  draw = λ k m. 0;
}

action_reads : (a : Action) (s : String) → action_json a ≡ some s → some drop_all ≡ some a
action_reads drop_all s h = refl
action_reads _ s h = absurd (cc h)

checkpoint_reads :
    (c : Checkpoint) (s : String) → checkpoint_json c ≡ some s → some (listener 0) ≡ some c
checkpoint_reads (listener zero) s h = refl
checkpoint_reads _ s h = absurd (cc h)

ids_below : (m : ℕ) (rows : List LeaseRow) → fresh_id rows ≤ m → All (λ r. r.id < m) rows
ids_below m [] h = tt
ids_below m (r ∷ rs) h = (omega arith, ids_below m rs (omega arith))

services-IsLawful : IsLawful services
services-IsLawful = record {
  parse_text = λ n. refl;
  action_reads = action_reads;
  checkpoint_reads = checkpoint_reads;
  id_above = λ rows. ids_below (fresh_id rows) rows (omega arith);
  draw_within = λ k m. omega arith;
}

abbrev schedule : BanSchedule
schedule = record {
  duration_secs = some 60;
  max_duration_secs = 86400;
  factor = 1;
  multipliers = 1 ∷ 5 ∷ [];
  jitter_secs = 0;
  overall = false;
}

abbrev offense : OffenseInput String
offense = record {
  policy = "ssh";
  network = "192.0.2.1";
  max_attempts = 1;
  findtime_secs = 600;
  history_retention_secs = 3600;
  ban = schedule;
  action = drop_all;
  observed_at = none;
  attempt_key = none;
  group_key = none;
}

abbrev input : EventInput String
input = record {
  source = "sshd";
  event_id = "e1";
  checkpoint = listener 0;
  observed_at = 1000;
  offenses = offense ∷ [];
}

abbrev banned : Db
banned = (process_event services input create_schema).1

process_event-commits_example :
    Committed services input create_schema banned (process_event services input create_schema).0
process_event-commits_example = process_event-commits services services-IsLawful input create_schema

abbrev outcome : Result (EventOutcome String) → EventOutcome String
outcome (ok o) = o
outcome (err e) = record { duplicate = false; leases = [] }

-- The first attempt bans, which the tables and the outcome show.
input-processed :
    process_event services input create_schema
    ≡ (ok (outcome (process_event services input create_schema).0), banned)
unfolding process_event transact apply_event ◌>>=◌ sql_time apply_offenses apply_offense
    insert_offense has_active_lease judge count_attempts attempts_of count_distinct in_window ban
    escalation_count insert_lease ban_duration step_of consume_attempts is_active json_of
    put_checkpoint sql_time_option upsert_checkpoint
input-processed = refl

process_event_again_example : process_event services input banned ≡ (ok (replayed services), banned)
process_event_again_example =
    process_event_again services input create_schema banned _ input-processed

abbrev calls : List (Call String)
calls = event input ∷ block "192.0.2.1" drop_all 1005 none ∷ []

calls-created : All (λ r. r.created_at ≤ 1010) (run services calls create_schema).leases
unfolding run step after manual_block process_event transact apply_event ◌>>=◌ sql_time
    apply_offenses apply_offense insert_offense has_active_lease judge count_attempts attempts_of
    count_distinct in_window ban escalation_count insert_lease ban_duration step_of consume_attempts
    is_active json_of put_checkpoint sql_time_option upsert_checkpoint
calls-created = (omega arith, (omega arith, tt))

run_unique_example :
    count
      (λ r. is_for "ssh" "192.0.2.1" r && same_flag false r.manual && is_active 1010 r)
      (run services calls create_schema).leases
    ≤ 1
run_unique_example = run_unique services calls "ssh" "192.0.2.1" false 1010 calls-created

abbrev attempt_window : Window
attempt_window = record {
  policy = "ssh";
  network = "192.0.2.1";
  start = 400;
  until = 1000;
  group_key = none;
}

abbrev attempted : Db
attempted = record {
  checkpoints = [];
  events = [];
  leases = [];
  offenses =
      record {
        source = "sshd";
        event_id = "e0";
        policy = "ssh";
        network = "192.0.2.1";
        observed_at = 990;
        attempt_key = none;
        consumed = false;
      }
      ∷ [];
}

judge-Judged_example :
    Ensures
      (Judged services offense attempt_window attempted)
      (judge services offense 1000 attempt_window attempted)
judge-Judged_example = judge-Judged services services-IsLawful offense 1000 attempt_window attempted

manual_unblock-active_example :
    Ensures
      (λ p.
        keep (is_active 1020) p.1.leases
        ≡ keep (λ r. is_active 1020 r && not (str_eq r.network "192.0.2.1")) banned.leases)
      (manual_unblock services "192.0.2.1" 1010 banned)
manual_unblock-active_example =
    manual_unblock-active services "192.0.2.1" 1010 1020 banned (omega arith)

ban_duration-exact_example : ban_duration schedule 1 (λ m. 0) ≡ some 300
ban_duration-exact_example = ban_duration-exact schedule 60 1 (λ m. 0) refl (omega arith)

ban_duration_mono_example :
    (duration_or 0 (ban_duration schedule 0 (λ m. 0))
      ≤ duration_or 0 (ban_duration schedule 1 (λ m. 0)))
    × (duration_or 0 (ban_duration schedule 1 (λ m. 0)) ≤ 86400)
ban_duration_mono_example =
    ban_duration_mono schedule 60 0 1 (λ m. 0) refl (omega arith, tt) (omega arith)
