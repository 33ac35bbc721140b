-- ===== src/Store/Calls.antt =====
-- The store driven from outside: the methods that change it, as a history of calls. A call that
-- fails leaves the tables as they were.
use bagel.Prelude.{ℕ, Option, List, [], ◌∷◌}
use bagel.Config.{Action}
use bagel.Store.Result.{Result, transact}
use bagel.Store.Rows.{Db, Services, EventInput}
use bagel.Store.Events.{process_event, process_events}
use bagel.Store.Leases.{
  ApplyOutcome, manual_block, manual_unblock, expire, prune_offenses, prune_leases, begin_reconcile,
  mark_apply_results,
}

pub data Call (Network : Type 0) : Type 0 where
  event : EventInput Network → Call Network
  events : List (EventInput Network) → Call Network
  block : Network → Action → ℕ → Option ℕ → Call Network
  unblock : Network → ℕ → Call Network
  expires : ℕ → Call Network
  prunes_offenses : ℕ → Call Network
  prunes_leases : ℕ → ℕ → Call Network
  reconciles : ℕ → Call Network
  marks : List (ℕ × ApplyOutcome) → Call Network

-- The tables after a call, whatever it returns.
unfoldable pub after : {A : Type 0} → Db → Result (A × Db) → Db
after db r = (transact db r).1

module _ {Network : Type 0} (v : Services Network) where
  unfoldable pub step : Call Network → Db → Db
  step (event i) db = (process_event v i db).1
  step (events is) db = (process_events v is db).1
  step (block n a now d) db = after db (manual_block v n a now d db)
  step (unblock n now) db = after db (manual_unblock v n now db)
  step (expires now) db = after db (expire now db)
  step (prunes_offenses before) db = after db (prune_offenses before db)
  step (prunes_leases before now) db = after db (prune_leases before now db)
  step (reconciles now) db = after db (begin_reconcile now db)
  step (marks outcomes) db = (mark_apply_results outcomes db).1

  unfoldable pub run : List (Call Network) → Db → Db
  run [] db = db
  run (c ∷ cs) db = run cs (step c db)
