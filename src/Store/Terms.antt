-- ===== src/Store/Terms.antt =====
-- After any history of calls the leases of one policy on one network have disjoint terms.
use bagel.Prelude.{
  ℕ, ◌≤◌, String, ◌≡◌, refl, ◌∙◌, Bool, true, false, ◌&&◌, Option, List, [], ◌∷◌, arith, ltb, ◌==◌,
  if◌then◌else◌, update, any, count, All,
}
use bagel.Config.{Action}
use bagel.Store.Result.{
  Result, ok, err, sql_time, sql_time-ok, ok-injective, transact, >>=-eq-ok, Ensures, Ensures-ok,
  Ensures-err, Ensures-bind, Ensures-if,
}
use bagel.Store.Rows.{Checkpoint, Db, LeaseRow, Services, OffenseInput, EventInput, create_schema}
use bagel.Store.Window.{
  NewLease, Window, count_attempts, is_for, is_active, has_active_lease, insert_lease,
  upsert_checkpoint,
}
use bagel.Store.Events.{
  or_else, same_event, ban, judge, apply_offense, apply_offenses, apply_event, apply_listed,
  apply_one, apply_events, process_event, process_events,
}
use bagel.Store.Leases.{
  ApplyOutcome, state_of, error_of, revoke, is_held, mark, update_leases, manual_block,
  manual_unblock, expire, prune_offenses, prune_leases, begin_reconcile, mark_results,
  mark_apply_results,
}
use bagel.Store.Calls.{
  Call, event, events, block, unblock, expires, prunes_offenses, prunes_leases, reconciles, marks,
  after, step, run,
}
use bagel.Store.Insert.{row_of, insert_lease-append}
use bagel.Store.Disjoint.{
  follows, same_flag, IsDisjoint, IsDisjoint-unique, update-IsDisjoint, keep-IsDisjoint,
  append-IsDisjoint, All-follows_of_inactive,
}

-- A transaction that ends well leaves disjoint terms.
abbrev Ends : {A : Type 0} → Result (A × Db) → Type 0
Ends = Ensures (λ p. IsDisjoint p.1.leases)

transact-IsDisjoint :
    {A : Type 0} (db : Db) (r : Result (A × Db))
    → IsDisjoint db.leases
    → Ends r
    → IsDisjoint (transact db r).1.leases
unfolding transact
transact-IsDisjoint db (ok (a, db')) h k = k.at (a, db') refl
transact-IsDisjoint db (err e) h k = h

-- An UPDATE of leases that cannot fail.
update_leases-Ends :
    (p : LeaseRow → Bool) (f : LeaseRow → LeaseRow) (db : Db)
    → ((a b : LeaseRow)
        → follows a b ≡ true
        → follows (if p a then f a else a) (if p b then f b else b) ≡ true)
    → IsDisjoint db.leases
    → Ends (ok (update_leases p f db))
unfolding update_leases
update_leases-Ends p f db k h = Ensures-ok _ (update-IsDisjoint p f k db.leases h)

-- What follows every row after a change follows all the rows of the UPDATE.
All-follows-update :
    (p : LeaseRow → Bool) (f : LeaseRow → LeaseRow) (n : LeaseRow)
    → ((a : LeaseRow) → follows (if p a then f a else a) n ≡ true)
    → (rows : List LeaseRow) → All (λ a. follows a n ≡ true) (update p f rows)
All-follows-update p f n h [] = tt
All-follows-update p f n h (a ∷ rows) = (h a, All-follows-update p f n h rows)

has_active_lease-eq :
    (rows : List LeaseRow) (policy network : String) (t : ℕ) {b : Bool}
    → has_active_lease rows policy network t ≡ ok b
    → any (λ r. is_for policy network r && is_active t r) rows ≡ b
unfolding has_active_lease
has_active_lease-eq rows policy network t h =
    let (u, e, k) = >>=-eq-ok (sql_time t) _ h in rw (← sql_time-ok t e) (ok-injective k)

module _ {Network : Type 0} (v : Services Network) where
  -- A lease that follows all the others may be inserted.
  insert_lease-IsDisjoint :
      (n : NewLease Network) (rows : List LeaseRow) (r : ℕ × List LeaseRow)
      → IsDisjoint rows
      → ((s : String) → All (λ a. follows a (row_of v n rows s) ≡ true) rows)
      → insert_lease v n rows ≡ ok r
      → IsDisjoint r.1
  insert_lease-IsDisjoint n rows (id, rows') h k e =
      let (s, _, _, eq) = insert_lease-append v n rows e in
      rw eq (append-IsDisjoint rows (row_of v n rows s) h (k s))

  insert_idle-IsDisjoint :
      (n : NewLease Network) (rows : List LeaseRow) (r : ℕ × List LeaseRow)
      → IsDisjoint rows
      → any (λ r. is_for n.policy (v.text n.network) r && is_active n.created_at r) rows ≡ false
      → insert_lease v n rows ≡ ok r
      → IsDisjoint r.1
  insert_idle-IsDisjoint n rows r h k =
      insert_lease-IsDisjoint n rows r h (λ s. All-follows_of_inactive rows (row_of v n rows s) k)

  ban-Ends :
      (o : OffenseInput Network) (t : ℕ) (w : Window) (db : Db)
      → IsDisjoint db.leases
      → any (λ r. is_for o.policy (v.text o.network) r && is_active t r) db.leases ≡ false
      → Ends (ban v o t w db)
  unfolding ban
  ban-Ends o t w db h k =
      Ensures-bind λ escalation _.
        Ensures-bind λ r e. Ensures-ok _ (insert_idle-IsDisjoint _ db.leases r h k e)

  judge-Ends :
      (o : OffenseInput Network) (t : ℕ) (w : Window) (db : Db)
      → IsDisjoint db.leases
      → any (λ r. is_for o.policy (v.text o.network) r && is_active t r) db.leases ≡ false
      → Ends (judge v o t w db)
  unfolding judge
  judge-Ends o t w db h k =
      Ensures-if (ltb (count_attempts w db.offenses) o.max_attempts) (λ _. Ensures-ok _ h)
        (λ _. Ensures-bind λ r e. Ensures-ok _ ((ban-Ends o t w db h k).at r e))

  upsert_checkpoint-leases :
      (source event_id : String) (c : Checkpoint) (t : ℕ) (db : Db)
      → Ensures (λ db'. db'.leases ≡ db.leases) (upsert_checkpoint v source event_id c t db)
  unfolding upsert_checkpoint
  upsert_checkpoint-leases source event_id c t db =
      Ensures-bind λ body _. Ensures-bind λ u _. Ensures-ok _ refl

  apply_offense-Ends :
      (i : EventInput Network) (o : OffenseInput Network) (db : Db)
      → IsDisjoint db.leases
      → Ends (apply_offense v i o db)
  unfolding apply_offense
  apply_offense-Ends i o db h =
      let t = or_else o.observed_at i.observed_at in
      Ensures-bind λ u _. Ensures-bind λ offenses _. Ensures-bind λ active e.
        Ensures-if active (λ _. Ensures-ok _ h)
          (λ idle. Ensures-bind λ start _.
            judge-Ends o t _ _ h
              (has_active_lease-eq db.leases o.policy (v.text o.network) t e ∙ idle))

  apply_offenses-Ends :
      (i : EventInput Network) (os : List (OffenseInput Network)) (db : Db)
      → IsDisjoint db.leases
      → Ends (apply_offenses v i os db)
  unfolding apply_offenses
  apply_offenses-Ends i [] db h = Ensures-ok _ h
  apply_offenses-Ends i (o ∷ os) db h = Ensures-bind λ r e. Ensures-bind λ rest k.
      Ensures-ok _ ((apply_offenses-Ends i os r.1 ((apply_offense-Ends i o db h).at r e)).at rest k)

  apply_event-Ends :
      (i : EventInput Network) (db : Db) → IsDisjoint db.leases → Ends (apply_event v i db)
  unfolding apply_event
  apply_event-Ends i db h = Ensures-bind λ u _.
      Ensures-if (any (same_event i.source i.event_id) db.events) (λ _. Ensures-ok _ h)
        (λ _. Ensures-bind λ r e. Ensures-bind λ db'' k. Ensures-ok _ (
          rw
            ((upsert_checkpoint-leases i.source i.event_id i.checkpoint i.observed_at r.1).at db''
              k)
            ((apply_offenses-Ends i i.offenses _ h).at r e)))

  apply_listed-Ends :
      (i : EventInput Network) (os : List (OffenseInput Network)) (db : Db)
      → IsDisjoint db.leases
      → Ends (apply_listed v i os db)
  unfolding apply_listed
  apply_listed-Ends i [] db h = Ensures-bind λ db' k.
      Ensures-ok _ (
        rw ((upsert_checkpoint-leases i.source i.event_id i.checkpoint i.observed_at db).at db' k)
          h)
  apply_listed-Ends i (o ∷ os) db h = apply_event-Ends i db h

  apply_one-Ends :
      (i : EventInput Network) (db : Db) → IsDisjoint db.leases → Ends (apply_one v i db)
  unfolding apply_one
  apply_one-Ends i db h = apply_listed-Ends i i.offenses db h

  apply_events-Ends :
      (is : List (EventInput Network)) (db : Db)
      → IsDisjoint db.leases
      → Ends (apply_events v is db)
  unfolding apply_events
  apply_events-Ends [] db h = Ensures-ok _ h
  apply_events-Ends (i ∷ is) db h = Ensures-bind λ r e.
      Ensures-bind λ rest k.
        Ensures-ok _ ((apply_events-Ends is r.1 ((apply_one-Ends i db h).at r e)).at rest k)

  -- A manual lease stands after the earlier ones of its network are revoked.
  insert_manual-IsDisjoint :
      (n : NewLease Network) (t : ℕ) (rows : List LeaseRow) (r : ℕ × List LeaseRow)
      → n.manual ≡ true
      → IsDisjoint rows
      → insert_lease v n (update (is_held (v.text n.network)) (revoke t) rows) ≡ ok r
      → IsDisjoint r.1
  insert_manual-IsDisjoint n t rows r m h =
      insert_lease-IsDisjoint n _ r
        (update-IsDisjoint (is_held (v.text n.network)) (revoke t) (λ a b k. ground arith) rows h)
        (λ s.
          All-follows-update (is_held (v.text n.network)) (revoke t)
            (row_of v n (update (is_held (v.text n.network)) (revoke t) rows) s) (λ a. ground arith)
            rows)

  manual_block-Ends :
      (n : Network) (a : Action) (now : ℕ) (d : Option ℕ) (db : Db)
      → IsDisjoint db.leases
      → Ends (manual_block v n a now d db)
  unfolding manual_block
  manual_block-Ends n a now d db h =
      Ensures-bind
        λ t _. Ensures-bind λ r e. Ensures-ok _ (insert_manual-IsDisjoint _ t db.leases r refl h e)

  manual_unblock-Ends :
      (n : Network) (now : ℕ) (db : Db) → IsDisjoint db.leases → Ends (manual_unblock v n now db)
  unfolding manual_unblock
  manual_unblock-Ends n now db h =
      Ensures-bind λ t _. update_leases-Ends _ _ db (λ a b k. ground arith) h

expire-Ends : (now : ℕ) (db : Db) → IsDisjoint db.leases → Ends (expire now db)
unfolding expire
expire-Ends now db h = Ensures-bind λ t _. update_leases-Ends _ _ db (λ a b k. ground arith) h

begin_reconcile-Ends : (now : ℕ) (db : Db) → IsDisjoint db.leases → Ends (begin_reconcile now db)
unfolding begin_reconcile
begin_reconcile-Ends now db h =
    Ensures-bind λ t _. update_leases-Ends _ _ db (λ a b k. ground arith) h

prune_offenses-Ends :
    (before : ℕ) (db : Db) → IsDisjoint db.leases → Ends (prune_offenses before db)
unfolding prune_offenses
prune_offenses-Ends before db h = Ensures-bind λ t _. Ensures-ok _ h

prune_leases-Ends :
    (before now : ℕ) (db : Db) → IsDisjoint db.leases → Ends (prune_leases before now db)
unfolding prune_leases
prune_leases-Ends before now db h =
    Ensures-bind λ b _. Ensures-bind λ t _. Ensures-ok _ (keep-IsDisjoint _ db.leases h)

mark-IsDisjoint :
    (id : ℕ) (o : ApplyOutcome) (db : Db)
    → IsDisjoint db.leases
    → IsDisjoint (mark id o db).1.leases
unfolding mark
mark-IsDisjoint id o db h =
    update-IsDisjoint (λ r. r.id == id)
      (λ r. record r { apply_state = state_of o; apply_error = error_of o }) (λ a b k. ground arith)
      db.leases h

mark_results-Ends :
    (os : List (ℕ × ApplyOutcome)) (db : Db) → IsDisjoint db.leases → Ends (mark_results os db)
unfolding mark_results
mark_results-Ends [] db h = Ensures-ok _ h
mark_results-Ends ((id, o) ∷ os) db h =
    Ensures-if ((mark id o db).0 == 0) (λ _. Ensures-err _)
      (λ _. mark_results-Ends os (mark id o db).1 (mark-IsDisjoint id o db h))

module _ {Network : Type 0} (v : Services Network) where
  step-IsDisjoint :
      (c : Call Network) (db : Db) → IsDisjoint db.leases → IsDisjoint (step v c db).leases
  unfolding step after process_event process_events mark_apply_results
  step-IsDisjoint (event i) db h = transact-IsDisjoint db _ h (apply_event-Ends v i db h)
  step-IsDisjoint (events is) db h = transact-IsDisjoint db _ h (apply_events-Ends v is db h)
  step-IsDisjoint (block n a now d) db h =
      transact-IsDisjoint db _ h (manual_block-Ends v n a now d db h)
  step-IsDisjoint (unblock n now) db h =
      transact-IsDisjoint db _ h (manual_unblock-Ends v n now db h)
  step-IsDisjoint (expires now) db h = transact-IsDisjoint db _ h (expire-Ends now db h)
  step-IsDisjoint (prunes_offenses before) db h =
      transact-IsDisjoint db _ h (prune_offenses-Ends before db h)
  step-IsDisjoint (prunes_leases before now) db h =
      transact-IsDisjoint db _ h (prune_leases-Ends before now db h)
  step-IsDisjoint (reconciles now) db h = transact-IsDisjoint db _ h (begin_reconcile-Ends now db h)
  step-IsDisjoint (marks os) db h = transact-IsDisjoint db _ h (mark_results-Ends os db h)

  pub run-IsDisjoint :
      (cs : List (Call Network)) (db : Db) → IsDisjoint db.leases → IsDisjoint (run v cs db).leases
  unfolding run
  run-IsDisjoint [] db h = h
  run-IsDisjoint (c ∷ cs) db h = run-IsDisjoint cs (step v c db) (step-IsDisjoint c db h)

  -- After any history of calls on an empty database, once every start lies in the past, at most
  -- one manual and at most one automatic lease of a policy on a network is in force at any time.
  pub run_unique :
      (cs : List (Call Network)) (policy network : String) (manual : Bool) (now : ℕ)
      → All (λ r. r.created_at ≤ now) (run v cs create_schema).leases
      → count
          (λ r. is_for policy network r && same_flag manual r.manual && is_active now r)
          (run v cs create_schema).leases
        ≤ 1
  run_unique cs policy network manual now h =
      IsDisjoint-unique policy network manual now (run v cs create_schema).leases h
        (run-IsDisjoint cs create_schema tt)
