-- ===== src/Store/Commit.antt =====
-- What a committed record leaves behind: its offenses and its checkpoint, together.
use bagel.Prelude.{
  ℕ, String, ◌≡◌, refl, sym, ◌∙◌, ◌⊎◌, inl, inr, Bool, true, false, some, List, [], ◌∷◌, ◌++◌,
  str_eq, ltb, Bool-cases, any, All,
}
use text.Mathlib.TextPositions.{eq_refl}
use mathlib.Core.Path.{subst}
use bagel.Store.Result.{
  Result, ok, err, transact, Ensures, Ensures-ok, Ensures-err, Ensures-bind, Ensures-if, ◌>>=◌,
}
use bagel.Store.Rows.{
  Checkpoint, CheckpointRow, Db, OffenseRow, Services, IsLawful, OffenseInput, EventInput,
  EventOutcome,
}
use bagel.Store.Insert.{json_of-ok}
use bagel.Store.Window.{
  Window, count_attempts, same_offense, consume, in_window, consume_attempts, insert_offense,
  upsert_checkpoint, put_checkpoint,
}
use bagel.Store.Events.{
  same_event, ban, judge, apply_offense, apply_offenses, apply_event, process_event,
}
use bagel.Store.Leases.{checkpoint, find_checkpoint, decode_checkpoint}
use bagel.Store.Replay.{any-snoc, any-append_left, any-update}

abbrev has_offense : String → String → String → List OffenseRow → Bool
has_offense source event_id policy = any (same_offense source event_id policy)

insert_offense-append :
    (r : OffenseRow) (rows : List OffenseRow)
    → Ensures (λ rows'. rows' ≡ rows ++ r ∷ []) (insert_offense r rows)
unfolding insert_offense
insert_offense-append r rows =
    Ensures-if (has_offense r.source r.event_id r.policy rows) (λ _. Ensures-err _)
      (λ _. Ensures-ok _ refl)

module _ {Network : Type 0} (v : Services Network) where
  judge-Recorded :
      (s e p : String) (o : OffenseInput Network) (t : ℕ) (w : Window) (db : Db)
      → has_offense s e p db.offenses ≡ true
      → Ensures (λ q. has_offense s e p q.1.offenses ≡ true) (judge v o t w db)
  unfolding judge ban consume_attempts
  judge-Recorded s e p o t w db h =
      Ensures-if (ltb (count_attempts w db.offenses) o.max_attempts) (λ _. Ensures-ok _ h)
        (λ _. Ensures-bind λ r k. Ensures-ok _ ((banned).at r k))
    where
      banned : Ensures (λ q. has_offense s e p q.1.offenses ≡ true) (ban v o t w db)
      banned = Ensures-bind λ _ _. Ensures-bind λ _ _.
          Ensures-ok _
            (any-update (same_offense s e p) (in_window w) consume (λ x. refl) db.offenses ∙ h)

  -- After an offense its own row stands in the table, with all that stood there before.
  apply_offense-Recorded :
      (s e p : String) (i : EventInput Network) (o : OffenseInput Network) (db : Db)
      → (has_offense s e p db.offenses ≡ true)
        ⊎ ((s ≡ i.source) × (e ≡ i.event_id) × (p ≡ o.policy))
      → Ensures (λ q. has_offense s e p q.1.offenses ≡ true) (apply_offense v i o db)
  unfolding apply_offense
  apply_offense-Recorded s e p i o db h = Ensures-bind λ u _. Ensures-bind λ offenses k.
      Ensures-bind λ active _.
        let here = inserted _ offenses k refl refl refl h in
        Ensures-if active
          (λ _.
            Ensures-ok _ (any-update (same_offense s e p) _ consume (λ x. refl) offenses ∙ here))
          (λ idle. Ensures-bind λ start _. judge-Recorded s e p o _ _ _ here)
    where
      inserted :
          (r : OffenseRow) (rows : List OffenseRow)
          → insert_offense r db.offenses ≡ ok rows
          → r.source ≡ i.source
          → r.event_id ≡ i.event_id
          → r.policy ≡ o.policy
          → (has_offense s e p db.offenses ≡ true)
            ⊎ ((s ≡ i.source) × (e ≡ i.event_id) × (p ≡ o.policy))
          → has_offense s e p rows ≡ true
      inserted r rows k a b c (inl old) =
          rw ((insert_offense-append r db.offenses).at rows k)
            (any-append_left (same_offense s e p) db.offenses (r ∷ []) old)
      inserted r rows k a b c (inr (d, f, g)) =
          rw ((insert_offense-append r db.offenses).at rows k) (
            any-snoc (same_offense s e p) db.offenses r
              (rw (a, b, c, d, f, g) (rw (eq_refl i.source, eq_refl i.event_id, eq_refl o.policy))))

  apply_offenses-kept :
      (s e p : String) (i : EventInput Network) (os : List (OffenseInput Network)) (db : Db)
      → has_offense s e p db.offenses ≡ true
      → Ensures (λ q. has_offense s e p q.1.offenses ≡ true) (apply_offenses v i os db)
  unfolding apply_offenses
  apply_offenses-kept s e p i [] db h = Ensures-ok _ h
  apply_offenses-kept s e p i (o ∷ os) db h = Ensures-bind λ r k. Ensures-bind λ rest m.
      Ensures-ok _ (
        (apply_offenses-kept s e p i os r.1
            ((apply_offense-Recorded s e p i o db (inl h)).at r k)).at
          rest m)

  -- The offenses of a record stand in a table.
  abbrev pub AreRecorded : EventInput Network → List (OffenseInput Network) → Db → Type 0
  AreRecorded i os db = All (λ o. has_offense i.source i.event_id o.policy db.offenses ≡ true) os

  apply_offenses-AreRecorded :
      (i : EventInput Network) (os : List (OffenseInput Network)) (db : Db)
      → Ensures (λ q. AreRecorded i os q.1) (apply_offenses v i os db)
  unfolding apply_offenses
  apply_offenses-AreRecorded i [] db = Ensures-ok _ tt
  apply_offenses-AreRecorded i (o ∷ os) db = Ensures-bind λ r k. Ensures-bind λ rest m.
      Ensures-ok _ (
        (apply_offenses-kept i.source i.event_id o.policy i os r.1 (
              (apply_offense-Recorded i.source i.event_id o.policy i o db
                  (inr (refl, refl, refl))).at
                r k)).at
            rest m,
        (apply_offenses-AreRecorded i os r.1).at rest m,
      )

  find_checkpoint-put :
      (c : CheckpointRow) (cs : List CheckpointRow)
      → find_checkpoint v c.source (put_checkpoint v c cs) ≡ some c.body
  unfolding find_checkpoint put_checkpoint
  find_checkpoint-put c [] = rw (eq_refl c.source)
  find_checkpoint-put c (d ∷ cs) = elim (Bool-cases (str_eq d.source c.source)) [
    | inl e ↦ rw (e, eq_refl c.source)
    | inr e ↦ rw (e, e) (find_checkpoint-put c cs)
  ]

  checkpoint-found :
      (source body : String) (c : Checkpoint) (db : Db)
      → find_checkpoint v source db.checkpoints ≡ some body
      → v.checkpoint_of_json body ≡ some c
      → checkpoint v source db ≡ ok (some c)
  unfolding checkpoint ◌>>=◌
  checkpoint-found source body c db f e = rw (f, decode_checkpoint, e)

  upsert_checkpoint-reads :
      IsLawful v
      → (source event_id : String) (c : Checkpoint) (t : ℕ) (db : Db)
      → Ensures
          (λ d. (checkpoint v source d ≡ ok (some c)) × (d.offenses ≡ db.offenses))
          (upsert_checkpoint v source event_id c t db)
  unfolding upsert_checkpoint
  upsert_checkpoint-reads law source event_id c t db = Ensures-bind λ body k. Ensures-bind λ u _.
      let row : CheckpointRow = record {
        source = source;
        event_id = event_id;
        body = body;
        updated_at = u;
      } in
      Ensures-ok _ (
        checkpoint-found source body c
            (record db { checkpoints = put_checkpoint v row db.checkpoints })
            (find_checkpoint-put row db.checkpoints)
            (law.checkpoint_reads c body (json_of-ok (v.checkpoint_json c) k)),
        refl,
      )

  apply_event-commits :
      IsLawful v
      → (i : EventInput Network) (db : Db)
      → Ensures
          (λ q.
            (q.0.duplicate ≡ true) × (q.1 ≡ db)
            ⊎ (q.0.duplicate ≡ false)
              × AreRecorded i i.offenses q.1
              × (checkpoint v i.source q.1 ≡ ok (some i.checkpoint)))
          (apply_event v i db)
  unfolding apply_event
  apply_event-commits law i db = Ensures-bind λ u _.
      Ensures-if (any (same_event i.source i.event_id) db.events)
        (λ _. Ensures-ok _ (inl (refl, refl)))
        (λ _. Ensures-bind λ r e. Ensures-bind λ db'' k.
          let (read, same) =
            (upsert_checkpoint-reads law i.source i.event_id i.checkpoint i.observed_at r.1).at db''
              k in
          Ensures-ok _ (
            inr (
              refl,
              subst
                  (λ rows.
                    All (λ o. has_offense i.source i.event_id o.policy rows ≡ true) i.offenses)
                  (sym same) ((apply_offenses-AreRecorded i i.offenses _).at r e),
              read,
            )))

  -- What the tables hold after a call, by its result.
  abbrev pub Committed : EventInput Network → Db → Db → Result (EventOutcome Network) → Type 0
  Committed i db db' (err e) = db' ≡ db
  Committed i db db' (ok o) =
      (o.duplicate ≡ true) × (db' ≡ db)
      ⊎ (o.duplicate ≡ false)
        × AreRecorded i i.offenses db'
        × (checkpoint v i.source db' ≡ ok (some i.checkpoint))

  -- For lawful services, a record is committed whole or not at all: when `process_event` fails,
  -- or finds a duplicate, no table changes; otherwise every offense of the record stands in the
  -- table and the checkpoint of its source reads back as the record's.
  pub process_event-commits :
      IsLawful v
      → (i : EventInput Network) (db : Db)
      → Committed i db (process_event v i db).1 (process_event v i db).0
  unfolding process_event transact
  process_event-commits law i db = go (apply_event v i db) refl
    where
      go :
          (q : Result (EventOutcome Network × Db))
          → apply_event v i db ≡ q
          → Committed i db (transact db q).1 (transact db q).0
      go (err x) e = refl
      go (ok (o, d)) e = (apply_event-commits law i db).at (o, d) e
