-- ===== src/Store/Replay.antt =====
-- A record is applied once, and its checkpoint is stored together with its offenses.
use bagel.Prelude.{
  ℕ, String, ◌≡◌, refl, ap, ◌∙◌, inl, inr, Bool, true, List, [], ◌∷◌, ◌++◌, arith, ltb, Bool-cases,
  update, any,
}
use text.Mathlib.TextPositions.{eq_refl}
use bagel.Store.Result.{
  Result, ok, err, sql_time, transact, Ensures, Ensures-ok, Ensures-bind, Ensures-if, >>=-eq-ok,
  ◌>>=◌,
}
use bagel.Store.Rows.{Checkpoint, Db, Services, OffenseInput, EventInput, EventOutcome}
use bagel.Store.Window.{Window, count_attempts, upsert_checkpoint}
use bagel.Store.Events.{
  same_event, ban, judge, apply_offense, apply_offenses, apply_event, process_event,
}

pub any-snoc {ℓ} :
    {A : Type ℓ} (p : A → Bool) (xs : List A) (x : A) → p x ≡ true → any p (xs ++ x ∷ []) ≡ true
any-snoc p [] x h = rw h
any-snoc p (y ∷ xs) x h = ground (arith, any-snoc p xs x h)

pub any-append_left {ℓ} :
    {A : Type ℓ} (p : A → Bool) (xs ys : List A) → any p xs ≡ true → any p (xs ++ ys) ≡ true
any-append_left p [] ys h = absurd (cc h)
any-append_left p (x ∷ xs) ys h = ground (arith, any-append_left p xs ys)

-- Consuming attempts keeps the key of every offense.
pub any-update {ℓ} :
    {A : Type ℓ} (s p : A → Bool) (f : A → A)
    → ((x : A) → s (f x) ≡ s x)
    → (xs : List A) → any s (update p f xs) ≡ any s xs
any-update s p f h [] = refl
any-update s p f h (x ∷ xs) = elim (Bool-cases (p x)) [
  | inl e ↦ rw (e, h x, any-update s p f h xs)
  | inr e ↦ rw (e, any-update s p f h xs)
]

module _ {Network : Type 0} (v : Services Network) where
  ban-events :
      (o : OffenseInput Network) (t : ℕ) (w : Window) (db : Db)
      → Ensures (λ p. p.1.events ≡ db.events) (ban v o t w db)
  unfolding ban
  ban-events o t w db = Ensures-bind λ _ _. Ensures-bind λ _ _. Ensures-ok _ refl

  judge-events :
      (o : OffenseInput Network) (t : ℕ) (w : Window) (db : Db)
      → Ensures (λ p. p.1.events ≡ db.events) (judge v o t w db)
  unfolding judge
  judge-events o t w db =
      Ensures-if (ltb (count_attempts w db.offenses) o.max_attempts) (λ _. Ensures-ok _ refl)
        (λ _. Ensures-bind λ r e. Ensures-ok _ ((ban-events o t w db).at r e))

  apply_offense-events :
      (i : EventInput Network) (o : OffenseInput Network) (db : Db)
      → Ensures (λ p. p.1.events ≡ db.events) (apply_offense v i o db)
  unfolding apply_offense
  apply_offense-events i o db = Ensures-bind λ u _. Ensures-bind λ offenses _.
      Ensures-bind λ active e.
        Ensures-if active (λ _. Ensures-ok _ refl)
          (λ idle. Ensures-bind λ start _. judge-events o _ _ _)

  apply_offenses-events :
      (i : EventInput Network) (os : List (OffenseInput Network)) (db : Db)
      → Ensures (λ p. p.1.events ≡ db.events) (apply_offenses v i os db)
  unfolding apply_offenses
  apply_offenses-events i [] db = Ensures-ok _ refl
  apply_offenses-events i (o ∷ os) db = Ensures-bind λ r e. Ensures-bind λ rest k.
      Ensures-ok _
        ((apply_offenses-events i os r.1).at rest k ∙ (apply_offense-events i o db).at r e)

  abbrev pub replayed : EventOutcome Network
  replayed = record { duplicate = true; leases = [] }

  upsert_checkpoint-events :
      (source event_id : String) (c : Checkpoint) (t : ℕ) (db : Db)
      → Ensures
          (λ db'. (db'.events ≡ db.events) × (db'.offenses ≡ db.offenses))
          (upsert_checkpoint v source event_id c t db)
  unfolding upsert_checkpoint
  upsert_checkpoint-events source event_id c t db =
      Ensures-bind λ body _. Ensures-bind λ u _. Ensures-ok _ (refl, refl)

  apply_event-stored :
      (i : EventInput Network) (db : Db)
      → Ensures (λ p. any (same_event i.source i.event_id) p.1.events ≡ true) (apply_event v i db)
  unfolding apply_event
  apply_event-stored i db = Ensures-bind λ u _.
      Ensures-if (any (same_event i.source i.event_id) db.events) (λ h. Ensures-ok _ h)
        (λ _. Ensures-bind λ r e. Ensures-bind λ db'' k. Ensures-ok _ (
          rw
            (
              ((upsert_checkpoint-events i.source i.event_id i.checkpoint i.observed_at r.1).at db''
                  k).0,
              (apply_offenses-events i i.offenses _).at r e,
            )
            (any-snoc (same_event i.source i.event_id) db.events _
              (rw (eq_refl i.source, eq_refl i.event_id)))))

  apply_event-timed :
      (i : EventInput Network) (db : Db)
      → Ensures (λ _. (u : ℕ) × (sql_time i.observed_at ≡ ok u)) (apply_event v i db)
  unfolding apply_event
  apply_event-timed i db = record {
    at = λ a h. let (u, t, _) = >>=-eq-ok (sql_time i.observed_at) _ h in (u, t);
  }

  apply_event-replay :
      (i : EventInput Network) (db : Db) (u : ℕ)
      → sql_time i.observed_at ≡ ok u
      → any (same_event i.source i.event_id) db.events ≡ true
      → apply_event v i db ≡ ok (replayed, db)
  unfolding apply_event ◌>>=◌
  apply_event-replay i db u e h = rw (e, h)

  -- A record that was processed with success is a duplicate when it is delivered again to the
  -- tables it left: the second delivery succeeds, bans nobody and changes no table.
  pub process_event_again :
      (i : EventInput Network) (db db' : Db) (out : EventOutcome Network)
      → process_event v i db ≡ (ok out, db')
      → process_event v i db' ≡ (ok replayed, db')
  unfolding process_event transact
  process_event_again i db db' out h = go (apply_event v i db) refl h
    where
      go :
          (r : Result (EventOutcome Network × Db))
          → apply_event v i db ≡ r
          → transact db r ≡ (ok out, db')
          → transact db' (apply_event v i db') ≡ (ok replayed, db')
      go (ok (o, d)) e k =
          let (u, t) = (apply_event-timed i db).at (o, d) e in
          let stored = (apply_event-stored i db).at (o, d) e in
          let same : d ≡ db' = ap (λ (p : Result (EventOutcome Network) × Db). p.1) k in
          rw (← same) (rw (apply_event-replay i d u t stored))
      go (err x) e k = absurd (cc (ap (λ (p : Result (EventOutcome Network) × Db). p.0) k))
