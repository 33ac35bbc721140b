-- ===== src/Store/Threshold.antt =====
-- When the limit of attempts is reached, and what a ban leaves behind.
use bagel.Prelude.{
  ℕ, ◌≤◌, ◌<◌, String, ◌≡◌, refl, inl, inr, false, Option, none, some, List, [], ◌∷◌, ◌++◌, arith,
  ltb, Bool-cases, keep, update,
}
use bagel.Store.Result.{ok, Ensures, Ensures-ok, Ensures-bind, Ensures-if, ◌>>=◌}
use bagel.Store.Rows.{pending, Db, OffenseRow, LeaseRow, Services, IsLawful, OffenseInput, Lease}
use bagel.Store.Insert.{row_of, insert_lease-append}
use bagel.Store.Window.{
  NewLease, Window, count_attempts, attempts_of, count_distinct, consume, in_window,
  consume_attempts,
}
use bagel.Store.Events.{new_lease, ban, judge}
use bagel.Store.Leases.{decode_lease}

-- A consumed row is outside of its window.
keep-consumed :
    (w : Window) (rows : List OffenseRow)
    → keep (in_window w) (update (in_window w) consume rows) ≡ []
keep-consumed w [] = refl
keep-consumed w (r ∷ rows) = elim (Bool-cases (in_window w r)) [
  | inl e ↦ rw (e, outside r) (keep-consumed w rows)
  | inr e ↦ rw (e, e) (keep-consumed w rows)
]
  where
    outside : (r : OffenseRow) → in_window w (consume r) ≡ false
    outside r = unfold in_window in ground arith

count_attempts-consumed :
    (w : Window) (rows : List OffenseRow) → count_attempts w (consume_attempts w rows) ≡ 0
unfolding count_attempts consume_attempts
count_attempts-consumed w rows = rw (keep-consumed w rows) (none_left w.group_key)
  where
    none_left : (k : Option String) → attempts_of k [] ≡ 0
    none_left none = unfold attempts_of count_distinct in refl
    none_left (some g) = unfold attempts_of in refl

module _ {Network : Type 0} (v : Services Network) where
  decode-row_of :
      IsLawful v
      → (n : NewLease Network) (rows : List LeaseRow) (s : String) → v.action_json n.action ≡ some s
      → decode_lease v (row_of v n rows s)
        ≡ ok (record {
          id = v.fresh_id rows;
          network = n.network;
          policy = n.policy;
          action = n.action;
          created_at = n.created_at;
          expires_at = n.expires_at;
          escalation_count = n.escalation_count;
          manual = n.manual;
          apply_state = pending;
          last_error = none;
        })
  unfolding decode_lease ◌>>=◌
  decode-row_of law n rows s e = rw (law.parse_text n.network, law.action_reads n.action s e)

  -- What a judgement leaves: nothing below the limit; at the limit one new lease, which reads back
  -- from the table as it was returned, and no attempt left in the window.
  abbrev pub Judged : OffenseInput Network → Window → Db → Option (Lease Network) × Db → Type 0
  Judged o w db (none, db') = (count_attempts w db.offenses < o.max_attempts) × (db' ≡ db)
  Judged o w db (some l, db') =
      (o.max_attempts ≤ count_attempts w db.offenses)
      × (count_attempts w db'.offenses ≡ 0)
      × ((r : LeaseRow) × (db'.leases ≡ db.leases ++ r ∷ []) × (decode_lease v r ≡ ok l))

  ban-Judged :
      IsLawful v
      → (o : OffenseInput Network) (t : ℕ) (w : Window) (db : Db)
      → o.max_attempts ≤ count_attempts w db.offenses
      → Ensures (λ q. Judged o w db (some q.0, q.1)) (ban v o t w db)
  unfolding ban
  ban-Judged law o t w db le = Ensures-bind λ escalation _. Ensures-bind λ r e.
      let (s, json, fresh, rows) =
        insert_lease-append v (new_lease v o t escalation db.leases) db.leases e in
      Ensures-ok _ (
        le,
        count_attempts-consumed w db.offenses,
        (
          row_of v (new_lease v o t escalation db.leases) db.leases s,
          rows,
          rw fresh (decode-row_of law (new_lease v o t escalation db.leases) db.leases s json),
        ),
      )

  -- For lawful services, where judging an offense ends well: while the attempts in its window
  -- are below `max_attempts` nothing follows; otherwise there is one more lease, `decode_lease`
  -- reads it back exactly as it was returned, and the window holds no attempt that could count
  -- again.
  pub judge-Judged :
      IsLawful v
      → (o : OffenseInput Network) (t : ℕ) (w : Window) (db : Db)
      → Ensures (Judged o w db) (judge v o t w db)
  unfolding judge
  judge-Judged law o t w db =
      Ensures-if (ltb (count_attempts w db.offenses) o.max_attempts)
        (λ h. Ensures-ok _ (ground arith, refl))
        (λ h. Ensures-bind λ r e. Ensures-ok _ ((ban-Judged law o t w db (ground arith)).at r e))
