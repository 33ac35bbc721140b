-- ===== src/Store/Insert.antt =====
-- What `insert_lease` leaves in the table.
use bagel.Prelude.{ℕ, String, ◌≡◌, Option, none, some, List, [], ◌∷◌, ◌++◌}
use bagel.Store.Result.{ok, sql_time, sql_time-ok, >>=-eq-ok}
use bagel.Store.Rows.{LeaseRow, Services, pending}
use bagel.Store.Window.{NewLease, insert_lease, json_of, sql_time_option}

pub json_of-ok : (o : Option String) {s : String} → json_of o ≡ ok s → o ≡ some s
unfolding json_of
json_of-ok none h = cc
json_of-ok (some s) h = cc

sql_time_option-ok : (o : Option ℕ) {u : Option ℕ} → sql_time_option o ≡ ok u → u ≡ o
unfolding sql_time_option
sql_time_option-ok none h = cc
sql_time_option-ok (some t) h =
    let (u, e, k) = >>=-eq-ok (sql_time t) (λ u. ok (some u)) h in cc (sql_time-ok t e)

module _ {Network : Type 0} (v : Services Network) (n : NewLease Network)
    (rows : List LeaseRow) where
  -- The row of a new lease: its fields, the next row id, and nothing that closes it.
  abbrev pub row_of : String → LeaseRow
  row_of serialized = record {
    id = v.fresh_id rows;
    network = v.text n.network;
    policy = n.policy;
    action = serialized;
    created_at = n.created_at;
    expires_at = n.expires_at;
    escalation_count = n.escalation_count;
    manual = n.manual;
    revoked_at = none;
    expired_at = none;
    apply_state = pending;
    apply_error = none;
  }

  pub insert_lease-append :
      {id : ℕ} {rows' : List LeaseRow}
      → insert_lease v n rows ≡ ok (id, rows')
      → (s : String) × (v.action_json n.action ≡ some s)
        × (id ≡ v.fresh_id rows)
        × (rows' ≡ rows ++ row_of s ∷ [])
  unfolding insert_lease
  insert_lease-append {id} {rows'} h =
      let (s, e1, h1) = >>=-eq-ok (json_of (v.action_json n.action)) _ h in
      let (c, e2, h2) = >>=-eq-ok (sql_time n.created_at) _ h1 in
      let (x, e3, h3) = >>=-eq-ok (sql_time_option n.expires_at) _ h2 in
      let (k, e4, h4) = >>=-eq-ok (sql_time n.escalation_count) _ h3 in
      (
        s,
        json_of-ok (v.action_json n.action) e1,
        cc h4,
        cc (
          h4,
          sql_time-ok n.created_at e2,
          sql_time_option-ok n.expires_at e3,
          sql_time-ok n.escalation_count e4,
        ),
      )
