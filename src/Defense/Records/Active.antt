-- ===== src/Defense/Records/Active.antt =====
-- The networks that `process_records` adds to `ActiveLeases`.
use bagel.Prelude.{
  ℕ, String, ◌≡◌, refl, inl, inr, Bool, true, false, Option, List, [], ◌∷◌, ◌++◌, Bool-cases,
  ||-false, any,
}
use bagel.Store.Result.{Result, Result-cases, ok, err}
use bagel.Store.Rows.{Services, Lease, EventInput}
use bagel.Store.Events.{process_events}
use bagel.Network.{Networks, IsPrefixed}
use bagel.Firewall.{Membership}
use bagel.Defense.Guard.{Settings, holds, insert, is_protected}
use bagel.Defense.Reconcile.{World, is_observe}
use bagel.Defense.Reconcile.Active.{is_protected-guards, reconcile-active}
use bagel.Defense.Records.{
  SourceRecord, CompiledPolicy, Detect, Marks, gather, insert_leases, finish, apply_outcomes,
  process_pending, process_records,
}

module _ {Ip Network Context : Type 0} (nets : Networks Ip Network) (law : IsPrefixed nets)
    (detect : Detect Network Context) (s : Settings Network) (locals : List Ip) (a : Ip)
    (h : holds nets s.protected a ≡ true) (v : Services Network) (parse_port : String → Option ℕ)
    (nft : List (Membership Network) → Bool) where
  insert-active :
      (n : Network) (active : List Network)
      → nets.contains n a ≡ false
      → holds nets active a ≡ false
      → holds nets (insert nets n active) a ≡ false
  unfolding insert holds
  insert-active n active k e = elim (Bool-cases (any (λ m. nets.same m n) active)) [
    | inl f ↦ rw f e
    | inr f ↦ rw f (last active e)
  ]
    where
      last :
          (ms : List Network)
          → any (λ m. nets.contains m a) ms ≡ false
          → any (λ m. nets.contains m a) (ms ++ (n ∷ [])) ≡ false
      last [] e = rw k refl
      last (m ∷ ms) e =
          let (here, later) = ||-false (nets.contains m a) _ e in rw (here, last ms later) refl

  insert_leases-active :
      (ls : List (Lease Network)) (active : List Network)
      → holds nets active a ≡ false
      → holds nets (insert_leases nets detect s (ok locals) ls active).1 a ≡ false
  unfolding insert_leases
  insert_leases-active [] active e = e
  insert_leases-active (l ∷ ls) active e = elim (Bool-cases (is_observe l.action)) [
    | inl o ↦ rw o (insert_leases-active ls active e)
    | inr o ↦ elim (Result-cases (is_protected nets s (ok locals) l.network)) [
      | inr (x, k) ↦ rw (o, k) e
      | inl (true, k) ↦ rw (o, k) (insert_leases-active ls active e)
      | inl (false, k) ↦
          rw (o, k) (insert_leases-active ls _ (insert-active l.network active (outside k) e))
    ]
  ]
    where
      outside :
          is_protected nets s (ok locals) l.network ≡ ok false → nets.contains l.network a ≡ false
      outside k = elim (Bool-cases (nets.contains l.network a)) [
        | inl c ↦
            absurd (cc (is_protected-guards nets law parse_port s locals a l.network false h k c))
        | inr c ↦ c
      ]

  finish-active :
      (now : ℕ) (ls : List (Lease Network)) (r : Result (Unit {0}) × List Network)
      (w : World Network)
      → holds nets r.1 a ≡ false
      → holds nets (finish nets detect s (ok locals) v parse_port nft now ls r w).1.active a ≡ false
  unfolding finish
  finish-active now ls (err x, active) w e = e
  finish-active now [] (ok u, active) w e = e
  finish-active now (l ∷ ls) (ok u, active) w e =
      reconcile-active nets law parse_port s locals v nft a h now
        (record { db = w.db; active = active; ready = w.ready }) e

  process_pending-active :
      (now : ℕ) (pending : Result (List (EventInput Network))) (w : World Network)
      → holds nets w.active a ≡ false
      → holds nets
          (process_pending nets detect s (ok locals) v parse_port nft now pending w).1.active
          a
        ≡ false
  unfolding process_pending apply_outcomes
  process_pending-active now (err x) w e = e
  process_pending-active now (ok []) w e = e
  process_pending-active now (ok (i ∷ is)) w e =
      elim (Result-cases (process_events v (i ∷ is) w.db).0) [
        | inr (x, k) ↦ rw k e
        | inl (os, k) ↦ rw k (finish-active now _ _ _ (insert_leases-active _ w.active e))
      ]

  -- For networks that are prefixes and where the machine's addresses can be read, a protected
  -- address that is not among the active leases is not among them after `process_records`,
  -- however it ends: neither the leases it inserts nor the reconciliation that follows adds a
  -- network that holds it.
  pub process_records-active :
      (ps : List (CompiledPolicy Network)) (now : ℕ) (rs : List SourceRecord)
      (marks : Marks Context) (w : World Network)
      → holds nets w.active a ≡ false
      → holds nets
          (process_records nets detect s (ok locals) v parse_port nft ps now rs marks w).2.active
          a
        ≡ false
  unfolding process_records
  process_records-active ps now rs marks w e =
      process_pending-active now (gather nets detect s (ok locals) ps rs marks).0 w e
