-- ===== src/Defense/Upkeep.antt =====
-- crates/bagel-runtime/src/defense_maintenance.rs: expiry and the operator's commands, and
-- `parse_network` of defense.rs.
pub mod Expiry
pub mod Refusal
pub mod Unblock
use bagel.Prelude.{
  ℕ, ◌-◌, max, String, Bool, true, false, ◌||◌, Option, none, some, List, ◌==◌, if◌then◌else◌,
}
use Prim.Native.Char.{Char, code}
use Prim.Native.String.{[] as empty, ◌∷◌ as ◌▹◌}
use bagel.Config.{drop_all}
use bagel.Store.Result.{
  Result, ok, err, Error, bad_network, zero_duration, protected_network, shared_network,
}
use bagel.Store.Rows.{Db, Services, Lease}
use bagel.Store.Leases.{found, prune_offenses, prune_leases}
use bagel.Store.Leases
use bagel.Network.{Networks}
use bagel.Firewall.{Membership}
use bagel.Defense.Guard.{Settings, is_protected, is_no_block_network}
use bagel.Defense.Reconcile.{World, reconcile}

abbrev with_db : {Network : Type 0} → World Network → Db → World Network
with_db w db = record { db = db; active = w.active; ready = w.ready }

-- Each statement of the store commits by itself: one that fails leaves what the earlier ones did.
pub prune_old_leases : ℕ → ℕ → ℕ → Db → Result ℕ × Db
prune_old_leases history now expired db = elim (prune_leases (now - history) now db) [
  | err e ↦ (err e, db)
  | ok (n, pruned) ↦ (ok expired, pruned)
]

pub prune_old_offenses : ℕ → ℕ → ℕ → ℕ → Db → Result ℕ × Db
prune_old_offenses retention history now expired db = elim (prune_offenses (now - retention) db) [
  | err e ↦ (err e, db)
  | ok (n, pruned) ↦ prune_old_leases history now expired pruned
]

-- `max_findtime` is the longest window of a policy.
unfoldable pub retention_of : ℕ → ℕ
retention_of max_findtime = max max_findtime 86400

unfoldable pub expire : ℕ → ℕ → ℕ → Db → Result ℕ × Db
expire max_findtime history now db = elim (Leases.expire now db) [
  | err e ↦ (err e, db)
  | ok (expired, marked) ↦ prune_old_offenses (retention_of max_findtime) history now expired marked
]

unfoldable pub has_slash : String → Bool
has_slash empty = false
has_slash (c ▹ s) = code c == 47 || has_slash s

-- `parse_cidr` and `parse_ip` are the `FromStr` of `IpNetwork` and `IpAddr`.
unfoldable pub parse_network :
    {Ip Network : Type 0}
    → Networks Ip Network
    → (String → Option Network)
    → (String → Option Ip)
    → String
    → Result Network
parse_network nets parse_cidr parse_ip raw =
    if has_slash raw
    then found (parse_cidr raw) bad_network
    else elim (parse_ip raw) [ none ↦ err bad_network | some ip ↦ ok (nets.host ip) ]

abbrev pub is_zero : Option ℕ → Bool
is_zero none = false
is_zero (some n) = n == 0

module _ {Ip Network : Type 0} (v : Services Network) (nets : Networks Ip Network)
    (parse_port : String → Option ℕ) (nft : List (Membership Network) → Bool) (s : Settings Network)
    (locals : Result (List Ip)) where
  -- Once the request is allowed.
  unfoldable pub store_block :
      Network → ℕ → Option ℕ → World Network → Result (Unit {0}) × World Network
  store_block n now duration_secs w =
      elim (Leases.manual_block v n drop_all now duration_secs w.db) [
        | err e ↦ (err e, w)
        | ok (lease, db) ↦ reconcile v nets parse_port nft s locals now (with_db w db)
      ]

  pub block_network : Network → ℕ → Option ℕ → World Network → Result (Unit {0}) × World Network
  block_network n now duration_secs w = elim (is_protected nets s locals n) [
    | err e ↦ (err e, w)
    | ok true ↦ (err protected_network, w)
    | ok false ↦
        if is_no_block_network nets s n
        then (err shared_network, w)
        else store_block n now duration_secs w
  ]

  unfoldable pub manual_block :
      Result Network → ℕ → Option ℕ → World Network → Result (Unit {0}) × World Network
  manual_block parsed now duration_secs w =
      if is_zero duration_secs
      then (err zero_duration, w)
      else elim parsed [ err e ↦ (err e, w) | ok n ↦ block_network n now duration_secs w ]

  -- The count of the leases, once the firewall follows.
  unfoldable pub counted : ℕ → Result (Unit {0}) × World Network → Result ℕ × World Network
  counted changed (err e, w) = (err e, w)
  counted changed (ok u, w) = (ok changed, w)

  unfoldable pub unblock : Result Network → ℕ → World Network → Result ℕ × World Network
  unblock (err e) now w = (err e, w)
  unblock (ok n) now w = elim (Leases.manual_unblock v n now w.db) [
    | err e ↦ (err e, w)
    | ok (changed, db) ↦
        counted changed (reconcile v nets parse_port nft s locals now (with_db w db))
  ]
