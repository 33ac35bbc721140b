-- ===== src/Defense/Reconcile.antt =====
-- `Firewall::reconcile` and `defense_maintenance::reconcile`.
pub mod Pinned
pub mod Spares
pub mod Active
use bagel.Prelude.{
  ℕ, String, Bool, true, false, not, ◌&&◌, ◌||◌, Option, List, [], ◌∷◌, ◌++◌, map, leb, ◌==◌,
  if◌then◌else◌, keep, any,
}
use Prim.Native.Char.{Char, code}
use Prim.Native.String.{[] as empty, ◌∷◌ as ◌▹◌}
use bagel.Config.{Action, observe}
use bagel.Store.Result.{Result, ok, err, ◌>>=◌, bad_table, nft_failed, Error}
use bagel.Store.Rows.{Db, Services, Lease}
use bagel.Store.Leases.{ApplyOutcome, active_leases, begin_reconcile, mark_apply_results}
use bagel.Network.{Networks}
use bagel.Firewall.{Membership, normalize_memberships}
use bagel.Defense.Guard.{Settings, is_protected, is_no_block_network}
use bagel.Defense.Rules.{membership}

-- What a reconciliation reads and changes: the tables, the networks of `ActiveLeases`, and whether
-- the firewall is ready.
pub record World (Network : Type 0) : Type 0 where
  pub db : Db
  pub active : List Network
  pub ready : Bool

-- is_ascii_alphanumeric() || byte == b'_'
abbrev pub is_name_char : ℕ → Bool
is_name_char c = leb 48 c && leb c 57 || leb 65 c && leb c 90 || leb 97 c && leb c 122 || c == 95

unfoldable pub all_name_chars : String → Bool
all_name_chars empty = true
all_name_chars (c ▹ s) = is_name_char (code c) && all_name_chars s

unfoldable pub validate_name : String → Bool
validate_name empty = false
validate_name (c ▹ s) = all_name_chars (c ▹ s)

unfoldable pub is_observe : Action → Bool
is_observe observe = true
is_observe _ = false

-- The memberships to enforce, and the ids of the leases that are protected and spared.
pub record Sorted (Network : Type 0) : Type 0 where
  pub memberships : List (Membership Network)
  pub protected : List ℕ
  pub spared : List ℕ

abbrev pub has_id : ℕ → List ℕ → Bool
has_id id ids = any (λ i. i == id) ids

-- One round of the loop that sorts the leases.
unfoldable pub add_lease :
    {Network : Type 0}
    → Bool
    → Bool
    → Lease Network
    → List (Membership Network)
    → Sorted Network
    → Sorted Network
add_lease true spared l ms c = record {
  memberships = c.memberships;
  protected = l.id ∷ c.protected;
  spared = c.spared;
}
add_lease false true l ms c = record {
  memberships = c.memberships;
  protected = c.protected;
  spared = l.id ∷ c.spared;
}
add_lease false false l ms c = record {
  memberships = ms ++ c.memberships;
  protected = c.protected;
  spared = c.spared;
}

-- The networks that `ActiveLeases` is replaced with.
pub active_networks : {Network : Type 0} → Sorted Network → List (Lease Network) → List Network
active_networks c ls =
    map (λ l. l.network) (keep (λ l. not (is_observe l.action) && not (has_id l.id c.protected)) ls)

unfoldable pub outcome_of :
    {Network : Type 0}
    → Settings Network
    → Result (Unit {0})
    → Sorted Network
    → Lease Network
    → ℕ × ApplyOutcome
outcome_of s (err e) c l = (l.id, ApplyOutcome.failed "firewall")
outcome_of s (ok u) c l =
    if not s.required || is_observe l.action || has_id l.id c.protected || has_id l.id c.spared
    then (l.id, ApplyOutcome.observed)
    else (l.id, ApplyOutcome.applied)

-- The first failure: of marking the results, then of the firewall.
unfoldable pub first_failure : Result (Unit {0}) → Result (Unit {0}) → Result (Unit {0})
first_failure (err e) result = err e
first_failure (ok u) result = result

module _ {Ip Network : Type 0} (nets : Networks Ip Network) (parse_port : String → Option ℕ) where
  -- `nft` is whether the nft process takes the rules of these normalized memberships. The check of
  -- the table's name and the normalization return before `ready` is stored.
  unfoldable pub reconcile_firewall :
      (List (Membership Network) → Bool)
      → Settings Network
      → List (Membership Network)
      → Bool
      → Result (Unit {0}) × Bool
  reconcile_firewall nft s memberships ready =
      if not s.required
      then (ok tt, true)
      else if not (validate_name s.table)
      then (err bad_table, ready)
      else elim (normalize_memberships nets memberships) [
        | err e ↦ (err e, ready)
        | ok rules ↦ if nft rules then (ok tt, true) else (err nft_failed, false)
      ]

  unfoldable pub classify :
      Settings Network → Result (List Ip) → List (Lease Network) → Result (Sorted Network)
  classify s locals [] = ok (record { memberships = []; protected = []; spared = [] })
  classify s locals (l ∷ ls) = do
    guarded ← is_protected nets s locals l.network
    ms ←
        if guarded || is_no_block_network nets s l.network then ok [] else membership parse_port s l
    rest ← classify s locals ls
    ok (add_lease guarded (is_no_block_network nets s l.network) l ms rest)

  -- Once the leases are sorted.
  unfoldable pub enforce :
      (List (Membership Network) → Bool)
      → Settings Network
      → List (Lease Network)
      → Result (Sorted Network)
      → World Network
      → Result (Unit {0}) × World Network
  enforce nft s ls (err e) w = (err e, w)
  enforce nft s ls (ok c) w =
      let (result, ready) = reconcile_firewall nft s c.memberships w.ready in
      let (marked, db) = mark_apply_results (map (outcome_of s result c) ls) w.db in
      (
        first_failure marked result,
        record { db = db; active = active_networks c ls; ready = ready },
      )

module _ {Ip Network : Type 0} (v : Services Network) (nets : Networks Ip Network)
    (parse_port : String → Option ℕ) where
  -- Once the leases in force are read.
  unfoldable pub sort_leases :
      (List (Membership Network) → Bool)
      → Settings Network
      → Result (List Ip)
      → Result (List (Lease Network))
      → World Network
      → Result (Unit {0}) × World Network
  sort_leases nft s locals (err e) w = (err e, w)
  sort_leases nft s locals (ok ls) w =
      enforce nets parse_port nft s ls (classify nets parse_port s locals ls) w

  -- Once the leases in force are marked as pending.
  unfoldable pub list_leases :
      (List (Membership Network) → Bool)
      → Settings Network
      → Result (List Ip)
      → ℕ
      → Result (ℕ × Db)
      → World Network
      → Result (Unit {0}) × World Network
  list_leases nft s locals now (err e) w = (err e, w)
  list_leases nft s locals now (ok (n, db)) w =
      sort_leases nft s locals (active_leases v db now)
        (record { db = db; active = w.active; ready = w.ready })

  unfoldable pub reconcile :
      (List (Membership Network) → Bool)
      → Settings Network
      → Result (List Ip)
      → ℕ
      → World Network
      → Result (Unit {0}) × World Network
  reconcile nft s locals now w = list_leases nft s locals now (begin_reconcile now w.db) w
