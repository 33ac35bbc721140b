-- ===== src/Tests/Runtime.antt =====
-- defense.rs and defense_maintenance.rs on the networks of Firewall.
use bagel.Prelude.{
  ℕ, ◌+◌, ◌<◌, String, ◌≡◌, refl, Bool, true, false, Option, none, some, List, [], ◌∷◌, arith,
  length, keep, any, All,
}
use bagel.Config.{drop_all, block_parts}
use bagel.Store.Result.{ok, ◌>>=◌, transact, sql_time}
use bagel.Store.Rows.{
  listener, Db, create_schema, LeaseRow, Services, Lease, ApplyState, EventInput,
}
use bagel.Store.Window.{Window, is_active, count_attempts}
use bagel.Network.{networks_overlap}
use bagel.Firewall.{tcp, drop, Membership, all_ports, normalize_memberships, redirects}
use bagel.Firewall.Packets.{Packet, redirected, blocked}
use bagel.Defense.Guard.{Settings, holds, is_protected, is_no_block_network}
use bagel.Defense.Rules.{verdict_of, target_scope, scope_of, membership}
use bagel.Defense.Reconcile.{
  World, Sorted, add_lease, classify, reconcile, reconcile_firewall, list_leases, sort_leases,
  enforce, validate_name, all_name_chars, first_failure, outcome_of,
}
use bagel.Defense.Reconcile.Spares.{is_sheltered, classify-redirected}
use bagel.Defense.Upkeep.{manual_block, unblock, counted}
use bagel.Defense.Upkeep.Refusal.{is_err, manual_block-refused}
use bagel.Defense.Upkeep.Unblock.{in_force, unblock-active}
use bagel.Store.Leases.{
  manual_unblock, begin_reconcile, active_leases, decode_leases, decode_lease, found, update_leases,
  mark_apply_results, mark_results, mark,
}
use bagel.Defense.Upkeep.{retention_of, expire}
use bagel.Defense.Upkeep.Expiry.{expire-Keeps}
use bagel.Defense.Records.{
  SourceRecord, CompiledPolicy, Detect, Marks, offense_input, event_of, accept, accept_detected,
  offenses, record_offenses, keep_record, set_sequence, gather, process_records,
}
use bagel.Defense.Records.Shelter.{Admitted, gather-Admitted}
use bagel.Defense.Records.Sequence.{gather-length}
use bagel.Defense.Records.Active.{process_records-active}
use bagel.Tests.Firewall.{Net, one, everything, nets, nets-IsPrefixed}

abbrev services : Services Net
services = record {
  text = λ n. elim n [ one a ↦ "one" | everything ↦ "all" ];
  parse = λ s. some everything;
  action_json = λ a. some "drop_all";
  action_of_json = λ s. some drop_all;
  checkpoint_json = λ c. some "listener";
  checkpoint_of_json = λ s. some (listener 0);
  fresh_id = λ rows. 1;
  draw = λ k m. 0;
}

-- The address 5 is protected, 6 is not to be blocked, and 8 is the machine's own.
abbrev settings : Settings Net
settings = record {
  protected = one 5 ∷ [];
  no_block = one 6 ∷ [];
  required = true;
  table = "bagel";
  listeners = [];
  history_retention_secs = 3600;
}

abbrev locals : List ℕ
locals = 8 ∷ []

abbrev ports : String → Option ℕ
ports s = some 9000

abbrev lease : ℕ → Net → Lease Net
lease id n = record {
  id = id;
  network = n;
  policy = "ssh";
  action = drop_all;
  created_at = 0;
  expires_at = none;
  escalation_count = 1;
  manual = false;
  apply_state = ApplyState.pending;
  last_error = none;
}

-- Leases of every kind of address, the first of a network that holds all of them.
abbrev leases : List (Lease Net)
leases = lease 1 everything ∷ lease 2 (one 6) ∷ lease 3 (one 8) ∷ lease 4 (one 7) ∷ []

abbrev sorted : Sorted Net
sorted = record {
  memberships = record { network = one 7; scope = all_ports drop } ∷ [];
  protected = 1 ∷ 3 ∷ [];
  spared = 2 ∷ [];
}

leases-sorted : classify nets ports settings (ok locals) leases ≡ ok sorted
unfolding classify add_lease is_protected is_no_block_network networks_overlap membership scope_of
    target_scope verdict_of block_parts ◌>>=◌
leases-sorted = refl

sorted-normalized : normalize_memberships nets sorted.memberships ≡ ok sorted.memberships
unfolding normalize_memberships redirects ◌>>=◌ all_ports
sorted-normalized = refl

abbrev shared_packet : Packet ℕ
shared_packet = record { source = 6; protocol = tcp; port = 22 }

six-sheltered : is_sheltered nets settings locals 6 ≡ true
unfolding is_sheltered
six-sheltered = refl

classify-redirected_example :
    (blocked nets shared_packet sorted.memberships ≡ false)
    × (redirected nets 9000 shared_packet sorted.memberships ≡ false)
classify-redirected_example =
    classify-redirected nets nets-IsPrefixed ports settings locals 9000 shared_packet leases sorted
      sorted.memberships six-sheltered leases-sorted sorted-normalized

abbrev nft : List (Membership Net) → Bool
nft rules = true

abbrev world : World Net
world = record { db = create_schema; active = one 7 ∷ []; ready = false }

manual_block-refused_example :
    (is_err
        (manual_block services nets ports nft settings (ok locals) (ok everything) 10 none world).0
      ≡ true)
    × ((manual_block services nets ports nft settings (ok locals) (ok everything) 10 none world).1
        ≡ world)
manual_block-refused_example =
    manual_block-refused services nets nets-IsPrefixed ports nft settings locals everything 6 10
      none world six-sheltered refl

abbrev row : LeaseRow
row = record {
  id = 1;
  network = "one";
  policy = "__manual__";
  action = "drop_all";
  created_at = 0;
  expires_at = none;
  escalation_count = 1;
  manual = true;
  revoked_at = none;
  expired_at = none;
  apply_state = ApplyState.applied;
  apply_error = none;
}

abbrev blocked_world : World Net
blocked_world = record {
  db = record { checkpoints = []; events = []; offenses = []; leases = row ∷ [] };
  active = one 7 ∷ [];
  ready = true;
}

seven-unblocked :
    (unblock services nets ports nft settings (ok locals) (ok (one 7)) 10 blocked_world).0 ≡ ok 1
unfolding unblock manual_unblock counted reconcile begin_reconcile list_leases sort_leases enforce
    classify active_leases decode_leases decode_lease found update_leases is_active is_protected
    is_no_block_network networks_overlap membership scope_of target_scope verdict_of block_parts
    ◌>>=◌ sql_time reconcile_firewall normalize_memberships redirects validate_name all_name_chars
    mark_apply_results mark_results mark transact first_failure outcome_of
seven-unblocked = refl

unblock-active_example :
    any
      (in_force services nets ports nft settings (ok locals) 20 (one 7))
      (unblock services nets ports nft settings
        (ok locals)
        (ok (one 7))
        10
        blocked_world).1.db.leases
    ≡ false
unblock-active_example =
    unblock-active services nets ports nft settings (ok locals) (one 7) 10 20 1 blocked_world
      (omega arith) seven-unblocked

-- Tables with a lease in force, one that has run out and an attempt.
abbrev busy : Db
busy = record {
  checkpoints = [];
  events = [];
  offenses =
      record {
        source = "sshd";
        event_id = "e1";
        policy = "ssh";
        network = "one";
        observed_at = 99000;
        attempt_key = none;
        consumed = false;
      }
      ∷ [];
  leases = record row { id = 2; expires_at = some 500 } ∷ row ∷ [];
}

abbrev attempt_window : Window
attempt_window = record {
  policy = "ssh";
  network = "one";
  start = 13600;
  until = 100000;
  group_key = none;
}

expire-Keeps_example :
    (keep (is_active 100001) (expire 600 3600 100000 busy).1.leases
      ≡ keep (is_active 100001) busy.leases)
    × (count_attempts attempt_window (expire 600 3600 100000 busy).1.offenses
        ≡ count_attempts attempt_window busy.offenses)
expire-Keeps_example =
    expire-Keeps 100000 100001 3600 attempt_window (omega arith) 600 busy
      (unfold retention_of in omega arith)

-- Every payload is an attempt of the address that its time names.
abbrev detect : Detect Net ℕ
detect name payload received correlation context = (
  some (record {
    network = one received;
    observed_at = received;
    attempt_key = none;
    group_key = none;
  }),
  context + 1,
)

abbrev quiet : Detect Net ℕ
quiet name payload received correlation context = (none, context)

abbrev policy : CompiledPolicy Net
policy = record {
  name = "ssh";
  source = "sshd";
  max_attempts = 1;
  findtime_secs = 600;
  action = drop_all;
  ignored = one 9 ∷ [];
  ban = record {
    duration_secs = none;
    max_duration_secs = 86400;
    factor = 1;
    multipliers = [];
    jitter_secs = 0;
    overall = false;
  };
}

abbrev record_of : ℕ → SourceRecord
record_of n = record {
  source = "sshd";
  id = "r";
  payload = "login";
  observed_at = n;
  correlation = none;
  checkpoint = listener n;
  oversized = false;
}

abbrev marks : Marks ℕ
marks = record { sequences = []; context = 0 }

-- A protected address, one that is not to be blocked, one that the policy ignores and another.
abbrev records : List SourceRecord
records = record_of 5 ∷ record_of 6 ∷ record_of 9 ∷ record_of 7 ∷ []

abbrev event_for : ℕ → EventInput Net
event_for n = event_of nets detect settings (ok locals) (record_of n) (
    offense_input nets detect settings (ok locals) policy
      (record { network = one n; observed_at = n; attempt_key = none; group_key = none })
    ∷ [])

records-gathered :
    (gather nets detect settings (ok locals) (policy ∷ []) records marks).0
    ≡ ok (event_for 6 ∷ event_for 7 ∷ [])
unfolding gather record_offenses offenses accept_detected accept keep_record set_sequence
    is_protected networks_overlap ◌>>=◌ event_of offense_input
records-gathered = refl

gather-Admitted_example :
    All
      (λ e. All (Admitted nets detect settings (ok locals) e.source (policy ∷ [])) e.offenses)
      (event_for 6 ∷ event_for 7 ∷ [])
gather-Admitted_example =
    gather-Admitted nets detect settings (ok locals) (policy ∷ []) records marks
      (event_for 6 ∷ event_for 7 ∷ []) records-gathered

abbrev silent : List SourceRecord
silent = record_of 1 ∷ record_of 2 ∷ record_of 3 ∷ []

silent-gathered : (gather nets quiet settings (ok locals) (policy ∷ []) silent marks).0 ≡ ok []
unfolding gather record_offenses offenses accept_detected keep_record set_sequence ◌>>=◌
silent-gathered = refl

gather-length_example : length silent < 128
gather-length_example =
    gather-length nets quiet settings (ok locals) "sshd" (policy ∷ []) silent marks
      (refl, (refl, (refl, tt))) (omega arith) silent-gathered

five-protected : holds nets settings.protected 5 ≡ true
unfolding holds
five-protected = refl

five-inactive : holds nets world.active 5 ≡ false
unfolding holds
five-inactive = refl

process_records-active_example :
    holds nets
      (process_records nets detect settings
        (ok locals)
        services
        ports
        nft
        (policy ∷ [])
        10
        records
        marks
        world).2.active
      5
    ≡ false
process_records-active_example =
    process_records-active nets nets-IsPrefixed detect settings locals 5 five-protected services
      ports nft (policy ∷ []) 10 records marks world five-inactive
