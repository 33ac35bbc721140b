-- ===== src/Defense/Records.antt =====
-- `Defense::process_records`: from the records of the sources to events of the store. The gauges and
-- counters are left out.
pub mod Shelter
pub mod Active
pub mod Sequence
use bagel.Prelude.{
  ℕ, suc, ◌%◌, String, Bool, true, false, not, ◌||◌, Option, none, some, List, [], ◌∷◌, ◌++◌,
  str_eq, ltb, ◌==◌, if◌then◌else◌, any, u64_max,
}
use bagel.Config.{Action, BanSchedule}
use bagel.Store.Result.{Result, ok, err, ◌>>=◌, Error}
use bagel.Store.Rows.{Checkpoint, Services, Lease, OffenseInput, EventInput, EventOutcome}
use bagel.Store.Events.{process_events}
use bagel.Network.{Networks, networks_overlap}
use bagel.Firewall.{Membership}
use bagel.Defense.Guard.{Settings, insert, is_protected, enforcement_action}
use bagel.Defense.Reconcile.{World, reconcile, is_observe}

-- source.rs, `SourceRecord`.
pub record SourceRecord : Type 0 where
  pub source : String
  pub id : String
  pub payload : String
  pub observed_at : ℕ
  pub correlation : Option String
  pub checkpoint : Checkpoint
  pub oversized : Bool

-- detector.rs, `Detection`.
pub record Detection (Network : Type 0) : Type 0 where
  pub network : Network
  pub observed_at : ℕ
  pub attempt_key : Option String
  pub group_key : Option String

-- `CompiledPolicy`, with the fields of its `Policy` that are read here.
pub record CompiledPolicy (Network : Type 0) : Type 0 where
  pub name : String
  pub source : String
  pub max_attempts : ℕ
  pub findtime_secs : ℕ
  pub ban : BanSchedule
  pub action : Action
  pub ignored : List Network

-- What `detect` of the named policy answers to a payload, its time and its correlation, and what its
-- context holds then.
abbrev pub Detect : Type 0 → Type 0 → Type 0
Detect Network Context =
    String → String → ℕ → Option String → Context → Option (Detection Network) × Context

-- `checkpoint_sequences`, a number for each source.
abbrev pub sequence_of : String → List (String × ℕ) → ℕ
sequence_of source [] = 0
sequence_of source ((s, n) ∷ rest) = if str_eq s source then n else sequence_of source rest

unfoldable pub set_sequence : String → ℕ → List (String × ℕ) → List (String × ℕ)
set_sequence source n [] = (source, n) ∷ []
set_sequence source n ((s, m) ∷ rest) =
    let later = set_sequence source n rest in
    if str_eq s source then (s, n) ∷ rest else (s, m) ∷ later

-- `saturating_add(1)`.
abbrev pub next_sequence : ℕ → ℕ
next_sequence n = if ltb n u64_max then suc n else u64_max

-- What a batch leaves behind, besides the events.
pub record Marks (Context : Type 0) : Type 0 where
  pub sequences : List (String × ℕ)
  pub context : Context

module _ {Ip Network Context : Type 0} (nets : Networks Ip Network)
    (detect : Detect Network Context) (s : Settings Network) (locals : Result (List Ip)) where
  unfoldable pub offense_input : CompiledPolicy Network → Detection Network → OffenseInput Network
  offense_input p d = record {
    policy = p.name;
    network = d.network;
    max_attempts = p.max_attempts;
    findtime_secs = p.findtime_secs;
    history_retention_secs = s.history_retention_secs;
    ban = p.ban;
    action = enforcement_action nets s d.network p.action;
    observed_at = some d.observed_at;
    attempt_key = d.attempt_key;
    group_key = d.group_key;
  }

  abbrev pub is_ignored : CompiledPolicy Network → Network → Bool
  is_ignored p n = any (λ m. networks_overlap nets m n) p.ignored

  -- A detection becomes an offense, or nothing.
  unfoldable pub accept :
      CompiledPolicy Network → Detection Network → Result (List (OffenseInput Network))
  accept p d = do
    guarded ← is_protected nets s locals d.network
    if guarded || is_ignored p d.network then ok [] else ok (offense_input p d ∷ [])

  unfoldable pub accept_detected :
      CompiledPolicy Network → Option (Detection Network) → Result (List (OffenseInput Network))
  accept_detected p none = ok []
  accept_detected p (some d) = accept p d

  -- The loop over the policies of the record's source. An error ends it.
  unfoldable pub offenses :
      SourceRecord
      → List (CompiledPolicy Network)
      → Context
      → Result (List (OffenseInput Network)) × Context
  offenses r [] context = (ok [], context)
  offenses r (p ∷ ps) context =
      let skipped = offenses r ps context in
      let (detection, after) = detect p.name r.payload r.observed_at r.correlation context in
      let (rest, last) = offenses r ps after in
      if not (str_eq p.source r.source) then skipped else elim (accept_detected p detection) [
        | err e ↦ (err e, after)
        | ok os ↦ (do later ← rest; ok (os ++ later), last)
      ]

  unfoldable pub record_offenses :
      SourceRecord
      → List (CompiledPolicy Network)
      → Context
      → Result (List (OffenseInput Network)) × Context
  record_offenses r ps context = if r.oversized then (ok [], context) else offenses r ps context

  unfoldable pub event_of : SourceRecord → List (OffenseInput Network) → EventInput Network
  event_of r os = record {
    source = r.source;
    event_id = r.id;
    checkpoint = r.checkpoint;
    observed_at = r.observed_at;
    offenses = os;
  }

  -- The events of a record, and the sequences after it: of the records without an offense, one in
  -- 128 is kept for its checkpoint.
  unfoldable pub keep_record :
      SourceRecord
      → List (OffenseInput Network)
      → List (String × ℕ)
      → List (EventInput Network) × List (String × ℕ)
  keep_record r (o ∷ os) sequences = (event_of r (o ∷ os) ∷ [], sequences)
  keep_record r [] sequences =
      if r.oversized
      then (event_of r [] ∷ [], sequences)
      else let sequence = next_sequence (sequence_of r.source sequences) in
        (
          if sequence % 128 == 0 then event_of r [] ∷ [] else [],
          set_sequence r.source sequence sequences,
        )

  -- The loop over the records.
  unfoldable pub gather :
      List (CompiledPolicy Network)
      → List SourceRecord
      → Marks Context
      → Result (List (EventInput Network)) × Marks Context
  gather ps [] marks = (ok [], marks)
  gather ps (r ∷ rs) marks =
      let (found, context) = record_offenses r ps marks.context in
      elim found [
        | err e ↦ (err e, record { sequences = marks.sequences; context = context })
        | ok os ↦
            let (events, sequences) = keep_record r os marks.sequences in
            let (later, last) =
              gather ps rs (record { sequences = sequences; context = context }) in
            (do more ← later; ok (events ++ more), last)
      ]

  -- The loop over the leases that the store created.
  pub insert_leases : List (Lease Network) → List Network → Result (Unit {0}) × List Network
  insert_leases [] active = (ok tt, active)
  insert_leases (l ∷ ls) active =
      let same = insert_leases ls active in
      let more = insert_leases ls (insert nets l.network active) in
      if is_observe l.action then same else elim (is_protected nets s locals l.network) [
        | err e ↦ (err e, active)
        | ok true ↦ same
        | ok false ↦ more
      ]

  module _ (v : Services Network) (parse_port : String → Option ℕ)
      (nft : List (Membership Network) → Bool) where
    unfoldable pub created : List (EventOutcome Network) → List (Lease Network)
    created [] = []
    created (o ∷ os) = o.leases ++ created os

    -- Once the leases are inserted.
    unfoldable pub finish :
        ℕ
        → List (Lease Network)
        → Result (Unit {0}) × List Network
        → World Network
        → Result (Unit {0}) × World Network
    finish now leases (err e, active) w =
        (err e, record { db = w.db; active = active; ready = w.ready })
    finish now [] (ok u, active) w = (ok tt, record { db = w.db; active = active; ready = w.ready })
    finish now (l ∷ ls) (ok u, active) w =
        reconcile v nets parse_port nft s locals now
          (record { db = w.db; active = active; ready = w.ready })

    -- Once the store has answered.
    pub apply_outcomes :
        ℕ → Result (List (EventOutcome Network)) → World Network → Result (Unit {0}) × World Network
    apply_outcomes now (err e) w = (err e, w)
    apply_outcomes now (ok os) w = finish now (created os) (insert_leases (created os) w.active) w

    pub process_pending :
        ℕ → Result (List (EventInput Network)) → World Network → Result (Unit {0}) × World Network
    process_pending now (err e) w = (err e, w)
    process_pending now (ok []) w = (ok tt, w)
    process_pending now (ok (e ∷ es)) w =
        let (outcomes, db) = process_events v (e ∷ es) w.db in
        apply_outcomes now outcomes (record { db = db; active = w.active; ready = w.ready })

    pub process_records :
        List (CompiledPolicy Network)
        → ℕ
        → List SourceRecord
        → Marks Context
        → World Network
        → Result (Unit {0}) × Marks Context × World Network
    process_records ps now rs marks w =
        let (pending, last) = gather ps rs marks in
        let (result, after) = process_pending now pending w in (result, last, after)
