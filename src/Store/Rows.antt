-- ===== src/Store/Rows.antt =====
-- The four tables of `create_schema`, the inputs of an event, and what the store takes from outside
-- of the repository. A table is the list of its rows in the order of their row ids.
use bagel.Prelude.{ℕ, ◌≤◌, ◌<◌, String, ◌≡◌, Bool, Option, some, List, [], All}
use bagel.Config.{Action, BanSchedule}

-- source.rs, `Checkpoint`.
pub data Checkpoint : Type 0 where
  journal : String → ℕ → Checkpoint
  file : ℕ → ℕ → ℕ → ℕ → List ℕ → Checkpoint
  address_set : ℕ → ℕ → ℕ → ℕ → ℕ → Checkpoint
  listener : ℕ → Checkpoint

pub record CheckpointRow : Type 0 where
  pub source : String
  pub event_id : String
  pub body : String
  pub updated_at : ℕ

pub record EventRow : Type 0 where
  pub source : String
  pub event_id : String
  pub observed_at : ℕ

pub record OffenseRow : Type 0 where
  pub source : String
  pub event_id : String
  pub policy : String
  pub network : String
  pub observed_at : ℕ
  pub attempt_key : Option String
  pub consumed : Bool

-- The CHECK of the `apply_state` column.
pub data ApplyState : Type 0 where
  pending applied observed failed : ApplyState

pub record LeaseRow : Type 0 where
  pub id : ℕ
  pub network : String
  pub policy : String
  pub action : String
  pub created_at : ℕ
  pub expires_at : Option ℕ
  pub escalation_count : ℕ
  pub manual : Bool
  pub revoked_at : Option ℕ
  pub expired_at : Option ℕ
  pub apply_state : ApplyState
  pub apply_error : Option String

pub record Db : Type 0 where
  pub checkpoints : List CheckpointRow
  pub events : List EventRow
  pub offenses : List OffenseRow
  pub leases : List LeaseRow

-- `create_schema`: four empty tables.
abbrev pub create_schema : Db
create_schema = record { checkpoints = []; events = []; offenses = []; leases = [] }

-- A lease as the callers see it.
pub record Lease (Network : Type 0) : Type 0 where
  pub id : ℕ
  pub network : Network
  pub policy : String
  pub action : Action
  pub created_at : ℕ
  pub expires_at : Option ℕ
  pub escalation_count : ℕ
  pub manual : Bool
  pub apply_state : ApplyState
  pub last_error : Option String

pub record OffenseInput (Network : Type 0) : Type 0 where
  pub policy : String
  pub network : Network
  pub max_attempts : ℕ
  pub findtime_secs : ℕ
  pub history_retention_secs : ℕ
  pub ban : BanSchedule
  pub action : Action
  pub observed_at : Option ℕ
  pub attempt_key : Option String
  pub group_key : Option String

pub record EventInput (Network : Type 0) : Type 0 where
  pub source : String
  pub event_id : String
  pub checkpoint : Checkpoint
  pub observed_at : ℕ
  pub offenses : List (OffenseInput Network)

pub record EventOutcome (Network : Type 0) : Type 0 where
  pub duplicate : Bool
  pub leases : List (Lease Network)

-- What the store calls: the network type of ipnetwork with its text form, serde_json, the row id
-- that SQLite gives to a new lease, and the generator of rand. `draw k m` is the number of 0..=m
-- that is drawn while `k` leases stand in the table.
pub record Services (Network : Type 0) : Type 0 where
  pub text : Network → String
  pub parse : String → Option Network
  pub action_json : Action → Option String
  pub action_of_json : String → Option Action
  pub checkpoint_json : Checkpoint → Option String
  pub checkpoint_of_json : String → Option Checkpoint
  pub fresh_id : List LeaseRow → ℕ
  pub draw : ℕ → ℕ → ℕ

-- What they document: text and JSON forms read back, and a new row id is above those in use.
pub record IsLawful {Network : Type 0} (v : Services Network) : Type 0 where
  pub parse_text : (n : Network) → v.parse (v.text n) ≡ some n
  pub action_reads :
      (a : Action) (s : String) → v.action_json a ≡ some s → v.action_of_json s ≡ some a
  pub checkpoint_reads :
      (c : Checkpoint) (s : String) → v.checkpoint_json c ≡ some s → v.checkpoint_of_json s ≡ some c
  pub id_above : (rows : List LeaseRow) → All (λ r. r.id < v.fresh_id rows) rows
  pub draw_within : (k m : ℕ) → v.draw k m ≤ m
