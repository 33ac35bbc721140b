-- ===== src/Config.antt =====
-- crates/bagel-config/src/lib.rs: what a policy does to a network, and for how long.
use bagel.Prelude.{ℕ, String, Bool, Option, none, some, List}

pub data TransportProtocol : Type 0 where
  tcp udp : TransportProtocol

pub data Action : Type 0 where
  observe : Action
  drop : TransportProtocol → List ℕ → Action
  drop_protocol : TransportProtocol → Action
  drop_all : Action
  reject : TransportProtocol → List ℕ → Action
  reject_protocol : TransportProtocol → Action
  reject_all : Action
  tarpit_redirect : TransportProtocol → List ℕ → String → Action

pub data BlockVerdict : Type 0 where
  drops rejects : BlockVerdict

pub data BlockTarget : Type 0 where
  all : BlockTarget
  protocol : TransportProtocol → BlockTarget
  ports : TransportProtocol → List ℕ → BlockTarget

-- What a firewall rule needs, or `none` for the actions that produce no rule.
unfoldable pub block_parts : Action → Option (BlockVerdict × BlockTarget)
block_parts observe = none
block_parts (tarpit_redirect p qs l) = none
block_parts (drop p qs) = some (drops, BlockTarget.ports p qs)
block_parts (drop_protocol p) = some (drops, BlockTarget.protocol p)
block_parts drop_all = some (drops, BlockTarget.all)
block_parts (reject p qs) = some (rejects, BlockTarget.ports p qs)
block_parts (reject_protocol p) = some (rejects, BlockTarget.protocol p)
block_parts reject_all = some (rejects, BlockTarget.all)

-- `duration_secs` is `none` for a permanent ban.
pub record BanSchedule : Type 0 where
  pub duration_secs : Option ℕ
  pub factor : ℕ
  pub multipliers : List ℕ
  pub jitter_secs : ℕ
  pub max_duration_secs : ℕ
  pub overall : Bool
