-- ===== src/Policy/Build.antt =====
-- `RuleState::build_rules` of crates/bagel-web/src/rule/mod.rs. An error does not keep the name of
-- the rule it is about.
pub mod Configured
use bagel.Prelude.{ℕ, ◌/◌, String, Bool, Option, none, some, List, if◌then◌else◌}
use Prim.Native.String.{◌++◌ as ◌⧺◌}
use bagel.Policy.Rules.{Action, RuleState, rule, RuleList, end, next}
use bagel.Policy.Score.{Result, ok, err, ◌>>=◌, Error, bad_condition}
use bagel.Policy.Parse.{RuleSettings, is_blank, parse}

-- `RuleConfig` and its lists: a name, a condition, an action with its settings and challenges, and
-- the children.
mutual
  pub data RuleConfig : Type 0 where
    config : String → Option String → String → RuleSettings → List String → ConfigList → RuleConfig

  pub data ConfigList : Type 0 where
    done : ConfigList
    also : RuleConfig → ConfigList → ConfigList

unfoldable pub full_name : String → String → String
full_name parent name = if is_blank parent then name else parent ⧺ ("/" ⧺ name)

-- `compile_condition` is `Prelude::compile` with the engine.
module _ {Ast Pattern : Type 0} (compile_condition : String → Option Ast)
    (compile : String → Option Pattern) (valid_name valid_value : String → Bool)
    (lowercase ascii_lowercase : String → String) (default_http_code : ℕ) where
  unfoldable pub compile_rule_condition : String → Option String → Result (Option Ast)
  compile_rule_condition name none = ok none
  compile_rule_condition name (some e) = elim (compile_condition e) [
    | none ↦ err (bad_condition name)
    | some ast ↦ ok (some ast)
  ]

  unfoldable pub build_rules : ConfigList → String → Result (RuleList Ast Pattern)
  build_rules done parent = ok end
  build_rules (also (config name condition action settings challenges kids) rest) parent = do
    ast ← compile_rule_condition (full_name parent name) condition
    parsed ←
        parse compile valid_name valid_value lowercase ascii_lowercase action settings challenges
          default_http_code
    children ← build_rules kids (full_name parent name)
    later ← build_rules rest parent
    ok (next (rule (full_name parent name) ast parsed children) later)
