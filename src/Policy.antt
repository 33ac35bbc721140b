-- ===== src/Policy.antt =====
-- crates/bagel-web/src/rule and server/pipeline_evaluate.rs: the rules that decide on a request, and
-- the scorecards that decide where no rule does.
pub mod Rules
pub mod Score
pub mod Decide
pub mod Parse
pub mod Ensures
pub mod Build
