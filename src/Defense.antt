-- ===== src/Defense.antt =====
-- crates/bagel-runtime/src/defense.rs and defense_maintenance.rs: the store and the firewall
-- composed. Metrics and logs are left out; an operation gives its result and the world after it.
pub mod Guard
pub mod Rules
pub mod Reconcile
pub mod Upkeep
pub mod Records
