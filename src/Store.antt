-- ===== src/Store.antt =====
-- crates/bagel-runtime/src/store.rs: durable source progress, offense windows and leases.
pub mod Result
pub mod Rows
pub mod Schedule
pub mod Window
pub mod Events
pub mod Leases
pub mod Calls
pub mod Insert
pub mod Disjoint
pub mod Terms
pub mod Housekeeping
pub mod Replay
pub mod Commit
pub mod Threshold
