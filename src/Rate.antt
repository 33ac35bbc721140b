-- ===== src/Rate.antt =====
-- crates/bagel-web/src/net/rate.rs. The buckets are a function of an index below 60, a `HashMap`
-- is an association list, and the shards are a function of their index.
pub mod Entry
pub mod Shard
