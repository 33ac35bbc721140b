-- ===== src/Solver.antt =====
-- crates/bagel-solver/src/codec.rs: the sealed blobs that a page and its solver exchange.
pub mod Seal
pub mod Codec
