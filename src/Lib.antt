-- ===== src/Lib.antt =====
-- A verification library for bagel: the runtime's durable store of defense leases, its firewall and
-- the defense that joins them, and parts of the web plane, of its solver and of the proxy protocol
-- crate.
--
-- Parts, files and code:
--   Prelude: numbers, Boolean tests, lists, saturating arithmetic.
--   Config: crates/bagel-config/src/lib.rs, actions and ban schedules.
--   Store: crates/bagel-runtime/src/store.rs. Rows holds the tables of `create_schema` and the
--     inputs, Window the queries and inserts on them, Schedule `ban_duration`, Events the path of
--     an event (`apply_event`, `process_event`, `process_events`), Leases the other methods, Calls
--     a history of calls. A table is the list of its rows, a method returns its result and the
--     tables after it, and `transact` is a transaction that is rolled back unless it commits. The
--     other children hold proofs: Disjoint and Terms the terms of leases, Commit and Replay the
--     records of a source, Threshold the limit of attempts, Housekeeping expiry and pruning.
--   Network and Firewall: crates/bagel-runtime/src/firewall.rs. Firewall has the scopes and
--     `normalize_memberships`, Packets what a list of memberships does to a packet; the other
--     children hold proofs.
--   Defense: crates/bagel-runtime/src/defense.rs and defense_maintenance.rs. Guard is the part of
--     `Defense` that decides what is never enforced against, Rules the firewall rule of a lease,
--     Reconcile `reconcile` on the tables, the active leases and the firewall (`World`), Upkeep
--     expiry and the operator's commands, Records `process_records`. An operation returns its
--     result and the world after it, on every early return as well.
--   Policy: crates/bagel-web/src/rule and the evaluation in server/pipeline.rs and
--     server/pipeline_evaluate.rs. Rules is the rule tree and its walk, Score the scorecards, Decide
--     the decision that joins them, Parse `Action::parse`, Build `RuleState::build_rules`.
--   Solver: crates/bagel-solver/src/codec.rs. Seal is the keystream, Codec the two blobs.
--   Http2: crates/bagel-web/src/wire.rs and crates/bagel-web/src/http2. Wire is `Cursor`, Frame
--     the frame decoder, Hpack the integers, the tables and the order of pseudo headers, Capture
--     what a frame changes up to the end of the first header block, Observer the buffer, the limits
--     and the reads of `FingerprintStream`.
--   Rate: crates/bagel-web/src/net/rate.rs. Entry is one key's buckets, Shard the table of keys
--     and the tracker.
--   Pending: crates/bagel-web/src/challenge/pending.rs, which counts in two trackers of Rate.
--   RealIp: crates/bagel-proto/src/realip.rs.
--   Decay: crates/bagel-web/src/net/decay_map.rs.
--   Poison: crates/bagel-web/src/maze/memory.rs, `PoisonStore`.
--   Tests: the theorems at concrete inputs.
--
-- Parameters: row ids, JSON and network texts of the store (`Services`, with what they document in
-- `IsLawful`), Huffman decoding, the length of a written number, the hash and the equality of
-- keys, the parsers of addresses, the networks of ipnetwork (`Networks`, with what is asked of
-- them in `IsPrefixed`), the addresses of the machine, the answer of nft, the detections of a
-- record, the answers of rhai and the responses that the server builds outside of the rules
-- (`Calls`). The clocks and random draws are inputs of the operations.
--
-- Bounds and fuel: `u64` arithmetic is written with its saturation, a 64-bit `usize` with its
-- overflow checks, counters of 32 bits with their limit. The loops of the HPACK reader run on fuel,
-- one round for each byte of the block and one for each entry of the table; the loop of
-- `Observer::feed` on one round more than there are frames left of its 128, so that its own test
-- ends it. Running out counts as a panic, which the theorems on these loops exclude.
--
-- Not modelled: the opening of the database, the texts of fingerprints (of those for HTTP/2 the
-- length is), the text of nft rules, listener offenses and detectors, the challenge action, the
-- tarpit, maze pages and tokens, configuration decoding, TLS, proxying, the daemon and the
-- command line.
pub mod Prelude
pub mod Config
pub mod Store
pub mod Network
pub mod Firewall
pub mod Defense
pub mod Solver
pub mod Policy
pub mod Http2
pub mod Rate
pub mod RealIp
pub mod Pending
pub mod Decay
pub mod Poison
pub mod Tests
