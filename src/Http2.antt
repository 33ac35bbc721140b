-- ===== src/Http2.antt =====
-- crates/bagel-web/src/http2, wire.rs and fingerprint.rs: what the web plane reads from the first
-- bytes of an HTTP/2 connection. A byte is a number below 256.
pub mod Wire
pub mod Frame
pub mod Hpack
pub mod Capture
pub mod Observer
