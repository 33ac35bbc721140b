-- ===== src/Http2/Hpack.antt =====
-- http2/hpack.rs: the order of the pseudo headers in a header block.
pub mod Integer
pub mod Table
pub mod Order
