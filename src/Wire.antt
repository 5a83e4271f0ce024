-- ===== src/Wire.antt =====
-- crates/abacus-daemon/src/wire.rs: the messages between a client and the daemon, and their bytes.
pub mod Message
pub mod Encode
pub mod Decode
pub mod Cursor
pub mod Layout
pub mod RoundTrip
pub mod Totality
pub mod Safety
