-- ===== src/Transport.antt =====
-- crates/abacus-daemon/src/transport.rs: frames on a stream socket.
pub mod Server
pub mod Stream
pub mod Receive
pub mod Fragments
pub mod Delivery
pub mod Sent
pub mod Replies
pub mod Ancillary
pub mod Descriptors
pub mod EarlyEnd
