-- ===== src/Daemon.antt =====
-- crates/abacus-daemon/src/daemon.rs: one request of a client, and one cycle of the event loop.
pub mod Request
pub mod Cycle
pub mod Replies
pub mod Outcome
pub mod Reach
pub mod Table
pub mod Loop
pub mod Unfailing
pub mod Departs
pub mod Turns
pub mod Start
pub mod Args
pub mod Cycles
