-- ===== src/Client.antt =====
-- crates/abacus-client/src: what a client makes of the words and of the daemon's answers.
pub mod Types
pub mod Handles
pub mod Counts
pub mod Termination
pub mod Agreement
pub mod Answers
pub mod Creation
pub mod Conn
pub mod ConnAgrees
pub mod Calls
pub mod EndToEnd
pub mod Wait
pub mod Touch
pub mod Events
pub mod KeepAlive
pub mod Uptime
pub mod Attached
pub mod ClockView
