-- ===== src/Registry.antt =====
-- crates/abacus-daemon/src/registry.rs: the named interlocks, and the pass that reaps and wakes.
pub mod Entry
pub mod Create
pub mod Evaluate
pub mod Invariant
pub mod Step
pub mod Pass
pub mod Survivors
pub mod Created
pub mod Resolve
pub mod Grid
pub mod Wakes
pub mod Unfailing
pub mod Turn
pub mod Contracts
