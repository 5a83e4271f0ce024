-- ===== src/Core.antt =====
-- crates/abacus-core: errors, the clock, and the interlock in shared memory.
pub mod Error
pub mod Clock
pub mod Interlock
