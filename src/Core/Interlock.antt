-- ===== src/Core/Interlock.antt =====
-- crates/abacus-core/src/interlock.rs. An interlock is three u64 words in a memfd that is mapped
-- by the daemon and its clients. A handle is the number of its region; clones and mappings of one
-- memfd share the region.
pub mod Words
pub mod Arm
pub mod Armed
pub mod Create
