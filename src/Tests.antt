-- ===== src/Tests.antt =====
-- Tests on concrete inputs, and the theorems of the other files at them.
mod Core
mod Wire
mod Registry
mod Daemon
mod Transport
mod Client
mod EndToEnd
mod Interlocks
mod Waits
mod Cycles
mod Watchers
mod Race
mod Descriptors
mod Startup
