-- ===== src/Client/Wait.antt =====
-- wait_counter.rs, wait_timer.rs, wait_cron.rs, wait_barrier.rs and wait_race.rs, and the waits of
-- interlock.rs. A round of a waiting loop is a record of what its loads, its clock and its futex
-- call read; other threads and the daemon run in between, so nothing relates two rounds.
pub mod Rounds
pub mod Watch
pub mod Counter
pub mod Timer
pub mod TimerEnds
pub mod Delivery
pub mod Cron
pub mod Barrier
pub mod Race
pub mod Watchers
pub mod CounterEnds
pub mod RaceEnds
pub mod RaceDelivery
pub mod Ends
pub mod Methods
