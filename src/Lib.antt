-- ===== src/Lib.antt =====
-- Abacus RTS: counters in shared memory, and a daemon that reaps and wakes them.
--
-- A client asks the daemon over a socket for an interlock: a region of shared memory with three
-- words, `open_count`, `closed_count` and `expiration_ns`. Client and daemon then meet only in
-- these words. The daemon keeps the interlocks by name, and once per millisecond advances its
-- clock, reaps the interlocks that are terminated or expired, and delivers to those that wait.
--
-- Base: the helpers. `Base/Results` is Rust's `Result` with the panic as a third case, and
--   `Yields`, which says that a result is no panic and what a value in it satisfies. `Base/U64` is
--   arithmetic on u64 as a release build does it, with the wrap written out; `Base/Text` is strings
--   as UTF-8 bytes; `Base/Map` is the hash map of the registry, in an order of which nothing is
--   assumed.
-- Core: crates/abacus-core/src. `Core/Clock` is clock.rs, `Core/Error` error.rs, and
--   `Core/Interlock` interlock.rs: `Words` has the regions (`Shared`; a handle is a number, so
--   clones and duplicated descriptors alias), `Arm` the compare-and-swap loop among other threads
--   (a `Turn` is what they do around one round), `Armed` how it ends, `Create` the calls of the
--   kernel, each of which may fail (`Kernel`).
-- Wire: crates/abacus-daemon/src/wire.rs. `Encode` and `Decode` are the two directions, `Layout`
--   the format written down without them, `Cursor` reading at a position.
-- Registry: crates/abacus-daemon/src/registry.rs. `Entry` has the data, `Registry::new`, `attach`
--   and the clock's functions, `Create` is `create`, and `Evaluate` is `evaluate_all`, split by
--   tier; `Invariant` says what a valid registry is. `Step`, `Pass` and `Survivors` are about a
--   round, the loop and the whole of the evaluation, `Turn` about what an entry sees of the others
--   in it, `Contracts` about what those get that watch others, `Wakes` about its wakes, `Unfailing`
--   about its errors, `Resolve` and `Created` about `create`.
-- Daemon: crates/abacus-daemon/src/daemon.rs and main.rs. `Args` is the reading of the arguments,
--   `Start` what `daemon_run` does before its loop, `Request` is `handle_client_request`, `Cycle`
--   the poll timeout and the end of a cycle, `Loop` the whole cycle of `daemon_run` on what it
--   meets (`Slot`, `Cycle`), and `Table` the removal of connections. `Reach` has the states of a
--   daemon: requests, ends of cycles and arbitrary writes of clients, in any order; `Departs` says
--   what a turn of a connection does and which ones are to go, and `Turns`,
--   `Cycles` and `Unfailing` lead `Loop` back to them.
-- Transport: crates/abacus-daemon/src/transport.rs. `Stream` has the two loops, on lists of the
--   results that the kernel's calls return (`ReadEvent`, `WriteEvent`), `Receive` whole messages;
--   `Fragments`, `Delivery` and `Replies` are about the receiving, `EarlyEnd` about streams that
--   end within a frame, `Sent` about the sending. `Ancillary` has the control messages, with the
--   macros of cmsg(3) as the parameter `Libc`, and `Descriptors` is about them. `Server` is the
--   creation of the listening socket.
-- Client: crates/abacus-client/src. `Types` is types.rs and the reading of an error in client.rs,
--   `Answers` what the client makes of an answer, `Conn` the framing of client.rs (`ConnAgrees`
--   compares it with the daemon's) and `Calls` its API. `Handles` is interlock.rs, with `Attached`
--   for the handles that are attached by name and the clock's, `Touch` touch.rs and
--   process_clock.rs, and `Wait` the waits: of interlock.rs (`Wait/Watch`) and of wait_counter.rs,
--   wait_timer.rs, wait_cron.rs, wait_barrier.rs and wait_race.rs, whose other methods are in
--   `Wait/Methods`; `TimerEnds`, `CounterEnds`, `RaceEnds` and `Ends` are about how they end.
--   `Agreement`, `Wait/Delivery`, `Wait/Watchers`, `Wait/RaceDelivery`,
--   `Termination`, `ClockView` and `KeepAlive` (on `Events`) put client and daemon together on the
--   shared words; `Creation` and `EndToEnd` follow a create from the call over both sockets to the
--   client's handle; `Counts` and `Uptime` are about the counters.
-- Tests: concrete inputs.
--
-- Bounds and fuel. Loops over data recurse on the data. The loop of `interlock_arm` recurses on the
-- turns that the schedule gives it, and that of `sleep_until_nanos` on the readings of the clock;
-- both have a theorem on when they end. The loops of the transport recurse on the events, and
-- return nothing when these run out before the loop ends; so do the waiting loops, on the rounds of
-- their readings (`Round`), of which nothing relates one to the next. The ids of the registry wrap
-- at 2^64, and `Step.request` asks that the next one fits.
--
-- Not modelled: what the kernel does on a socket or a futex, the layout of a control message's
-- header, the start, sleep and join of a thread, and what is printed while the daemon runs. A
-- client's handle is armed in one step in `Handles` and `Touch`, as `Armed` allows.
-- While the daemon arms its clock nobody else writes the clock's words, since clients use them
-- through a handle that only reads; during one `evaluate_all` the memory changes by the daemon's
-- own stores alone.
pub mod Base
pub mod Core
pub mod Wire
pub mod Registry
pub mod Transport
pub mod Daemon
pub mod Client
pub mod Tests
