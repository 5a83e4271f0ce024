-- ===== src/Client/Touch.antt =====
-- touch.rs and process_clock.rs: the threads that keep an interlock alive, and the process clock.
-- The arming is one step, which is what it comes to among other threads.
use abacus_rts.Base.{
  ℕ, ◌+◌, ◌%◌, ◌^◌, ◌<◌, ◌==◌, max, arith, refl, ◌≡◌, Bool, true, false, Option, none, some,
  if◌then◌else◌, ok, err, panic,
}
use abacus_rts.Base.U64.{ℤ, wrapping_sub_i64, saturating_mul}
use abacus_rts.Core.Clock.{ms_to_nanos}
use abacus_rts.Core.Interlock.Arm.{ArmResult, arm_atomic}
use abacus_rts.Core.Interlock.Words.{Shared, store, interlock_free, sentinel}
use abacus_rts.Registry.Entry.{arm}

-- The flags that a thread shares with its owner, and whether its loop has ended.
pub record Thread : Type 0 where
  pub stop : Bool
  pub reaped : Bool
  pub ended : Bool

abbrev pub spawned : Thread
spawned = record { stop = false; reaped = false; ended = false }

-- The lifetime that each touch gives: twice the interval.
unfoldable pub touch_ttl : ℕ → ℕ
unfolding ms_to_nanos
touch_ttl interval_ms = ms_to_nanos (saturating_mul interval_ms 2)

unfoldable pub request_stop : Thread → Thread
request_stop t = record t { stop = true }

unfoldable pub is_reaped : Thread → Bool
is_reaped t = t.reaped

-- What follows the arming in a round: an error sets the flag and ends the loop, a success runs
-- `update`.
abbrev pub after_touch : ArmResult × Shared → (Shared → Shared) → Thread → Thread × Shared
after_touch (ok u, σ) update t = (t, update σ)
after_touch (err e, σ) update t = (record t { reaped = true; ended = true }, σ)
after_touch (panic, σ) update t = (t, σ)

-- A round of the loop at the time `now`, from the test of the flag to the sleep.
unfoldable pub touch_tick : ℕ → ℕ → ℕ → Thread → Shared → Thread × Shared
unfolding arm
touch_tick handle ttl_nanos now t σ =
    if t.ended
    then (t, σ)
    else if t.stop
    then (record t { ended = true }, σ)
    else after_touch (arm handle now ttl_nanos σ) (λ σ'. σ') t

-- `drop` of a thread: it is told to stop, and joined.
unfoldable pub thread_drop : Thread → Thread
unfolding request_stop
thread_drop t = record (request_stop t) { ended = true }

-- `start_touch_thread` and `stop_touch_thread`: a thread that is dropped is stopped and joined.
unfoldable pub start_touch_thread : Option Thread → Option Thread
start_touch_thread old = some spawned

unfoldable pub stop_touch_thread : Option Thread → Option Thread
stop_touch_thread old = none

-- `free` of the owner.
unfoldable pub owner_free : ℕ → Option Thread → Shared → Option Thread × Shared
unfolding interlock_free stop_touch_thread
owner_free handle t σ = (stop_touch_thread t, interlock_free handle σ)

-- `open_count` takes the clock's reading.
abbrev pub show_clock : ℕ → ℕ → Shared → Shared
show_clock handle clock σ =
    store handle (record (σ.regions handle) { open_count = (σ.regions clock).open_count }) σ

unfoldable pub process_tick : ℕ → ℕ → ℕ → ℕ → Thread → Shared → Thread × Shared
unfolding arm
process_tick handle clock ttl_nanos now t σ =
    if t.ended
    then (t, σ)
    else if t.stop
    then (record t { ended = true }, σ)
    else after_touch (arm handle now ttl_nanos σ) (show_clock handle clock) t

-- The process clock's own thread has the same flags: `stop`, `is_reaped` and `drop`.
unfoldable pub process_stop : Thread → Thread
process_stop t = record t { stop = true }

unfoldable pub process_thread_is_reaped : Thread → Bool
process_thread_is_reaped t = t.reaped

unfoldable pub process_thread_drop : Thread → Thread
unfolding process_stop
process_thread_drop t = record (process_stop t) { ended = true }

-- A thread that was told to stop, or dropped, writes nothing any more.
pub stopped_writes_nothing :
    (handle clock ttl_nanos now : ℕ) (t : Thread) (σ : Shared)
    → ((touch_tick handle ttl_nanos now (request_stop t) σ).1 ≡ σ)
      × ((touch_tick handle ttl_nanos now (thread_drop t) σ).1 ≡ σ)
      × ((process_tick handle clock ttl_nanos now (process_stop t) σ).1 ≡ σ)
      × ((process_tick handle clock ttl_nanos now (process_thread_drop t) σ).1 ≡ σ)
unfolding touch_tick request_stop thread_drop process_tick process_stop process_thread_drop
stopped_writes_nothing handle clock ttl_nanos now t σ = (ground arith, refl, ground arith, refl)

-- `ProcessClock::new`: both counters take the clock's reading, and the thread starts.
unfoldable pub process_new : ℕ → ℕ → Shared → Thread × Shared
process_new handle clock σ =
    let start_time = (σ.regions clock).open_count in
    let σ₁ = store handle (record (σ.regions handle) { closed_count = start_time }) σ in
    (spawned, store handle (record (σ₁.regions handle) { open_count = start_time }) σ₁)

unfoldable pub uptime_ms : ℕ → Shared → ℤ
uptime_ms handle σ = wrapping_sub_i64 (σ.regions handle).open_count (σ.regions handle).closed_count

unfoldable pub process_start_time_ms : ℕ → Shared → ℕ
process_start_time_ms handle σ = (σ.regions handle).closed_count

unfoldable pub last_seen_ms : ℕ → Shared → ℕ
last_seen_ms handle σ = (σ.regions handle).open_count

-- `is_reaped` of the process clock, which has no thread once it was freed.
unfoldable pub process_is_reaped : Option Thread → Bool
unfolding process_thread_is_reaped
process_is_reaped none = true
process_is_reaped (some t) = process_thread_is_reaped t

-- `free`: the thread is stopped and dropped before the interlock is freed.
unfoldable pub process_free : ℕ → Shared → Option Thread × Shared
unfolding interlock_free
process_free handle σ = (none, interlock_free handle σ)

-- An arming of an interlock that is alive, whose deadline fits, extends the expiration.
pub arm_alive :
    (handle ttl now : ℕ) (σ : Shared)
    → (σ.regions handle).expiration_ns < sentinel
    → now + ttl < sentinel
    → arm handle now ttl σ ≡ (
      ok tt,
      store handle
          (record (σ.regions handle) {
            expiration_ns = max (σ.regions handle).expiration_ns (now + ttl);
          })
          σ,
    )
unfolding arm arm_atomic
arm_alive handle ttl now σ set small =
    let live : ((σ.regions handle).expiration_ns == sentinel) ≡ false = ground arith in
    let sum : (now + ttl) % 2 ^ 64 ≡ now + ttl = omega arith in rw (live, sum) refl
