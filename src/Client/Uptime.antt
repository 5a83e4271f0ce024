-- ===== src/Client/Uptime.antt =====
-- The readings of a process clock.
use abacus_rts.Base.{
  ℕ, ◌+◌, ◌-◌, ◌^◌, ◌≤◌, ◌<◌, ◌≡◌, ◌≢◌, refl, sym, false, List, [], ◌∷◌, ◌==◌, ==_refl, ==_false,
  All, arith,
}
use abacus_rts.Base.U64.{pos}
use abacus_rts.Core.Interlock.Words.{Shared, store, sentinel}
use abacus_rts.Client.Touch.{
  Thread, spawned, process_tick, process_new, uptime_ms, last_seen_ms, is_reaped, arm_alive,
}

-- A round of the thread at `now`, when the daemon has brought its clock to `clock_ms`.
abbrev pub clock_moves : ℕ → ℕ → Shared → Shared
clock_moves clock clock_ms σ = store clock (record (σ.regions clock) { open_count = clock_ms }) σ

-- Rounds of the thread, each with its time and the clock's value by then.
unfoldable pub process_ticks : ℕ → ℕ → ℕ → List (ℕ × ℕ) → Thread × Shared → Thread × Shared
unfolding process_tick
process_ticks handle clock ttl [] s = s
process_ticks handle clock ttl ((now, clock_ms) ∷ ticks) (t, σ) =
    process_ticks handle clock ttl ticks
      (process_tick handle clock ttl now t (clock_moves clock clock_ms σ))

-- The clock's value at the last of the rounds.
abbrev pub last_clock : ℕ → List (ℕ × ℕ) → ℕ
last_clock start [] = start
last_clock start ((now, clock_ms) ∷ ticks) = last_clock clock_ms ticks

-- What the rounds keep: a running thread, the start time, and the value shown last.
record Shows (handle start shown : ℕ) (s : Thread × Shared) : Type 0 where
  running : s.0 ≡ spawned
  start_time : (s.1.regions handle).closed_count ≡ start
  last_seen : (s.1.regions handle).open_count ≡ shown
  set : (s.1.regions handle).expiration_ns < sentinel

module _ (handle clock ttl : ℕ) (apart : handle ≢ clock) where
  process_tick-Shows :
      (now start shown clock_ms : ℕ) (s : Thread × Shared)
      → now + ttl < sentinel
      → Shows handle start shown s
      → Shows handle start clock_ms
          (process_tick handle clock ttl now s.0 (clock_moves clock clock_ms s.1))
  unfolding process_tick
  process_tick-Shows now start shown clock_ms (t, σ) small k =
      let other : (handle == clock) ≡ false = ==_false handle clock apart in
      let back : (clock == handle) ≡ false = ==_false clock handle (λ q. apart (sym q)) in
      rw (k.running, arm_alive handle ttl now (clock_moves clock clock_ms σ) (rw other k.set) small)
        (record {
          running = refl;
          start_time = rw (==_refl handle, other) k.start_time;
          last_seen = rw (==_refl handle, back, ==_refl clock) refl;
          set = rw (==_refl handle, other) (omega (arith, k.set, small));
        })

  process_ticks-Shows :
      (start shown : ℕ) (ticks : List (ℕ × ℕ)) (s : Thread × Shared)
      → All (λ x. x.0 + ttl < sentinel) ticks
      → Shows handle start shown s
      → Shows handle start (last_clock shown ticks) (process_ticks handle clock ttl ticks s)
  unfolding process_ticks
  process_ticks-Shows start shown [] s h k = k
  process_ticks-Shows start shown ((now, clock_ms) ∷ ticks) s h k =
      process_ticks-Shows start clock_ms ticks
        (process_tick handle clock ttl now s.0 (clock_moves clock clock_ms s.1)) h.1
        (process_tick-Shows now start shown clock_ms s h.0 k)

  process_new-Shows :
      (σ : Shared)
      → (σ.regions handle).expiration_ns < sentinel
      → Shows handle
          (σ.regions clock).open_count
          (σ.regions clock).open_count
          (process_new handle clock σ)
  unfolding process_new
  process_new-Shows σ set = record {
    running = refl;
    start_time = rw (==_refl handle) refl;
    last_seen = rw (==_refl handle) refl;
    set = rw (==_refl handle) set;
  }

-- After any rounds of its thread, with deadlines that fit and an expiration that was not the
-- sentinel, a process clock shows the clock's last value and, as long as that is not before the
-- start and below 2^63, the time since the start, and its thread has seen no reap.
pub process_clock_uptime :
    (handle clock ttl : ℕ) (σ : Shared) (ticks : List (ℕ × ℕ))
    → handle ≢ clock
    → (σ.regions handle).expiration_ns < sentinel
    → All (λ x. x.0 + ttl < sentinel) ticks
    → (σ.regions clock).open_count ≤ last_clock (σ.regions clock).open_count ticks
    → last_clock (σ.regions clock).open_count ticks < 2 ^ 63
    → let s = process_ticks handle clock ttl ticks (process_new handle clock σ) in
      (last_seen_ms handle s.1 ≡ last_clock (σ.regions clock).open_count ticks)
      × (uptime_ms handle s.1
          ≡ pos (last_clock (σ.regions clock).open_count ticks - (σ.regions clock).open_count))
      × (is_reaped s.0 ≡ false)
unfolding last_seen_ms uptime_ms is_reaped
process_clock_uptime handle clock ttl σ ticks apart set small grows fits =
    let k =
      process_ticks-Shows handle clock ttl apart (σ.regions clock).open_count
        (σ.regions clock).open_count ticks (process_new handle clock σ) small
        (process_new-Shows handle clock ttl apart σ set) in
    (k.last_seen, rw (k.last_seen, k.start_time) (ground arith), rw k.running refl)
