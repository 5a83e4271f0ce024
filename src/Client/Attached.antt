-- ===== src/Client/Attached.antt =====
-- interlock.rs of the client: the handles that are attached by name, and the clock's. Each method is
-- written out in the source again, on the words of its own handle.
use abacus_rts.Base.{ℕ}
use abacus_rts.Base.U64.{ℤ, wrapping_add, wrapping_sub_i64}
use abacus_rts.Core.Interlock.Words.{WatchedWord, Shared, store, futex_wake}
use abacus_rts.Client.Types.{InterlockState, interlock_state}

-- `AttachedInterlock`.
unfoldable pub attached_open : ℕ → ℕ → Shared → Shared
attached_open handle h σ =
    let w = σ.regions handle in
    futex_wake handle WatchedWord.open_count
      (store handle (record w { open_count = wrapping_add w.open_count h }) σ)

unfoldable pub attached_close : ℕ → ℕ → Shared → Shared
attached_close handle h σ =
    let w = σ.regions handle in
    futex_wake handle WatchedWord.closed_count
      (store handle (record w { closed_count = wrapping_add w.closed_count h }) σ)

unfoldable pub attached_peek : ℕ → Shared → ℕ × ℕ
attached_peek handle σ = ((σ.regions handle).open_count, (σ.regions handle).closed_count)

unfoldable pub attached_value : ℕ → Shared → ℤ
unfolding attached_peek
attached_value handle σ =
    let (open_count, closed_count) = attached_peek handle σ in
    wrapping_sub_i64 open_count closed_count

unfoldable pub attached_state : ℕ → ℕ → Shared → InterlockState
unfolding interlock_state
attached_state handle clock_ns σ =
    let w = σ.regions handle in interlock_state w.open_count w.closed_count w.expiration_ns clock_ns

-- `AttachedWaitCounter`, which only reads.
unfoldable pub attached_counter_peek : ℕ → Shared → ℕ × ℕ
attached_counter_peek handle σ = ((σ.regions handle).open_count, (σ.regions handle).closed_count)

unfoldable pub attached_counter_value : ℕ → Shared → ℤ
unfolding attached_counter_peek
attached_counter_value handle σ =
    let (open_count, closed_count) = attached_counter_peek handle σ in
    wrapping_sub_i64 open_count closed_count

-- `ClockHandle`.
unfoldable pub clock_peek : ℕ → Shared → ℕ × ℕ
clock_peek clock σ = ((σ.regions clock).open_count, (σ.regions clock).closed_count)

unfoldable pub clock_value : ℕ → Shared → ℤ
unfolding clock_peek
clock_value clock σ = let (now, start) = clock_peek clock σ in wrapping_sub_i64 now start

unfoldable pub clock_uptime_ms : ℕ → Shared → ℤ
unfolding clock_value
clock_uptime_ms clock σ = clock_value clock σ
