-- ===== src/Daemon/Cycle.antt =====
-- One cycle of `daemon_run`: the poll timeout, and what follows the requests.
use abacus_rts.Base.{◌^◌, ◌%◌, ℕ, ◌+◌, ◌-◌, ◌/◌, Result, ok, ◌>>=◌, ltb, if◌then◌else◌}
use abacus_rts.Base.U64.{ℤ, pos, negsuc, wrapping_add, wrapping_mul}
use abacus_rts.Core.Clock.{nanos_per_ms}
use abacus_rts.Core.Error.{Condition}
use abacus_rts.Core.Interlock.Words.{WatchedWord, Shared, store, futex_wake}
use abacus_rts.Registry.Entry.{Registry, refresh_clock_expiration}
use abacus_rts.Registry.Evaluate.{evaluate_all}

-- `as i32` of a u64: the low 32 bits, in two's complement.
abbrev as_i32 : ℕ → ℤ
as_i32 n = let low = n % 2 ^ 32 in if ltb low (2 ^ 31) then pos low else negsuc (2 ^ 32 - 1 - low)

-- The milliseconds until the next boundary, rounded up.
unfoldable pub poll_timeout : ℕ → ℕ → ℕ → ℤ
poll_timeout anchor cycle now =
    let next_boundary = wrapping_add anchor (wrapping_mul cycle nanos_per_ms) in
    if ltb now next_boundary
    then as_i32
        ((wrapping_add (next_boundary - now) nanos_per_ms + 2 ^ 64 - 1) % 2 ^ 64 / nanos_per_ms)
    else pos 0

-- The clock's handle is cloned once, at the start. The arguments are the three readings of
-- CLOCK_MONOTONIC: for the clock word, in `evaluate_all`, and in the arming.
unfoldable pub advance : ℕ → ℕ → ℕ → ℕ → Registry → Shared → Result Condition (Registry × Shared)
unfolding evaluate_all refresh_clock_expiration
advance clock_handle now now_ns arm_now reg σ = do
  let current_ms = now / nanos_per_ms
  let σ₁ = store clock_handle (record (σ.regions clock_handle) { open_count = current_ms }) σ
  (reg', σ₂) ← evaluate_all now_ns current_ms reg σ₁
  let σ₃ = futex_wake clock_handle WatchedWord.open_count σ₂
  σ₄ ← refresh_clock_expiration arm_now reg' σ₃
  ok (reg', σ₄)
