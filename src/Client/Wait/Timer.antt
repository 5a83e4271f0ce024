-- ===== src/Client/Wait/Timer.antt =====
-- wait_timer.rs: `wait_ms` and `wait_until`.
use abacus_rts.Base.{ℕ, ◌-◌, Option, none, some, List, ltb, leb, ◌==◌, if◌then◌else◌, err, panic}
use abacus_rts.Base.U64.{wrapping_add, saturating_add, saturating_mul}
use abacus_rts.Core.Clock.{ms_to_nanos}
use abacus_rts.Core.Interlock.Words.{sentinel}
use abacus_rts.Core.Interlock.Arm.{interlock_arm}
use abacus_rts.Client.Types.{sdk_interlock_reaped}
use abacus_rts.Client.Wait.Rounds.{Outcome, Round, ◌>>=◌, first_outcome, cas_max}
use abacus_rts.Client.Wait.Counter.{delivered, Setup, after_arm}

-- What is left of a round once the counters show no delivery.
unfoldable pub timer_check : ℕ → Round → Option Outcome
timer_check deadline_ns r =
    if r.expiration_ns == sentinel
    then some (err sdk_interlock_reaped)
    else if leb deadline_ns r.now_ns
    then some (if ltb r.expiration_ns r.now_ns then err sdk_interlock_reaped else panic)
    else none

unfoldable pub timer_round : ℕ → Round → Option Outcome
unfolding delivered timer_check
timer_round deadline_ns r = elim (delivered r) [
  | some o ↦ some o
  | none ↦ timer_check deadline_ns r
]

-- `clock_now` is the reading of the clock's handle, `deadline_now` the clock's for the deadline.
-- The result has the raised `open_count` and the armed expiration before the outcome.
unfoldable pub wait_ms : ℕ → ℕ → ℕ → Setup → List Round → Option (ℕ × ℕ × Option Outcome)
unfolding ms_to_nanos cas_max interlock_arm first_outcome timer_round
wait_ms clock_now ms deadline_now s rounds = do
  let ttl_nanos = ms_to_nanos (saturating_mul ms 2)
  opened ← cas_max (wrapping_add clock_now ms) s.open_turns s.open_count
  (armed, expiration_ns) ← interlock_arm s.arm_now ttl_nanos s.arm_turns s.expiration_ns
  some (
    opened,
    expiration_ns,
    after_arm armed (first_outcome (timer_round (saturating_add deadline_now ttl_nanos)) rounds),
  )

-- `wait_until` of a timer, with its own reading of the clock's handle before that of `wait_ms`.
unfoldable pub wait_until_ms : ℕ → ℕ → ℕ → ℕ → Setup → List Round → Option (ℕ × ℕ × Option Outcome)
unfolding wait_ms
wait_until_ms timestamp_ms clock_before clock_now deadline_now s rounds =
    wait_ms clock_now (timestamp_ms - clock_before) deadline_now s rounds
