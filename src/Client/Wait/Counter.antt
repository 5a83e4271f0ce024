-- ===== src/Client/Wait/Counter.antt =====
-- wait_counter.rs: `wait_until`.
use abacus_rts.Base.{ℕ, Bool, Option, none, some, List, ◌==◌, if◌then◌else◌, ok, err, panic}
use abacus_rts.Base.U64.{saturating_mul}
use abacus_rts.Core.Clock.{ms_to_nanos}
use abacus_rts.Core.Interlock.Words.{sentinel}
use abacus_rts.Core.Interlock.Arm.{Turn, ArmResult, interlock_arm}
use abacus_rts.Client.Types.{sdk_interlock_reaped, normal, overrun, timeout, check_wake_state}
use abacus_rts.Client.Wait.Rounds.{Outcome, Round, ◌>>=◌, first_outcome, cas_max}

-- One round: the counters before the futex call, then the counters and the expiration behind it,
-- and whether that failed with ETIMEDOUT.
pub record CounterRound : Type 0 where
  pub first : Round
  pub again : Round
  pub timed_out : Bool

-- `Normal` and `Overrun` return, `Timeout` goes on.
unfoldable pub delivered : Round → Option Outcome
unfolding check_wake_state
delivered r = elim (check_wake_state r.open_count r.closed_count) [
  | timeout ↦ none
  | normal ↦ some (ok (record { completed_at = r.closed_count; state = normal }))
  | overrun ↦ some (ok (record { completed_at = r.closed_count; state = overrun }))
]

-- Behind the futex call.
unfoldable pub counter_recheck : CounterRound → Option Outcome
counter_recheck r =
    if r.again.expiration_ns == sentinel
    then some (err sdk_interlock_reaped)
    else if r.timed_out
    then some (ok (record { completed_at = r.again.closed_count; state = timeout }))
    else none

unfoldable pub counter_round : CounterRound → Option Outcome
unfolding delivered counter_recheck
counter_round r = elim (delivered r.first) [
  | some o ↦ some o
  | none ↦ elim (delivered r.again) [ some o ↦ some o | none ↦ counter_recheck r ]
]

-- What happens around the raise of `open_count` and the arming: the words at the first loads, the
-- turns of the other threads, and the clock.
pub record Setup : Type 0 where
  pub open_count : ℕ
  pub open_turns : List Turn
  pub expiration_ns : ℕ
  pub arm_now : ℕ
  pub arm_turns : List Turn

-- The arming, whose failure ends the wait.
abbrev pub after_arm : ArmResult → Option Outcome → Option Outcome
after_arm (ok u) rest = rest
after_arm (err e) rest = some (err sdk_interlock_reaped)
after_arm panic rest = some panic

-- The raised `open_count`, the armed expiration, and the outcome.
unfoldable pub wait_until : ℕ → ℕ → Setup → List CounterRound → Option (ℕ × ℕ × Option Outcome)
unfolding ms_to_nanos cas_max interlock_arm first_outcome counter_round
wait_until target timeout_ms s rounds = do
  opened ← cas_max target s.open_turns s.open_count
  (armed, expiration_ns) ←
      interlock_arm s.arm_now (saturating_mul (ms_to_nanos timeout_ms) 2) s.arm_turns
        s.expiration_ns
  some (opened, expiration_ns, after_arm armed (first_outcome counter_round rounds))
