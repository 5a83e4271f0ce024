-- ===== src/Client/Wait/Cron.antt =====
-- wait_cron.rs: `wait`.
use abacus_rts.Base.{ℕ, ◌||◌, Option, none, some, List, ltb, leb, ◌==◌, if◌then◌else◌, ok, err}
use abacus_rts.Core.Interlock.Words.{sentinel}
use abacus_rts.Client.Types.{sdk_interlock_reaped, WaitState, normal, overrun}
use abacus_rts.Client.Wait.Rounds.{Outcome, Round, first_outcome}

-- How a fired cron was, by the counters that are read.
unfoldable pub fired_state : ℕ → ℕ → WaitState
fired_state closed opened =
    if leb opened closed then (if closed == opened then normal else overrun) else normal

unfoldable pub cron_round : ℕ → Round → Option Outcome
unfolding fired_state
cron_round initial_closed r =
    if r.closed_count == sentinel
    then some (err sdk_interlock_reaped)
    else if ltb initial_closed r.closed_count
    then some (
        ok (record {
          completed_at = r.closed_count;
          state = fired_state r.closed_count r.open_count;
        }))
    else if r.expiration_ns == sentinel || ltb r.expiration_ns r.now_ns
    then some (err sdk_interlock_reaped)
    else none

-- `wait` of a cron, from the `closed_count` at its entry.
unfoldable pub wait_fired : ℕ → List Round → Option Outcome
unfolding first_outcome cron_round
wait_fired initial_closed rounds = first_outcome (cron_round initial_closed) rounds
