-- ===== src/Client/Wait/Barrier.antt =====
-- wait_barrier.rs: `wait`.
use abacus_rts.Base.{not, ◌&&◌, ◌||◌, Option, none, some, List, ltb, ◌==◌, if◌then◌else◌, ok, err}
use abacus_rts.Base.U64.{wrapping_sub_i64, is_positive}
use abacus_rts.Core.Interlock.Words.{sentinel}
use abacus_rts.Client.Types.{sdk_interlock_reaped, normal, overrun}
use abacus_rts.Client.Wait.Rounds.{Outcome, Round, first_outcome}

-- One round: the words before the futex call, and the expiration and the clock behind it.
pub record BarrierRound : Type 0 where
  pub first : Round
  pub again : Round

unfoldable pub barrier_round : BarrierRound → Option Outcome
barrier_round r =
    if not (is_positive (wrapping_sub_i64 r.first.open_count r.first.closed_count))
      && ltb 0 r.first.closed_count
    then some (
        ok (record {
          completed_at = r.first.closed_count;
          state = if r.first.closed_count == r.first.open_count then normal else overrun;
        }))
    else if r.first.expiration_ns == sentinel
        || r.first.closed_count == sentinel
        || r.first.open_count == sentinel
    then some (err sdk_interlock_reaped)
    else if r.again.expiration_ns == sentinel || ltb r.again.expiration_ns r.again.now_ns
    then some (err sdk_interlock_reaped)
    else none

-- `wait` of a barrier.
unfoldable pub wait_met : List BarrierRound → Option Outcome
unfolding first_outcome barrier_round
wait_met rounds = first_outcome barrier_round rounds
