-- ===== src/Client/Agreement.antt =====
-- Client and daemon read the same state from the three words.
use abacus_rts.Base.{ℕ, ◌≡◌, ◌↔◌, true, false, arith}
use abacus_rts.Base.U64.{wrapping_sub_i64, is_positive}
use abacus_rts.Core.Interlock.Words.{Interlock}
use abacus_rts.Core.Clock.{expiration_alive}
use abacus_rts.Registry.Evaluate.{is_dead}
use abacus_rts.Client.Types.{open_state, expired, interlock_state}

-- The client calls an interlock expired at exactly the times at which the daemon's pass takes it
-- for dead.
pub interlock_state-is_dead :
    (w : Interlock) (now_ns : ℕ)
    → (interlock_state w.open_count w.closed_count w.expiration_ns now_ns ≡ expired)
      ↔ (is_dead now_ns w ≡ true)
unfolding interlock_state is_dead expiration_alive
interlock_state-is_dead w now_ns = ground arith

-- The client calls an interlock open at exactly the times at which the daemon's pass takes it for
-- alive and its signed difference of open and closed for positive.
pub interlock_state-is_positive :
    (w : Interlock) (now_ns : ℕ)
    → (interlock_state w.open_count w.closed_count w.expiration_ns now_ns ≡ open_state) ↔ (
        (is_dead now_ns w ≡ false)
        × (is_positive (wrapping_sub_i64 w.open_count w.closed_count) ≡ true))
unfolding interlock_state is_dead expiration_alive
interlock_state-is_positive w now_ns = ground arith
