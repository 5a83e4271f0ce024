-- ===== src/Client/Wait/Methods.antt =====
-- The other methods of wait_counter.rs, wait_timer.rs, wait_cron.rs and wait_barrier.rs, each of which
-- the source writes out again on the words of its own handle.
use abacus_rts.Base.{ℕ, Option, none, ◌≡◌, refl, Result, map_err}
use abacus_rts.Base.U64.{ℤ, wrapping_sub_i64}
use abacus_rts.Core.Clock.{ms_to_nanos}
use abacus_rts.Core.Interlock.Words.{Shared, interlock_free}
use abacus_rts.Registry.Entry.{arm}
use abacus_rts.Client.Types.{SdkError, sdk_interlock_reaped}
use abacus_rts.Client.Touch.{Thread, owner_free, process_free}

-- `WaitCounter`.
unfoldable pub counter_completed_at : ℕ → Shared → ℕ
counter_completed_at handle σ = (σ.regions handle).closed_count

unfoldable pub counter_touch : ℕ → ℕ → ℕ → Shared → Result SdkError (Unit {0}) × Shared
unfolding arm ms_to_nanos
counter_touch handle now ms σ =
    let (r, σ') = arm handle now (ms_to_nanos ms) σ in (map_err (λ _. sdk_interlock_reaped) r, σ')

unfoldable pub counter_peek : ℕ → Shared → ℕ × ℕ
counter_peek handle σ = ((σ.regions handle).open_count, (σ.regions handle).closed_count)

unfoldable pub counter_value : ℕ → Shared → ℤ
unfolding counter_peek
counter_value handle σ =
    let (open_count, closed_count) = counter_peek handle σ in
    wrapping_sub_i64 open_count closed_count

unfoldable pub counter_free : ℕ → Option Thread → Shared → Option Thread × Shared
unfolding interlock_free
counter_free handle t σ = (none, interlock_free handle σ)

-- `WaitTimer`.
unfoldable pub timer_completed_at : ℕ → Shared → ℕ
timer_completed_at handle σ = (σ.regions handle).closed_count

unfoldable pub timer_touch : ℕ → ℕ → ℕ → Shared → Result SdkError (Unit {0}) × Shared
unfolding arm ms_to_nanos
timer_touch handle now ms σ =
    let (r, σ') = arm handle now (ms_to_nanos ms) σ in (map_err (λ _. sdk_interlock_reaped) r, σ')

unfoldable pub timer_peek : ℕ → Shared → ℕ × ℕ
timer_peek handle σ = ((σ.regions handle).open_count, (σ.regions handle).closed_count)

unfoldable pub timer_free : ℕ → Option Thread → Shared → Option Thread × Shared
unfolding interlock_free
timer_free handle t σ = (none, interlock_free handle σ)

-- `WaitCron`.
unfoldable pub cron_completed_at : ℕ → Shared → ℕ
cron_completed_at handle σ = (σ.regions handle).closed_count

unfoldable pub cron_peek : ℕ → Shared → ℕ × ℕ
cron_peek handle σ = ((σ.regions handle).open_count, (σ.regions handle).closed_count)

unfoldable pub cron_free : ℕ → Option Thread → Shared → Option Thread × Shared
unfolding interlock_free
cron_free handle t σ = (none, interlock_free handle σ)

-- `WaitBarrier`.
unfoldable pub barrier_completed_at : ℕ → Shared → ℕ
barrier_completed_at handle σ = (σ.regions handle).closed_count

unfoldable pub barrier_peek : ℕ → Shared → ℕ × ℕ
barrier_peek handle σ = ((σ.regions handle).open_count, (σ.regions handle).closed_count)

unfoldable pub barrier_free : ℕ → Option Thread → Shared → Option Thread × Shared
unfolding interlock_free
barrier_free handle t σ = (none, interlock_free handle σ)

-- The kinds of handles that own their interlock, and `free` of each.
pub data Owned : Type 0 where
  plain counter timer cron barrier process : Owned

unfoldable pub free_by : Owned → ℕ → Option Thread → Shared → Option Thread × Shared
unfolding owner_free counter_free timer_free cron_free barrier_free process_free
free_by plain handle t σ = owner_free handle t σ
free_by counter handle t σ = counter_free handle t σ
free_by timer handle t σ = timer_free handle t σ
free_by cron handle t σ = cron_free handle t σ
free_by barrier handle t σ = barrier_free handle t σ
free_by process handle t σ = process_free handle σ

-- The thread is gone, and the interlock is freed.
pub free_by-interlock_free :
    (kind : Owned) (handle : ℕ) (t : Option Thread) (σ : Shared)
    → free_by kind handle t σ ≡ (none, interlock_free handle σ)
unfolding free_by
free_by-interlock_free plain handle t σ = refl
free_by-interlock_free counter handle t σ = refl
free_by-interlock_free timer handle t σ = refl
free_by-interlock_free cron handle t σ = refl
free_by-interlock_free barrier handle t σ = refl
free_by-interlock_free process handle t σ = refl
