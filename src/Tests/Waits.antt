-- ===== src/Tests/Waits.antt =====
-- The waits of the client at concrete readings.
use abacus_rts.Base.{
  ℕ, ◌≤◌, ◌≡◌, refl, ◌⊎◌, inl, inr, none, some, [], ◌∷◌, ◌++◌, leb, ◌==◌, if◌then◌else◌, Any,
  Result, ok, err, Yields, arith,
}
use abacus_rts.Base.U64.{wrapping_add, saturating_add, saturating_mul}
use abacus_rts.Base.Text.{str, str_eq}
use abacus_rts.Base.Map
use abacus_rts.Core.Clock.{ms_to_nanos, expiration_alive}
use abacus_rts.Core.Interlock.Words.{WatchedWord, sentinel}
use abacus_rts.Core.Interlock.Arm.{quiet, IsQuiet}
use abacus_rts.Registry.Entry.{wait_cron, InterlockEntry, Registry, clock_name, clock_entry}
use abacus_rts.Registry.Evaluate.{evaluate_all, is_dead}
use abacus_rts.Registry.Invariant.{IsValid}
use abacus_rts.Client.Types.{SdkError, sdk_interlock_reaped, normal, overrun}
use abacus_rts.Client.Wait.Rounds.{Outcome, Round}
use abacus_rts.Client.Wait.Watch.{watch, WatchEnds, watch-WatchEnds}
use abacus_rts.Client.Wait.Counter.{Setup}
use abacus_rts.Client.Wait.Timer.{timer_check, timer_round, wait_ms}
use abacus_rts.Client.Wait.TimerEnds.{TimerEnds, wait_ms-TimerEnds}
use abacus_rts.Client.Wait.Cron.{cron_round, wait_fired}
use abacus_rts.Registry.Contracts.{IsWaiting}
use abacus_rts.Client.Wait.Delivery.{reading, timer_delivery, cron_delivery}
use abacus_rts.Client.Wait.Ends.{CronEnds, wait_fired-CronEnds}
use abacus_rts.Tests.Registry.{two, memory, two-IsValid, timer}

abbrev early : Round
early = record { open_count = 70; closed_count = 60; expiration_ns = 90_000_000; now_ns = 1_000 }

abbrev late : Round
late = record early { now_ns = 50_000_000 }

watch-WatchEnds_example :
    (o : Result SdkError ℕ) × (watch WatchedWord.open_count 75
        (early ∷ record late { open_count = 80 } ∷ [])
      ≡ some o)
    × Any
        (λ r. WatchEnds WatchedWord.open_count 75 r o)
        (early ∷ record late { open_count = 80 } ∷ [])
watch-WatchEnds_example =
    watch-WatchEnds WatchedWord.open_count 75 (early ∷ record late { open_count = 80 } ∷ [])
      (inr (inl (inl (omega arith))))

abbrev setup : Setup
setup = record {
  open_count = 10;
  open_turns = quiet ∷ [];
  expiration_ns = 500;
  arm_now = 1_000;
  arm_turns = quiet ∷ [];
}

quiet-IsQuiet : IsQuiet quiet
quiet-IsQuiet = record { unchanged = λ v. refl; swaps = refl }

-- A wait for 20 milliseconds, which nobody answers.
wait_ms-TimerEnds_example :
    (opened : ℕ) × (expiration_ns : ℕ) × (o : Outcome) × (wait_ms 50 20 1_000 setup
        (early ∷ late ∷ [])
      ≡ some (opened, expiration_ns, some o))
    × (wrapping_add 50 20 ≤ opened)
    × (((o ≡ err sdk_interlock_reaped) × (expiration_ns ≡ sentinel))
        ⊎ Any
            (λ r. TimerEnds (saturating_add 1_000 (ms_to_nanos (saturating_mul 20 2))) r o)
            (early ∷ late ∷ []))
unfolding ms_to_nanos
wait_ms-TimerEnds_example =
    wait_ms-TimerEnds 50 20 1_000 setup (early ∷ late ∷ []) (inl quiet-IsQuiet) (inl quiet-IsQuiet)
      (inr (inl (omega arith)))

timer-IsWaiting : IsWaiting 75_000_000 two memory (str "t") timer
unfolding Map.get str_eq is_dead expiration_alive
timer-IsWaiting = record { registered = refl; other = refl; alive = refl; positive = refl }

timer_delivery_example :
    Yields
      (λ r. timer_round 90_000_000 (reading (r.1.regions 1) 80_000_000) ≡ (
        if leb 70 75
        then some (ok (record { completed_at = 75; state = if 75 == 70 then normal else overrun }))
        else timer_check 90_000_000 (reading (memory.regions 1) 80_000_000)))
      (evaluate_all 75_000_000 75 two memory)
timer_delivery_example =
    timer_delivery 75_000_000 75 two memory (str "t") timer 90_000_000 80_000_000 two-IsValid
      timer-IsWaiting refl (omega arith)

-- A cron on a grid of 25 milliseconds, due at 70.
abbrev cron : InterlockEntry
cron = record timer { tier = wait_cron; interval_ms = some 25 }

abbrev with_cron : Registry
with_cron = record { next_id = 2; by_name = (clock_name, clock_entry 0) ∷ (str "c", cron) ∷ [] }

with_cron-IsValid : IsValid with_cron memory.next_region
unfolding Map.get str_eq
with_cron-IsValid = record {
  distinct = ((refl, tt), (tt, tt));
  separate = (
    (record { other_region = λ e. omega (arith, e); other_id = λ e. omega (arith, e) }, tt),
    (tt, tt),
  );
  entries = (
    record { below_region = omega arith; below_id = omega arith; configured = tt },
    (
      record {
        below_region = omega arith;
        below_id = omega arith;
        configured = (25, refl, omega arith);
      },
      tt,
    ),
  );
  clock = (clock_entry 0, refl, refl);
}

cron-IsWaiting : IsWaiting 75_000_000 with_cron memory (str "c") cron
unfolding Map.get str_eq is_dead expiration_alive
cron-IsWaiting = record { registered = refl; other = refl; alive = refl; positive = refl }

still_waiting : cron_round 60 early ≡ none
unfolding cron_round
still_waiting = refl

-- The pass comes at 92, two milliseconds after the next grid line but one.
cron_delivery_example :
    Yields
      (λ r.
        wait_fired 60 ((early ∷ []) ++ reading (r.1.regions 1) 80_000_000 ∷ [])
        ≡ some (ok (record { completed_at = 92; state = normal })))
      (evaluate_all 75_000_000 92 with_cron memory)
cron_delivery_example =
    cron_delivery 75_000_000 92 with_cron memory (str "c") cron 25 60 80_000_000 (early ∷ []) []
      with_cron-IsValid cron-IsWaiting refl refl (omega arith) (omega arith) (omega arith)
      (omega arith) (still_waiting, tt)

wait_fired-CronEnds_example :
    (o : Outcome) × (wait_fired 60 (early ∷ record late { closed_count = 75 } ∷ []) ≡ some o)
    × Any (λ r. CronEnds 60 r o) (early ∷ record late { closed_count = 75 } ∷ [])
wait_fired-CronEnds_example =
    wait_fired-CronEnds 60 (early ∷ record late { closed_count = 75 } ∷ [])
      (inr (inl (inl (omega arith))))
