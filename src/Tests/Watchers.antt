-- ===== src/Tests/Watchers.antt =====
-- Waits on a counter and on a barrier that watch another interlock, and a race.
use abacus_rts.Base.{
  ℕ, ◌≤◌, ◌≡◌, refl, ◌⊎◌, inl, inr, true, false, none, some, List, [], ◌∷◌, leb, ◌==◌,
  if◌then◌else◌, All, Any, ok, err, Yields, arith,
}
use abacus_rts.Base.Text.{str, str_eq}
use abacus_rts.Base.Map
use abacus_rts.Core.Clock.{expiration_alive}
use abacus_rts.Core.Interlock.Words.{WatchedWord, sentinel}
use abacus_rts.Core.Interlock.Arm.{quiet, IsQuiet}
use abacus_rts.Registry.Entry.{
  wait_counter, wait_barrier, InterlockEntry, Registry, clock_name, clock_entry, word_of,
}
use abacus_rts.Registry.Evaluate.{evaluate_all, is_dead}
use abacus_rts.Registry.Invariant.{IsValid}
use abacus_rts.Registry.Contracts.{IsWaiting, MayMeet, MayMiss}
use abacus_rts.Client.Types.{sdk_interlock_reaped, normal, overrun}
use abacus_rts.Client.Wait.Rounds.{Outcome, Round, WaitResult}
use abacus_rts.Client.Wait.Counter.{CounterRound, delivered, Setup, wait_until}
use abacus_rts.Client.Wait.CounterEnds.{CounterEnds, wait_until-CounterEnds}
use abacus_rts.Client.Wait.Barrier.{barrier_round}
use abacus_rts.Client.Wait.Race.{wait_first}
use abacus_rts.Client.Wait.RaceEnds.{RaceEnds, closed_counts, wait_first-RaceEnds}
use abacus_rts.Client.Wait.Delivery.{reading}
use abacus_rts.Client.Wait.Watchers.{counter_delivery, barrier_delivery}
use abacus_rts.Tests.Registry.{memory, timer}

-- A counter that waits for the open_count of the clock, 50, to reach 70; it is not there yet.
abbrev counter : InterlockEntry
counter = record timer { tier = wait_counter }

abbrev with_counter : Registry
with_counter = record {
  next_id = 2;
  by_name = (clock_name, clock_entry 0) ∷ (str "w", counter) ∷ [];
}

with_counter-IsValid : IsValid with_counter memory.next_region
unfolding Map.get str_eq
with_counter-IsValid = record {
  distinct = ((refl, tt), (tt, tt));
  separate = (
    (record { other_region = λ e. omega (arith, e); other_id = λ e. omega (arith, e) }, tt),
    (tt, tt),
  );
  entries = (
    record { below_region = omega arith; below_id = omega arith; configured = tt },
    (
      record {
        below_region = omega arith;
        below_id = omega arith;
        configured = (clock_name, WatchedWord.open_count, refl, refl);
      },
      tt,
    ),
  );
  clock = (clock_entry 0, refl, refl);
}

counter-IsWaiting : IsWaiting 75_000_000 with_counter memory (str "w") counter
unfolding Map.get str_eq is_dead expiration_alive
counter-IsWaiting = record { registered = refl; other = refl; alive = refl; positive = refl }

counter_delivery_example :
    Yields
      (λ r.
        (v : ℕ) × ((v ≡ word_of WatchedWord.open_count (memory.regions 0))
          ⊎ (v ≡ word_of WatchedWord.open_count (r.1.regions 0)))
        × (delivered (reading (r.1.regions 1) 80_000_000) ≡ (
            if leb 70 v
            then some
                (ok (record { completed_at = v; state = if v == 70 then normal else overrun }))
            else none)))
      (evaluate_all 75_000_000 75 with_counter memory)
unfolding Map.get str_eq
counter_delivery_example =
    counter_delivery 75_000_000 75 with_counter memory (str "w") counter clock_name
      WatchedWord.open_count (clock_entry 0) 80_000_000 with_counter-IsValid counter-IsWaiting refl
      refl refl refl (omega arith)

-- A barrier on two words of the clock.
abbrev barrier : InterlockEntry
barrier = record timer {
  tier = wait_barrier;
  barrier_conditions =
      some (
        (clock_name, WatchedWord.open_count, 45) ∷ (clock_name, WatchedWord.closed_count, 50) ∷ []);
}

abbrev with_barrier : Registry
with_barrier = record {
  next_id = 2;
  by_name = (clock_name, clock_entry 0) ∷ (str "b", barrier) ∷ [];
}

with_barrier-IsValid : IsValid with_barrier memory.next_region
unfolding Map.get str_eq
with_barrier-IsValid = record {
  distinct = ((refl, tt), (tt, tt));
  separate = (
    (record { other_region = λ e. omega (arith, e); other_id = λ e. omega (arith, e) }, tt),
    (tt, tt),
  );
  entries = (
    record { below_region = omega arith; below_id = omega arith; configured = tt },
    (
      record {
        below_region = omega arith;
        below_id = omega arith;
        configured = (
          (clock_name, WatchedWord.open_count, 45)
              ∷ (clock_name, WatchedWord.closed_count, 50)
              ∷ [],
          refl,
        );
      },
      tt,
    ),
  );
  clock = (clock_entry 0, refl, refl);
}

barrier-IsWaiting : IsWaiting 75_000_000 with_barrier memory (str "b") barrier
unfolding Map.get str_eq is_dead expiration_alive
barrier-IsWaiting = record { registered = refl; other = refl; alive = refl; positive = refl }

abbrev early : Round
early = record { open_count = 70; closed_count = 60; expiration_ns = 90_000_000; now_ns = 1_000 }

barrier_delivery_example :
    Yields
      (λ r.
        ((barrier_round (record { first = reading (r.1.regions 1) 80_000_000; again = early })
            ≡ some
                (ok (record { completed_at = 75; state = if 75 == 70 then normal else overrun })))
          × All (MayMeet with_barrier.by_name memory r.1) (
              (clock_name, WatchedWord.open_count, 45)
              ∷ (clock_name, WatchedWord.closed_count, 50)
              ∷ []))
        ⊎ ((r.1.regions 1 ≡ memory.regions 1)
            × Any (MayMiss with_barrier.by_name memory r.1) (
                (clock_name, WatchedWord.open_count, 45)
                ∷ (clock_name, WatchedWord.closed_count, 50)
                ∷ [])))
      (evaluate_all 75_000_000 75 with_barrier memory)
barrier_delivery_example =
    barrier_delivery 75_000_000 75 with_barrier memory (str "b") barrier
      ((clock_name, WatchedWord.open_count, 45) ∷ (clock_name, WatchedWord.closed_count, 50) ∷ [])
      80_000_000 (record { first = early; again = early }) with_barrier-IsValid barrier-IsWaiting
      refl refl (omega arith) (omega arith) (omega arith)

abbrev setup : Setup
setup = record {
  open_count = 10;
  open_turns = quiet ∷ [];
  expiration_ns = 500;
  arm_now = 1_000;
  arm_turns = quiet ∷ [];
}

quiet-IsQuiet : IsQuiet quiet
quiet-IsQuiet = record { unchanged = λ v. refl; swaps = refl }

-- A wait that nobody answers, with one wake for nothing and then a timeout.
abbrev unanswered : List CounterRound
unanswered =
    record { first = early; again = early; timed_out = false }
    ∷ record { first = early; again = early; timed_out = true }
    ∷ []

wait_until-CounterEnds_example :
    (opened : ℕ) × (expiration_ns : ℕ) × (o : Outcome) × (wait_until 70 100 setup unanswered
      ≡ some (opened, expiration_ns, some o))
    × (70 ≤ opened)
    × (((o ≡ err sdk_interlock_reaped) × (expiration_ns ≡ sentinel))
        ⊎ Any (λ r. CounterEnds r o) unanswered)
wait_until-CounterEnds_example =
    wait_until-CounterEnds 70 100 setup unanswered (inl quiet-IsQuiet) (inl quiet-IsQuiet)
      (inr (inl (inr (inr (inr refl)))))

-- The second counter is the first to advance, in the second poll.
abbrev entry : List (ℕ × ℕ)
entry = (5, 0) ∷ (7, 3) ∷ []

abbrev polls : List (List (ℕ × ℕ))
polls = ((5, 0) ∷ (7, 3) ∷ []) ∷ ((5, 0) ∷ (7, 8) ∷ []) ∷ []

wait_first-RaceEnds_example :
    (index : ℕ) × (result : WaitResult) × (wait_first entry polls ≡ some (index, result))
    × RaceEnds (closed_counts entry) polls index result
wait_first-RaceEnds_example = wait_first-RaceEnds entry polls (inr (inl (inr (inl (omega arith)))))
