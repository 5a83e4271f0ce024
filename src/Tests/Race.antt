-- ===== src/Tests/Race.antt =====
-- A race of two counters that watch the clock, of which the second one is due.
use abacus_rts.Base.{
  ℕ, ◌<◌, ◌≡◌, refl, ◌⊎◌, inl, inr, some, List, [], ◌∷◌, ◌++◌, ◌==◌, if◌then◌else◌, Yields, arith,
}
use abacus_rts.Base.Text.{str, str_eq}
use abacus_rts.Base.Map
use abacus_rts.Core.Clock.{expiration_alive}
use abacus_rts.Core.Interlock.Words.{WatchedWord, Shared}
use abacus_rts.Registry.Entry.{
  wait_counter, InterlockEntry, Registry, clock_name, clock_entry, word_of,
}
use abacus_rts.Registry.Evaluate.{evaluate_all, is_dead}
use abacus_rts.Registry.Invariant.{IsValid}
use abacus_rts.Registry.Contracts.{IsWaiting}
use abacus_rts.Client.Wait.Rounds.{WaitResult}
use abacus_rts.Client.Wait.Race.{wait_first}
use abacus_rts.Client.Wait.RaceEnds.{RaceEnds, closed_counts}
use abacus_rts.Client.Wait.RaceDelivery.{poll_at, race_delivery}
use abacus_rts.Tests.Registry.{memory, timer}

abbrev early_counter : InterlockEntry
early_counter = record timer { tier = wait_counter }

abbrev due_counter : InterlockEntry
due_counter = record timer { tier = wait_counter; handle = 2; id = 2 }

abbrev counters : Registry
counters = record {
  next_id = 3;
  by_name = (clock_name, clock_entry 0) ∷ (str "v", early_counter) ∷ (str "w", due_counter) ∷ [];
}

-- The clock's open_count is 50, the targets are 70 and 45.
abbrev race_memory : Shared
race_memory = record {
  regions = λ h.
      if h == 2
      then record { open_count = 45; closed_count = 20; expiration_ns = 9_000_000_000 }
      else memory.regions h;
  next_region = 3;
  wakes = [];
}

counters-IsValid : IsValid counters race_memory.next_region
unfolding Map.get str_eq
counters-IsValid = record {
  distinct = ((refl, (refl, tt)), ((refl, tt), (tt, tt)));
  separate = (
    (
      record { other_region = λ e. omega (arith, e); other_id = λ e. omega (arith, e) },
      (record { other_region = λ e. omega (arith, e); other_id = λ e. omega (arith, e) }, tt),
    ),
    (
      (record { other_region = λ e. omega (arith, e); other_id = λ e. omega (arith, e) }, tt),
      (tt, tt),
    ),
  );
  entries = (
    record { below_region = omega arith; below_id = omega arith; configured = tt },
    (
      record {
        below_region = omega arith;
        below_id = omega arith;
        configured = (clock_name, WatchedWord.open_count, refl, refl);
      },
      (
        record {
          below_region = omega arith;
          below_id = omega arith;
          configured = (clock_name, WatchedWord.open_count, refl, refl);
        },
        tt,
      ),
    ),
  );
  clock = (clock_entry 0, refl, refl);
}

due_counter-IsWaiting : IsWaiting 75_000_000 counters race_memory (str "w") due_counter
unfolding Map.get str_eq is_dead expiration_alive
due_counter-IsWaiting = record { registered = refl; other = refl; alive = refl; positive = refl }

-- The race has polled once before the pass.
abbrev race_polls_before : List (List (ℕ × ℕ))
race_polls_before = ((70, 60) ∷ (45, 20) ∷ []) ∷ []

race_delivery_example :
    Yields
      (λ r.
        ((index : ℕ) × (result : WaitResult) × (wait_first
              (poll_at race_memory (1 ∷ 2 ∷ []))
              (race_polls_before ++ poll_at r.1 (1 ∷ 2 ∷ []) ∷ [])
            ≡ some (index, result))
          × RaceEnds
              (closed_counts (poll_at race_memory (1 ∷ 2 ∷ [])))
              (race_polls_before ++ poll_at r.1 (1 ∷ 2 ∷ []) ∷ [])
              index
              result)
        ⊎ (word_of WatchedWord.open_count (r.1.regions 0) < 45))
      (evaluate_all 75_000_000 75 counters race_memory)
unfolding Map.get str_eq
race_delivery_example =
    race_delivery 75_000_000 75 counters race_memory (str "w") due_counter clock_name
      WatchedWord.open_count (clock_entry 0) (1 ∷ 2 ∷ []) race_polls_before counters-IsValid
      due_counter-IsWaiting refl refl refl refl (omega arith) (omega arith) (inr (inl refl))
