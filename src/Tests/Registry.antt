-- ===== src/Tests/Registry.antt =====
-- A registry with the clock and a timer.
use abacus_rts.Base.{ℕ, ◌≡◌, ◌≢◌, refl, false, none, some, [], ◌∷◌, All, Yields, arith}
use abacus_rts.Base.Text.{Str, str, str_eq}
use abacus_rts.Base.Map
use abacus_rts.Core.Interlock.Words.{Interlock, WatchedWord, Shared, update}
use abacus_rts.Core.Interlock.Create.{Kernel}
use abacus_rts.Registry.Entry.{
  wait_timer, wait_counter, InterlockEntry, Registry, clock_name, clock_entry,
}
use abacus_rts.Registry.Create.{CreateArgs, create}
use abacus_rts.Registry.Evaluate.{evaluate_all}
use abacus_rts.Registry.Invariant.{IsValid}
use abacus_rts.Registry.Pass.{SettlesIn}
use abacus_rts.Registry.Survivors.{survivor, get-evaluate_all, evaluate_all-Settles}
use abacus_rts.Registry.Created.{Created, create-Created}

abbrev pub timer : InterlockEntry
timer = record {
  id = 1;
  handle = 1;
  tier = wait_timer;
  watched_name = some clock_name;
  watched_word = some WatchedWord.open_count;
  interval_ms = none;
  barrier_conditions = none;
}

abbrev pub two : Registry
two = record { next_id = 2; by_name = (clock_name, clock_entry 0) ∷ (str "t", timer) ∷ [] }

-- The timer is due at 70, and is not terminated before 9 seconds.
abbrev words_at : ℕ → Interlock
words_at =
    update (λ _. record { open_count = 50; closed_count = 50; expiration_ns = 9_000_000_000 }) 1
      (record { open_count = 70; closed_count = 60; expiration_ns = 9_000_000_000 })

abbrev pub memory : Shared
memory = record { regions = words_at; next_region = 2; wakes = [] }

pub two-IsValid : IsValid two memory.next_region
unfolding Map.get str_eq
two-IsValid = record {
  distinct = ((refl, tt), (tt, tt));
  separate = (
    (record { other_region = λ e. omega (arith, e); other_id = λ e. omega (arith, e) }, tt),
    (tt, tt),
  );
  entries = (
    record { below_region = omega arith; below_id = omega arith; configured = tt },
    (record { below_region = omega arith; below_id = omega arith; configured = tt }, tt),
  );
  clock = (clock_entry 0, refl, refl);
}

abbrev pub kernel : Kernel
kernel = record {
  memfd_errno = none;
  ftruncate_errno = none;
  mmap_errno = none;
  mmap_null = false;
  dup_errno = none;
  now_ns = 5_000_000_000;
}

-- A new counter takes the timer's name.
abbrev args : CreateArgs
args = record {
  name = str "t";
  tier = wait_counter;
  watched_name = some clock_name;
  watched_word = some 0;
  interval_ns = none;
  barrier_conditions = none;
}

get-evaluate_all_example :
    Yields
      (λ r.
        (n : Str) → Map.get n r.0.by_name ≡ survivor 75_000_000 memory n (Map.get n two.by_name))
      (evaluate_all 75_000_000 75 two memory)
get-evaluate_all_example = get-evaluate_all 75_000_000 75 two memory two-IsValid

evaluate_all-Settles_example :
    Yields
      (λ r.
        All (SettlesIn 75_000_000 75 memory r.1) two.by_name
        × ((h : ℕ) → All (λ x. x.1.handle ≢ h) two.by_name → r.1.regions h ≡ memory.regions h))
      (evaluate_all 75_000_000 75 two memory)
evaluate_all-Settles_example = evaluate_all-Settles 75_000_000 75 two memory two-IsValid

create-Created_example : Yields (Created args two memory) (create kernel args two memory)
create-Created_example = create-Created kernel args two memory two-IsValid
