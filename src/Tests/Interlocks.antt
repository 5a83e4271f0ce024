-- ===== src/Tests/Interlocks.antt =====
-- The handles and the threads of the client at concrete words.
use abacus_rts.Base.{◌-◌, ◌≡◌, refl, true, false, none, some, List, [], ◌∷◌, Yields, arith}
use abacus_rts.Base.U64.{pos}
use abacus_rts.Base.Text.{str, str_eq}
use abacus_rts.Base.Map
use abacus_rts.Core.Interlock.Words.{interlock_is_terminated}
use abacus_rts.Registry.Entry.{interlock, InterlockEntry, Registry, clock_name, clock_entry}
use abacus_rts.Registry.Evaluate.{evaluate_all}
use abacus_rts.Registry.Step.{reaped_words}
use abacus_rts.Registry.Wakes.{Woken, evaluate_all-Woken}
use abacus_rts.Client.Handles.{Act, opens, closes, touches, act_all, value, open_by, attached_free}
use abacus_rts.Client.Counts.{value-act_all}
use abacus_rts.Client.Termination.{evaluate_all-freed, attached_free-open_by}
use abacus_rts.Client.Wait.Methods.{Owned, free_by}
use abacus_rts.Client.Touch.{spawned, is_reaped, process_new, uptime_ms, last_seen_ms}
use abacus_rts.Client.Events.{Event, World, run, Timely, Kept}
use abacus_rts.Client.KeepAlive.{run_keeps}
use abacus_rts.Client.Events as Events
use abacus_rts.Client.Uptime.{process_ticks, process_clock_uptime}
use abacus_rts.Tests.Registry.{two, memory, two-IsValid, timer}

abbrev acts : List Act
acts = opens 5 ∷ touches 1_000 40 ∷ closes 3 ∷ []

value-act_all_example : value 0 (act_all 0 acts memory) ≡ pos (5 - 3)
value-act_all_example = value-act_all 0 acts memory (omega arith) (omega arith) refl (omega arith)

evaluate_all-freed_example :
    Yields
      (λ r. (Map.get (str "t") r.0.by_name ≡ none) × (r.1.regions 1 ≡ reaped_words))
      (evaluate_all 75_000_000 75 two
        (act_all 1 (closes 1 ∷ []) (free_by Owned.timer 1 (some spawned) memory).1))
unfolding Map.get str_eq
evaluate_all-freed_example =
    evaluate_all-freed Owned.timer (some spawned) 75_000_000 75 two memory (str "t") timer
      (closes 1 ∷ []) two-IsValid refl refl

attached_free-open_by_example :
    (interlock_is_terminated 1 (attached_free 1 memory) ≡ true)
    × (interlock_is_terminated 1 (open_by 1 1 (attached_free 1 memory)) ≡ false)
attached_free-open_by_example =
    attached_free-open_by 1 1 memory (omega arith) (omega arith) (λ e. omega (arith, e))
      (λ e. omega (arith, e))

evaluate_all-Woken_example : Yields (λ r. Woken memory r.1) (evaluate_all 75_000_000 75 two memory)
evaluate_all-Woken_example = evaluate_all-Woken 75_000_000 75 two memory two-IsValid

-- A plain interlock.
abbrev plain : InterlockEntry
plain = record timer { tier = interlock; watched_name = none; watched_word = none }

abbrev with_plain : Registry
with_plain = record { next_id = 2; by_name = (clock_name, clock_entry 0) ∷ (str "i", plain) ∷ [] }

abbrev world : World
world = (spawned, with_plain, memory)

with_plain-Kept : Kept (str "i") plain 80_000_000 5_000_000_000 70 60 world
unfolding Map.get str_eq
with_plain-Kept = record {
  running = refl;
  valid = record {
    distinct = ((refl, tt), (tt, tt));
    separate = (
      (record { other_region = λ e. omega (arith, e); other_id = λ e. omega (arith, e) }, tt),
      (tt, tt),
    );
    entries = (
      record { below_region = omega arith; below_id = omega arith; configured = tt },
      (record { below_region = omega arith; below_id = omega arith; configured = tt }, tt),
    );
    clock = (clock_entry 0, refl, refl);
  };
  registered = refl;
  open_count = refl;
  closed_count = refl;
  lasts = omega arith;
  set = omega arith;
  opened_lt = omega arith;
  closed_lt = omega arith;
}

-- The thread beats every 40 milliseconds, the pass comes 60 milliseconds after a beat.
abbrev events : List Event
events =
    Events.beats 5_040_000_000
    ∷ Events.opens 2
    ∷ Events.passes 5_100_000_000 5_100
    ∷ Events.writes 0 (memory.regions 1)
    ∷ Events.closes 1
    ∷ []

run_keeps_example :
    Yields
      (λ s'.
        (Map.get (str "i") s'.1.by_name ≡ some plain)
        × (is_reaped s'.0 ≡ false)
        × (interlock_is_terminated 1 s'.2 ≡ false))
      (run 1 80_000_000 events world)
unfolding str_eq
run_keeps_example =
    run_keeps (str "i") plain 80_000_000 5_000_000_000 70 60 events world refl refl with_plain-Kept
      (
        omega arith,
        omega arith,
        (omega arith, (omega arith, (λ e. omega (arith, e), (omega arith, tt)))),
      )

process_clock_uptime_example :
    let s =
      process_ticks 1 0 80_000_000 ((1_000, 60) ∷ (2_000, 90) ∷ []) (process_new 1 0 memory) in
    (last_seen_ms 1 s.1 ≡ 90) × (uptime_ms 1 s.1 ≡ pos (90 - 50)) × (is_reaped s.0 ≡ false)
process_clock_uptime_example =
    process_clock_uptime 1 0 80_000_000 memory ((1_000, 60) ∷ (2_000, 90) ∷ [])
      (λ e. omega (arith, e)) (omega arith) (omega arith, (omega arith, tt)) (omega arith)
      (omega arith)
