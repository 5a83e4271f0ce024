-- ===== src/Registry/Create.antt =====
-- `Registry::create`.
use abacus_rts.Base.{
  ℕ, ◌/◌, not, Option, none, some, List, [], ◌∷◌, ◌++◌, ◌==◌, if◌then◌else◌, Result, ok, err, ◌>>=◌,
  ◌>>◌, fail_if, ok_or, unwrap,
}
use abacus_rts.Base.U64.{wrapping_add}
use abacus_rts.Base.Text.{Str, str, str_eq, decimal}
use abacus_rts.Base.Map
use abacus_rts.Core.Error.{Condition, interlock_not_found, invalid_request}
use abacus_rts.Core.Interlock.Words.{Interlock, WatchedWord, Shared, store, interlock_reap}
use abacus_rts.Core.Interlock.Create.{Kernel, interlock_create}
use abacus_rts.Wire.Message.{WireCondition}
use abacus_rts.Registry.Entry.{
  Tier, interlock, wait_counter, wait_timer, wait_cron, wait_barrier, BarrierCondition,
  InterlockEntry, Registry, clock_name, next_line, clock,
}

-- What the fields of the request are resolved to.
pub record Resolved : Type 0 where
  pub name : Option Str
  pub word : Option WatchedWord
  pub interval_ms : Option ℕ
  pub barrier : Option (List BarrierCondition)

abbrev pub nothing_resolved : Resolved
nothing_resolved = record { name = none; word = none; interval_ms = none; barrier = none }

unfoldable pub parse_word : ℕ → Result Condition WatchedWord
unfolding decimal
parse_word ww =
    if ww == 0
    then ok WatchedWord.open_count
    else if ww == 1
    then ok WatchedWord.closed_count
    else err (invalid_request (str "invalid watched_word: " ++ decimal ww))

unfoldable pub resolve_counter :
    List (Str × InterlockEntry) → Option Str → Option ℕ → Result Condition Resolved
unfolding parse_word Map.get
resolve_counter by_name watched_name watched_word = do
  wn ← ok_or watched_name (invalid_request (str "WaitCounter requires watched_name"))
  fail_if (not (Map.contains_key wn by_name)) (interlock_not_found wn)
  ww ← ok_or watched_word (invalid_request (str "WaitCounter requires watched_word"))
  word ← parse_word ww
  ok (record nothing_resolved { name = some wn; word = some word })

unfoldable pub resolve_cron : Option ℕ → Result Condition Resolved
unfolding decimal
resolve_cron interval_ns = do
  ival_ns ← ok_or interval_ns (invalid_request (str "WaitCron requires interval_ns"))
  fail_if (ival_ns == 0) (invalid_request (str "WaitCron interval_ns must be > 0"))
  let ival_ms = ival_ns / 1_000_000
  fail_if (ival_ms == 0) (
      invalid_request (str "WaitCron interval_ns (" ++ decimal ival_ns ++ str ") is less than 1ms"))
  ok (record {
    name = some clock_name;
    word = some WatchedWord.open_count;
    interval_ms = some ival_ms;
    barrier = none;
  })

-- The loop over the conditions of a barrier.
unfoldable pub parse_conditions :
    List (Str × InterlockEntry)
    → List WireCondition
    → List BarrierCondition
    → Result Condition (List BarrierCondition)
unfolding parse_word Map.get
parse_conditions by_name [] parsed = ok parsed
parse_conditions by_name ((wn, ww_byte, threshold) ∷ conds) parsed = do
  fail_if (not (Map.contains_key wn by_name)) (interlock_not_found wn)
  word ← parse_word ww_byte
  parse_conditions by_name conds (parsed ++ (wn, word, threshold) ∷ [])

unfoldable pub resolve_barrier :
    List (Str × InterlockEntry) → Option (List WireCondition) → Result Condition Resolved
unfolding parse_conditions
resolve_barrier by_name barrier_conditions = do
  conds ← ok_or barrier_conditions (invalid_request (str "WaitBarrier requires conditions"))
  parsed ← parse_conditions by_name conds []
  ok (record nothing_resolved { barrier = some parsed })

-- A request to create an interlock, as the daemon hands it over.
pub record CreateArgs : Type 0 where
  pub name : Str
  pub tier : Tier
  pub watched_name : Option Str
  pub watched_word : Option ℕ
  pub interval_ns : Option ℕ
  pub barrier_conditions : Option (List WireCondition)

unfoldable pub resolve : Tier → List (Str × InterlockEntry) → CreateArgs → Result Condition Resolved
unfolding resolve_counter resolve_cron resolve_barrier
resolve wait_counter by_name a = resolve_counter by_name a.watched_name a.watched_word
resolve wait_timer by_name a =
    ok (record nothing_resolved { name = some clock_name; word = some WatchedWord.open_count })
resolve wait_cron by_name a = resolve_cron a.interval_ns
resolve wait_barrier by_name a = resolve_barrier by_name a.barrier_conditions
resolve interlock by_name a = ok nothing_resolved

-- The words that the tier starts with.
unfoldable pub initial_words : Tier → ℕ → Option ℕ → Interlock → Result Condition Interlock
unfolding next_line
initial_words wait_timer now interval_ms w = ok (record w { open_count = now; closed_count = now })
initial_words wait_cron now interval_ms w = do
  interval ← unwrap interval_ms
  line ← next_line now interval
  ok (record w { open_count = line; closed_count = now })
initial_words wait_barrier now interval_ms w = ok (record w { open_count = 1 })
initial_words interlock now interval_ms w = ok w
initial_words wait_counter now interval_ms w = ok w

-- The old interlock of the name, if there is one, is reaped.
unfoldable pub reap_old : Option InterlockEntry → Shared → Shared
unfolding interlock_reap
reap_old none σ = σ
reap_old (some old) σ = interlock_reap old.handle σ

-- The id and the handle of the new interlock, the registry, and the shared memory. An error leaves
-- both as they were: nothing is changed before the last step that can fail.
unfoldable pub create :
    Kernel → CreateArgs → Registry → Shared → Result Condition ((ℕ × ℕ) × Registry × Shared)
unfolding interlock_create clock resolve initial_words reap_old Map.get Map.insert
create k a reg σ = do
  fail_if (str_eq a.name clock_name) (invalid_request (str "\"clock\" is a reserved name"))
  r ← resolve a.tier reg.by_name a
  (h, σ₁) ← interlock_create k σ
  clock_handle ← clock reg
  let clock_now_ms = (σ₁.regions clock_handle).open_count
  words ← initial_words a.tier clock_now_ms r.interval_ms (σ₁.regions h)
  let entry : InterlockEntry = record {
    id = reg.next_id;
    handle = h;
    tier = a.tier;
    watched_name = r.name;
    watched_word = r.word;
    interval_ms = r.interval_ms;
    barrier_conditions = r.barrier;
  }
  let reg' : Registry = record {
    next_id = wrapping_add reg.next_id 1;
    by_name = Map.insert a.name entry reg.by_name;
  }
  ok ((reg.next_id, h), reg', reap_old (Map.get a.name reg.by_name) (store h words σ₁))
