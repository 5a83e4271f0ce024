-- ===== src/Registry/Evaluate.antt =====
-- `Registry::evaluate_all`: one pass over the interlocks, in the order in which the table iterates.
use abacus_rts.Base.{
  ℕ, Bool, true, false, not, ◌&&◌, ◌||◌, Option, none, some, List, [], ◌∷◌, ◌++◌, leb,
  if◌then◌else◌, Result, ok, ◌>>=◌,
}
use abacus_rts.Base.U64.{wrapping_sub_i64, is_positive}
use abacus_rts.Base.Text.{Str, str_eq}
use abacus_rts.Base.Map
use abacus_rts.Core.Clock.{expiration_alive}
use abacus_rts.Core.Error.{Condition}
use abacus_rts.Core.Interlock.Words.{
  Interlock, WatchedWord, Shared, store, futex_wake, interlock_reap, is_terminated,
}
use abacus_rts.Registry.Entry.{
  Tier, interlock, wait_counter, wait_timer, wait_cron, wait_barrier, BarrierCondition,
  InterlockEntry, Registry, clock_name, word_of, next_line,
}

-- `closed_count.store(v)` and the wake of its waiters.
unfoldable pub deliver : ℕ → ℕ → Shared → Shared
deliver h v σ =
    futex_wake h WatchedWord.closed_count (store h (record (σ.regions h) { closed_count = v }) σ)

-- The value that a watcher sees: what the memory holds when its turn comes.
unfoldable pub watched_value : List (Str × InterlockEntry) → Str → WatchedWord → Shared → Option ℕ
unfolding Map.get
watched_value by_name wn ww σ = elim (Map.get wn by_name) [
  | some watched ↦ some (word_of ww (σ.regions watched.handle))
  | none ↦ none
]

unfoldable pub evaluate_timer : ℕ → ℕ → Shared → Shared
unfolding deliver
evaluate_timer clock_now_ms h σ =
    if leb (σ.regions h).open_count clock_now_ms then deliver h clock_now_ms σ else σ

-- The delivery for a value that the watcher sees.
unfoldable pub deliver_watched : ℕ → Option ℕ → Shared → Shared
unfolding deliver
deliver_watched h none σ = σ
deliver_watched h (some v) σ = if leb (σ.regions h).open_count v then deliver h v σ else σ

unfoldable pub evaluate_counter :
    List (Str × InterlockEntry) → ℕ → Option Str → Option WatchedWord → Shared → Shared
unfolding watched_value deliver_watched
evaluate_counter by_name h (some wn) (some ww) σ =
    deliver_watched h (watched_value by_name wn ww σ) σ
evaluate_counter by_name h (some wn) none σ = σ
evaluate_counter by_name h none ww σ = σ

-- The next grid line, if the entry has an interval.
unfoldable pub rearm : ℕ → ℕ → Option ℕ → Shared → Result Condition Shared
unfolding next_line
rearm clock_now_ms h none σ = ok σ
rearm clock_now_ms h (some interval_ms) σ = do
  line ← next_line clock_now_ms interval_ms
  ok (store h (record (σ.regions h) { open_count = line }) σ)

unfoldable pub evaluate_cron : ℕ → ℕ → Option ℕ → Shared → Result Condition Shared
unfolding deliver rearm
evaluate_cron clock_now_ms h interval_ms σ =
    if leb (σ.regions h).open_count clock_now_ms
    then rearm clock_now_ms h interval_ms (deliver h clock_now_ms σ)
    else ok σ

-- A condition on a name that is not registered is not met.
unfoldable pub is_met : List (Str × InterlockEntry) → Shared → BarrierCondition → Bool
unfolding watched_value
is_met by_name σ (wn, ww, threshold) = elim (watched_value by_name wn ww σ) [
  | some v ↦ leb threshold v
  | none ↦ false
]

unfoldable pub all_met : List (Str × InterlockEntry) → Shared → List BarrierCondition → Bool
unfolding is_met
all_met by_name σ [] = true
all_met by_name σ (c ∷ cs) = is_met by_name σ c && all_met by_name σ cs

unfoldable pub evaluate_barrier :
    ℕ → List (Str × InterlockEntry) → ℕ → Option (List BarrierCondition) → Shared → Shared
unfolding deliver all_met
evaluate_barrier clock_now_ms by_name h none σ = σ
evaluate_barrier clock_now_ms by_name h (some conds) σ =
    if all_met by_name σ conds then deliver h clock_now_ms σ else σ

-- The contract of an open interlock, by its tier.
unfoldable pub evaluate_contract :
    Tier → ℕ → List (Str × InterlockEntry) → InterlockEntry → Shared → Result Condition Shared
unfolding evaluate_timer evaluate_counter evaluate_cron evaluate_barrier
evaluate_contract wait_timer clock_now_ms by_name e σ = ok (evaluate_timer clock_now_ms e.handle σ)
evaluate_contract wait_counter clock_now_ms by_name e σ =
    ok (evaluate_counter by_name e.handle e.watched_name e.watched_word σ)
evaluate_contract wait_cron clock_now_ms by_name e σ =
    evaluate_cron clock_now_ms e.handle e.interval_ms σ
evaluate_contract wait_barrier clock_now_ms by_name e σ =
    ok (evaluate_barrier clock_now_ms by_name e.handle e.barrier_conditions σ)
evaluate_contract interlock clock_now_ms by_name e σ = ok σ

-- Terminated, or the expiration is not after `now_ns`.
unfoldable pub is_dead : ℕ → Interlock → Bool
unfolding expiration_alive
is_dead now_ns w = is_terminated w || not (expiration_alive w.expiration_ns now_ns)

-- One round of the loop: the memory, and whether the entry is to be removed.
unfoldable pub evaluate_entry :
    ℕ
    → ℕ
    → List (Str × InterlockEntry)
    → Str × InterlockEntry
    → Shared
    → Result Condition (Shared × Bool)
unfolding expiration_alive interlock_reap evaluate_contract
evaluate_entry now_ns clock_now_ms by_name (name, e) σ =
    let w = σ.regions e.handle in
    if str_eq name clock_name
    then ok (σ, false)
    else if is_terminated w
    then ok (interlock_reap e.handle σ, true)
    else if not (expiration_alive w.expiration_ns now_ns)
    then ok (interlock_reap e.handle σ, true)
    else if not (is_positive (wrapping_sub_i64 w.open_count w.closed_count))
    then ok (σ, false)
    else do σ' ← evaluate_contract e.tier clock_now_ms by_name e σ; ok (σ', false)

-- The loop over the entries that are left, with the names that are to be removed.
unfoldable pub evaluate_loop :
    ℕ
    → ℕ
    → List (Str × InterlockEntry)
    → List (Str × InterlockEntry)
    → Shared
    → List Str
    → Result Condition (Shared × List Str)
unfolding evaluate_entry
evaluate_loop now_ns clock_now_ms by_name [] σ to_remove = ok (σ, to_remove)
evaluate_loop now_ns clock_now_ms by_name (x ∷ rest) σ to_remove = do
  (σ', dead) ← evaluate_entry now_ns clock_now_ms by_name x σ
  evaluate_loop now_ns clock_now_ms by_name rest σ'
      (if dead then to_remove ++ x.0 ∷ [] else to_remove)

unfoldable pub remove_all : List Str → List (Str × InterlockEntry) → List (Str × InterlockEntry)
unfolding Map.remove
remove_all [] by_name = by_name
remove_all (name ∷ names) by_name = remove_all names (Map.remove name by_name)

unfoldable pub evaluate_all : ℕ → ℕ → Registry → Shared → Result Condition (Registry × Shared)
unfolding evaluate_loop remove_all
evaluate_all now_ns clock_now_ms reg σ = do
  (σ', to_remove) ← evaluate_loop now_ns clock_now_ms reg.by_name reg.by_name σ []
  ok (record reg { by_name = remove_all to_remove reg.by_name }, σ')
