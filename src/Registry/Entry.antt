-- ===== src/Registry/Entry.antt =====
-- The entries of the registry, and its constructor.
use abacus_rts.Base.{
  ℕ, ◌/◌, Option, none, some, List, [], ◌∷◌, ◌==◌, if◌then◌else◌, Result, ok, err, panic, ◌>>=◌,
  ◌>>◌, unwrap, expect_ok,
}
use abacus_rts.Base.U64.{wrapping_add, wrapping_mul}
use abacus_rts.Base.Text.{Str, str}
use abacus_rts.Base.Map
use abacus_rts.Core.Error.{Condition}
use abacus_rts.Core.Interlock.Words.{Interlock, WatchedWord, Shared, store}
use abacus_rts.Core.Interlock.Arm.{ArmResult, arm_atomic}
use abacus_rts.Core.Interlock.Create.{Kernel, interlock_create, interlock_dup_fd}

pub data Tier : Type 0 where
  interlock wait_counter wait_timer wait_cron wait_barrier : Tier

-- A condition of a barrier: the watched name, the watched word, the threshold.
abbrev pub BarrierCondition : Type 0
BarrierCondition = Str × WatchedWord × ℕ

pub record InterlockEntry : Type 0 where
  pub id : ℕ
  pub handle : ℕ
  pub tier : Tier
  pub watched_name : Option Str
  pub watched_word : Option WatchedWord
  pub interval_ms : Option ℕ
  pub barrier_conditions : Option (List BarrierCondition)

pub record Registry : Type 0 where
  pub next_id : ℕ
  pub by_name : List (Str × InterlockEntry)

abbrev pub clock_name : Str
clock_name = str "clock"

-- The word that a watcher asked for.
abbrev pub word_of : WatchedWord → Interlock → ℕ
word_of WatchedWord.open_count w = w.open_count
word_of WatchedWord.closed_count w = w.closed_count

-- `((now / interval) + 1) * interval`; a division by zero panics.
unfoldable pub next_line : ℕ → ℕ → Result Condition ℕ
next_line now interval =
    if interval == 0 then panic else ok (wrapping_mul (wrapping_add (now / interval) 1) interval)

-- `interlock_arm` on a region that nobody else writes, as is the clock's: a client has only a handle
-- that reads it.
unfoldable pub arm : ℕ → ℕ → ℕ → Shared → ArmResult × Shared
unfolding arm_atomic
arm h now ttl σ =
    let (r, e) = arm_atomic (wrapping_add now ttl) (σ.regions h).expiration_ns in
    (r, store h (record (σ.regions h) { expiration_ns = e }) σ)

-- The clock's entry.
abbrev pub clock_entry : ℕ → InterlockEntry
clock_entry h = record {
  id = 0;
  handle = h;
  tier = interlock;
  watched_name = none;
  watched_word = none;
  interval_ms = none;
  barrier_conditions = none;
}

-- `Registry::new`: `arm_now` and `start_now` are the two later readings of the clock.
unfoldable pub new : Kernel → ℕ → ℕ → Shared → Result Condition (Registry × Shared)
unfolding interlock_create arm
new k arm_now start_now σ = do
  (h, σ₁) ← interlock_create k σ
  let (armed, σ₂) = arm h arm_now 1_000_000_000 σ₁
  expect_ok armed
  let start_ms = start_now / 1_000_000
  let words : Interlock = record (σ₂.regions h) { closed_count = start_ms; open_count = start_ms }
  ok (record { next_id = 1; by_name = (clock_name, clock_entry h) ∷ [] }, store h words σ₂)

-- `clock`: `expect("clock interlock missing")`.
unfoldable pub clock : Registry → Result Condition ℕ
unfolding Map.get
clock reg = do entry ← unwrap (Map.get clock_name reg.by_name); ok entry.handle

unfoldable pub attach : Str → Registry → Result Condition (ℕ × ℕ)
unfolding Map.get
attach name reg = elim (Map.get name reg.by_name) [
  | some entry ↦ ok (entry.id, entry.handle)
  | none ↦ err (Condition.interlock_not_found name)
]

unfoldable pub refresh_clock_expiration : ℕ → Registry → Shared → Result Condition Shared
unfolding clock arm
refresh_clock_expiration now reg σ = do h ← clock reg; ok (arm h now 1_000_000_000 σ).1

unfoldable pub dup_clock_fd : Kernel → Registry → Result Condition ℕ
unfolding clock interlock_dup_fd
dup_clock_fd k reg = do h ← clock reg; interlock_dup_fd k h
