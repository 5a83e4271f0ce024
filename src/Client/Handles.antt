-- ===== src/Client/Handles.antt =====
-- interlock.rs of the client: what its handles do to the shared words. The owner's `touch` is the
-- arming as one step, which is what it comes to among other threads.
use abacus_rts.Base.{ℕ, List, [], ◌∷◌, Result, map_err}
use abacus_rts.Base.U64.{ℤ, wrapping_add, wrapping_sub_i64}
use abacus_rts.Core.Clock.{ms_to_nanos}
use abacus_rts.Core.Interlock.Words.{WatchedWord, Shared, store, futex_wake, sentinel}
use abacus_rts.Registry.Entry.{arm}
use abacus_rts.Client.Types.{SdkError, sdk_interlock_reaped, InterlockState, interlock_state}

-- `open` and `close`: a `fetch_add`, and a wake of the word's waiters.
unfoldable pub open_by : ℕ → ℕ → Shared → Shared
open_by handle h σ =
    let w = σ.regions handle in
    futex_wake handle WatchedWord.open_count
      (store handle (record w { open_count = wrapping_add w.open_count h }) σ)

unfoldable pub close_by : ℕ → ℕ → Shared → Shared
close_by handle h σ =
    let w = σ.regions handle in
    futex_wake handle WatchedWord.closed_count
      (store handle (record w { closed_count = wrapping_add w.closed_count h }) σ)

-- `touch`, at the time `now` in nanoseconds.
unfoldable pub touch : ℕ → ℕ → ℕ → Shared → Result SdkError (Unit {0}) × Shared
unfolding arm ms_to_nanos
touch handle now ms σ =
    let (r, σ') = arm handle now (ms_to_nanos ms) σ in (map_err (λ _. sdk_interlock_reaped) r, σ')

unfoldable pub peek : ℕ → Shared → ℕ × ℕ
peek handle σ = ((σ.regions handle).open_count, (σ.regions handle).closed_count)

unfoldable pub value : ℕ → Shared → ℤ
unfolding peek
value handle σ = wrapping_sub_i64 (peek handle σ).0 (peek handle σ).1

-- `state`, with the clock's reading.
unfoldable pub state : ℕ → ℕ → Shared → InterlockState
unfolding interlock_state
state handle clock_ns σ =
    let w = σ.regions handle in interlock_state w.open_count w.closed_count w.expiration_ns clock_ns

-- `free` of an attached interlock, which has no right to the expiration.
unfoldable pub attached_free : ℕ → Shared → Shared
attached_free handle σ = futex_wake handle WatchedWord.closed_count (
    futex_wake handle WatchedWord.open_count
      (store handle (record (σ.regions handle) { open_count = sentinel }) σ))

-- `completed_at` of a wait, and the two readings of the clock's handle.
unfoldable pub completed_at : ℕ → Shared → ℕ
completed_at handle σ = (σ.regions handle).closed_count

unfoldable pub now_ms : ℕ → Shared → ℕ
now_ms clock σ = (σ.regions clock).open_count

unfoldable pub start_time_ms : ℕ → Shared → ℕ
start_time_ms clock σ = (σ.regions clock).closed_count

-- What the holders of a handle do, in the order in which the memory sees it.
pub data Act : Type 0 where
  opens : (h : ℕ) → Act
  closes : (h : ℕ) → Act
  touches : (now ms : ℕ) → Act

unfoldable pub act : ℕ → Act → Shared → Shared
unfolding open_by close_by touch
act handle (opens h) σ = open_by handle h σ
act handle (closes h) σ = close_by handle h σ
act handle (touches now ms) σ = (touch handle now ms σ).1

unfoldable pub act_all : ℕ → List Act → Shared → Shared
unfolding act
act_all handle [] σ = σ
act_all handle (a ∷ acts) σ = act_all handle acts (act handle a σ)
