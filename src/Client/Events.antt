-- ===== src/Client/Events.antt =====
-- What happens to an interlock with a touch thread: the events, and when they come in time.
use abacus_rts.Base.{ℕ, ◌+◌, ◌≤◌, ◌<◌, ◌≡◌, ◌≢◌, some, List, [], ◌∷◌, Result, ok, ◌>>=◌}
use abacus_rts.Base.Text.{Str}
use abacus_rts.Base.Map
use abacus_rts.Core.Error.{Condition}
use abacus_rts.Core.Interlock.Words.{Interlock, Shared, store, sentinel}
use abacus_rts.Registry.Entry.{InterlockEntry, Registry}
use abacus_rts.Registry.Evaluate.{evaluate_all}
use abacus_rts.Registry.Invariant.{IsValid}
use abacus_rts.Client.Handles.{open_by, close_by}
use abacus_rts.Client.Touch.{Thread, spawned, touch_tick}

-- What happens, in the order of the memory: a round of the thread, a pass of the daemon, an open or
-- a close of the interlock, and a write of anybody to another region.
pub data Event : Type 0 where
  beats : (now : ℕ) → Event
  passes : (now_ns now : ℕ) → Event
  opens : (h : ℕ) → Event
  closes : (h : ℕ) → Event
  writes : (other : ℕ) → (w : Interlock) → Event

abbrev pub World : Type 0
World = Thread × Registry × Shared

unfoldable pub happen : ℕ → ℕ → Event → World → Result Condition World
unfolding touch_tick evaluate_all open_by close_by
happen handle ttl (beats now) (t, reg, σ) =
    let (t', σ') = touch_tick handle ttl now t σ in ok (t', reg, σ')
happen handle ttl (passes now_ns now) (t, reg, σ) = do
  (reg', σ') ← evaluate_all now_ns now reg σ
  ok (t, reg', σ')
happen handle ttl (opens h) (t, reg, σ) = ok (t, reg, open_by handle h σ)
happen handle ttl (closes h) (t, reg, σ) = ok (t, reg, close_by handle h σ)
happen handle ttl (writes other w) (t, reg, σ) = ok (t, reg, store other w σ)

unfoldable pub run : ℕ → ℕ → List Event → World → Result Condition World
unfolding happen
run handle ttl [] s = ok s
run handle ttl (e ∷ es) s = do s' ← happen handle ttl e s; run handle ttl es s'

-- Each pass comes before the lifetime of the last beat, at `last`, is over; the counters, now
-- `opened` and `closed`, stay below the sentinel; others write to other regions.
abbrev pub Timely : ℕ → ℕ → ℕ → ℕ → ℕ → List Event → Type 0
Timely handle ttl last opened closed [] = Unit {0}
Timely handle ttl last opened closed (beats now ∷ es) =
    (now + ttl < sentinel) × (last ≤ now) × Timely handle ttl now opened closed es
Timely handle ttl last opened closed (passes now_ns now ∷ es) =
    (now_ns < last + ttl) × Timely handle ttl last opened closed es
Timely handle ttl last opened closed (opens h ∷ es) =
    (opened + h < sentinel) × Timely handle ttl last (opened + h) closed es
Timely handle ttl last opened closed (closes h ∷ es) =
    (closed + h < sentinel) × Timely handle ttl last opened (closed + h) es
Timely handle ttl last opened closed (writes other w ∷ es) =
    (other ≢ handle) × Timely handle ttl last opened closed es

-- The interlock `e` under the name `n` is kept: registered, with a running thread, and with the
-- lifetime of the beat at `last` in its words.
pub record Kept (n : Str) (e : InterlockEntry) (ttl last opened closed : ℕ) (s : World)
    : Type 0 where
  pub running : s.0 ≡ spawned
  pub valid : IsValid s.1 s.2.next_region
  pub registered : Map.get n s.1.by_name ≡ some e
  pub open_count : (s.2.regions e.handle).open_count ≡ opened
  pub closed_count : (s.2.regions e.handle).closed_count ≡ closed
  pub lasts : last + ttl ≤ (s.2.regions e.handle).expiration_ns
  pub set : (s.2.regions e.handle).expiration_ns < sentinel
  pub opened_lt : opened < sentinel
  pub closed_lt : closed < sentinel
