-- ===== src/Client/ClockView.antt =====
-- What clients see of the clock behind a cycle of the daemon.
use abacus_rts.Base.{
  ℕ, ◌/◌, ◌≡◌, refl, ◌∙◌, subst, ap, some, List, ◌∷◌, ok, Yields, yields, Yields-bind, Yields-both,
  ==_refl,
}
use abacus_rts.Base.U64.{wrapping_sub_i64}
use abacus_rts.Base.Text.{str_eq_refl}
use abacus_rts.Base.Map
use abacus_rts.Core.Interlock.Words.{Interlock, WatchedWord, Shared, store, futex_wake}
use abacus_rts.Registry.Entry.{
  InterlockEntry, Registry, clock_name, clock, arm, refresh_clock_expiration,
}
use abacus_rts.Registry.Step.{Settles, is_clock, idle, evaluated}
use abacus_rts.Registry.Pass.{SettlesIn}
use abacus_rts.Registry.Survivors.{get-evaluate_all, clock-survivor, evaluate_all-Settles}
use abacus_rts.Daemon.Cycle.{advance}
use abacus_rts.Daemon.Reach.{State, Reachable, Reachable-Inv}
use abacus_rts.Client.Handles.{now_ms, start_time_ms}
use abacus_rts.Client.Attached.{clock_uptime_ms}

-- The readings of a clock's handle, and a wake of those that wait for it.
pub record ClockShows (handle now start : ℕ) (σ : Shared) : Type 0 where
  pub shows : now_ms handle σ ≡ now
  pub since : start_time_ms handle σ ≡ start
  pub uptime : clock_uptime_ms handle σ ≡ wrapping_sub_i64 now start
  pub woken :
      (before : List (ℕ × WatchedWord)) × (σ.wakes ≡ (handle, WatchedWord.open_count) ∷ before)

clock-unchanged :
    (now_ns now : ℕ) (e : InterlockEntry) (w w' : Interlock)
    → Settles now_ns now clock_name e w w'
    → w' ≡ w
clock-unchanged now_ns now e w w' (is_clock q same) = same
clock-unchanged now_ns now e w w' (Settles.reaped other dead q) = cc (other, str_eq_refl clock_name)
clock-unchanged now_ns now e w w' (idle other alive flat same) = same
clock-unchanged now_ns now e w w' (evaluated other alive positive fires) =
    cc (other, str_eq_refl clock_name)

refreshed :
    (arm_now : ℕ) (reg : Registry) (σ : Shared) (e : InterlockEntry) (h now start : ℕ)
    → Map.get clock_name reg.by_name ≡ some e
    → e.handle ≡ h
    → (σ.regions h).open_count ≡ now
    → (σ.regions h).closed_count ≡ start
    → (before : List (ℕ × WatchedWord)) × (σ.wakes ≡ (h, WatchedWord.open_count) ∷ before)
    → Yields (ClockShows h now start) (refresh_clock_expiration arm_now reg σ)
unfolding refresh_clock_expiration clock arm now_ms start_time_ms clock_uptime_ms
refreshed arm_now reg σ e h now start found at opened closed woken =
    rw (found, at)
      (yields (record {
        shows = rw (==_refl h, now_ms) opened;
        since = rw (==_refl h, start_time_ms) closed;
        uptime = rw (==_refl h, clock_uptime_ms, opened, closed) refl;
        woken = woken;
      }))

-- The end of a cycle in a reachable state returns, and then a client's handle of the clock shows
-- the cycle's time in milliseconds, the start time as before, and their difference as the uptime,
-- and the waiters of its open_count have been woken.
pub advance-ClockShows :
    (s : State) (now now_ns arm_now : ℕ)
    → Reachable s
    → Yields
        (λ r.
          ClockShows s.clock_handle (now / 1_000_000) (start_time_ms s.clock_handle s.shared) r.1)
        (advance s.clock_handle now now_ns arm_now s.registry s.shared)
unfolding advance start_time_ms
advance-ClockShows s now now_ns arm_now reached =
    let i = Reachable-Inv reached in
    let h = s.clock_handle in
    let current = now / 1_000_000 in
    let ticked : Shared = store h (record (s.shared.regions h) { open_count = current }) s.shared in
    Yields-bind
      (Yields-both (evaluate_all-Settles now_ns current s.registry ticked i.valid)
        (get-evaluate_all now_ns current s.registry ticked i.valid))
      λ r (settles, kept).
        let e = i.clock.0 in
        let same : r.1.regions e.handle ≡ ticked.regions e.handle =
          clock-unchanged now_ns current e _ _ (
            Map.get-All (SettlesIn now_ns current ticked r.1) clock_name s.registry.by_name
              settles.0 i.clock.1) in
        let own : r.1.regions h ≡ record (s.shared.regions h) { open_count = current } =
          subst (λ k. r.1.regions k ≡ ticked.regions k) i.clock.2 same ∙ rw (==_refl h) refl in
        let found : Map.get clock_name r.0.by_name ≡ some e =
          kept clock_name ∙ clock-survivor now_ns ticked _ ∙ i.clock.1 in
        Yields-bind {f = λ σ₄. ok (r.0, σ₄)}
          (refreshed arm_now r.0 (futex_wake h WatchedWord.open_count r.1) e h current
            (s.shared.regions h).closed_count found i.clock.2
            (ap (λ (w : Interlock). w.open_count) own) (ap (λ (w : Interlock). w.closed_count) own)
            (r.1.wakes, refl))
          λ σ₄ shown. yields shown
