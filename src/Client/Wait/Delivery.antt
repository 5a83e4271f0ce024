-- ===== src/Client/Wait/Delivery.antt =====
-- The daemon's pass and the waits of the clients, composed: what a waiting client reads after a
-- pass.
use mathlib.Core.Option.{some-injective}
use abacus_rts.Base.{
  ℕ, ◌+◌, ◌*◌, ◌^◌, ◌≤◌, ◌<◌, ◌≡◌, ◌≢◌, sym, ◌∙◌, inl, inr, none, some, List, ◌∷◌, ◌++◌, leb, ◌==◌,
  if◌then◌else◌, ok, Yields, Yields-mono, ok-injective, All, Bool-cases, subst, arith, ==_false,
}
use abacus_rts.Base.Text.{Str}
use abacus_rts.Base.Map
use abacus_rts.Core.Interlock.Words.{Interlock, Shared, sentinel}
use abacus_rts.Registry.Entry.{wait_timer, wait_cron, InterlockEntry, Registry, next_line}
use abacus_rts.Registry.Evaluate.{evaluate_all}
use abacus_rts.Registry.Grid.{next_line_lem}
use abacus_rts.Registry.Invariant.{IsValid}
use abacus_rts.Registry.Contracts.{IsWaiting}
use abacus_rts.Registry.Pass.{SettlesIn}
use abacus_rts.Registry.Step.{Settles, is_clock, idle, evaluated, Fires, grid_line}
use abacus_rts.Registry.Survivors.{evaluate_all-Settles}
use abacus_rts.Client.Types.{normal, overrun}
use abacus_rts.Client.Wait.Rounds.{Round, first_outcome-append}
use abacus_rts.Client.Wait.Timer.{timer_check, timer_round}
use abacus_rts.Client.Wait.TimerEnds.{timer_round_fired, timer_round_waiting}
use abacus_rts.Client.Wait.Cron.{fired_state, cron_round, wait_fired}

-- What a client reads of the words at a moment at which nobody writes.
abbrev pub reading : Interlock → ℕ → Round
reading w now_ns = record {
  open_count = w.open_count;
  closed_count = w.closed_count;
  expiration_ns = w.expiration_ns;
  now_ns = now_ns;
}

module _ (now_ns now : ℕ) (reg : Registry) (σ : Shared) (n : Str) (e : InterlockEntry)
    (valid : IsValid reg σ.next_region) (w : IsWaiting now_ns reg σ n e) where
  settled-alive :
      (w' : Interlock)
      → Settles now_ns now n e (σ.regions e.handle) w'
      → Fires e.tier now e (σ.regions e.handle) w'
  settled-alive w' (is_clock q same) = absurd (ground (arith, w.other))
  settled-alive w' (Settles.reaped other dead q) = absurd (ground (arith, w.alive))
  settled-alive w' (idle other alive flat same) = absurd (ground (arith, w.positive))
  settled-alive w' (evaluated other alive positive fires) = fires

  pub evaluate_all-Fires :
      Yields
        (λ r. Fires e.tier now e (σ.regions e.handle) (r.1.regions e.handle))
        (evaluate_all now_ns now reg σ)
  evaluate_all-Fires = Yields-mono (evaluate_all-Settles now_ns now reg σ valid) λ r p.
      settled-alive (r.1.regions e.handle)
        (Map.get-All (SettlesIn now_ns now σ r.1) n reg.by_name p.0 w.registered)

timer_round-fired :
    (d at_ns now : ℕ) (w w' : Interlock)
    → w.closed_count < w.open_count
    → w' ≡ (if leb w.open_count now then record w { closed_count = now } else w)
    → timer_round d (reading w' at_ns) ≡ (
        if leb w.open_count now
        then some (
            ok (record {
              completed_at = now;
              state = if now == w.open_count then normal else overrun;
            }))
        else timer_check d (reading w at_ns))
timer_round-fired d at_ns now w w' waiting q = elim (Bool-cases (leb w.open_count now)) [
  | inl due ↦
      rw (q, due)
        (timer_round_fired d (reading (record w { closed_count = now }) at_ns) (ground arith))
  | inr early ↦ rw (q, early) (timer_round_waiting d (reading w at_ns) waiting)
]

-- After a pass over a valid registry, a client that waits on a timer which was alive, with a
-- positive value and closed_count below open_count, finds in its next round a delivery at the
-- pass's time exactly when the target is not after that time, normal if equal and overrun
-- otherwise; before that time it finds its words as they were.
pub timer_delivery :
    (now_ns now : ℕ) (reg : Registry) (σ : Shared) (n : Str) (e : InterlockEntry) (d at_ns : ℕ)
    → IsValid reg σ.next_region
    → IsWaiting now_ns reg σ n e
    → e.tier ≡ wait_timer
    → (σ.regions e.handle).closed_count < (σ.regions e.handle).open_count
    → Yields
        (λ r. timer_round d (reading (r.1.regions e.handle) at_ns) ≡ (
          if leb (σ.regions e.handle).open_count now
          then some (
              ok (record {
                completed_at = now;
                state = if now == (σ.regions e.handle).open_count then normal else overrun;
              }))
          else timer_check d (reading (σ.regions e.handle) at_ns)))
        (evaluate_all now_ns now reg σ)
timer_delivery now_ns now reg σ n e d at_ns valid w tier waiting =
    Yields-mono (evaluate_all-Fires now_ns now reg σ n e valid w) λ r fires.
      timer_round-fired d at_ns now (σ.regions e.handle) (r.1.regions e.handle) waiting
        (subst (λ t. Fires t now e (σ.regions e.handle) (r.1.regions e.handle)) tier fires)

grid_line-lt : (now i : ℕ) → 0 < i → now + i < 2 ^ 64 → now < grid_line now i
unfolding next_line
grid_line-lt now i pos room =
    let (q, line, after, bound) = next_line_lem now i pos room in
    let same : grid_line now i ≡ q * i = ok-injective (rw (==_false i 0 (omega arith)) at line) in
    omega (arith, same, after)

cron_round-fired :
    (initial now at_ns : ℕ) (w : Interlock)
    → initial < now
    → now ≢ sentinel
    → now < w.open_count
    → w.closed_count ≡ now
    → cron_round initial (reading w at_ns)
      ≡ some (ok (record { completed_at = now; state = normal }))
unfolding cron_round fired_state
cron_round-fired initial now at_ns w advanced fits armed stamped = ground arith

-- A client that waits on a cron which is alive, with a positive value, and due by the time of a
-- pass over a valid registry returns at its first reading after the pass, with the pass's time and
-- always as normal, however late the pass was, if the time is after the closed_count at its entry
-- and the next grid line fits a u64.
pub cron_delivery :
    (now_ns now : ℕ) (reg : Registry) (σ : Shared) (n : Str) (e : InterlockEntry) (i : ℕ)
    (initial at_ns : ℕ) (before after : List Round)
    → IsValid reg σ.next_region
    → IsWaiting now_ns reg σ n e
    → e.tier ≡ wait_cron
    → e.interval_ms ≡ some i
    → 0 < i
    → now + i < 2 ^ 64
    → (σ.regions e.handle).open_count ≤ now
    → initial < now
    → All (λ r. cron_round initial r ≡ none) before
    → Yields
        (λ r.
          wait_fired initial (before ++ reading (r.1.regions e.handle) at_ns ∷ after)
          ≡ some (ok (record { completed_at = now; state = normal })))
        (evaluate_all now_ns now reg σ)
unfolding wait_fired
cron_delivery now_ns now reg σ n e i initial at_ns before after valid w tier every pos room due
      advanced waiting =
    Yields-mono (evaluate_all-Fires now_ns now reg σ n e valid w) λ r fires.
      first_outcome-append (cron_round initial) before after (reading (r.1.regions e.handle) at_ns)
        waiting
        (fired (r.1.regions e.handle)
          (subst (λ t. Fires t now e (σ.regions e.handle) (r.1.regions e.handle)) tier fires))
  where
    fired :
        (w' : Interlock)
        → Fires wait_cron now e (σ.regions e.handle) w'
        → cron_round initial (reading w' at_ns)
          ≡ some (ok (record { completed_at = now; state = normal }))
    fired w' (j, q, words) =
        let same : i ≡ j = some-injective i j (sym every ∙ q) in
        let open_at : w'.open_count ≡ grid_line now i = rw (words, same) (ground arith) in
        let closed_at : w'.closed_count ≡ now = rw words (ground arith) in
        cron_round-fired initial now at_ns w' advanced (omega arith)
          (rw open_at (grid_line-lt now i pos room)) closed_at
