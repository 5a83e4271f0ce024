-- ===== src/Client/Wait/Watchers.antt =====
-- What a client that waits on a counter or a barrier reads after a pass.
use abacus_rts.Base.{
  ℕ, ◌^◌, ◌≤◌, ◌<◌, ◌≡◌, refl, ◌⊎◌, inl, inr, false, none, some, List, leb, ◌==◌, if◌then◌else◌, ok,
  Yields, Yields-mono, All, Any, Bool-cases, arith,
}
use abacus_rts.Base.U64.{wrapping_sub_i64, is_positive}
use abacus_rts.Base.Text.{Str}
use abacus_rts.Base.Map
use abacus_rts.Core.Interlock.Words.{Interlock, WatchedWord, Shared}
use abacus_rts.Registry.Entry.{
  wait_counter, wait_barrier, BarrierCondition, InterlockEntry, Registry, word_of,
}
use abacus_rts.Registry.Evaluate.{evaluate_all}
use abacus_rts.Registry.Invariant.{IsValid}
use abacus_rts.Registry.Contracts.{
  IsWaiting, MayMeet, MayMiss, evaluate_all-counter, evaluate_all-barrier,
}
use abacus_rts.Client.Types.{normal, overrun}
use abacus_rts.Client.Wait.Counter.{delivered}
use abacus_rts.Client.Wait.TimerEnds.{delivered_fired, delivered_waiting}
use abacus_rts.Client.Wait.Barrier.{BarrierRound, barrier_round}
use abacus_rts.Client.Wait.Delivery.{reading}

delivered-counter :
    (v at_ns : ℕ) (w w' : Interlock)
    → w.closed_count < w.open_count
    → w' ≡ (if leb w.open_count v then record w { closed_count = v } else w)
    → delivered (reading w' at_ns) ≡ (
        if leb w.open_count v
        then some (
            ok (record { completed_at = v; state = if v == w.open_count then normal else overrun }))
        else none)
delivered-counter v at_ns w w' waiting q = elim (Bool-cases (leb w.open_count v)) [
  | inl due ↦
      rw (q, due) (delivered_fired (reading (record w { closed_count = v }) at_ns) (ground arith))
  | inr early ↦ rw (q, early) (delivered_waiting (reading w at_ns) waiting)
]

-- After a pass over a valid registry, a client that waits on a counter which was alive, with a
-- positive value and closed_count below open_count, and whose watched name is registered, finds in
-- the words a delivery exactly when one value of the watched word is not below its target, normal
-- if equal and overrun otherwise; that value is the word's at the start of the pass or at its end.
pub counter_delivery :
    (now_ns now : ℕ) (reg : Registry) (σ : Shared) (n : Str) (e : InterlockEntry) (wn : Str)
    (ww : WatchedWord) (f : InterlockEntry) (at_ns : ℕ)
    → IsValid reg σ.next_region
    → IsWaiting now_ns reg σ n e
    → e.tier ≡ wait_counter
    → e.watched_name ≡ some wn
    → e.watched_word ≡ some ww
    → Map.get wn reg.by_name ≡ some f
    → (σ.regions e.handle).closed_count < (σ.regions e.handle).open_count
    → Yields
        (λ r.
          (v : ℕ) × ((v ≡ word_of ww (σ.regions f.handle))
            ⊎ (v ≡ word_of ww (r.1.regions f.handle)))
          × (delivered (reading (r.1.regions e.handle) at_ns) ≡ (
              if leb (σ.regions e.handle).open_count v
              then some (
                  ok (record {
                    completed_at = v;
                    state = if v == (σ.regions e.handle).open_count then normal else overrun;
                  }))
              else none)))
        (evaluate_all now_ns now reg σ)
counter_delivery now_ns now reg σ n e wn ww f at_ns valid w tier name word there waiting =
    Yields-mono (evaluate_all-counter now_ns now reg σ n e valid w wn ww f tier name word there)
      λ r p. (
        p.0,
        p.1,
        delivered-counter p.0 at_ns (σ.regions e.handle) (r.1.regions e.handle) waiting p.2,
      )

-- A stamp after the barrier's `open_count`.
barrier_value : (o now : ℕ) → o ≤ now → now < 2 ^ 63 → is_positive (wrapping_sub_i64 o now) ≡ false
barrier_value o now h small = ground arith

barrier_round-stamped :
    (now at_ns : ℕ) (w : Interlock) (again : BarrierRound)
    → w.open_count ≤ now
    → 0 < now
    → now < 2 ^ 63
    → w.closed_count ≡ now
    → barrier_round (record again { first = reading w at_ns })
      ≡ some (
          ok (record {
            completed_at = now;
            state = if now == w.open_count then normal else overrun;
          }))
unfolding barrier_round
barrier_round-stamped now at_ns w again h pos small stamped =
    let flat : is_positive (wrapping_sub_i64 w.open_count w.closed_count) ≡ false =
      rw stamped (barrier_value w.open_count now h small) in
    rw (flat, stamped) (ground arith)

-- After a pass over a valid registry at a time below 2^63, positive and not below its open_count,
-- a client that waits on a barrier which was alive with a positive value either returns at its
-- next reading with the pass's time, normal if equal to open_count and overrun otherwise, and each
-- condition was met at the start of the pass or at its end; or its words are as they were, and
-- some condition was unmet at the start or at the end, or its name is not registered.
pub barrier_delivery :
    (now_ns now : ℕ) (reg : Registry) (σ : Shared) (n : Str) (e : InterlockEntry)
    (conds : List BarrierCondition) (at_ns : ℕ) (again : BarrierRound)
    → IsValid reg σ.next_region
    → IsWaiting now_ns reg σ n e
    → e.tier ≡ wait_barrier
    → e.barrier_conditions ≡ some conds
    → (σ.regions e.handle).open_count ≤ now
    → 0 < now
    → now < 2 ^ 63
    → Yields
        (λ r.
          ((barrier_round (record again { first = reading (r.1.regions e.handle) at_ns })
              ≡ some (
                  ok (record {
                    completed_at = now;
                    state = if now == (σ.regions e.handle).open_count then normal else overrun;
                  })))
            × All (MayMeet reg.by_name σ r.1) conds)
          ⊎ ((r.1.regions e.handle ≡ σ.regions e.handle) × Any (MayMiss reg.by_name σ r.1) conds))
        (evaluate_all now_ns now reg σ)
barrier_delivery now_ns now reg σ n e conds at_ns again valid w tier conditions h pos small =
    Yields-mono (evaluate_all-barrier now_ns now reg σ n e valid w conds tier conditions)
      λ r p. outcome (r.1.regions e.handle) _ _ p
  where
    outcome :
        (w' : Interlock) (P Q : Type 0)
        → ((w' ≡ record (σ.regions e.handle) { closed_count = now }) × P)
          ⊎ ((w' ≡ σ.regions e.handle) × Q)
        → ((barrier_round (record again { first = reading w' at_ns })
              ≡ some (
                  ok (record {
                    completed_at = now;
                    state = if now == (σ.regions e.handle).open_count then normal else overrun;
                  })))
            × P)
          ⊎ ((w' ≡ σ.regions e.handle) × Q)
    outcome w' P Q (inr p) = inr p
    outcome w' P Q (inl (q, met)) = inl (
      rw q (
          barrier_round-stamped now at_ns (record (σ.regions e.handle) { closed_count = now }) again
            h pos small refl),
      met,
    )
