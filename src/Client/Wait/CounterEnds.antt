-- ===== src/Client/Wait/CounterEnds.antt =====
-- How a wait of a counter ends.
use mathlib.Core.Option.{some-injective}
use abacus_rts.Base.{
  ℕ, ◌≤◌, ◌<◌, ◌≡◌, ◌≢◌, refl, ◌⊎◌, inl, inr, true, Bool-cases, Option, none, some, List, leb, ◌==◌,
  if◌then◌else◌, ok, err, Any, Any-map, subst, arith,
}
use abacus_rts.Base.U64.{saturating_mul}
use abacus_rts.Core.Clock.{ms_to_nanos}
use abacus_rts.Core.Interlock.Words.{sentinel}
use abacus_rts.Core.Interlock.Arm.{IsQuiet}
use abacus_rts.Client.Types.{sdk_interlock_reaped, normal, overrun, timeout, check_wake_state}
use abacus_rts.Client.Wait.Rounds.{
  Outcome, Round, first_outcome_total, cas_max_total, interlock_arm_total,
}
use abacus_rts.Client.Wait.Counter.{
  CounterRound, delivered, counter_recheck, counter_round, Setup, wait_until,
}
use abacus_rts.Client.Wait.TimerEnds.{delivered_fired, delivered_waiting}

-- The wait's result by the round in which it ends: delivered as soon as both counters show it,
-- before the futex call or behind it; reaped by the sentinel; otherwise timed out.
pub data CounterEnds (r : CounterRound) : Outcome → Type 0 where
  answered :
      (seen : Round)
      → (seen ≡ r.first) ⊎ (seen ≡ r.again)
      → seen.open_count ≤ seen.closed_count
      → CounterEnds r (
          ok (record {
            completed_at = seen.closed_count;
            state = if seen.closed_count == seen.open_count then normal else overrun;
          }))
  reaped :
      r.again.closed_count < r.again.open_count
      → r.again.expiration_ns ≡ sentinel
      → CounterEnds r (err sdk_interlock_reaped)
  timed :
      r.again.closed_count < r.again.open_count
      → r.again.expiration_ns ≢ sentinel
      → r.timed_out ≡ true
      → CounterEnds r (ok (record { completed_at = r.again.closed_count; state = timeout }))

-- The round ends the wait.
abbrev pub Decides : CounterRound → Type 0
Decides r =
    (r.first.open_count ≤ r.first.closed_count)
    ⊎ ((r.again.open_count ≤ r.again.closed_count)
        ⊎ ((r.again.expiration_ns ≡ sentinel) ⊎ (r.timed_out ≡ true)))

module _ (r : CounterRound) (o : Outcome) where
  returns : {o' : Outcome} → some o' ≡ some o → CounterEnds r o' → CounterEnds r o
  returns q w = subst (CounterEnds r) (some-injective _ _ q) w

  none-ne-some : ◌≢◌ {A = Option Outcome} none (some o)
  none-ne-some = λ q. cc

  counter_recheck-CounterEnds :
      r.again.closed_count < r.again.open_count → counter_recheck r ≡ some o → CounterEnds r o
  unfolding counter_recheck
  counter_recheck-CounterEnds h e = elim (Bool-cases (r.again.expiration_ns == sentinel)) [
    | inl dead ↦ returns (rw dead at e) (reaped h (ground arith))
    | inr live ↦ elim (Bool-cases r.timed_out) [
      | inl late ↦ returns (rw (live, late) at e) (timed h (ground arith) late)
      | inr early ↦ absurd (none-ne-some (rw (live, early) at e))
    ]
  ]

  counter_round-CounterEnds : counter_round r ≡ some o → CounterEnds r o
  unfolding counter_round
  counter_round-CounterEnds e = elim (Bool-cases (leb r.first.open_count r.first.closed_count)) [
    | inl there ↦
        returns (rw (delivered_fired r.first (ground arith), counter_round) at e)
          (answered r.first (inl refl) (ground arith))
    | inr before ↦
        let first = delivered_waiting r.first (ground arith) in
        elim (Bool-cases (leb r.again.open_count r.again.closed_count)) [
          | inl now ↦
              returns (rw (first, delivered_fired r.again (ground arith), counter_round) at e)
                (answered r.again (inr refl) (ground arith))
          | inr still ↦
              let waiting : r.again.closed_count < r.again.open_count = ground arith in
              counter_recheck-CounterEnds waiting
                (rw (first, delivered_waiting r.again waiting, counter_round) at e)
        ]
  ]

counter_round-ne-none : (r : CounterRound) → Decides r → counter_round r ≢ none
unfolding counter_round counter_recheck delivered check_wake_state
counter_round-ne-none r h = ground arith

-- A wait of a counter ends when the two loops on the words have a quiet turn and some round reads
-- closed_count at open_count or above it, before the futex call or behind it, or the sentinel as
-- the expiration, or times out; the target is then at least written, and the wait has failed at an
-- expiration that is the sentinel, or has returned what some round shows: a delivery when
-- closed_count has reached open_count, a reap by the sentinel, a timeout of a live interlock
-- otherwise.
pub wait_until-CounterEnds :
    (target timeout_ms : ℕ) (s : Setup) (rounds : List CounterRound)
    → Any IsQuiet s.open_turns
    → Any IsQuiet s.arm_turns
    → Any Decides rounds
    → (opened : ℕ) × (expiration_ns : ℕ) × (o : Outcome) × (wait_until target timeout_ms s rounds
        ≡ some (opened, expiration_ns, some o))
      × (target ≤ opened)
      × (((o ≡ err sdk_interlock_reaped) × (expiration_ns ≡ sentinel))
          ⊎ Any (λ r. CounterEnds r o) rounds)
unfolding wait_until
wait_until-CounterEnds target timeout_ms s rounds quiet quiet' decided =
    let ttl = saturating_mul (ms_to_nanos timeout_ms) 2 in
    let (opened, raised, above) = cas_max_total target s.open_turns s.open_count quiet in
    let (r, word', arms, how) =
      interlock_arm_total s.arm_now ttl s.arm_turns s.expiration_ns quiet' in
    let (o, e, m) =
      first_outcome_total counter_round rounds (Any-map _ _ rounds counter_round-ne-none decided) in
    elim how [
      | inl armed ↦ (
        opened,
        word',
        o,
        rw (raised, arms, armed, e) refl,
        above,
        inr (Any-map _ _ rounds (λ x. counter_round-CounterEnds x o) m),
      )
      | inr (failed, over) ↦ (
        opened,
        word',
        err sdk_interlock_reaped,
        rw (raised, arms, failed) refl,
        above,
        inl (refl, over),
      )
    ]
