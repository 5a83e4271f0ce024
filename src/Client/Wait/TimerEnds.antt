-- ===== src/Client/Wait/TimerEnds.antt =====
-- How a wait of a timer ends.
use mathlib.Core.Option.{some-injective}
use abacus_rts.Base.{
  ℕ, ◌≤◌, ◌<◌, ◌≡◌, ◌≢◌, refl, ◌⊎◌, inl, inr, Bool-cases, Option, none, some, List, ltb, leb, ◌==◌,
  if◌then◌else◌, ok, err, panic, Any, Any-map, subst, arith,
}
use abacus_rts.Base.U64.{wrapping_add, saturating_add, saturating_mul}
use abacus_rts.Core.Clock.{ms_to_nanos}
use abacus_rts.Core.Interlock.Words.{sentinel}
use abacus_rts.Core.Interlock.Arm.{IsQuiet}
use abacus_rts.Client.Types.{sdk_interlock_reaped, normal, overrun, check_wake_state}
use abacus_rts.Client.Wait.Rounds.{
  Outcome, Round, first_outcome_total, cas_max_total, interlock_arm_total,
}
use abacus_rts.Client.Wait.Counter.{delivered, Setup}
use abacus_rts.Client.Wait.Timer.{timer_check, timer_round, wait_ms}

-- The wait's result by the round in which it ends: delivered as soon as both counters show it;
-- reaped by the sentinel, or by an expiration that lapsed before the deadline did; aborted at the
-- deadline while the interlock was alive.
pub data TimerEnds (deadline_ns : ℕ) (r : Round) : Outcome → Type 0 where
  fired :
      r.open_count ≤ r.closed_count
      → TimerEnds deadline_ns r (
          ok (record {
            completed_at = r.closed_count;
            state = if r.closed_count == r.open_count then normal else overrun;
          }))
  reaped :
      r.closed_count < r.open_count
      → (r.expiration_ns ≡ sentinel) ⊎ ((deadline_ns ≤ r.now_ns) × (r.expiration_ns < r.now_ns))
      → TimerEnds deadline_ns r (err sdk_interlock_reaped)
  aborted :
      r.closed_count < r.open_count
      → r.expiration_ns ≢ sentinel
      → deadline_ns ≤ r.now_ns
      → r.now_ns ≤ r.expiration_ns
      → TimerEnds deadline_ns r panic

pub delivered_fired :
    (r : Round)
    → r.open_count ≤ r.closed_count
    → delivered r
      ≡ some (
          ok (record {
            completed_at = r.closed_count;
            state = if r.closed_count == r.open_count then normal else overrun;
          }))
unfolding delivered check_wake_state
delivered_fired r h = ground arith

pub delivered_waiting : (r : Round) → r.closed_count < r.open_count → delivered r ≡ none
unfolding delivered check_wake_state
delivered_waiting r h = ground arith

pub timer_round_fired :
    (d : ℕ) (r : Round)
    → r.open_count ≤ r.closed_count
    → timer_round d r
      ≡ some (
          ok (record {
            completed_at = r.closed_count;
            state = if r.closed_count == r.open_count then normal else overrun;
          }))
unfolding timer_round
timer_round_fired d r h = rw (timer_round, delivered_fired r h) refl

pub timer_round_waiting :
    (d : ℕ) (r : Round) → r.closed_count < r.open_count → timer_round d r ≡ timer_check d r
unfolding timer_round timer_check
timer_round_waiting d r h = rw (timer_round, delivered_waiting r h) refl

timer_check-TimerEnds :
    (d : ℕ) (r : Round) (o : Outcome)
    → r.closed_count < r.open_count
    → timer_check d r ≡ some o
    → TimerEnds d r o
unfolding timer_check
timer_check-TimerEnds d r o h e = elim (Bool-cases (r.expiration_ns == sentinel)) [
  | inl dead ↦ returns (rw dead at e) (reaped h (inl (ground arith)))
  | inr live ↦ elim (Bool-cases (leb d r.now_ns)) [
    | inr early ↦ absurd (none-ne-some (rw (live, early) at e))
    | inl late ↦ elim (Bool-cases (ltb r.expiration_ns r.now_ns)) [
      | inl lapsed ↦ returns (rw (live, late, lapsed) at e) (reaped h (inr (ground arith)))
      | inr alive ↦
          returns (rw (live, late, alive) at e)
            (aborted h (ground arith) (ground arith) (ground arith))
    ]
  ]
]
  where
    none-ne-some : ◌≢◌ {A = Option Outcome} none (some o)
    none-ne-some = λ q. cc

    returns : {o' : Outcome} → some o' ≡ some o → TimerEnds d r o' → TimerEnds d r o
    returns q w = subst (TimerEnds d r) (some-injective _ _ q) w

timer_round-TimerEnds :
    (d : ℕ) (r : Round) (o : Outcome) → timer_round d r ≡ some o → TimerEnds d r o
unfolding timer_round
timer_round-TimerEnds d r o e = elim (Bool-cases (leb r.open_count r.closed_count)) [
  | inl there ↦
      subst (TimerEnds d r)
        (some-injective _ _ (rw (delivered_fired r (ground arith), timer_round) at e))
        (fired (ground arith))
  | inr before ↦
      let waiting : r.closed_count < r.open_count = ground arith in
      timer_check-TimerEnds d r o waiting (rw (delivered_waiting r waiting, timer_round) at e)
]

timer_round-ne-none : (d : ℕ) (r : Round) → d ≤ r.now_ns → timer_round d r ≢ none
unfolding timer_round timer_check delivered check_wake_state
timer_round-ne-none d r h = ground arith

-- A wait of a timer ends when the two loops on the words have a quiet turn and some round reads
-- the deadline of twice the duration or later; the target is then at least written, and the wait
-- has failed at an expiration that is the sentinel, or has returned what some round shows: a
-- delivery when closed_count has reached open_count, a reap by the sentinel or by an expiration
-- that lapsed by the deadline, an abort at the deadline otherwise.
pub wait_ms-TimerEnds :
    (clock_now ms deadline_now : ℕ) (s : Setup) (rounds : List Round)
    → Any IsQuiet s.open_turns
    → Any IsQuiet s.arm_turns
    → Any (λ r. saturating_add deadline_now (ms_to_nanos (saturating_mul ms 2)) ≤ r.now_ns) rounds
    → (opened : ℕ) × (expiration_ns : ℕ) × (o : Outcome) × (wait_ms clock_now ms deadline_now s
          rounds
        ≡ some (opened, expiration_ns, some o))
      × (wrapping_add clock_now ms ≤ opened)
      × (((o ≡ err sdk_interlock_reaped) × (expiration_ns ≡ sentinel))
          ⊎ Any
              (λ r. TimerEnds (saturating_add deadline_now (ms_to_nanos (saturating_mul ms 2))) r o)
              rounds)
unfolding wait_ms
wait_ms-TimerEnds clock_now ms deadline_now s rounds quiet quiet' late =
    let ttl = ms_to_nanos (saturating_mul ms 2) in
    let d = saturating_add deadline_now ttl in
    let (opened, raised, above) =
      cas_max_total (wrapping_add clock_now ms) s.open_turns s.open_count quiet in
    let (r, word', arms, how) =
      interlock_arm_total s.arm_now ttl s.arm_turns s.expiration_ns quiet' in
    let (o, e, m) =
      first_outcome_total (timer_round d) rounds
        (Any-map _ _ rounds (timer_round-ne-none d) late) in
    elim how [
      | inl armed ↦ (
        opened,
        word',
        o,
        rw (raised, arms, armed, e) refl,
        above,
        inr (Any-map _ _ rounds (λ x. timer_round-TimerEnds d x o) m),
      )
      | inr (failed, over) ↦ (
        opened,
        word',
        err sdk_interlock_reaped,
        rw (raised, arms, failed) refl,
        above,
        inl (refl, over),
      )
    ]
