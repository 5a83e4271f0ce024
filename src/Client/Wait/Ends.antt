-- ===== src/Client/Wait/Ends.antt =====
-- How the waits of a cron and of a barrier end.
use mathlib.Core.Option.{some-injective}
use abacus_rts.Base.{
  ℕ, ◌≤◌, ◌<◌, ◌≡◌, ◌≢◌, ◌∙◌, ◌⊎◌, inl, inr, false, not, ◌&&◌, ◌||◌, Bool-cases, Option, none, some,
  List, ltb, leb, ◌==◌, if◌then◌else◌, ok, err, Any, Any-map, subst, arith,
}
use abacus_rts.Base.U64.{wrapping_sub_i64, is_positive}
use abacus_rts.Core.Interlock.Words.{sentinel}
use abacus_rts.Client.Types.{sdk_interlock_reaped, normal, overrun}
use abacus_rts.Client.Wait.Rounds.{Outcome, Round, first_outcome_total}
use abacus_rts.Client.Wait.Cron.{fired_state, cron_round, wait_fired}
use abacus_rts.Client.Wait.Barrier.{BarrierRound, barrier_round, wait_met}

none-ne-some : (o : Outcome) → ◌≢◌ {A = Option Outcome} none (some o)
none-ne-some o = λ q. cc

-- The expiration is the sentinel or lies before the clock's reading.
abbrev pub IsLapsed : Round → Type 0
IsLapsed r = (r.expiration_ns ≡ sentinel) ⊎ (r.expiration_ns < r.now_ns)

-- The result of a cron's wait by the round in which it ends.
pub data CronEnds (initial : ℕ) (r : Round) : Outcome → Type 0 where
  fired :
      r.closed_count ≢ sentinel
      → initial < r.closed_count
      → CronEnds initial r (
          ok (record {
            completed_at = r.closed_count;
            state = if ltb r.open_count r.closed_count then overrun else normal;
          }))
  reaped :
      (r.closed_count ≡ sentinel) ⊎ ((r.closed_count ≤ initial) × IsLapsed r)
      → CronEnds initial r (err sdk_interlock_reaped)

cron_round-CronEnds :
    (initial : ℕ) (r : Round) (o : Outcome) → cron_round initial r ≡ some o → CronEnds initial r o
unfolding cron_round fired_state
cron_round-CronEnds initial r o e = elim (Bool-cases (r.closed_count == sentinel)) [
  | inl over ↦ returns (rw over at e) (reaped (inl (ground arith)))
  | inr running ↦ elim (Bool-cases (ltb initial r.closed_count)) [
    | inl advanced ↦
        subst (λ s. CronEnds initial r s) (some-injective _ _ (state ∙ rw (running, advanced) at e))
          (fired (ground arith) (ground arith))
    | inr waits ↦ elim (Bool-cases (r.expiration_ns == sentinel || ltb r.expiration_ns r.now_ns)) [
      | inl dead ↦
          returns (rw (running, waits, dead) at e) (reaped (inr (ground arith, ground arith)))
      | inr alive ↦ absurd (none-ne-some o (rw (running, waits, alive) at e))
    ]
  ]
]
  where
    returns : {o' : Outcome} → some o' ≡ some o → CronEnds initial r o' → CronEnds initial r o
    returns q w = subst (CronEnds initial r) (some-injective _ _ q) w

    state :
        ◌≡◌ {A = Option Outcome}
          (some (
            ok (record {
              completed_at = r.closed_count;
              state = if ltb r.open_count r.closed_count then overrun else normal;
            })))
          (some (
            ok (record {
              completed_at = r.closed_count;
              state =
                  if leb r.open_count r.closed_count
                  then (if r.closed_count == r.open_count then normal else overrun)
                  else normal;
            })))
    state = ground arith

cron_round-ne-none :
    (initial : ℕ) (r : Round)
    → (initial < r.closed_count) ⊎ IsLapsed r
    → cron_round initial r ≢ none
unfolding cron_round
cron_round-ne-none initial r h = ground arith

-- A wait of a cron ends when some round reads a closed_count above the one at its entry, or an
-- expiration that is the sentinel or has lapsed. It ends as some round shows: with a closed_count
-- above the one at the entry, which is not the sentinel, as overrun when it is above open_count
-- and normal otherwise; or with InterlockReaped at a closed_count that is the sentinel, or has not
-- moved while the expiration is the sentinel or has lapsed.
pub wait_fired-CronEnds :
    (initial : ℕ) (rounds : List Round)
    → Any (λ r. (initial < r.closed_count) ⊎ IsLapsed r) rounds
    → (o : Outcome) × (wait_fired initial rounds ≡ some o) × Any (λ r. CronEnds initial r o) rounds
unfolding wait_fired
wait_fired-CronEnds initial rounds h =
    let (o, e, m) =
      first_outcome_total (cron_round initial) rounds
        (Any-map _ _ rounds (cron_round-ne-none initial) h) in
    (o, e, Any-map _ _ rounds (λ r. cron_round-CronEnds initial r o) m)

-- The counters show that the barrier has fired.
abbrev pub IsStamped : Round → Type 0
IsStamped r =
    (is_positive (wrapping_sub_i64 r.open_count r.closed_count) ≡ false) × (0 < r.closed_count)

-- Some word is the sentinel.
abbrev pub IsOver : Round → Type 0
IsOver r = (r.expiration_ns ≡ sentinel) ⊎ ((r.closed_count ≡ sentinel) ⊎ (r.open_count ≡ sentinel))

-- The result of a barrier's wait by the round in which it ends.
pub data BarrierEnds (r : BarrierRound) : Outcome → Type 0 where
  met :
      IsStamped r.first
      → BarrierEnds r (
          ok (record {
            completed_at = r.first.closed_count;
            state = if r.first.closed_count == r.first.open_count then normal else overrun;
          }))
  reaped : IsOver r.first ⊎ IsLapsed r.again → BarrierEnds r (err sdk_interlock_reaped)

barrier_round-BarrierEnds :
    (r : BarrierRound) (o : Outcome) → barrier_round r ≡ some o → BarrierEnds r o
unfolding barrier_round
barrier_round-BarrierEnds r o e =
    elim (Bool-cases (
      not (is_positive (wrapping_sub_i64 r.first.open_count r.first.closed_count))
      && ltb 0 r.first.closed_count)) [
        | inl stamped ↦ returns (rw stamped at e) (met (ground arith))
        | inr waits ↦
            elim (Bool-cases (
              r.first.expiration_ns == sentinel
              || r.first.closed_count == sentinel
              || r.first.open_count == sentinel)) [
                | inl over ↦ returns (rw (waits, over) at e) (reaped (inl (ground arith)))
                | inr running ↦
                    elim (Bool-cases (
                      r.again.expiration_ns == sentinel
                      || ltb r.again.expiration_ns r.again.now_ns)) [
                        | inl dead ↦
                            returns (rw (waits, running, dead) at e) (reaped (inr (ground arith)))
                        | inr alive ↦ absurd (none-ne-some o (rw (waits, running, alive) at e))
                      ]
              ]
      ]
  where
    returns : {o' : Outcome} → some o' ≡ some o → BarrierEnds r o' → BarrierEnds r o
    returns q w = subst (BarrierEnds r) (some-injective _ _ q) w

barrier_round-ne-none :
    (r : BarrierRound)
    → IsStamped r.first ⊎ (IsOver r.first ⊎ IsLapsed r.again)
    → barrier_round r ≢ none
unfolding barrier_round
barrier_round-ne-none r h = ground arith

-- A barrier.
pub wait_met-BarrierEnds :
    (rounds : List BarrierRound)
    → Any (λ r. IsStamped r.first ⊎ (IsOver r.first ⊎ IsLapsed r.again)) rounds
    → (o : Outcome) × (wait_met rounds ≡ some o) × Any (λ r. BarrierEnds r o) rounds
unfolding wait_met
wait_met-BarrierEnds rounds h =
    let (o, e, m) =
      first_outcome_total barrier_round rounds (Any-map _ _ rounds barrier_round-ne-none h) in
    (o, e, Any-map _ _ rounds (λ r. barrier_round-BarrierEnds r o) m)
