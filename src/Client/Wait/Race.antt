-- ===== src/Client/Wait/Race.antt =====
-- wait_race.rs.
use abacus_rts.Base.{
  ℕ, suc, Bool, Option, none, some, List, [], ◌∷◌, map, length, ltb, ◌==◌, if◌then◌else◌,
}
use abacus_rts.Client.Types.{check_wake_state}
use abacus_rts.Client.Wait.Rounds.{WaitResult, first_outcome}

-- A poll of the counters: what `peek` gives for each. The first one whose `closed_count` is above
-- its snapshot, with its index from `i`.
unfoldable pub race_round : ℕ → List ℕ → List (ℕ × ℕ) → Option (ℕ × WaitResult)
unfolding check_wake_state
race_round i [] peeks = none
race_round i (c ∷ initial) [] = none
race_round i (c ∷ initial) ((opened, closed) ∷ peeks) =
    let rest = race_round (suc i) initial peeks in
    if ltb c closed
    then some (i, record { completed_at = closed; state = check_wake_state opened closed })
    else rest

-- `wait` of a race: the counters at its entry, then those of each poll.
unfoldable pub wait_first : List (ℕ × ℕ) → List (List (ℕ × ℕ)) → Option (ℕ × WaitResult)
unfolding first_outcome race_round
wait_first entry polls = first_outcome (race_round 0 (map (λ p. p.1) entry)) polls

unfoldable pub race_len : List (ℕ × ℕ) → ℕ
race_len counters = length counters

unfoldable pub is_empty : List (ℕ × ℕ) → Bool
is_empty counters = length counters == 0
