-- ===== src/Client/Wait/RaceEnds.antt =====
-- How a race ends.
use abacus_rts.Base.{
  ℕ, suc, ◌+◌, ◌≤◌, ◌<◌, ◌≡◌, refl, ap, ◌⊎◌, inl, inr, Bool-cases, none, some, List, [], ◌∷◌, ◌++◌,
  map, get_elem?, take, ltb, All, Any, arith,
}
use abacus_rts.Client.Types.{check_wake_state}
use abacus_rts.Client.Wait.Rounds.{WaitResult, first_outcome}
use abacus_rts.Client.Wait.Race.{race_round, wait_first}

-- No counter's `closed_count` is above its snapshot.
abbrev pub Still : List ℕ → List (ℕ × ℕ) → Type 0
Still [] peeks = Unit {0}
Still (c ∷ initial) [] = Unit {0}
Still (c ∷ initial) (p ∷ peeks) = (p.1 ≤ c) × Still initial peeks

-- The counter with the index is the first one above its snapshot.
pub record Leads (initial : List ℕ) (peeks : List (ℕ × ℕ)) (index : ℕ) (result : WaitResult)
    : Type 0 where
  pub snapshot : ℕ
  pub opened : ℕ
  pub closed : ℕ
  pub started : get_elem? initial index ≡ some snapshot
  pub reads : get_elem? peeks index ≡ some (opened, closed)
  pub advanced : snapshot < closed
  pub shows : result ≡ record { completed_at = closed; state = check_wake_state opened closed }
  pub others : Still (take index initial) (take index peeks)

-- Some counter is above its snapshot.
abbrev pub Advances : List ℕ → List (ℕ × ℕ) → Type 0
Advances [] peeks = ⊥
Advances (c ∷ initial) [] = ⊥
Advances (c ∷ initial) (p ∷ peeks) = (c < p.1) ⊎ Advances initial peeks

-- A poll at which nothing has advanced decides nothing; any other finds the first counter that has.
race_round-Leads :
    (i : ℕ) (initial : List ℕ) (peeks : List (ℕ × ℕ))
    → ((race_round i initial peeks ≡ none) × Still initial peeks)
      ⊎ ((index : ℕ) × (result : WaitResult) × (race_round i initial peeks
            ≡ some (i + index, result))
          × Leads initial peeks index result)
unfolding race_round
race_round-Leads i [] peeks = inl (refl, tt)
race_round-Leads i (c ∷ initial) [] = inl (refl, tt)
race_round-Leads i (c ∷ initial) ((opened, closed) ∷ peeks) = elim (Bool-cases (ltb c closed)) [
  | inl won ↦ inr (
    0,
    record { completed_at = closed; state = check_wake_state opened closed },
    rw won (ap (λ k. some (k, _)) (omega arith)),
    record {
      snapshot = c;
      opened = opened;
      closed = closed;
      started = refl;
      reads = refl;
      advanced = ground arith;
      shows = refl;
      others = tt;
    },
  )
  | inr waits ↦ elim (race_round-Leads (suc i) initial peeks) [
    | inl (q, still) ↦ inl (rw (waits, q) refl, (ground arith, still))
    | inr (index, result, q, l) ↦ inr (
      suc index,
      result,
      rw (waits, q) (ap (λ k. some (k, result)) (omega arith)),
      record {
        snapshot = l.snapshot;
        opened = l.opened;
        closed = l.closed;
        started = l.started;
        reads = l.reads;
        advanced = l.advanced;
        shows = l.shows;
        others = (ground arith, l.others);
      },
    )
  ]
]

Still-Advances :
    (initial : List ℕ) (peeks : List (ℕ × ℕ)) → Still initial peeks → Advances initial peeks → ⊥
Still-Advances [] peeks s a = a
Still-Advances (c ∷ initial) [] s a = a
Still-Advances (c ∷ initial) (p ∷ peeks) s (inl h) = omega (arith, s.0)
Still-Advances (c ∷ initial) (p ∷ peeks) s (inr a) = Still-Advances initial peeks s.1 a

-- A race over polls.
abbrev pub closed_counts : List (ℕ × ℕ) → List ℕ
closed_counts entry = map (λ p. p.1) entry

pub record RaceEnds (initial : List ℕ) (polls : List (List (ℕ × ℕ))) (index : ℕ)
    (result : WaitResult) : Type 0 where
  pub before : List (List (ℕ × ℕ))
  pub poll : List (ℕ × ℕ)
  pub after : List (List (ℕ × ℕ))
  pub split : polls ≡ before ++ poll ∷ after
  pub waits : All (Still initial) before
  pub leads : Leads initial poll index result

race_polls :
    (initial : List ℕ) (polls : List (List (ℕ × ℕ)))
    → Any (Advances initial) polls
    → (index : ℕ) × (result : WaitResult) × (first_outcome (race_round 0 initial) polls
        ≡ some (index, result))
      × RaceEnds initial polls index result
unfolding first_outcome
race_polls initial [] h = absurd h
race_polls initial (poll ∷ polls) h = elim (race_round-Leads 0 initial poll) [
  | inl (q, still) ↦
      let (index, result, e, ends) = race_polls initial polls (later still h) in
      (
        index,
        result,
        rw (q, first_outcome) e,
        record {
          before = poll ∷ ends.before;
          poll = ends.poll;
          after = ends.after;
          split = ap (◌∷◌ poll) ends.split;
          waits = (still, ends.waits);
          leads = ends.leads;
        },
      )
  | inr (index, result, q, l) ↦ (
    index,
    result,
    rw (q, first_outcome) (ap (λ k. some (k, result)) (omega arith)),
    record { before = []; poll = poll; after = polls; split = refl; waits = tt; leads = l },
  )
]
  where
    later :
        Still initial poll
        → Advances initial poll ⊎ Any (Advances initial) polls
        → Any (Advances initial) polls
    later s (inl a) = absurd (Still-Advances initial poll s a)
    later s (inr a) = a

-- A race returns when some poll reads a closed_count above the one at its entry, at the first such
-- poll, with the first such counter of that poll, its closed_count and its wake state.
pub wait_first-RaceEnds :
    (entry : List (ℕ × ℕ)) (polls : List (List (ℕ × ℕ)))
    → Any (Advances (closed_counts entry)) polls
    → (index : ℕ) × (result : WaitResult) × (wait_first entry polls ≡ some (index, result))
      × RaceEnds (closed_counts entry) polls index result
unfolding wait_first
wait_first-RaceEnds entry polls h = race_polls (closed_counts entry) polls h

-- A race over no counters.
wait_first-nil : (polls : List (List (ℕ × ℕ))) → wait_first [] polls ≡ none
unfolding wait_first first_outcome race_round
wait_first-nil [] = refl
wait_first-nil (poll ∷ polls) = wait_first-nil polls
