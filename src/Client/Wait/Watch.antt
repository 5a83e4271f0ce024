-- ===== src/Client/Wait/Watch.antt =====
-- interlock.rs: `wait_open` and `wait_close` of an owned and an attached interlock and of the clock,
-- which have one body.
use mathlib.Core.Option.{some-injective}
use abacus_rts.Base.{
  ℕ, ◌≤◌, ◌<◌, ◌≡◌, ◌≢◌, ◌⊎◌, ◌||◌, Option, none, some, List, ltb, leb, ◌==◌, if◌then◌else◌, Result,
  ok, err, Any, Any-map, subst, Bool-cases, inl, inr, arith,
}
use abacus_rts.Core.Interlock.Words.{WatchedWord, sentinel}
use abacus_rts.Client.Types.{SdkError, sdk_interlock_reaped}
use abacus_rts.Client.Wait.Rounds.{Round, first_outcome, first_outcome_total}

abbrev pub current : WatchedWord → Round → ℕ
current WatchedWord.open_count r = r.open_count
current WatchedWord.closed_count r = r.closed_count

-- One round: the load of the word, and behind the futex call the expiration and the clock.
unfoldable pub watch_round : WatchedWord → ℕ → Round → Option (Result SdkError ℕ)
watch_round word target r =
    if current word r == sentinel
    then some (err sdk_interlock_reaped)
    else if leb target (current word r)
    then some (ok (current word r))
    else if r.expiration_ns == sentinel || ltb r.expiration_ns r.now_ns
    then some (err sdk_interlock_reaped)
    else none

-- The loop of either wait.
unfoldable pub watch : WatchedWord → ℕ → List Round → Option (Result SdkError ℕ)
unfolding first_outcome watch_round
watch word target rounds = first_outcome (watch_round word target) rounds

unfoldable pub wait_open : ℕ → List Round → Option (Result SdkError ℕ)
unfolding watch
wait_open target rounds = watch WatchedWord.open_count target rounds

unfoldable pub wait_close : ℕ → List Round → Option (Result SdkError ℕ)
unfolding watch
wait_close target rounds = watch WatchedWord.closed_count target rounds

-- The same on an attached interlock, and on the clock.
unfoldable pub attached_wait_open : ℕ → List Round → Option (Result SdkError ℕ)
unfolding watch
attached_wait_open target rounds = watch WatchedWord.open_count target rounds

unfoldable pub attached_wait_close : ℕ → List Round → Option (Result SdkError ℕ)
unfolding watch
attached_wait_close target rounds = watch WatchedWord.closed_count target rounds

unfoldable pub clock_wait_open : ℕ → List Round → Option (Result SdkError ℕ)
unfolding watch
clock_wait_open target rounds = watch WatchedWord.open_count target rounds

unfoldable pub clock_wait_close : ℕ → List Round → Option (Result SdkError ℕ)
unfolding watch
clock_wait_close target rounds = watch WatchedWord.closed_count target rounds

-- The round sees the interlock reaped, freed or lapsed.
abbrev pub SeesEnd : WatchedWord → Round → Type 0
SeesEnd word r =
    (current word r ≡ sentinel) ⊎ ((r.expiration_ns ≡ sentinel) ⊎ (r.expiration_ns < r.now_ns))

-- What a wait for `target` may return, by the round in which it does.
pub data WatchEnds (word : WatchedWord) (target : ℕ) (r : Round) : Result SdkError ℕ → Type 0 where
  reached :
      target ≤ current word r
      → current word r ≢ sentinel
      → WatchEnds word target r (ok (current word r))
  ended : SeesEnd word r → WatchEnds word target r (err sdk_interlock_reaped)

watch_round-WatchEnds :
    (word : WatchedWord) (target : ℕ) (r : Round) (o : Result SdkError ℕ)
    → watch_round word target r ≡ some o
    → WatchEnds word target r o
unfolding watch_round
watch_round-WatchEnds word target r o e = elim (Bool-cases (current word r == sentinel)) [
  | inl reaped ↦ returns (rw reaped at e) (ended (inl (ground arith)))
  | inr running ↦ elim (Bool-cases (leb target (current word r))) [
    | inl there ↦ returns (rw (running, there) at e) (reached (ground arith) (ground arith))
    | inr before ↦ elim (Bool-cases (r.expiration_ns == sentinel || ltb r.expiration_ns r.now_ns)) [
      | inl dead ↦ returns (rw (running, before, dead) at e) (ended (inr (ground arith)))
      | inr alive ↦ absurd (none-ne-some (rw (running, before, alive) at e))
    ]
  ]
]
  where
    none-ne-some : ◌≢◌ {A = Option (Result SdkError ℕ)} none (some o)
    none-ne-some = λ q. cc

    returns :
        {o' : Result SdkError ℕ}
        → some o' ≡ some o
        → WatchEnds word target r o'
        → WatchEnds word target r o
    returns q w = subst (WatchEnds word target r) (some-injective _ _ q) w

watch_round-ne-none :
    (word : WatchedWord) (target : ℕ) (r : Round)
    → (target ≤ current word r) ⊎ SeesEnd word r
    → watch_round word target r ≢ none
unfolding watch_round
watch_round-ne-none word target r h = ground arith

-- A wait for a count returns when some round reads the target or an interlock that is reaped,
-- freed or lapsed; the count it returns was read, is not the sentinel and has reached the target,
-- and it fails only at a round that read the sentinel or a lapsed expiration.
pub watch-WatchEnds :
    (word : WatchedWord) (target : ℕ) (rounds : List Round)
    → Any (λ r. (target ≤ current word r) ⊎ SeesEnd word r) rounds
    → (o : Result SdkError ℕ) × (watch word target rounds ≡ some o)
      × Any (λ r. WatchEnds word target r o) rounds
unfolding watch
watch-WatchEnds word target rounds h =
    let (o, e, m) =
      first_outcome_total (watch_round word target) rounds
        (Any-map _ _ rounds (watch_round-ne-none word target) h) in
    (o, e, Any-map _ _ rounds (λ r. watch_round-WatchEnds word target r o) m)
