-- ===== src/Client/Wait/Rounds.antt =====
-- The waiting loops of the client over the rounds of their readings, and the loop that raises a
-- target.
use abacus_rts.Base.{
  ℕ, ◌≡◌, ◌≢◌, refl, inl, inr, not, ◌&&◌, Option, none, some, List, [], ◌∷◌, ◌++◌, leb, ◌==◌,
  if◌then◌else◌, Result, ok, err, max, All, Any, Any-split, subst, ◌≤◌, ◌⊎◌, Bool-cases,
  Option-cases, arith,
}
use abacus_rts.Core.Error.{interlock_reaped}
use abacus_rts.Core.Interlock.Words.{sentinel}
use abacus_rts.Core.Interlock.Armed.{interlock_arm-Armed}
use abacus_rts.Core.Interlock.Arm.{Turn, Loaded, IsQuiet, ArmResult, interlock_arm, arm_atomic}
use abacus_rts.Client.Types.{SdkError, WaitState}

-- What a wait returns. The abort of the process is a panic.
pub record WaitResult : Type 0 where
  pub completed_at : ℕ
  pub state : WaitState

abbrev pub Outcome : Type 0
Outcome = Result SdkError WaitResult

-- What the loads of the three words and the clock read in one round.
pub record Round : Type 0 where
  pub open_count : ℕ
  pub closed_count : ℕ
  pub expiration_ns : ℕ
  pub now_ns : ℕ

infixl 5 ◌>>=◌
abbrev pub ◌>>=◌ : {A B : Type 0} → Option A → (A → Option B) → Option B
none >>= f = none
some a >>= f = f a

module _ {R A : Type 0} where
  -- The loop whose body is `step`; `none` when it has not returned by the end of the rounds.
  unfoldable pub first_outcome : (R → Option A) → List R → Option A
  first_outcome step [] = none
  first_outcome step (r ∷ rs) =
      let rest = first_outcome step rs in elim (step r) [ some a ↦ some a | none ↦ rest ]

module _ {R A : Type 0} where
  -- A loop that some round ends returns what one of its rounds returns.
  pub first_outcome_total :
      (step : R → Option A) (rs : List R)
      → Any (λ r. step r ≢ none) rs
      → (a : A) × (first_outcome step rs ≡ some a) × Any (λ r. step r ≡ some a) rs
  unfolding first_outcome
  first_outcome_total step [] h = absurd h
  first_outcome_total step (r ∷ rs) h = elim (Option-cases (step r)) [
    | inl q ↦
        let (a, e, m) = first_outcome_total step rs (later q h) in
        (a, rw (q, first_outcome) e, inr m)
    | inr (a, q) ↦ (a, rw (q, first_outcome) refl, inl q)
  ]
    where
      later :
          step r ≡ none
          → (step r ≢ none) ⊎ Any (λ r'. step r' ≢ none) rs
          → Any (λ r'. step r' ≢ none) rs
      later q (inl h) = absurd (h q)
      later q (inr h) = h

  -- While the rounds before it have not returned, a round decides.
  pub first_outcome-append :
      (step : R → Option A) (before after : List R) (r : R) {a : A}
      → All (λ r. step r ≡ none) before
      → step r ≡ some a
      → first_outcome step (before ++ r ∷ after) ≡ some a
  unfolding first_outcome
  first_outcome-append step [] after r h q = rw q
  first_outcome-append step (b ∷ before) after r h q =
      rw h.0 (first_outcome-append step before after r h.1 q)

-- The compare-and-swap loop that raises `open_count` to the target; the word at its end.
unfoldable pub cas_max : ℕ → List Turn → ℕ → Option ℕ
cas_max target [] current = none
cas_max target (t ∷ ts) current =
    let seen = t.between current in
    let again = cas_max target ts (t.after seen) in
    if leb target current
    then some current
    else if seen == current && not t.spurious
    then some target
    else again

-- Whatever other threads do between its steps, a raise that ends has taken the larger of its target
-- and a value that it loaded, as one step.
pub cas_max-max :
    (target : ℕ) (ts : List Turn) (word r : ℕ)
    → cas_max target ts word ≡ some r
    → (v : ℕ) × Loaded ts word v × (r ≡ max v target)
unfolding cas_max
cas_max-max target [] word r e = cc
cas_max-max target (t ∷ ts) word r e = elim (Bool-cases (leb target word)) [
  | inl done ↦ (word, inl refl, ground arith)
  | inr low ↦ elim (Bool-cases (t.between word == word && not t.spurious)) [
    | inl swapped ↦ (word, inl refl, ground arith)
    | inr lost ↦
        let (v, seen, q) = cas_max-max target ts (t.after (t.between word)) r (ground arith) in
        (v, inr seen, q)
  ]
]

pub cas_max-ne-none :
    (target : ℕ) (ts us : List Turn) (q : Turn) (word : ℕ)
    → IsQuiet q
    → cas_max target (ts ++ q ∷ us) word ≢ none
unfolding cas_max
cas_max-ne-none target [] us q word h = ground (arith, h.unchanged word)
cas_max-ne-none target (t ∷ ts) us q word h =
    ground (arith, cas_max-ne-none target ts us q (t.after (t.between word)) h)

-- A raise among whose turns is a quiet one ends, with at least its target in the word.
pub cas_max_total :
    (target : ℕ) (ts : List Turn) (word : ℕ)
    → Any IsQuiet ts
    → (opened : ℕ) × (cas_max target ts word ≡ some opened) × (target ≤ opened)
cas_max_total target ts word h =
    let (before, q, after, split, quiet) = Any-split IsQuiet ts h in
    elim (Option-cases (cas_max target ts word)) [
      | inl e ↦ absurd (
          cas_max-ne-none target before after q word quiet
            (subst (λ us. cas_max target us word ≡ none) split e))
      | inr (opened, e) ↦
          let (v, seen, larger) = cas_max-max target ts word opened e in
          (opened, e, omega (arith, larger))
    ]

-- An arming among whose turns is a quiet one ends, and fails only at the sentinel.
pub interlock_arm_total :
    (now ttl : ℕ) (ts : List Turn) (word : ℕ)
    → Any IsQuiet ts
    → (r : ArmResult) × (word' : ℕ) × (interlock_arm now ttl ts word ≡ some (r, word'))
      × ((r ≡ ok tt) ⊎ ((r ≡ err interlock_reaped) × (word' ≡ sentinel)))
unfolding arm_atomic
interlock_arm_total now ttl ts word h =
    let (r, e, a) = interlock_arm-Armed now ttl ts word h in (r.0, r.1, e, ground (arith, a.step))
