-- ===== src/Core/Interlock/Armed.antt =====
-- How the loop of `interlock_arm` ends: the instant at which the arm is done, among what the other
-- threads do to the word.
use abacus_rts.Base.{
  ℕ, ◌≤◌, ◌<◌, ◌≡◌, ◌≢◌, refl, ap, ◌⊎◌, inl, inr, true, false, not, ◌&&◌, ◌==◌, none, some, List,
  [], ◌∷◌, ◌++◌, ok, err, max, All, All-map, Any, Any-split, Bool-cases, Option-cases, subst, arith,
}
use mathlib.Core.Option.{some-injective}
use abacus_rts.Base.U64.{wrapping_add}
use abacus_rts.Core.Error.{interlock_reaped}
use abacus_rts.Core.Interlock.Words.{sentinel}
use abacus_rts.Core.Interlock.Arm.{
  Turn, ArmResult, IsQuiet, IsForward, interlock_arm, arm_loop, arm_atomic, arm_loop-ne-none,
}

-- The word after turns in which the other threads alone have written it.
abbrev pub word_at : List Turn → ℕ → ℕ
word_at [] word = word
word_at (t ∷ ts) word = word_at ts (t.after (t.between word))

-- All of its values until then.
abbrev pub instants : List Turn → ℕ → List ℕ
instants [] word = word ∷ []
instants (t ∷ ts) word = word ∷ t.between word ∷ instants ts (t.after (t.between word))

-- Turns in each of which there was something to raise, and the exchange failed: somebody had
-- changed the word since the load, or it failed for no reason.
abbrev pub Lost : ℕ → List Turn → ℕ → Type 0
Lost deadline [] word = Unit {0}
Lost deadline (t ∷ ts) word =
    (word ≢ sentinel)
    × (word < deadline)
    × ((t.between word ≢ word) ⊎ (t.spurious ≡ true))
    × Lost deadline ts (t.after (t.between word))

-- The arm is done in the first turn that it does not lose. It is the indivisible step at the value
-- that is loaded in this turn, and either leaves the word, or exchanges it while it still has
-- that value.
pub record Armed (deadline : ℕ) (ts : List Turn) (word : ℕ) (r : ArmResult × ℕ) : Type 0 where
  pub before : List Turn
  pub turn : Turn
  pub after : List Turn
  pub split : ts ≡ before ++ turn ∷ after
  pub lost : Lost deadline before word
  pub step : r ≡ arm_atomic deadline (word_at before word)
  pub stored :
      (r.1 ≡ word_at before word)
      ⊎ ((turn.between (word_at before word) ≡ word_at before word) × (turn.spurious ≡ false))

-- A turn that ends the loop, and one that is lost.
ended :
    {deadline : ℕ} {t : Turn} {ts : List Turn} {word : ℕ} {r r' : ArmResult × ℕ}
    → some r' ≡ some r
    → r' ≡ arm_atomic deadline word
    → (r'.1 ≡ word) ⊎ ((t.between word ≡ word) × (t.spurious ≡ false))
    → Armed deadline (t ∷ ts) word r
ended {deadline} {t} {ts} {word} q step stored =
    subst (Armed deadline (t ∷ ts) word) (some-injective _ _ q) (record {
      before = [];
      turn = t;
      after = ts;
      split = refl;
      lost = tt;
      step = step;
      stored = stored;
    })

one_lost :
    {deadline : ℕ} {t : Turn} {ts : List Turn} {word : ℕ} {r : ArmResult × ℕ}
    → word ≢ sentinel
    → word < deadline
    → (t.between word ≢ word) ⊎ (t.spurious ≡ true)
    → Armed deadline ts (t.after (t.between word)) r
    → Armed deadline (t ∷ ts) word r
one_lost {t = t} live low missed a = record {
  before = t ∷ a.before;
  turn = a.turn;
  after = a.after;
  split = ap (◌∷◌ t) a.split;
  lost = (live, low, missed, a.lost);
  step = a.step;
  stored = a.stored;
}

arm_loop-Armed :
    (deadline : ℕ) (ts : List Turn) (word : ℕ) (r : ArmResult × ℕ)
    → arm_loop deadline ts word ≡ some r
    → Armed deadline ts word r
unfolding arm_loop arm_atomic
arm_loop-Armed deadline [] word r e = cc
arm_loop-Armed deadline (t ∷ ts) word r e = elim (Bool-cases (word == sentinel)) [
  | inl dead ↦ ended (rw dead at e) (rw dead refl) (inl refl)
  | inr live ↦ elim (Bool-cases (max word deadline == word)) [
    | inl far ↦ ended (rw (live, far) at e) (ground arith) (inl refl)
    | inr near ↦ elim (Bool-cases (t.between word == word && not t.spurious)) [
      | inl swapped ↦
          ended (rw (live, near, swapped) at e) (rw live refl) (inr (ground arith, ground arith))
      | inr failed ↦
          one_lost (ground arith) (ground arith) (missed failed)
            (arm_loop-Armed deadline ts (t.after (t.between word)) r (rw (live, near, failed) at e))
    ]
  ]
]
  where
    missed :
        (t.between word == word && not t.spurious) ≡ false
        → (t.between word ≢ word) ⊎ (t.spurious ≡ true)
    missed failed = elim (Bool-cases t.spurious) [
      | inl weak ↦ inr weak
      | inr strong ↦ inl (ground arith)
    ]

-- An arm ends when in some turn no other thread interferes and the weak exchange does not fail
-- spuriously. Whatever other threads do to the word, it is then done in the first turn that it
-- does not lose, as the indivisible step at the value loaded there: it leaves the word, or
-- exchanges it while it still has that value.
pub interlock_arm-Armed :
    (now ttl : ℕ) (ts : List Turn) (word : ℕ)
    → Any IsQuiet ts
    → (r : ArmResult × ℕ) × (interlock_arm now ttl ts word ≡ some r)
      × Armed (wrapping_add now ttl) ts word r
unfolding interlock_arm
interlock_arm-Armed now ttl ts word h =
    let (before, q, after, split, quiet) = Any-split IsQuiet ts h in
    elim (Option-cases (interlock_arm now ttl ts word)) [
      | inl e ↦ absurd (
          arm_loop-ne-none (wrapping_add now ttl) before after q word quiet
            (subst (λ us. arm_loop (wrapping_add now ttl) us word ≡ none) split e))
      | inr (r, e) ↦ (r, e, arm_loop-Armed (wrapping_add now ttl) ts word r e)
    ]

All-first : {A : Type 0} (P : A → Type 0) (xs ys : List A) → All P (xs ++ ys) → All P xs
All-first P [] ys h = tt
All-first P (x ∷ xs) ys h = (h.0, All-first P xs ys h.1)

word_at-IsForward : (ts : List Turn) (word : ℕ) → All IsForward ts → word ≤ word_at ts word
word_at-IsForward [] word h = omega arith
word_at-IsForward (t ∷ ts) word h = omega (
  arith,
  h.0.between_le word,
  h.0.after_le (t.between word),
  word_at-IsForward ts (t.after (t.between word)) h.1,
)

instants-IsForward :
    (ts : List Turn) (word : ℕ)
    → All IsForward ts
    → All (λ v. v ≤ word_at ts word) (instants ts word)
instants-IsForward [] word h = (omega arith, tt)
instants-IsForward (t ∷ ts) word h =
    let later = word_at-IsForward ts (t.after (t.between word)) h.1 in
    (
      omega (arith, h.0.between_le word, h.0.after_le (t.between word), later),
      (
        omega (arith, h.0.after_le (t.between word), later),
        instants-IsForward ts (t.after (t.between word)) h.1,
      ),
    )

arm_atomic_raises :
    (deadline word : ℕ)
    → (word ≤ (arm_atomic deadline word).1)
      × ((((arm_atomic deadline word).0 ≡ ok tt) × (deadline ≤ (arm_atomic deadline word).1))
          ⊎ (((arm_atomic deadline word).0 ≡ err interlock_reaped)
              × ((arm_atomic deadline word).1 ≡ sentinel)))
unfolding arm_atomic
arm_atomic_raises deadline word = ground arith

-- Among threads that never lower the word, and leave some turn of an arm alone, the arm ends, and
-- the word that it leaves, or exchanges for the unchanged one that it has loaded, is not below any
-- value that the word has had from the first load to that one; an arm that succeeds leaves at
-- least its deadline, and one that fails leaves the sentinel.
pub interlock_arm_forward :
    (now ttl : ℕ) (ts : List Turn) (word : ℕ)
    → Any IsQuiet ts
    → All IsForward ts
    → (r : ArmResult × ℕ) × (interlock_arm now ttl ts word ≡ some r)
      × (a : Armed (wrapping_add now ttl) ts word r) × All (λ v. v ≤ r.1) (instants a.before word)
      × (((r.0 ≡ ok tt) × (wrapping_add now ttl ≤ r.1))
          ⊎ ((r.0 ≡ err interlock_reaped) × (r.1 ≡ sentinel)))
interlock_arm_forward now ttl ts word quiet forward =
    let (r, e, a) = interlock_arm-Armed now ttl ts word quiet in
    let (above, ends) = arm_atomic_raises (wrapping_add now ttl) (word_at a.before word) in
    let earlier : All IsForward a.before =
      All-first IsForward a.before (a.turn ∷ a.after) (subst (All IsForward) a.split forward) in
    (
      r,
      e,
      a,
      All-map _ _ (instants a.before word) (λ v le. rw a.step (omega (arith, le, above)))
          (instants-IsForward a.before word earlier),
      rw a.step ends,
    )
