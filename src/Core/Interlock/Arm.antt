-- ===== src/Core/Interlock/Arm.antt =====
-- `interlock_arm`: the compare-and-swap loop that extends an expiration, among other threads.
use abacus_rts.Base.{
  ℕ, ◌≤◌, ◌≡◌, ◌≢◌, ◌⊎◌, Bool, false, not, ◌&&◌, Option, none, some, List, [], ◌∷◌, ◌++◌, ◌==◌,
  if◌then◌else◌, Result, ok, err, arith, max,
}
use abacus_rts.Base.U64.{wrapping_add}
use abacus_rts.Core.Error.{Condition, interlock_reaped}
use abacus_rts.Core.Interlock.Words.{sentinel}

abbrev pub ArmResult : Type 0
ArmResult = Result Condition (Unit {0})

-- What happens around one round of the loop: what the other threads do to the word between the
-- load and the compare-exchange, whether the weak compare-exchange fails for no reason, and what
-- the others do before the next load.
pub record Turn : Type 0 where
  pub between : ℕ → ℕ
  pub spurious : Bool
  pub after : ℕ → ℕ

-- The loop over the turns that the schedule gives it; `none` when it has not ended by then.
unfoldable pub arm_loop : ℕ → List Turn → ℕ → Option (ArmResult × ℕ)
arm_loop deadline [] current = none
arm_loop deadline (t ∷ ts) current =
    let target = max current deadline in
    let seen = t.between current in
    let again = arm_loop deadline ts (t.after seen) in
    if current == sentinel
    then some (err interlock_reaped, current)
    else if target == current
    then some (ok tt, current)
    else if seen == current && not t.spurious
    then some (ok tt, target)
    else again

-- `interlock_arm`, from the word's value at its first load.
unfoldable pub interlock_arm : ℕ → ℕ → List Turn → ℕ → Option (ArmResult × ℕ)
unfolding arm_loop
interlock_arm now ttl_nanos ts word = arm_loop (wrapping_add now ttl_nanos) ts word

-- The same as one indivisible step.
unfoldable pub arm_atomic : ℕ → ℕ → ArmResult × ℕ
arm_atomic deadline word =
    if word == sentinel then (err interlock_reaped, word) else (ok tt, max word deadline)

-- The word has the value `v` at the load of some turn.
abbrev pub Loaded : List Turn → ℕ → ℕ → Type 0
Loaded [] word v = ⊥
Loaded (t ∷ ts) word v = (v ≡ word) ⊎ Loaded ts (t.after (t.between word)) v

-- A turn in which nobody interferes.
pub record IsQuiet (t : Turn) : Type 0 where
  pub unchanged : (v : ℕ) → t.between v ≡ v
  pub swaps : t.spurious ≡ false

-- The other threads never lower the word, as arming and terminating do not.
pub record IsForward (t : Turn) : Type 0 where
  pub between_le : (v : ℕ) → v ≤ t.between v
  pub after_le : (v : ℕ) → v ≤ t.after v

abbrev pub quiet : Turn
quiet = record { between = λ v. v; spurious = false; after = λ v. v }

-- When nobody else touches the word, the loop ends in its first round and does the indivisible
-- step.
pub interlock_arm_alone :
    (now ttl word : ℕ)
    → interlock_arm now ttl (quiet ∷ []) word ≡ some (arm_atomic (wrapping_add now ttl) word)
unfolding interlock_arm arm_atomic
interlock_arm_alone now ttl word = ground arith

-- The loop of an arm ends by the first turn in which no other thread interferes and the weak
-- exchange does not fail spuriously.
pub arm_loop-ne-none :
    (deadline : ℕ) (ts us : List Turn) (q : Turn) (word : ℕ)
    → IsQuiet q
    → arm_loop deadline (ts ++ q ∷ us) word ≢ none
unfolding arm_loop
arm_loop-ne-none deadline [] us q word h = ground (arith, h.unchanged word)
arm_loop-ne-none deadline (t ∷ ts) us q word h =
    ground (arith, arm_loop-ne-none deadline ts us q (t.after (t.between word)) h)
