-- ===== src/Tests/Core.antt =====
-- The clock and the arming of an interlock on concrete inputs.
use abacus_rts.Base.{
  All, ℕ, ◌+◌, ◌≤◌, ◌≡◌, refl, ◌⊎◌, inl, inr, false, some, [], ◌∷◌, ok, err, arith,
}
use abacus_rts.Base.U64.{pos, wrapping_add}
use abacus_rts.Core.Clock.{nanos_from_timespec}
use abacus_rts.Core.Error.{interlock_reaped}
use abacus_rts.Core.Interlock.Words.{sentinel}
use abacus_rts.Core.Interlock.Arm.{
  Turn, quiet, IsQuiet, ArmResult, IsForward, arm_loop, interlock_arm,
}
use abacus_rts.Core.Interlock.Armed.{instants, Armed, interlock_arm-Armed, interlock_arm_forward}

one_and_a_half :
    nanos_from_timespec (record { tv_sec = pos 1; tv_nsec = pos 500_000_000 }) ≡ some 1_500_000_000
unfolding nanos_from_timespec
one_and_a_half = refl

-- Another thread raises the word from 10 to 30 in the first turn; the second one is quiet.
abbrev raised : Turn
raised = record { between = λ v. v + 20; spurious = false; after = λ v. v }

quiet-IsQuiet : IsQuiet quiet
quiet-IsQuiet = record { unchanged = λ v. refl; swaps = refl }

raised-IsForward : IsForward raised
raised-IsForward = record { between_le = λ v. omega arith; after_le = λ v. omega arith }

quiet-IsForward : IsForward quiet
quiet-IsForward = record { between_le = λ v. omega arith; after_le = λ v. omega arith }

arms : arm_loop 50 (raised ∷ quiet ∷ []) 10 ≡ some (ok tt, 50)
unfolding arm_loop
arms = refl

refuses : arm_loop 50 (raised ∷ quiet ∷ []) sentinel ≡ some (err interlock_reaped, sentinel)
unfolding arm_loop
refuses = refl

-- The deadline is 50; the arm is done in the second turn, at 30.
interlock_arm-Armed_example :
    (r : ArmResult × ℕ) × (interlock_arm 20 30 (raised ∷ quiet ∷ []) 10 ≡ some r)
    × Armed (wrapping_add 20 30) (raised ∷ quiet ∷ []) 10 r
interlock_arm-Armed_example =
    interlock_arm-Armed 20 30 (raised ∷ quiet ∷ []) 10 (inr (inl quiet-IsQuiet))

interlock_arm_forward_example :
    (r : ArmResult × ℕ) × (interlock_arm 20 30 (raised ∷ quiet ∷ []) 10 ≡ some r)
    × (a : Armed (wrapping_add 20 30) (raised ∷ quiet ∷ []) 10 r) × All
        (λ v. v ≤ r.1)
        (instants a.before 10)
    × (((r.0 ≡ ok tt) × (wrapping_add 20 30 ≤ r.1))
        ⊎ ((r.0 ≡ err interlock_reaped) × (r.1 ≡ sentinel)))
interlock_arm_forward_example =
    interlock_arm_forward 20 30 (raised ∷ quiet ∷ []) 10 (inr (inl quiet-IsQuiet))
      (raised-IsForward, (quiet-IsForward, tt))
