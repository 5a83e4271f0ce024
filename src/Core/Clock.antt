-- ===== src/Core/Clock.antt =====
-- crates/abacus-core/src/clock.rs. A reading of CLOCK_MONOTONIC is an argument; what the kernel
-- does on a futex call is in `Core/Interlock` (wakes) and in the waiting loops (returns).
use abacus_rts.Base.{
  ℕ, ◌+◌, ◌-◌, ◌*◌, ◌/◌, ◌%◌, ◌^◌, ◌≤◌, ◌≡◌, Bool, Option, none, some, List, [], ◌∷◌, ◌++◌, length,
  inl, inr, Bool-cases, ltb, leb, if◌then◌else◌, arith,
}
use abacus_rts.Base.U64.{ℤ, pos, negsuc, saturating_mul, checked_add, checked_mul, IsU64}

abbrev pub nanos_per_sec : ℕ
nanos_per_sec = 1_000_000_000

abbrev pub nanos_per_ms : ℕ
nanos_per_ms = 1_000_000

pub record Timespec : Type 0 where
  pub tv_sec : ℤ
  pub tv_nsec : ℤ

-- `u64::try_from` of a signed number.
abbrev try_from : ℤ → Option ℕ
try_from (pos n) = some n
try_from (negsuc n) = none

infixl 5 ◌>>=◌
abbrev ◌>>=◌ : {A B : Type 0} → Option A → (A → Option B) → Option B
none >>= f = none
some a >>= f = f a

unfoldable pub nanos_from_timespec : Timespec → Option ℕ
nanos_from_timespec ts = do
  secs ← try_from ts.tv_sec
  nsecs ← try_from ts.tv_nsec
  whole ← checked_mul secs nanos_per_sec
  checked_add whole nsecs

-- `monotonic_now_nanos`: what the call has put into the timespec, or nothing when it fails. The
-- process is aborted when there is no reading.
unfoldable pub monotonic_now_nanos : Option Timespec → Option ℕ
unfolding nanos_from_timespec
monotonic_now_nanos none = none
monotonic_now_nanos (some ts) = nanos_from_timespec ts

unfoldable pub expiration_alive : ℕ → ℕ → Bool
expiration_alive expiration_ns now = ltb now expiration_ns

-- The relative timeout that `sleep_until_nanos` and `futex_wait` hand to the kernel.
unfoldable pub timespec_of_nanos : ℕ → Timespec
timespec_of_nanos n = record { tv_sec = pos (n / nanos_per_sec); tv_nsec = pos (n % nanos_per_sec) }

-- The list holds the clock's reading in each round. The result is the sleeps that were asked for;
-- `none` when the readings end before the loop does.
unfoldable pub sleep_until_nanos : ℕ → List ℕ → Option (List Timespec)
unfolding timespec_of_nanos
sleep_until_nanos target [] = none
sleep_until_nanos target (now ∷ later) =
    let rest = sleep_until_nanos target later in
    if leb target now
    then some []
    else do sleeps ← rest; some (timespec_of_nanos (target - now) ∷ sleeps)

unfoldable pub ms_to_nanos : ℕ → ℕ
ms_to_nanos ms = saturating_mul ms nanos_per_ms

-- The low 32 bits, which the kernel compares.
unfoldable pub futex_word : ℕ → ℕ
futex_word value = value % 2 ^ 32

-- `futex_wait` blocks only while the low half of the word is the expected one; a timeout of 0
-- blocks for ever.
unfoldable pub futex_timeout : ℕ → Option Timespec
unfolding timespec_of_nanos
futex_timeout timeout_nanos =
    if leb timeout_nanos 0 then none else some (timespec_of_nanos timeout_nanos)

-- Every u64 of nanoseconds comes back from the timespec that is made of it.
pub nanos_from_timespec-timespec_of_nanos :
    (n : ℕ) → IsU64 n → nanos_from_timespec (timespec_of_nanos n) ≡ some n
unfolding nanos_from_timespec timespec_of_nanos
nanos_from_timespec-timespec_of_nanos n h = ground arith

-- A reading that is accepted is the exact number of nanoseconds, and fits a u64.
pub nanos_from_timespec_exact :
    (s f n : ℕ)
    → nanos_from_timespec (record { tv_sec = pos s; tv_nsec = pos f }) ≡ some n
    → (n ≡ s * nanos_per_sec + f) × IsU64 n
unfolding nanos_from_timespec
nanos_from_timespec_exact s f n h = ground arith

pub ms_to_nanos_lem : (ms : ℕ) → IsU64 (ms_to_nanos ms) × (ms_to_nanos ms ≤ ms * 1_000_000)
unfolding ms_to_nanos
ms_to_nanos_lem ms = omega arith

-- However often a sleep is interrupted, the loop ends at the first reading that has reached the
-- target, with at most one sleep for each reading before it.
pub length-sleep_until_nanos :
    (target : ℕ) (before : List ℕ) (now : ℕ) (later : List ℕ)
    → target ≤ now
    → (sleeps : List Timespec) × (sleep_until_nanos target (before ++ now ∷ later) ≡ some sleeps)
      × (length sleeps ≤ length before)
unfolding sleep_until_nanos
length-sleep_until_nanos target [] now later h = ([], ground arith, omega arith)
length-sleep_until_nanos target (b ∷ before) now later h =
    let (sleeps, q, short) = length-sleep_until_nanos target before now later h in
    elim (Bool-cases (leb target b)) [
      | inl done ↦ ([], rw done, omega arith)
      | inr early ↦ (timespec_of_nanos (target - b) ∷ sleeps, rw (early, q), omega (arith, short))
    ]
