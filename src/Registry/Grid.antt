-- ===== src/Registry/Grid.antt =====
-- The grid of a cron.
use native.Mathlib.Nat.{div-add-mod, mod-eq_of_lt}
use abacus_rts.Base.{ℕ, ◌+◌, ◌*◌, ◌/◌, ◌%◌, ◌^◌, ◌≤◌, ◌<◌, ◌≡◌, ok, arith, ==_false}
use abacus_rts.Registry.Entry.{next_line}

-- For a positive interval and while the sum fits a u64, the next grid line is the first multiple
-- of the interval after the present time.
pub next_line_lem :
    (now i : ℕ)
    → 0 < i
    → now + i < 2 ^ 64
    → (q : ℕ) × (next_line now i ≡ ok (q * i)) × (now < q * i) × (q * i ≤ now + i)
unfolding next_line
next_line_lem now i pos room =
    let split = div-add-mod now i in
    let below : now % i < i = grind arith in
    let count : now / i ≤ now = grind arith in
    let line : (now / i + 1) * i ≤ now + i = grind (arith, split) in
    (
      now / i + 1,
      rw (
        ==_false i 0 (omega arith),
        mod-eq_of_lt {n = now / i + 1} {m = 2 ^ 64} (omega arith),
        mod-eq_of_lt {n = (now / i + 1) * i} {m = 2 ^ 64} (omega arith),
      ),
      grind (arith, split),
      line,
    )
