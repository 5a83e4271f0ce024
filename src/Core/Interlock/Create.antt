-- ===== src/Core/Interlock/Create.antt =====
-- `interlock_create`, `interlock_open` and the calls of the kernel that they make.
use abacus_rts.Base.{ℕ, suc, Bool, Option, none, some, Result, ok, err, ◌>>◌, fail_if}
use abacus_rts.Base.U64.{wrapping_add}
use abacus_rts.Core.Error.{Condition, memfd_create, ftruncate, mmap, allocation_failed}
use abacus_rts.Core.Interlock.Words.{Interlock, Shared, creation_ttl_nanos, store}

-- How the kernel answers: the errno of each call that fails, and the clock.
pub record Kernel : Type 0 where
  pub memfd_errno : Option ℕ
  pub ftruncate_errno : Option ℕ
  pub mmap_errno : Option ℕ
  pub mmap_null : Bool
  pub dup_errno : Option ℕ
  pub now_ns : ℕ

-- A call that fails with an errno.
abbrev pub check : Option ℕ → (ℕ → Condition) → Result Condition (Unit {0})
check none e = ok tt
check (some errno) e = err (e errno)

unfoldable pub mmap_interlock : Kernel → Result Condition (Unit {0})
mmap_interlock k = do
  check k.mmap_errno (allocation_failed mmap)
  fail_if k.mmap_null (allocation_failed mmap 0)

-- The words of a fresh memfd are zero, and the expiration is then stored.
unfoldable pub interlock_create : Kernel → Shared → Result Condition (ℕ × Shared)
unfolding mmap_interlock
interlock_create k σ = do
  check k.memfd_errno (allocation_failed memfd_create)
  check k.ftruncate_errno (allocation_failed ftruncate)
  mmap_interlock k
  let h = σ.next_region
  let words : Interlock = record {
    open_count = 0;
    closed_count = 0;
    expiration_ns = wrapping_add k.now_ns creation_ttl_nanos;
  }
  ok (h, store h words (record σ { next_region = suc h }))

-- The descriptor that a client receives: a duplicate refers to the same region.
unfoldable pub interlock_dup_fd : Kernel → ℕ → Result Condition ℕ
interlock_dup_fd k h = do check k.dup_errno (allocation_failed memfd_create); ok h

-- `interlock_open` maps a descriptor that was received.
unfoldable pub interlock_open : Kernel → ℕ → Result Condition ℕ
unfolding mmap_interlock
interlock_open k h = do mmap_interlock k; ok h
