-- ===== src/Core/Interlock/Words.antt =====
-- The three words of an interlock, and the regions of shared memory.
use abacus_rts.Base.{ℕ, Bool, ◌||◌, List, ◌∷◌, ◌==◌, if◌then◌else◌}
use abacus_rts.Base.U64.{u64_max}

abbrev pub interlock_size : ℕ
interlock_size = 24

abbrev pub creation_ttl_nanos : ℕ
creation_ttl_nanos = 100_000_000

abbrev pub sentinel : ℕ
sentinel = u64_max

pub record Interlock : Type 0 where
  pub open_count : ℕ
  pub closed_count : ℕ
  pub expiration_ns : ℕ

-- The two words that are waited on.
pub data WatchedWord : Type 0 where
  open_count closed_count : WatchedWord

-- The regions by handle, the handle of the next memfd, and the futex wakes, the last one first.
pub record Shared : Type 0 where
  pub regions : ℕ → Interlock
  pub next_region : ℕ
  pub wakes : List (ℕ × WatchedWord)

abbrev pub update : (ℕ → Interlock) → ℕ → Interlock → ℕ → Interlock
update m h w k = if k == h then w else m k

-- A store to words of the region `h`.
abbrev pub store : ℕ → Interlock → Shared → Shared
store h w σ = record σ { regions = update σ.regions h w }

-- `FUTEX_WAKE` with `i32::MAX`: every waiter of the word.
abbrev pub futex_wake : ℕ → WatchedWord → Shared → Shared
futex_wake h w σ = record σ { wakes = (h, w) ∷ σ.wakes }

unfoldable pub interlock_reap : ℕ → Shared → Shared
interlock_reap h σ = futex_wake h WatchedWord.closed_count (
    futex_wake h WatchedWord.open_count (
      store h (record { open_count = sentinel; closed_count = sentinel; expiration_ns = sentinel })
        σ))

unfoldable pub interlock_free : ℕ → Shared → Shared
interlock_free h σ = futex_wake h WatchedWord.closed_count (
    futex_wake h WatchedWord.open_count
      (store h (record (σ.regions h) { expiration_ns = sentinel }) σ))

abbrev pub is_terminated : Interlock → Bool
is_terminated w =
    w.open_count == sentinel || w.closed_count == sentinel || w.expiration_ns == sentinel

unfoldable pub interlock_is_terminated : ℕ → Shared → Bool
interlock_is_terminated h σ = is_terminated (σ.regions h)

unfoldable pub interlock_read_expiration : ℕ → Shared → ℕ
interlock_read_expiration h σ = (σ.regions h).expiration_ns
