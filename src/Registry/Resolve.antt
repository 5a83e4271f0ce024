-- ===== src/Registry/Resolve.antt =====
-- The parts of `create` do not panic, and what they resolve is what the tier reads.
use abacus_rts.Base.{
  ℕ, suc, ◌/◌, ◌≡◌, refl, inl, inr, not, Option, none, some, List, [], ◌∷◌, ◌==◌, Yields, yields,
  fails, Yields-bind, fail_if-Yields, ok_or-Yields, NoPanic, Bool-cases, ==_false, arith,
}
use abacus_rts.Base.U64.{wrapping_add}
use abacus_rts.Base.Text.{Str}
use abacus_rts.Base.Map
use abacus_rts.Core.Error.{Condition}
use abacus_rts.Core.Interlock.Words.{Interlock, Shared, store, creation_ttl_nanos}
use abacus_rts.Core.Interlock.Create.{Kernel, check, interlock_create}
use abacus_rts.Wire.Message.{WireCondition}
use abacus_rts.Registry.Entry.{
  Tier, interlock, wait_counter, wait_timer, wait_cron, wait_barrier, BarrierCondition,
  InterlockEntry, Registry, clock,
}
use abacus_rts.Registry.Create.{
  Resolved, parse_word, parse_conditions, CreateArgs, resolve, initial_words,
}
use abacus_rts.Registry.Invariant.{Configured, IsValid}

parse_word-NoPanic : (ww : ℕ) → NoPanic (parse_word ww)
unfolding parse_word
parse_word-NoPanic ww = elim (Bool-cases (ww == 0)) [
  | inl e ↦ rw e (yields tt)
  | inr e ↦ rw e (elim (Bool-cases (ww == 1)) [ inl f ↦ rw f (yields tt) | inr f ↦ rw f fails ])
]

parse_conditions-NoPanic :
    (m : List (Str × InterlockEntry)) (conds : List WireCondition) (parsed : List BarrierCondition)
    → NoPanic (parse_conditions m conds parsed)
unfolding parse_conditions
parse_conditions-NoPanic m [] parsed = yields tt
parse_conditions-NoPanic m ((wn, ww, threshold) ∷ conds) parsed =
    Yields-bind (fail_if-Yields (not (Map.contains_key wn m)) _)
      λ _ _. Yields-bind (parse_word-NoPanic ww) λ word _. parse_conditions-NoPanic m conds _

-- The entry that `create` makes.
abbrev pub entry_of : ℕ → ℕ → Tier → Resolved → InterlockEntry
entry_of id h t r = record {
  id = id;
  handle = h;
  tier = t;
  watched_name = r.name;
  watched_word = r.word;
  interval_ms = r.interval_ms;
  barrier_conditions = r.barrier;
}

-- The fields are resolved to what the tier reads, or the request is refused.
pub resolve-Configured :
    (t : Tier) (m : List (Str × InterlockEntry)) (a : CreateArgs) (id h : ℕ)
    → Yields (λ r. Configured t (entry_of id h t r)) (resolve t m a)
unfolding resolve
resolve-Configured interlock m a id h = yields tt
resolve-Configured wait_counter m a id h = Yields-bind (ok_or-Yields a.watched_name _) λ wn _.
    Yields-bind (fail_if-Yields (not (Map.contains_key wn m)) _) λ _ _.
      Yields-bind (ok_or-Yields a.watched_word _)
        λ ww _. Yields-bind (parse_word-NoPanic ww) λ word _. yields (wn, word, refl, refl)
resolve-Configured wait_timer m a id h = yields tt
resolve-Configured wait_cron m a id h = Yields-bind (ok_or-Yields a.interval_ns _) λ ival _.
    Yields-bind (fail_if-Yields (ival == 0) _) λ _ _.
      Yields-bind (fail_if-Yields (ival / 1_000_000 == 0) _)
        λ _ pos. yields (ival / 1_000_000, refl, ground arith)
resolve-Configured wait_barrier m a id h =
    Yields-bind (ok_or-Yields a.barrier_conditions _)
      λ conds _. Yields-bind (parse_conditions-NoPanic m conds []) λ parsed _. yields (parsed, refl)

pub initial_words-NoPanic :
    (t : Tier) (now : ℕ) (e : InterlockEntry) (w : Interlock)
    → Configured t e
    → NoPanic (initial_words t now e.interval_ms w)
unfolding initial_words
initial_words-NoPanic interlock now e w c = yields tt
initial_words-NoPanic wait_counter now e w c = yields tt
initial_words-NoPanic wait_timer now e w c = yields tt
initial_words-NoPanic wait_cron now e w (i, q, pos) = rw (q, ==_false i 0 (omega arith)) (yields tt)
initial_words-NoPanic wait_barrier now e w c = yields tt

check-Yields : (o : Option ℕ) (e : ℕ → Condition) → NoPanic (check o e)
check-Yields none e = yields tt
check-Yields (some errno) e = fails

-- A fresh region, zero but for an expiration 100 ms ahead.
abbrev pub fresh_words : Kernel → Interlock
fresh_words k = record {
  open_count = 0;
  closed_count = 0;
  expiration_ns = wrapping_add k.now_ns creation_ttl_nanos;
}

pub interlock_create-Yields :
    (k : Kernel) (σ : Shared)
    → Yields
        (λ r. r ≡ (
          σ.next_region,
          store σ.next_region (fresh_words k) (record σ { next_region = suc σ.next_region }),
        ))
        (interlock_create k σ)
unfolding interlock_create
interlock_create-Yields k σ = Yields-bind (check-Yields k.memfd_errno _) λ _ _.
    Yields-bind (check-Yields k.ftruncate_errno _) λ _ _.
      Yields-bind (Yields-bind (check-Yields k.mmap_errno _) λ _ _. fail_if-Yields k.mmap_null _)
        λ _ _. yields refl

pub clock-Yields : (reg : Registry) (n : ℕ) → IsValid reg n → NoPanic (clock reg)
unfolding clock
clock-Yields reg n v = rw v.clock.1 (yields tt)
