-- ===== src/Registry/Invariant.antt =====
-- What holds of the registry between two operations.
use abacus_rts.Base.{ℕ, ◌<◌, ◌≡◌, ◌≢◌, inl, inr, some, List, [], ◌∷◌, All, Bool-cases}
use abacus_rts.Base.Text.{Str, str_eq}
use abacus_rts.Base.Map
use abacus_rts.Registry.Entry.{
  Tier, interlock, wait_counter, wait_timer, wait_cron, wait_barrier, BarrierCondition,
  InterlockEntry, Registry, clock_name,
}
use abacus_rts.Core.Interlock.Words.{WatchedWord}

-- The entry has what its tier reads; the interval of a cron is not zero.
abbrev pub Configured : Tier → InterlockEntry → Type 0
Configured interlock e = Unit {0}
Configured wait_counter e =
    (wn : Str) × (ww : WatchedWord) × (e.watched_name ≡ some wn) × (e.watched_word ≡ some ww)
Configured wait_timer e = Unit {0}
Configured wait_cron e = (i : ℕ) × (e.interval_ms ≡ some i) × (0 < i)
Configured wait_barrier e = (conds : List BarrierCondition) × (e.barrier_conditions ≡ some conds)

pub record IsEntry (next_region next_id : ℕ) (x : Str × InterlockEntry) : Type 0 where
  pub below_region : x.1.handle < next_region
  pub below_id : x.1.id < next_id
  pub configured : Configured x.1.tier x.1

-- No entry has the region, and none the id.
pub record Differs (handle id : ℕ) (x : Str × InterlockEntry) : Type 0 where
  pub other_region : x.1.handle ≢ handle
  pub other_id : x.1.id ≢ id

-- Two entries have different regions and different ids.
abbrev pub Separate : List (Str × InterlockEntry) → Type 0
Separate [] = Unit {0}
Separate (x ∷ m) = All (Differs x.1.handle x.1.id) m × Separate m

pub record IsValid (reg : Registry) (next_region : ℕ) : Type 0 where
  pub distinct : Map.Distinct reg.by_name
  pub separate : Separate reg.by_name
  pub entries : All (IsEntry next_region reg.next_id) reg.by_name
  pub clock :
      (e : InterlockEntry) × (Map.get clock_name reg.by_name ≡ some e) × (e.tier ≡ interlock)

pub remove-Separate :
    (k : Str) (m : List (Str × InterlockEntry)) → Separate m → Separate (Map.remove k m)
unfolding Map.remove
remove-Separate k [] h = tt
remove-Separate k ((j, e) ∷ m) h = elim (Bool-cases (str_eq j k)) [
  | inl hit ↦ rw hit (remove-Separate k m h.1)
  | inr miss ↦ rw miss (Map.remove-All (Differs e.handle e.id) k m h.0, remove-Separate k m h.1)
]
