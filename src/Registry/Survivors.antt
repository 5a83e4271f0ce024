-- ===== src/Registry/Survivors.antt =====
-- `evaluate_all`: which entries stay, and what becomes of the words of each.
use abacus_rts.Base.{
  ℕ, ◌≡◌, refl, ◌∙◌, ◌≢◌, inl, inr, Bool, false, ◌||◌, Option, none, some, List, [], ◌∷◌,
  if◌then◌else◌, Yields, yields, Yields-bind, Bool-cases, Option-cases, All, All-map, arith,
}
use abacus_rts.Base.Text.{Str, str_eq, str_eq→eq, str_eq_refl}
use abacus_rts.Base.Map
use abacus_rts.Core.Interlock.Words.{Shared}
use abacus_rts.Registry.Entry.{InterlockEntry, Registry, clock_name}
use abacus_rts.Registry.Evaluate.{remove_all, evaluate_loop, evaluate_all}
use abacus_rts.Registry.Invariant.{Configured, Separate, IsEntry, IsValid, remove-Separate}
use abacus_rts.Registry.Step.{is_doomed}
use abacus_rts.Registry.Pass.{doomed_names, SettlesIn, Passed, evaluate_loop-Passed}

abbrev contains : List Str → Str → Bool
contains [] n = false
contains (x ∷ xs) n = str_eq x n || contains xs n

get-remove_all :
    (names : List Str) (n : Str) (m : List (Str × InterlockEntry))
    → Map.get n (remove_all names m) ≡ (if contains names n then none else Map.get n m)
unfolding remove_all
get-remove_all [] n m = refl
get-remove_all (x ∷ names) n m =
    ground (arith, get-remove_all names n (Map.remove x m), Map.get-remove x n m)

remove_all-All :
    (P : Str × InterlockEntry → Type 0) (names : List Str) (m : List (Str × InterlockEntry))
    → All P m
    → All P (remove_all names m)
unfolding remove_all
remove_all-All P [] m h = h
remove_all-All P (x ∷ names) m h = remove_all-All P names (Map.remove x m) (Map.remove-All P x m h)

contains-doomed_names-Fresh :
    (now_ns : ℕ) (σ : Shared) (n : Str) (m : List (Str × InterlockEntry))
    → Map.Fresh n m
    → contains (doomed_names now_ns σ m) n ≡ false
unfolding doomed_names
contains-doomed_names-Fresh now_ns σ n [] h = refl
contains-doomed_names-Fresh now_ns σ n (x ∷ m) h =
    ground (arith, contains-doomed_names-Fresh now_ns σ n m h.1)

-- A name is among the removed ones exactly when its entry is doomed.
contains-doomed_names :
    (now_ns : ℕ) (σ : Shared) (n : Str) (m : List (Str × InterlockEntry)) {e : InterlockEntry}
    → Map.Distinct m
    → Map.get n m ≡ some e
    → contains (doomed_names now_ns σ m) n ≡ is_doomed now_ns σ (n, e)
unfolding doomed_names Map.get
contains-doomed_names now_ns σ n [] d q = cc
contains-doomed_names now_ns σ n ((k, f) ∷ m) {e = e} d q = elim (Bool-cases (str_eq k n)) [
  | inl hit ↦
      let same : k ≡ n = str_eq→eq k n hit in
      let entry : f ≡ e = ground arith in
      let names : contains (doomed_names now_ns σ m) n ≡ false =
        contains-doomed_names-Fresh now_ns σ n m (rw same at d.0) in
      rw entry (rw same (ground (arith, names, str_eq_refl n)))
  | inr miss ↦ ground (arith, contains-doomed_names now_ns σ n m {e = e} d.1 (rw miss at q))
]

-- The entry that the pass leaves under a name.
abbrev pub survivor : ℕ → Shared → Str → Option InterlockEntry → Option InterlockEntry
survivor now_ns σ n none = none
survivor now_ns σ n (some e) = if is_doomed now_ns σ (n, e) then none else some e

get-survivor :
    (now_ns : ℕ) (σ : Shared) (n : Str) (m : List (Str × InterlockEntry))
    → Map.Distinct m
    → Map.get n (remove_all (doomed_names now_ns σ m) m) ≡ survivor now_ns σ n (Map.get n m)
get-survivor now_ns σ n m d = elim (Option-cases (Map.get n m)) [
  | inl q ↦ rw (get-remove_all (doomed_names now_ns σ m) n m, q) (ground arith)
  | inr (e, q) ↦
      rw (get-remove_all (doomed_names now_ns σ m) n m, contains-doomed_names now_ns σ n m d q, q)
]

remove_all-Distinct :
    (names : List Str) (m : List (Str × InterlockEntry))
    → Map.Distinct m
    → Map.Distinct (remove_all names m)
unfolding remove_all
remove_all-Distinct [] m h = h
remove_all-Distinct (x ∷ names) m h =
    remove_all-Distinct names (Map.remove x m) (Map.remove-Distinct x m h)

remove_all-Separate :
    (names : List Str) (m : List (Str × InterlockEntry))
    → Separate m
    → Separate (remove_all names m)
unfolding remove_all
remove_all-Separate [] m h = h
remove_all-Separate (x ∷ names) m h =
    remove_all-Separate names (Map.remove x m) (remove-Separate x m h)

-- The clock is never doomed.
pub clock-survivor :
    (now_ns : ℕ) (σ : Shared) (o : Option InterlockEntry) → survivor now_ns σ clock_name o ≡ o
clock-survivor now_ns σ none = refl
clock-survivor now_ns σ (some e) = rw (str_eq_refl clock_name)

module _ (now_ns now : ℕ) (reg : Registry) (σ : Shared) (valid : IsValid reg σ.next_region) where
  after-IsValid :
      (r : Shared × List Str)
      → Passed now_ns now reg.by_name σ [] r
      → IsValid (record reg { by_name = remove_all r.1 reg.by_name }) r.0.next_region
  after-IsValid r p = record {
    distinct = remove_all-Distinct r.1 reg.by_name valid.distinct;
    separate = remove_all-Separate r.1 reg.by_name valid.separate;
    entries =
        rw p.next
          (remove_all-All (IsEntry σ.next_region reg.next_id) r.1 reg.by_name valid.entries);
    clock = (
      valid.clock.0,
      rw (p.names, get-survivor now_ns σ clock_name reg.by_name valid.distinct)
          (clock-survivor now_ns σ _ ∙ valid.clock.1),
      valid.clock.2,
    );
  }

  loop-Passed :
      Yields
        (Passed now_ns now reg.by_name σ [])
        (evaluate_loop now_ns now reg.by_name reg.by_name σ [])
  loop-Passed = evaluate_loop-Passed now_ns now reg.by_name reg.by_name σ [] valid.separate (
      All-map (IsEntry σ.next_region reg.next_id) (λ x. Configured x.1.tier x.1) reg.by_name
        (λ x h. h.configured) valid.entries)

  -- A pass over a valid registry returns and leaves a valid registry.
  pub evaluate_all-IsValid :
      Yields (λ r. IsValid r.0 r.1.next_region) (evaluate_all now_ns now reg σ)
  unfolding evaluate_all
  evaluate_all-IsValid = Yields-bind loop-Passed λ r p. yields (after-IsValid r p)

  -- A pass over a valid registry returns and keeps under each name exactly the entry that was
  -- alive at its start, or the clock's; it adds none, in whatever order the table iterates.
  pub get-evaluate_all :
      Yields
        (λ r. (n : Str) → Map.get n r.0.by_name ≡ survivor now_ns σ n (Map.get n reg.by_name))
        (evaluate_all now_ns now reg σ)
  unfolding evaluate_all
  get-evaluate_all =
      Yields-bind loop-Passed
        λ r p. yields (λ n. rw p.names (get-survivor now_ns σ n reg.by_name valid.distinct))

  -- A pass over a valid registry returns; the clock's words are unchanged, a dead entry's are the
  -- sentinel, an idle one's and a plain interlock's are unchanged; an open timer or cron is
  -- delivered at the pass's time exactly when due, the cron with the next grid line, and an open
  -- counter or barrier has its words unchanged or is delivered, a counter at a value not below its
  -- target and a barrier at the pass's time; regions of no entry are unchanged.
  pub evaluate_all-Settles :
      Yields
        (λ r.
          All (SettlesIn now_ns now σ r.1) reg.by_name
          × ((h : ℕ) → All (λ x. x.1.handle ≢ h) reg.by_name → r.1.regions h ≡ σ.regions h))
        (evaluate_all now_ns now reg σ)
  unfolding evaluate_all
  evaluate_all-Settles = Yields-bind loop-Passed λ r p. yields (p.settles, p.outside)
