-- ===== src/Registry/Created.antt =====
-- What `create` does.
use abacus_rts.Base.{
  ℕ, suc, ◌+◌, ◌^◌, ◌<◌, ◌≡◌, refl, ◌∙◌, ◌≢◌, inl, inr, false, Option, some, ok, Yields, yields,
  Yields-bind, Yields-mono, fail_if-Yields, Option-cases, All-map, arith,
}
use abacus_rts.Base.U64.{wrapping_add}
use abacus_rts.Base.Text.{Str, str_eq, str_eq_refl}
use abacus_rts.Base.Map
use abacus_rts.Core.Interlock.Words.{Interlock, Shared, store}
use abacus_rts.Core.Interlock.Create.{Kernel}
use abacus_rts.Registry.Entry.{InterlockEntry, Registry, clock_name, attach}
use abacus_rts.Registry.Create.{Resolved, CreateArgs, reap_old, create}
use abacus_rts.Registry.Invariant.{Configured, Differs, IsEntry, IsValid, remove-Separate}
use abacus_rts.Registry.Step.{reaped_words, reap-Frame, reap_words}
use abacus_rts.Registry.Resolve.{
  entry_of, fresh_words, resolve-Configured, initial_words-NoPanic, interlock_create-Yields,
  clock-Yields,
}

-- What a successful create has done.
pub record Created (a : CreateArgs) (reg : Registry) (σ : Shared) (r : (ℕ × ℕ) × Registry × Shared)
    : Type 0 where
  pub not_clock : str_eq a.name clock_name ≡ false
  pub new_id : r.0.0 ≡ reg.next_id
  pub counted : r.1.next_id ≡ wrapping_add reg.next_id 1
  pub new_region : r.0.1 ≡ σ.next_region
  pub attaches : attach a.name r.1 ≡ ok r.0
  pub others : (n : Str) → str_eq a.name n ≡ false → Map.get n r.1.by_name ≡ Map.get n reg.by_name
  pub replaced :
      (e : InterlockEntry)
      → Map.get a.name reg.by_name ≡ some e
      → r.2.regions e.handle ≡ reaped_words
  pub kept :
      (h : ℕ)
      → h < σ.next_region
      → ((e : InterlockEntry) → Map.get a.name reg.by_name ≡ some e → h ≢ e.handle)
      → r.2.regions h ≡ σ.regions h

module _ (σ : Shared) (old : Option InterlockEntry) where
  reap_old_next : (reap_old old σ).next_region ≡ σ.next_region
  unfolding reap_old
  reap_old_next = elim (Option-cases old) [
    | inl q ↦ rw (q, reap_old)
    | inr (e, q) ↦ rw (q, reap_old) ((reap-Frame e.handle σ).next)
  ]

  reap_old_words :
      (e : InterlockEntry) → old ≡ some e → (reap_old old σ).regions e.handle ≡ reaped_words
  unfolding reap_old
  reap_old_words e q = rw (q, reap_old) (reap_words e.handle σ)

  reap_old_kept :
      (h : ℕ)
      → ((e : InterlockEntry) → old ≡ some e → h ≢ e.handle)
      → (reap_old old σ).regions h ≡ σ.regions h
  unfolding reap_old
  reap_old_kept h ne = elim (Option-cases old) [
    | inl q ↦ rw (q, reap_old)
    | inr (e, q) ↦ rw (q, reap_old) ((reap-Frame e.handle σ).elsewhere h (ne e q))
  ]

module _ (k : Kernel) (a : CreateArgs) (reg : Registry) (σ : Shared) where
  -- The state that `create` leaves, from what it has resolved.
  abbrev outcome : Resolved → Interlock → Shared → (ℕ × ℕ) × Registry × Shared
  outcome r words σ₁ = (
    (reg.next_id, σ.next_region),
    record {
      next_id = wrapping_add reg.next_id 1;
      by_name = Map.insert a.name (entry_of reg.next_id σ.next_region a.tier r) reg.by_name;
    },
    reap_old (Map.get a.name reg.by_name) (store σ.next_region words σ₁),
  )

  abbrev fresh_memory : Shared
  fresh_memory = store σ.next_region (fresh_words k) (record σ { next_region = suc σ.next_region })

  outcome-Created :
      (r : Resolved) (words : Interlock)
      → str_eq a.name clock_name ≡ false
      → Created a reg σ (outcome r words fresh_memory)
  unfolding attach
  outcome-Created r words other = record {
    not_clock = other;
    new_id = refl;
    counted = refl;
    new_region = refl;
    attaches = ground (
      arith,
      Map.get-insert a.name a.name (entry_of reg.next_id σ.next_region a.tier r) reg.by_name,
      str_eq_refl a.name,
    );
    others = λ n ne. rw (Map.get-insert a.name n, ne);
    replaced = λ e q. reap_old_words _ _ e q;
    kept = λ h lt ne. reap_old_kept _ _ h ne ∙ ground arith;
  }

  IsEntry-mono :
      (x : Str × InterlockEntry)
      → reg.next_id + 1 < 2 ^ 64
      → IsEntry σ.next_region reg.next_id x
      → IsEntry (suc σ.next_region) (wrapping_add reg.next_id 1) x
  IsEntry-mono x room h = record {
    below_region = omega (arith, h.below_region);
    below_id = omega (arith, h.below_id);
    configured = h.configured;
  }

  clock_kept :
      (e f : InterlockEntry)
      → str_eq a.name clock_name ≡ false
      → Map.get clock_name reg.by_name ≡ some e
      → Map.get clock_name (Map.insert a.name f reg.by_name) ≡ some e
  clock_kept e f other q = rw (Map.get-insert a.name clock_name f reg.by_name, other) q

  outcome-IsValid :
      (r : Resolved) (words : Interlock)
      → str_eq a.name clock_name ≡ false
      → reg.next_id + 1 < 2 ^ 64
      → Configured a.tier (entry_of reg.next_id σ.next_region a.tier r)
      → IsValid reg σ.next_region
      → IsValid (outcome r words fresh_memory).1 (outcome r words fresh_memory).2.next_region
  unfolding Map.insert
  outcome-IsValid r words other room c v = rw reap_old_next (record {
    distinct =
        Map.insert-Distinct a.name (entry_of reg.next_id σ.next_region a.tier r) reg.by_name
          v.distinct;
    separate = (
      All-map (IsEntry σ.next_region reg.next_id) (Differs σ.next_region reg.next_id)
          (Map.remove a.name reg.by_name)
          (λ x h. record {
            other_region = omega (arith, h.below_region);
            other_id = omega (arith, h.below_id);
          })
          (Map.remove-All (IsEntry σ.next_region reg.next_id) a.name reg.by_name v.entries),
      remove-Separate a.name reg.by_name v.separate,
    );
    entries = (
      record { below_region = omega arith; below_id = omega arith; configured = c },
      All-map (IsEntry σ.next_region reg.next_id)
          (IsEntry (suc σ.next_region) (wrapping_add reg.next_id 1)) (Map.remove a.name reg.by_name)
          (λ x h. IsEntry-mono x room h)
          (Map.remove-All (IsEntry σ.next_region reg.next_id) a.name reg.by_name v.entries),
    );
    clock = (
      v.clock.0,
      clock_kept v.clock.0 (entry_of reg.next_id σ.next_region a.tier r) other v.clock.1,
      v.clock.2,
    );
  })

  create-outcome :
      IsValid reg σ.next_region
      → Yields
          (λ r.
            (resolved : Resolved) × (words : Interlock) × (str_eq a.name clock_name ≡ false)
            × Configured a.tier (entry_of reg.next_id σ.next_region a.tier resolved)
            × (r ≡ outcome resolved words fresh_memory))
          (create k a reg σ)
  unfolding create
  create-outcome v = Yields-bind (fail_if-Yields (str_eq a.name clock_name) _) λ _ other.
      Yields-bind (resolve-Configured a.tier reg.by_name a reg.next_id σ.next_region) λ r c.
        Yields-bind (interlock_create-Yields k σ) λ made q. rw q (
          Yields-bind (clock-Yields reg σ.next_region v) λ ch _.
            Yields-bind
              (initial_words-NoPanic a.tier (fresh_memory.regions ch).open_count
                (entry_of reg.next_id σ.next_region a.tier r) (fresh_memory.regions σ.next_region)
                c)
              λ words _. yields (r, words, other, c, refl))

-- A create on a valid registry returns: it refuses, or the name is not the clock's, the id and the
-- region are the next ones, an attach by the name gives them, other names are as before, the
-- replaced interlock's words are the sentinel and every other region is unchanged.
pub create-Created :
    (k : Kernel) (a : CreateArgs) (reg : Registry) (σ : Shared)
    → IsValid reg σ.next_region
    → Yields (Created a reg σ) (create k a reg σ)
create-Created k a reg σ v =
    Yields-mono (create-outcome k a reg σ v)
      λ r (res, words, other, c, q). rw q (outcome-Created k a reg σ res words other)

-- A create on a valid registry leaves a valid registry, as long as the next id fits a u64.
pub create-IsValid :
    (k : Kernel) (a : CreateArgs) (reg : Registry) (σ : Shared)
    → reg.next_id + 1 < 2 ^ 64
    → IsValid reg σ.next_region
    → Yields (λ r. IsValid r.1 r.2.next_region) (create k a reg σ)
create-IsValid k a reg σ room v =
    Yields-mono (create-outcome k a reg σ v)
      λ r (res, words, other, c, q). rw q (outcome-IsValid k a reg σ res words other room c v)
