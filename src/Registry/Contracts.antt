-- ===== src/Registry/Contracts.antt =====
-- `evaluate_all`: what a pass delivers to the entries that watch other ones.
use abacus_rts.Base.{
  ℕ, ◌≤◌, ◌<◌, ◌≡◌, refl, sym, ap, ◌∙◌, subst, ◌⊎◌, inl, inr, Bool, true, false, none, some, List,
  [], ◌∷◌, leb, if◌then◌else◌, ok, ◌>>=◌, ok-injective, Yields, Yields-mono, Bool-cases,
  Option-cases, All, Any, leb→le, arith,
}
use abacus_rts.Base.U64.{wrapping_sub_i64, is_positive}
use abacus_rts.Base.Text.{Str, str_eq}
use abacus_rts.Base.Map
use abacus_rts.Core.Clock.{expiration_alive}
use abacus_rts.Core.Interlock.Words.{WatchedWord, Shared, is_terminated}
use abacus_rts.Registry.Entry.{
  wait_counter, wait_barrier, BarrierCondition, InterlockEntry, Registry, clock_name, word_of,
}
use abacus_rts.Registry.Evaluate.{
  deliver, watched_value, deliver_watched, evaluate_counter, is_met, all_met, evaluate_barrier,
  evaluate_contract, is_dead, evaluate_entry, evaluate_all,
}
use abacus_rts.Registry.Invariant.{IsValid}
use abacus_rts.Registry.Turn.{Between, Turn, evaluate_all-Turn}

-- The entry stands under the name, which is not the clock's, alive and with a positive value.
pub record IsWaiting (now_ns : ℕ) (reg : Registry) (σ : Shared) (n : Str) (e : InterlockEntry)
    : Type 0 where
  pub registered : Map.get n reg.by_name ≡ some e
  pub other : str_eq n clock_name ≡ false
  pub alive : is_dead now_ns (σ.regions e.handle) ≡ false
  pub positive :
      is_positive
        (wrapping_sub_i64 (σ.regions e.handle).open_count (σ.regions e.handle).closed_count)
      ≡ true

-- The round of an entry that waits is the evaluation of its contract.
evaluate_entry-waiting :
    (now_ns now : ℕ) (m : List (Str × InterlockEntry)) (n : Str) (e : InterlockEntry) (τ : Shared)
    → str_eq n clock_name ≡ false
    → is_dead now_ns (τ.regions e.handle) ≡ false
    → is_positive
        (wrapping_sub_i64 (τ.regions e.handle).open_count (τ.regions e.handle).closed_count)
      ≡ true
    → evaluate_entry now_ns now m (n, e) τ
      ≡ (evaluate_contract e.tier now m e τ >>= λ σ'. ok (σ', false))
unfolding evaluate_entry is_dead
evaluate_entry-waiting now_ns now m n e τ other alive positive =
    elim (Bool-cases (is_terminated (τ.regions e.handle))) [
      | inl over ↦ absurd (true-ne-false (rw over at alive))
      | inr running ↦
          elim (Bool-cases (expiration_alive (τ.regions e.handle).expiration_ns now_ns)) [
            | inl lives ↦ rw (other, running, lives, positive) refl
            | inr lapsed ↦ absurd (true-ne-false (rw (running, lapsed) at alive))
          ]
    ]
  where
    true-ne-false : ◌≡◌ {A = Bool} true false → ⊥
    true-ne-false = λ q. cc

module _ (now_ns now : ℕ) (reg : Registry) (σ : Shared) (n : Str) (e : InterlockEntry)
    (valid : IsValid reg σ.next_region) (w : IsWaiting now_ns reg σ n e) where
  -- A contract that succeeds with one memory at the entry's turn leaves the entry's words.
  contract-left :
      (σ' : Shared) (t : Turn now_ns now reg.by_name σ σ' (n, e)) (result : Shared)
      → evaluate_contract e.tier now reg.by_name e t.seen ≡ ok result
      → σ'.regions e.handle ≡ result.regions e.handle
  contract-left σ' t result q =
      let alive : is_dead now_ns (t.seen.regions e.handle) ≡ false = rw t.own w.alive in
      let positive : is_positive (
            wrapping_sub_i64 (t.seen.regions e.handle).open_count
              (t.seen.regions e.handle).closed_count)
          ≡ true =
        rw t.own w.positive in
      let round = evaluate_entry-waiting now_ns now reg.by_name n e t.seen w.other alive positive in
      let same : (t.left, t.removed) ≡ (result, false) =
        ok-injective (sym t.round ∙ round ∙ rw q refl) in
      t.kept ∙ ap (λ r. r.0.regions e.handle) same

  turn : Yields (λ r. Turn now_ns now reg.by_name σ r.1 (n, e)) (evaluate_all now_ns now reg σ)
  turn =
      Yields-mono (evaluate_all-Turn now_ns now reg σ valid)
        λ r ts. Map.get-All (Turn now_ns now reg.by_name σ r.1) n reg.by_name ts w.registered

deliver_watched_words :
    (h v : ℕ) (τ : Shared)
    → (deliver_watched h (some v) τ).regions h ≡ (
        if leb (τ.regions h).open_count v
        then record (τ.regions h) { closed_count = v }
        else τ.regions h)
unfolding deliver_watched deliver
deliver_watched_words h v τ = ground arith

evaluate_counter_words :
    (m : List (Str × InterlockEntry)) (h : ℕ) (wn : Str) (ww : WatchedWord) (f : InterlockEntry)
    (τ : Shared)
    → Map.get wn m ≡ some f
    → (evaluate_counter m h (some wn) (some ww) τ).regions h ≡ (
        if leb (τ.regions h).open_count (word_of ww (τ.regions f.handle))
        then record (τ.regions h) { closed_count = word_of ww (τ.regions f.handle) }
        else τ.regions h)
unfolding evaluate_counter watched_value
evaluate_counter_words m h wn ww f τ there =
    rw (there, evaluate_counter, watched_value)
      (deliver_watched_words h (word_of ww (τ.regions f.handle)) τ)

module _ (now_ns now : ℕ) (reg : Registry) (σ : Shared) (n : Str) (e : InterlockEntry)
    (valid : IsValid reg σ.next_region) (w : IsWaiting now_ns reg σ n e) where
  -- A pass over a valid registry compares the target of a waiting counter with one value, which the
  -- watched word holds at the start of the pass or at its end: it delivers that value exactly when
  -- the target is not above it, and otherwise leaves the counter's words.
  pub evaluate_all-counter :
      (wn : Str) (ww : WatchedWord) (f : InterlockEntry)
      → e.tier ≡ wait_counter
      → e.watched_name ≡ some wn
      → e.watched_word ≡ some ww
      → Map.get wn reg.by_name ≡ some f
      → Yields
          (λ r.
            (v : ℕ) × ((v ≡ word_of ww (σ.regions f.handle))
              ⊎ (v ≡ word_of ww (r.1.regions f.handle)))
            × (r.1.regions e.handle ≡ (
                if leb (σ.regions e.handle).open_count v
                then record (σ.regions e.handle) { closed_count = v }
                else σ.regions e.handle)))
          (evaluate_all now_ns now reg σ)
  unfolding evaluate_contract
  evaluate_all-counter wn ww f tier name word there =
      Yields-mono (turn now_ns now reg σ n e valid w) λ r t. (
        word_of ww (t.seen.regions f.handle),
        seen r.1 t (t.between f.handle),
        contract-left now_ns now reg σ n e valid w r.1 t
              (evaluate_counter reg.by_name e.handle (some wn) (some ww) t.seen)
              (rw (tier, name, word) refl)
            ∙ evaluate_counter_words reg.by_name e.handle wn ww f t.seen there
            ∙ rw t.own refl,
      )
    where
      seen :
          (σ' : Shared) (t : Turn now_ns now reg.by_name σ σ' (n, e))
          → (t.seen.regions f.handle ≡ σ.regions f.handle)
            ⊎ (t.seen.regions f.handle ≡ σ'.regions f.handle)
          → (word_of ww (t.seen.regions f.handle) ≡ word_of ww (σ.regions f.handle))
            ⊎ (word_of ww (t.seen.regions f.handle) ≡ word_of ww (σ'.regions f.handle))
      seen σ' t (inl q) = inl (ap (word_of ww) q)
      seen σ' t (inr q) = inr (ap (word_of ww) q)

-- A condition of a barrier that the pass may take for met: its name is registered, and the word has
-- the threshold at the start of the pass or at its end.
abbrev pub MayMeet : List (Str × InterlockEntry) → Shared → Shared → BarrierCondition → Type 0
MayMeet m σ σ' (wn, ww, threshold) =
    (f : InterlockEntry) × (Map.get wn m ≡ some f)
    × ((threshold ≤ word_of ww (σ.regions f.handle))
        ⊎ (threshold ≤ word_of ww (σ'.regions f.handle)))

-- One that it may take for unmet.
abbrev pub MayMiss : List (Str × InterlockEntry) → Shared → Shared → BarrierCondition → Type 0
MayMiss m σ σ' (wn, ww, threshold) =
    (Map.get wn m ≡ none)
    ⊎ ((f : InterlockEntry) × (Map.get wn m ≡ some f)
        × ((word_of ww (σ.regions f.handle) < threshold)
            ⊎ (word_of ww (σ'.regions f.handle) < threshold)))

module _ (m : List (Str × InterlockEntry)) (σ σ' τ : Shared) (between : Between σ σ' τ) where
  is_met-MayMeet : (c : BarrierCondition) → is_met m τ c ≡ true → MayMeet m σ σ' c
  unfolding is_met watched_value
  is_met-MayMeet (wn, ww, threshold) h = elim (Option-cases (Map.get wn m)) [
    | inl q ↦ absurd (false-ne-true (rw (q, is_met, watched_value) at h))
    | inr (f, q) ↦ (
      f,
      q,
      elim (between f.handle) [
        | inl e ↦ inl (subst (λ x. threshold ≤ word_of ww x) e (reaches f q))
        | inr e ↦ inr (subst (λ x. threshold ≤ word_of ww x) e (reaches f q))
      ],
    )
  ]
    where
      false-ne-true : ◌≡◌ {A = Bool} false true → ⊥
      false-ne-true = λ q. cc

      reaches :
          (f : InterlockEntry) → Map.get wn m ≡ some f → threshold ≤ word_of ww (τ.regions f.handle)
      reaches f q = leb→le _ _ (rw (q, is_met, watched_value) at h)

  is_met-MayMiss : (c : BarrierCondition) → is_met m τ c ≡ false → MayMiss m σ σ' c
  unfolding is_met watched_value
  is_met-MayMiss (wn, ww, threshold) h = elim (Option-cases (Map.get wn m)) [
    | inl q ↦ inl q
    | inr (f, q) ↦ inr (
      f,
      q,
      elim (between f.handle) [
        | inl e ↦ inl (subst (λ x. word_of ww x < threshold) e (below f q))
        | inr e ↦ inr (subst (λ x. word_of ww x < threshold) e (below f q))
      ],
    )
  ]
    where
      below :
          (f : InterlockEntry) → Map.get wn m ≡ some f → word_of ww (τ.regions f.handle) < threshold
      below f q =
          let e : leb threshold (word_of ww (τ.regions f.handle)) ≡ false =
            rw (q, is_met, watched_value) at h in
          ground arith

  all_met-MayMeet :
      (conds : List BarrierCondition) → all_met m τ conds ≡ true → All (MayMeet m σ σ') conds
  unfolding all_met
  all_met-MayMeet [] h = tt
  all_met-MayMeet (c ∷ cs) h = (is_met-MayMeet c (ground arith), all_met-MayMeet cs (ground arith))

  all_met-MayMiss :
      (conds : List BarrierCondition) → all_met m τ conds ≡ false → Any (MayMiss m σ σ') conds
  unfolding all_met
  all_met-MayMiss [] h = cc
  all_met-MayMiss (c ∷ cs) h = elim (Bool-cases (is_met m τ c)) [
    | inl met ↦ inr (all_met-MayMiss cs (ground arith))
    | inr unmet ↦ inl (is_met-MayMiss c unmet)
  ]

evaluate_barrier_words :
    (now : ℕ) (m : List (Str × InterlockEntry)) (h : ℕ) (conds : List BarrierCondition) (τ : Shared)
    → (evaluate_barrier now m h (some conds) τ).regions h
      ≡ (if all_met m τ conds then record (τ.regions h) { closed_count = now } else τ.regions h)
unfolding evaluate_barrier deliver
evaluate_barrier_words now m h conds τ = ground arith

module _ (now_ns now : ℕ) (reg : Registry) (σ : Shared) (n : Str) (e : InterlockEntry)
    (valid : IsValid reg σ.next_region) (w : IsWaiting now_ns reg σ n e) where
  -- A pass over a valid registry stamps a waiting barrier with its time, and then each condition was
  -- met at the start of the pass or at its end; or it leaves the barrier's words, and then some
  -- condition was unmet at the start or at the end, or its name is not registered.
  pub evaluate_all-barrier :
      (conds : List BarrierCondition)
      → e.tier ≡ wait_barrier
      → e.barrier_conditions ≡ some conds
      → Yields
          (λ r.
            ((r.1.regions e.handle ≡ record (σ.regions e.handle) { closed_count = now })
              × All (MayMeet reg.by_name σ r.1) conds)
            ⊎ ((r.1.regions e.handle ≡ σ.regions e.handle) × Any (MayMiss reg.by_name σ r.1) conds))
          (evaluate_all now_ns now reg σ)
  unfolding evaluate_contract
  evaluate_all-barrier conds tier conditions =
      Yields-mono (turn now_ns now reg σ n e valid w) λ r t.
        let words =
          contract-left now_ns now reg σ n e valid w r.1 t
            (evaluate_barrier now reg.by_name e.handle (some conds) t.seen)
            (rw (tier, conditions) refl)
          ∙ evaluate_barrier_words now reg.by_name e.handle conds t.seen in
        elim (Bool-cases (all_met reg.by_name t.seen conds)) [
          | inl met ↦ inl (
            words ∙ rw (met, t.own) refl,
            all_met-MayMeet reg.by_name σ r.1 t.seen t.between conds met,
          )
          | inr unmet ↦ inr (
            words ∙ rw (unmet, t.own) refl,
            all_met-MayMiss reg.by_name σ r.1 t.seen t.between conds unmet,
          )
        ]
