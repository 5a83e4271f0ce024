-- ===== src/Registry/Turn.antt =====
-- `evaluate_all`: what an entry sees of the others at its turn in the pass.
use abacus_rts.Base.{
  ℕ, ◌≡◌, refl, sym, ◌∙◌, subst, ◌≢◌, ◌⊎◌, inl, inr, Bool, List, [], ◌∷◌, ◌++◌, ◌==◌, if◌then◌else◌,
  Result, ok, Yields, yields, fails, Yields-bind, Yields-mono, All, All-map, All-map_both,
  Bool-cases, arith,
}
use abacus_rts.Base.Text.{Str}
use abacus_rts.Core.Interlock.Words.{Shared}
use abacus_rts.Registry.Entry.{InterlockEntry, Registry}
use abacus_rts.Registry.Evaluate.{evaluate_entry, evaluate_loop, evaluate_all}
use abacus_rts.Registry.Invariant.{Configured, Differs, Separate, IsEntry, IsValid}
use abacus_rts.Registry.Step.{Stepped, evaluate_entry-Stepped}

-- Each region holds what it held before or what it holds behind.
abbrev pub Between : Shared → Shared → Shared → Type 0
Between σ σ' τ = (h : ℕ) → (τ.regions h ≡ σ.regions h) ⊎ (τ.regions h ≡ σ'.regions h)

-- The entry's round in a pass from the one memory to the other.
pub record Turn (now_ns now : ℕ) (m : List (Str × InterlockEntry)) (σ σ' : Shared)
    (x : Str × InterlockEntry) : Type 0 where
  pub seen : Shared
  pub left : Shared
  pub removed : Bool
  pub between : Between σ σ' seen
  pub own : seen.regions x.1.handle ≡ σ.regions x.1.handle
  pub round : evaluate_entry now_ns now m x seen ≡ ok (left, removed)
  pub kept : σ'.regions x.1.handle ≡ left.regions x.1.handle

record Turned (now_ns now : ℕ) (m rest : List (Str × InterlockEntry)) (σ σ' : Shared) : Type 0 where
  turns : All (Turn now_ns now m σ σ') rest
  outside : (h : ℕ) → All (λ x. x.1.handle ≢ h) rest → σ'.regions h ≡ σ.regions h

Yields-eq {ℓ κ μ} :
    {E : Type ℓ} {A : Type κ} {P : A → Type μ} {r : Result E A}
    → Yields P r
    → Yields (λ a. P a × (r ≡ ok a)) r
Yields-eq (yields p) = yields (p, refl)
Yields-eq fails = fails

module _ (now_ns now : ℕ) (m : List (Str × InterlockEntry)) where
  -- A turn behind the round of another entry.
  Turn-later :
      (h : ℕ) (σ σ₁ σ' : Shared) (y : Str × InterlockEntry)
      → ((k : ℕ) → k ≢ h → σ₁.regions k ≡ σ.regions k)
      → σ'.regions h ≡ σ₁.regions h
      → y.1.handle ≢ h
      → Turn now_ns now m σ₁ σ' y
      → Turn now_ns now m σ σ' y
  Turn-later h σ σ₁ σ' y elsewhere settled other t = record {
    seen = t.seen;
    left = t.left;
    removed = t.removed;
    between = λ k. elim (Bool-cases (k == h)) [
      | inl same ↦ inr (behind k (ground arith) (t.between k))
      | inr apart ↦ before k (ground arith) (t.between k)
    ];
    own = t.own ∙ elsewhere y.1.handle other;
    round = t.round;
    kept = t.kept;
  }
    where
      behind :
          (k : ℕ)
          → k ≡ h
          → (t.seen.regions k ≡ σ₁.regions k) ⊎ (t.seen.regions k ≡ σ'.regions k)
          → t.seen.regions k ≡ σ'.regions k
      behind k q (inl e) = e ∙ sym (subst (λ j. σ'.regions j ≡ σ₁.regions j) (sym q) settled)
      behind k q (inr e) = e

      before :
          (k : ℕ)
          → k ≢ h
          → (t.seen.regions k ≡ σ₁.regions k) ⊎ (t.seen.regions k ≡ σ'.regions k)
          → (t.seen.regions k ≡ σ.regions k) ⊎ (t.seen.regions k ≡ σ'.regions k)
      before k q (inl e) = inl (e ∙ elsewhere k q)
      before k q (inr e) = inr e

  Turned-cons :
      (x : Str × InterlockEntry) (rest : List (Str × InterlockEntry)) (σ : Shared)
      (r : Shared × Bool) (σ' : Shared)
      → All (Differs x.1.handle x.1.id) rest
      → Stepped now_ns now x.0 x.1 σ r
      → evaluate_entry now_ns now m x σ ≡ ok r
      → Turned now_ns now m rest r.0 σ'
      → Turned now_ns now m (x ∷ rest) σ σ'
  Turned-cons x rest σ r σ' apart st q p = record {
    turns = (
      record {
        seen = σ;
        left = r.0;
        removed = r.1;
        between = λ h. inl refl;
        own = refl;
        round = q;
        kept = settled;
      },
      All-map_both (Differs x.1.handle x.1.id) (Turn now_ns now m r.0 σ') (Turn now_ns now m σ σ')
          rest
          (λ y d t. Turn-later x.1.handle σ r.0 σ' y st.frame.elsewhere settled d.other_region t)
          apart p.turns,
    );
    outside = λ h hs. p.outside h hs.1 ∙ st.frame.elsewhere h (λ e. hs.0 (sym e));
  }
    where
      settled : σ'.regions x.1.handle ≡ r.0.regions x.1.handle
      settled = p.outside x.1.handle (
          All-map (Differs x.1.handle x.1.id) (λ y. y.1.handle ≢ x.1.handle) rest
            (λ y d. d.other_region) apart)

  evaluate_loop-Turned :
      (rest : List (Str × InterlockEntry)) (σ : Shared) (done : List Str)
      → Separate rest
      → All (λ x. Configured x.1.tier x.1) rest
      → Yields (λ r. Turned now_ns now m rest σ r.0) (evaluate_loop now_ns now m rest σ done)
  unfolding evaluate_loop
  evaluate_loop-Turned [] σ done s c = yields (record { turns = tt; outside = λ h hs. refl })
  evaluate_loop-Turned ((n, e) ∷ rest) σ done s c =
      Yields-bind (Yields-eq (evaluate_entry-Stepped now_ns now m n e σ c.0)) λ r st.
        Yields-mono (evaluate_loop-Turned rest r.0 (if r.1 then done ++ n ∷ [] else done) s.1 c.1)
          λ r' p. Turned-cons (n, e) rest σ r r'.0 s.0 st.0 st.1 p

-- Each entry of a valid registry has one round in a pass: it finds its own words as they were at
-- the start, those of any other as at the start or as at the end, and leaves its own for good.
pub evaluate_all-Turn :
    (now_ns now : ℕ) (reg : Registry) (σ : Shared)
    → IsValid reg σ.next_region
    → Yields
        (λ r. All (Turn now_ns now reg.by_name σ r.1) reg.by_name)
        (evaluate_all now_ns now reg σ)
unfolding evaluate_all
evaluate_all-Turn now_ns now reg σ valid =
    Yields-bind
      (evaluate_loop-Turned now_ns now reg.by_name reg.by_name σ [] valid.separate (
        All-map (IsEntry σ.next_region reg.next_id) (λ x. Configured x.1.tier x.1) reg.by_name
          (λ x h. h.configured) valid.entries))
      λ r p. yields p.turns
