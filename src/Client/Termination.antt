-- ===== src/Client/Termination.antt =====
-- `free`, and what may still happen to the interlock.
use abacus_rts.Base.{
  ℕ, ◌<◌, ◌≡◌, ◌≢◌, ap, ◌∙◌, true, false, Option, none, some, List, [], ◌∷◌, ==_refl, err, Yields,
  Yields-both, Yields-mono, arith,
}
use abacus_rts.Base.U64.{IsU64}
use abacus_rts.Base.Text.{Str, str_eq}
use abacus_rts.Base.Map
use abacus_rts.Core.Interlock.Arm.{arm_atomic}
use abacus_rts.Core.Interlock.Words.{
  Interlock, Shared, interlock_free, interlock_is_terminated, sentinel,
}
use abacus_rts.Registry.Entry.{InterlockEntry, Registry, clock_name}
use abacus_rts.Registry.Evaluate.{evaluate_all, is_dead}
use abacus_rts.Registry.Invariant.{IsValid}
use abacus_rts.Registry.Step.{Settles, is_clock, idle, evaluated, reaped_words}
use abacus_rts.Registry.Survivors.{get-evaluate_all, evaluate_all-Settles}
use abacus_rts.Registry.Pass.{SettlesIn}
use abacus_rts.Client.Types.{sdk_interlock_reaped}
use abacus_rts.Client.Touch.{Thread}
use abacus_rts.Client.Wait.Methods.{Owned, free_by, free_by-interlock_free}
use abacus_rts.Client.Handles.{open_by, attached_free, touch, Act, opens, closes, touches, act_all}
use abacus_rts.Client.Counts.{effect, effects, act_all-effects, act_all-next_region}

effects-expiration_ns :
    (acts : List Act) (w : Interlock)
    → w.expiration_ns ≡ sentinel
    → (effects acts w).expiration_ns ≡ sentinel
unfolding arm_atomic
effects-expiration_ns [] w q = q
effects-expiration_ns (opens h ∷ acts) w q = effects-expiration_ns acts (effect (opens h) w) q
effects-expiration_ns (closes h ∷ acts) w q = effects-expiration_ns acts (effect (closes h) w) q
effects-expiration_ns (touches now ms ∷ acts) w q =
    effects-expiration_ns acts (effect (touches now ms) w) (ground arith)

free-expiration_ns :
    (handle : ℕ) (σ : Shared) → ((interlock_free handle σ).regions handle).expiration_ns ≡ sentinel
unfolding interlock_free
free-expiration_ns handle σ = ground arith

module _ (handle : ℕ) (acts : List Act) (σ : Shared) where
  abbrev freed : Shared
  freed = act_all handle acts (interlock_free handle σ)

  freed-expiration_ns : (freed.regions handle).expiration_ns ≡ sentinel
  freed-expiration_ns =
      ap (λ (w : Interlock). w.expiration_ns)
        (act_all-effects handle acts (interlock_free handle σ))
      ∙ effects-expiration_ns acts _ (free-expiration_ns handle σ)

  -- Once an interlock was freed, it is terminated and a touch of it fails, whatever its holders
  -- open, close and touch.
  pub free_is_final :
      (now ms : ℕ)
      → (interlock_is_terminated handle (act_all handle acts (interlock_free handle σ)) ≡ true)
        × ((touch handle now ms (act_all handle acts (interlock_free handle σ))).0
            ≡ err sdk_interlock_reaped)
  unfolding interlock_is_terminated touch arm_atomic
  free_is_final now ms = (ground (arith, freed-expiration_ns), ground (arith, freed-expiration_ns))

freed-next_region :
    (handle : ℕ) (acts : List Act) (σ : Shared)
    → (act_all handle acts (interlock_free handle σ)).next_region ≡ σ.next_region
unfolding interlock_free
freed-next_region handle acts σ = act_all-next_region handle acts (interlock_free handle σ)

-- An entry whose words are dead before a pass is gone after it, with every word the sentinel.
module _ (now_ns now : ℕ) (reg : Registry) (σ : Shared) (n : Str) (e : InterlockEntry)
    (other : str_eq n clock_name ≡ false) (dead : is_dead now_ns (σ.regions e.handle) ≡ true) where
  settled-dead : (w : Interlock) → Settles now_ns now n e (σ.regions e.handle) w → w ≡ reaped_words
  settled-dead w (is_clock q same) = cc
  settled-dead w (Settles.reaped other' dead' q) = q
  settled-dead w (idle other' alive flat same) = cc
  settled-dead w (evaluated other' alive positive fires) = cc

  pub evaluate_all-dead :
      IsValid reg σ.next_region
      → Map.get n reg.by_name ≡ some e
      → Yields
          (λ r. (Map.get n r.0.by_name ≡ none) × (r.1.regions e.handle ≡ reaped_words))
          (evaluate_all now_ns now reg σ)
  evaluate_all-dead valid q =
      Yields-mono
        (Yields-both (get-evaluate_all now_ns now reg σ valid)
          (evaluate_all-Settles now_ns now reg σ valid))
        λ r p. (
          p.0 n ∙ rw (q, other, dead),
          settled-dead (r.1.regions e.handle)
              (Map.get-All (SettlesIn now_ns now σ r.1) n reg.by_name p.1.0 q),
        )

-- Once its owner, of whatever kind, has freed an interlock other than the clock, then whatever its
-- holders open, close and touch, the next pass over a valid registry that has it under a name
-- returns, removes the name, and leaves the sentinel in all its words.
pub evaluate_all-freed :
    (kind : Owned) (thread : Option Thread) (now_ns now : ℕ) (reg : Registry) (σ : Shared) (n : Str)
    (e : InterlockEntry) (acts : List Act)
    → IsValid reg σ.next_region
    → Map.get n reg.by_name ≡ some e
    → str_eq n clock_name ≡ false
    → Yields
        (λ r. (Map.get n r.0.by_name ≡ none) × (r.1.regions e.handle ≡ reaped_words))
        (evaluate_all now_ns now reg (act_all e.handle acts (free_by kind e.handle thread σ).1))
unfolding is_dead
evaluate_all-freed kind thread now_ns now reg σ n e acts valid q other =
    rw (free_by-interlock_free kind e.handle thread σ) (
      evaluate_all-dead now_ns now reg (freed e.handle acts σ) n e other
        (ground (arith, freed-expiration_ns e.handle acts σ))
        (rw (freed-next_region e.handle acts σ) valid) q)

-- After an attacher's free of an interlock whose closed_count and expiration are not the sentinel,
-- the interlock is terminated, but an open by a positive count ends that.
pub attached_free-open_by :
    (handle h : ℕ) (σ : Shared)
    → 0 < h
    → IsU64 h
    → (σ.regions handle).closed_count ≢ sentinel
    → (σ.regions handle).expiration_ns ≢ sentinel
    → (interlock_is_terminated handle (attached_free handle σ) ≡ true)
      × (interlock_is_terminated handle (open_by handle h (attached_free handle σ)) ≡ false)
unfolding interlock_is_terminated attached_free open_by
attached_free-open_by handle h σ pos small c e =
    (ground (arith, ==_refl handle), rw (==_refl handle) (ground arith))
