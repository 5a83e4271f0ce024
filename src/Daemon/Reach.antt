-- ===== src/Daemon/Reach.antt =====
-- The states of a running daemon: requests, cycles and the clients' writes, in any order.
use abacus_rts.Base.{
  ℕ, suc, [], ◌∷◌, ◌+◌, ◌/◌, ◌^◌, ◌<◌, ◌≡◌, refl, sym, subst, >>=-eq-ok, expect_ok, ◌>>◌,
  ok-injective, ◌∙◌, inl, inr, some, Result, ok, err, panic, Yields, yields, Yields-bind,
  Yields-mono, Yields-eq-ok, Yields-both, NoPanic, Option-cases, arith,
}
use abacus_rts.Base.Text.{str_eq_refl}
use abacus_rts.Base.Map
use abacus_rts.Core.Error.{Condition}
use abacus_rts.Core.Interlock.Words.{Interlock, Shared, store, WatchedWord, futex_wake}
use abacus_rts.Core.Interlock.Create.{Kernel, interlock_create}
use abacus_rts.Wire.Message.{Request}
use abacus_rts.Registry.Entry.{
  InterlockEntry, Registry, clock_name, clock_entry, clock, new, refresh_clock_expiration, arm,
}
use abacus_rts.Registry.Create.{CreateArgs, create}
use abacus_rts.Registry.Invariant.{IsValid}
use abacus_rts.Registry.Resolve.{interlock_create-Yields}
use abacus_rts.Registry.Survivors.{evaluate_all-IsValid, get-evaluate_all, clock-survivor}
use abacus_rts.Registry.Created.{create-Created, create-IsValid}
use abacus_rts.Daemon.Request.{Handled, handle_request}
use abacus_rts.Daemon.Replies.{handle_request-IsBalanced}
use abacus_rts.Daemon.Outcome.{handle_request-Outcome}
use abacus_rts.Daemon.Cycle.{advance}

pub record State : Type 0 where
  pub registry : Registry
  pub shared : Shared
  pub clock_handle : ℕ

-- One event: a request that was received, the end of a cycle, or writes of clients to the shared
-- words, whatever they are.
pub data Step (s : State) (s' : State) : Type 0 where
  request :
      (k : Kernel) (r : Request) (h : Handled)
      → s.registry.next_id + 1 < 2 ^ 64
      → handle_request k r s.registry s.shared ≡ ok h
      → s' ≡ record s { registry = h.registry; shared = h.shared }
      → Step s s'
  cycle :
      (now now_ns arm_now : ℕ) (reg : Registry) (σ : Shared)
      → advance s.clock_handle now now_ns arm_now s.registry s.shared ≡ ok (reg, σ)
      → s' ≡ record s { registry = reg; shared = σ }
      → Step s s'
  clients :
      (regions : ℕ → Interlock)
      → s' ≡ record s { shared = record s.shared { regions = regions } }
      → Step s s'

-- The states that follow a start of the daemon.
pub data Reachable : State → Type 0 where
  start :
      (k : Kernel) (arm_now start_now : ℕ) (σ : Shared) (s : State)
      → new k arm_now start_now σ ≡ ok (s.registry, s.shared)
      → clock s.registry ≡ ok s.clock_handle
      → Reachable s
  next : {s s' : State} → Reachable s → Step s s' → Reachable s'

-- What holds in each of them: the registry is valid, and the clock keeps its region.
pub record Inv (s : State) : Type 0 where
  pub valid : IsValid s.registry s.shared.next_region
  pub clock :
      (e : InterlockEntry) × (Map.get clock_name s.registry.by_name ≡ some e)
      × (e.handle ≡ s.clock_handle)

clock-handle :
    (reg : Registry) {h : ℕ}
    → clock reg ≡ ok h
    → (e : InterlockEntry) × (Map.get clock_name reg.by_name ≡ some e) × (e.handle ≡ h)
unfolding clock
clock-handle reg q = elim (Option-cases (Map.get clock_name reg.by_name)) [
  | inl none_left ↦ cc (none_left)
  | inr (e, found) ↦ (e, found, ground arith)
]

expect_ok-eq :
    {A : Type 0} (r : Result Condition (Unit {0})) {a b : A} → (expect_ok r >> ok a) ≡ ok b → a ≡ b
expect_ok-eq (ok _) q = ok-injective q
expect_ok-eq (err e) q = cc
expect_ok-eq panic q = cc

n<suc : (n : ℕ) → n < suc n
n<suc n = omega arith

fresh-IsValid :
    {h n : ℕ}
    → h < n
    → IsValid (record { next_id = 1; by_name = (clock_name, clock_entry h) ∷ [] }) n
unfolding Map.get
fresh-IsValid {h} below = record {
  distinct = (tt, tt);
  separate = (tt, tt);
  entries = (record { below_region = below; below_id = omega arith; configured = tt }, tt);
  clock = (clock_entry h, rw (str_eq_refl clock_name) refl, refl);
}

new-IsValid :
    (k : Kernel) (arm_now start_now : ℕ) (σ : Shared) {reg : Registry} {σ' : Shared}
    → new k arm_now start_now σ ≡ ok (reg, σ')
    → IsValid reg σ'.next_region
unfolding new arm
new-IsValid k arm_now start_now σ {reg} {σ'} q =
    let made = >>=-eq-ok {A = ℕ × Shared} (interlock_create k σ) _ q in
    let at = Yields-eq-ok (interlock_create-Yields k σ) made.1 in
    let done = expect_ok-eq (arm made.0.0 arm_now 1_000_000_000 made.0.1).0 made.2 in
    let below : made.0.0 < made.0.1.next_region =
      subst (λ (p : ℕ × Shared). p.0 < p.1.next_region) (sym at) (n<suc σ.next_region) in
    subst (λ (p : Registry × Shared). IsValid p.0 p.1.next_region) done (fresh-IsValid below)

create-Inv :
    (k : Kernel) (a : CreateArgs) (s : State) (p : (ℕ × ℕ) × Registry × Shared)
    → s.registry.next_id + 1 < 2 ^ 64
    → Inv s
    → create k a s.registry s.shared ≡ ok p
    → Inv (record s { registry = p.1; shared = p.2 })
create-Inv k a s p room i q =
    let made = Yields-eq-ok (create-Created k a s.registry s.shared i.valid) q in
    record {
      valid = Yields-eq-ok (create-IsValid k a s.registry s.shared room i.valid) q;
      clock = (i.clock.0, made.others clock_name made.not_clock ∙ i.clock.1, i.clock.2);
    }

refresh-Yields :
    (now : ℕ) (reg : Registry) (σ : Shared) (e : InterlockEntry)
    → Map.get clock_name reg.by_name ≡ some e
    → Yields (λ σ'. σ'.next_region ≡ σ.next_region) (refresh_clock_expiration now reg σ)
unfolding refresh_clock_expiration clock arm
refresh-Yields now reg σ e found = rw found (yields refl)

-- A cycle does not panic.
pub advance-Inv :
    (s : State) (now now_ns arm_now : ℕ)
    → Inv s
    → Yields
        (λ r. Inv (record s { registry = r.0; shared = r.1 }))
        (advance s.clock_handle now now_ns arm_now s.registry s.shared)
unfolding advance
advance-Inv s now now_ns arm_now i =
    Yields-bind
      (Yields-both (evaluate_all-IsValid now_ns (now / 1_000_000) s.registry ticked i.valid)
        (get-evaluate_all now_ns (now / 1_000_000) s.registry ticked i.valid))
      λ r (valid, kept).
        let clock_kept : Map.get clock_name r.0.by_name ≡ some i.clock.0 =
          kept clock_name ∙ clock-survivor now_ns ticked _ ∙ i.clock.1 in
        Yields-bind {f = λ σ₅. ok (r.0, σ₅)}
          (refresh-Yields arm_now r.0 (futex_wake s.clock_handle WatchedWord.open_count r.1)
            i.clock.0 clock_kept)
          λ σ₄ same. yields (record {
            valid = subst (IsValid r.0) (sym same) valid;
            clock = (i.clock.0, clock_kept, i.clock.2);
          })
  where
    ticked : Shared
    ticked =
        store s.clock_handle
          (record (s.shared.regions s.clock_handle) { open_count = now / 1_000_000 }) s.shared

Step-Inv : {s s' : State} → Step s s' → Inv s → Inv s'
Step-Inv {s = s} (request k r h room e q) i =
    rw q (elim (handle_request-Outcome k r s.registry s.shared h e) [
      | inl (same_registry, same_shared) ↦
          rw (same_registry, same_shared) (record { valid = i.valid; clock = i.clock })
      | inr (a, p, made, x, y) ↦ rw (x, y) (create-Inv k a s p room i made)
    ])
Step-Inv {s = s} (cycle now now_ns arm_now reg σ e q) i =
    rw q (Yields-eq-ok (advance-Inv s now now_ns arm_now i) e)
Step-Inv (clients regions q) i = rw q (record { valid = i.valid; clock = i.clock })

-- In every state that the daemon reaches from its start by requests, ends of cycles and arbitrary
-- writes of clients to the shared words, while the ids fit a u64, the registry is valid and the
-- clock is registered at its region.
pub Reachable-Inv : {s : State} → Reachable s → Inv s
Reachable-Inv (start k arm_now start_now σ s made at) = record {
  valid = new-IsValid k arm_now start_now σ made;
  clock = clock-handle s.registry at;
}
Reachable-Inv (next r st) = Step-Inv st (Reachable-Inv r)

-- In every state that the daemon reaches in this way neither a request, whatever its contents and
-- however the kernel answers, nor the end of a cycle at any readings of the clock panics.
pub Reachable-NoPanic :
    {s : State} (k : Kernel) (r : Request) (now now_ns arm_now : ℕ)
    → Reachable s
    → NoPanic (handle_request k r s.registry s.shared)
      × NoPanic (advance s.clock_handle now now_ns arm_now s.registry s.shared)
Reachable-NoPanic {s} k r now now_ns arm_now h =
    let i = Reachable-Inv h in
    (
      Yields-mono (handle_request-IsBalanced k r s.registry s.shared i.valid) λ _ _. tt,
      Yields-mono (advance-Inv s now now_ns arm_now i) λ _ _. tt,
    )
