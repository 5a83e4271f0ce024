-- ===== src/Client/KeepAlive.antt =====
-- A touch thread, its owner's counters and the daemon's passes, interleaved.
use abacus_rts.Base.{
  ℕ, ◌+◌, ◌≤◌, ◌<◌, ◌≡◌, ◌≢◌, refl, sym, ◌∙◌, subst, false, some, List, [], ◌∷◌, ==_refl, ==_false,
  Yields, yields, Yields-bind, Yields-both, Yields-mono, arith, max,
}
use abacus_rts.Base.U64.{wrapping_add}
use abacus_rts.Base.Text.{Str, str_eq}
use abacus_rts.Base.Map
use abacus_rts.Core.Interlock.Arm.{arm_atomic}
use abacus_rts.Core.Interlock.Words.{Interlock, Shared, store, sentinel, interlock_is_terminated}
use abacus_rts.Registry.Entry.{interlock, InterlockEntry, Registry, clock_name, arm}
use abacus_rts.Registry.Evaluate.{is_dead}
use abacus_rts.Registry.Pass.{SettlesIn}
use abacus_rts.Registry.Step.{Settles, is_clock, idle, evaluated, Fires}
use abacus_rts.Registry.Survivors.{evaluate_all-IsValid, get-evaluate_all, evaluate_all-Settles}
use abacus_rts.Client.Handles.{open_by, close_by}
use abacus_rts.Client.Touch.{Thread, spawned, touch_tick, is_reaped, arm_alive}
use abacus_rts.Client.Events.{
  Event, beats, passes, opens, closes, writes, World, happen, run, Timely, Kept,
}

-- While the interlock is alive, a round of the running thread arms it.
touch_tick_alive :
    (handle ttl now : ℕ) (σ : Shared)
    → (σ.regions handle).expiration_ns < sentinel
    → now + ttl < sentinel
    → touch_tick handle ttl now spawned σ ≡ (
      spawned,
      store handle
          (record (σ.regions handle) {
            expiration_ns = max (σ.regions handle).expiration_ns (now + ttl);
          })
          σ,
    )
unfolding touch_tick
touch_tick_alive handle ttl now σ set small = rw (arm_alive handle ttl now σ set small) refl

-- The words of the interlock move, and the rest stays.
Kept-words :
    (n : Str) (e : InterlockEntry) (ttl last opened closed last' opened' closed' : ℕ)
    (reg : Registry) (σ σ' : Shared) (t : Thread) (w : Interlock)
    → Kept n e ttl last opened closed (t, reg, σ)
    → σ'.next_region ≡ σ.next_region
    → σ'.regions e.handle ≡ w
    → (w.open_count ≡ opened') × (opened' < sentinel)
    → (w.closed_count ≡ closed') × (closed' < sentinel)
    → (last' + ttl ≤ w.expiration_ns) × (w.expiration_ns < sentinel)
    → Kept n e ttl last' opened' closed' (spawned, reg, σ')
Kept-words n e ttl last opened closed last' opened' closed' reg σ σ' t w k next words o c x =
    record {
      running = refl;
      valid = rw next k.valid;
      registered = k.registered;
      open_count = rw words o.0;
      closed_count = rw words c.0;
      lasts = rw words x.0;
      set = rw words x.1;
      opened_lt = o.1;
      closed_lt = c.1;
    }

-- A pass leaves the words of a plain interlock that is alive.
settled_plain :
    (now_ns now : ℕ) (n : Str) (e : InterlockEntry) (w w' : Interlock)
    → e.tier ≡ interlock
    → is_dead now_ns w ≡ false
    → Settles now_ns now n e w w'
    → w' ≡ w
settled_plain now_ns now n e w w' plain alive (is_clock q same) = same
settled_plain now_ns now n e w w' plain alive (Settles.reaped other dead q) =
    absurd (ground (arith, alive))
settled_plain now_ns now n e w w' plain alive (idle other live flat same) = same
settled_plain now_ns now n e w w' plain alive (evaluated other live positive fires) =
    subst (λ t. Fires t now e w w') plain fires

module _ (n : Str) (e : InterlockEntry) (ttl : ℕ) (other : str_eq n clock_name ≡ false)
    (plain : e.tier ≡ interlock) where
  is_dead-Kept :
      (last opened closed now_ns : ℕ) (s : World)
      → Kept n e ttl last opened closed s
      → now_ns < last + ttl
      → is_dead now_ns (s.2.regions e.handle) ≡ false
  unfolding is_dead
  is_dead-Kept last opened closed now_ns s k early =
      ground (arith, k.open_count, k.closed_count, k.lasts, k.set, k.opened_lt, k.closed_lt)

  pass-Kept :
      (last opened closed now_ns now : ℕ) (s : World)
      → Kept n e ttl last opened closed s
      → now_ns < last + ttl
      → Yields (Kept n e ttl last opened closed) (happen e.handle ttl (passes now_ns now) s)
  unfolding happen
  pass-Kept last opened closed now_ns now (t, reg, σ) k early =
      Yields-bind
        (Yields-both (evaluate_all-IsValid now_ns now reg σ k.valid) (
          Yields-both (get-evaluate_all now_ns now reg σ k.valid)
            (evaluate_all-Settles now_ns now reg σ k.valid)))
        λ r p.
          let alive = is_dead-Kept last opened closed now_ns (t, reg, σ) k early in
          let same : r.1.regions e.handle ≡ σ.regions e.handle =
            settled_plain now_ns now n e _ _ plain alive
              (Map.get-All (SettlesIn now_ns now σ r.1) n reg.by_name p.1.1.0 k.registered) in
          yields (record {
            running = k.running;
            valid = p.0;
            registered = p.1.0 n ∙ rw (k.registered, other, alive) refl;
            open_count = rw same k.open_count;
            closed_count = rw same k.closed_count;
            lasts = rw same k.lasts;
            set = rw same k.set;
            opened_lt = k.opened_lt;
            closed_lt = k.closed_lt;
          })

  other_words :
      (h : ℕ) (w : Interlock) (σ : Shared)
      → h ≢ e.handle
      → (store h w σ).regions e.handle ≡ σ.regions e.handle
  other_words h w σ ne = rw (==_false e.handle h (λ q. ne (sym q))) refl

  step-Kept :
      (last opened closed : ℕ) (v : Event) (es : List Event) (s : World)
      → Kept n e ttl last opened closed s
      → Timely e.handle ttl last opened closed (v ∷ es)
      → Yields
          (λ s'.
            (last' : ℕ) × (opened' : ℕ) × (closed' : ℕ) × Kept n e ttl last' opened' closed' s'
            × Timely e.handle ttl last' opened' closed' es)
          (happen e.handle ttl v s)
  unfolding happen touch_tick arm arm_atomic open_by close_by
  step-Kept last opened closed (beats now) es (t, reg, σ) k h =
      rw (k.running, touch_tick_alive e.handle ttl now σ k.set h.0)
        (yields (
          now,
          opened,
          closed,
          Kept-words n e ttl last opened closed now opened closed reg σ _ t
              (record (σ.regions e.handle) {
                expiration_ns = max (σ.regions e.handle).expiration_ns (now + ttl);
              })
              k refl (rw (==_refl e.handle) refl) (k.open_count, k.opened_lt)
              (k.closed_count, k.closed_lt) (omega arith, omega (arith, k.set, h.0)),
          h.2,
        ))
  step-Kept last opened closed (passes now_ns now) es (t, reg, σ) k h =
      Yields-mono (pass-Kept last opened closed now_ns now (t, reg, σ) k h.0)
        λ s' k'. (last, opened, closed, k', h.1)
  step-Kept last opened closed (opens a) es (t, reg, σ) k h = rw k.running (
      yields (
        last,
        opened + a,
        closed,
        Kept-words n e ttl last opened closed last (opened + a) closed reg σ _ t
            (record (σ.regions e.handle) {
              open_count = wrapping_add (σ.regions e.handle).open_count a;
            })
            k refl (rw (==_refl e.handle) refl) (omega (arith, k.open_count, h.0), h.0)
            (k.closed_count, k.closed_lt) (k.lasts, k.set),
        h.1,
      ))
  step-Kept last opened closed (closes a) es (t, reg, σ) k h = rw k.running (
      yields (
        last,
        opened,
        closed + a,
        Kept-words n e ttl last opened closed last opened (closed + a) reg σ _ t
            (record (σ.regions e.handle) {
              closed_count = wrapping_add (σ.regions e.handle).closed_count a;
            })
            k refl (rw (==_refl e.handle) refl) (k.open_count, k.opened_lt)
            (omega (arith, k.closed_count, h.0), h.0) (k.lasts, k.set),
        h.1,
      ))
  step-Kept last opened closed (writes h' w) es (t, reg, σ) k h = rw k.running (
      yields (
        last,
        opened,
        closed,
        Kept-words n e ttl last opened closed last opened closed reg σ _ t (σ.regions e.handle) k
            refl (other_words h' w σ h.0) (k.open_count, k.opened_lt) (k.closed_count, k.closed_lt)
            (k.lasts, k.set),
        h.1,
      ))

  run-Kept :
      (last opened closed : ℕ) (es : List Event) (s : World)
      → Kept n e ttl last opened closed s
      → Timely e.handle ttl last opened closed es
      → Yields
          (λ s'.
            (last' : ℕ) × (opened' : ℕ) × (closed' : ℕ) × Kept n e ttl last' opened' closed' s')
          (run e.handle ttl es s)
  unfolding run
  run-Kept last opened closed [] s k h = yields (last, opened, closed, k)
  run-Kept last opened closed (v ∷ es) s k h =
      Yields-bind (step-Kept last opened closed v es s k h)
        λ s' p. run-Kept p.0 p.1 p.2 es s' p.3 p.4

-- A plain interlock whose touch thread runs stays registered under its name and is not terminated,
-- its thread sees no reap, and nothing panics, through any sequence of the thread's rounds, passes
-- of the daemon, opens and closes by its holders and writes to other regions, when each pass comes
-- before the lifetime of the last round is over, deadlines fit, and the counters stay below the
-- sentinel.
pub run_keeps :
    (n : Str) (e : InterlockEntry) (ttl last opened closed : ℕ) (es : List Event) (s : World)
    → str_eq n clock_name ≡ false
    → e.tier ≡ interlock
    → Kept n e ttl last opened closed s
    → Timely e.handle ttl last opened closed es
    → Yields
        (λ s'.
          (Map.get n s'.1.by_name ≡ some e)
          × (is_reaped s'.0 ≡ false)
          × (interlock_is_terminated e.handle s'.2 ≡ false))
        (run e.handle ttl es s)
unfolding is_reaped interlock_is_terminated
run_keeps n e ttl last opened closed es s other plain k h =
    Yields-mono (run-Kept n e ttl other plain last opened closed es s k h) λ s' p.
      let k' = p.3 in
      (
        k'.registered,
        rw k'.running refl,
        ground (arith, k'.open_count, k'.closed_count, k'.set, k'.opened_lt, k'.closed_lt),
      )
