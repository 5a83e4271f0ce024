-- ===== src/Client/Counts.antt =====
-- The counters after any sequence of opens and closes: only the totals count.
use abacus_rts.Base.{ℕ, ◌+◌, ◌-◌, ◌≤◌, ◌^◌, ◌<◌, ◌≡◌, refl, ap, ◌∙◌, List, [], ◌∷◌, ==_refl, arith}
use abacus_rts.Base.U64.{pos, wrapping_add, wrapping_sub_i64, IsU64}
use abacus_rts.Core.Clock.{ms_to_nanos}
use abacus_rts.Core.Interlock.Arm.{arm_atomic}
use abacus_rts.Core.Interlock.Words.{Interlock, Shared}
use abacus_rts.Client.Handles.{peek, value, Act, opens, closes, touches, act, act_all}

-- What the acts open and close in all.
abbrev pub opened : List Act → ℕ
opened [] = 0
opened (opens h ∷ acts) = h + opened acts
opened (closes h ∷ acts) = opened acts
opened (touches now ms ∷ acts) = opened acts

abbrev pub closed : List Act → ℕ
closed [] = 0
closed (opens h ∷ acts) = closed acts
closed (closes h ∷ acts) = h + closed acts
closed (touches now ms ∷ acts) = closed acts

-- What an act makes of the three words.
abbrev pub effect : Act → Interlock → Interlock
effect (opens h) w = record w { open_count = wrapping_add w.open_count h }
effect (closes h) w = record w { closed_count = wrapping_add w.closed_count h }
effect (touches now ms) w = record w {
  expiration_ns = (arm_atomic (wrapping_add now (ms_to_nanos ms)) w.expiration_ns).1;
}

abbrev pub effects : List Act → Interlock → Interlock
effects [] w = w
effects (a ∷ acts) w = effects acts (effect a w)

act-effect :
    (handle : ℕ) (a : Act) (σ : Shared)
    → (act handle a σ).regions handle ≡ effect a (σ.regions handle)
unfolding act
act-effect handle (opens h) σ = rw (==_refl handle)
act-effect handle (closes h) σ = rw (==_refl handle)
act-effect handle (touches now ms) σ = rw (==_refl handle)

pub act_all-effects :
    (handle : ℕ) (acts : List Act) (σ : Shared)
    → (act_all handle acts σ).regions handle ≡ effects acts (σ.regions handle)
unfolding act_all
act_all-effects handle [] σ = refl
act_all-effects handle (a ∷ acts) σ =
    act_all-effects handle acts (act handle a σ) ∙ ap (effects acts) (act-effect handle a σ)

pub act_all-next_region :
    (handle : ℕ) (acts : List Act) (σ : Shared)
    → (act_all handle acts σ).next_region ≡ σ.next_region
unfolding act_all act
act_all-next_region handle [] σ = refl
act_all-next_region handle (opens h ∷ acts) σ = act_all-next_region handle acts _
act_all-next_region handle (closes h ∷ acts) σ = act_all-next_region handle acts _
act_all-next_region handle (touches now ms ∷ acts) σ = act_all-next_region handle acts _

effects-open_count :
    (acts : List Act) (w : Interlock)
    → IsU64 w.open_count
    → (effects acts w).open_count ≡ wrapping_add w.open_count (opened acts)
effects-open_count [] w u = omega arith
effects-open_count (opens h ∷ acts) w u =
    omega (arith, effects-open_count acts (effect (opens h) w) (omega arith))
effects-open_count (closes h ∷ acts) w u = effects-open_count acts (effect (closes h) w) u
effects-open_count (touches now ms ∷ acts) w u =
    effects-open_count acts (effect (touches now ms) w) u

effects-closed_count :
    (acts : List Act) (w : Interlock)
    → IsU64 w.closed_count
    → (effects acts w).closed_count ≡ wrapping_add w.closed_count (closed acts)
effects-closed_count [] w u = omega arith
effects-closed_count (opens h ∷ acts) w u = effects-closed_count acts (effect (opens h) w) u
effects-closed_count (closes h ∷ acts) w u =
    omega (arith, effects-closed_count acts (effect (closes h) w) (omega arith))
effects-closed_count (touches now ms ∷ acts) w u =
    effects-closed_count acts (effect (touches now ms) w) u

-- After any sequence of acts the counters have grown by what was opened and closed in all.
pub peek-act_all :
    (handle : ℕ) (acts : List Act) (σ : Shared)
    → IsU64 (σ.regions handle).open_count
    → IsU64 (σ.regions handle).closed_count
    → peek handle (act_all handle acts σ)
      ≡ (wrapping_add (peek handle σ).0 (opened acts), wrapping_add (peek handle σ).1 (closed acts))
unfolding peek
peek-act_all handle acts σ u v = rw (
  act_all-effects handle acts σ,
  effects-open_count acts (σ.regions handle) u,
  effects-closed_count acts (σ.regions handle) v,
)

wrapping_sub_i64-wrapping_add :
    (w o c : ℕ)
    → IsU64 w
    → o < 2 ^ 63
    → c ≤ o
    → wrapping_sub_i64 (wrapping_add w o) (wrapping_add w c) ≡ pos (o - c)
wrapping_sub_i64-wrapping_add w o c u small fewer = ground arith

-- From equal counters, after any sequence of opens, closes and touches whose opened total is below
-- 2^63 and not below the closed total, the value is the difference of the totals, even where the
-- counters have wrapped around.
pub value-act_all :
    (handle : ℕ) (acts : List Act) (σ : Shared)
    → opened acts < 2 ^ 63
    → closed acts ≤ opened acts
    → (σ.regions handle).open_count ≡ (σ.regions handle).closed_count
    → IsU64 (σ.regions handle).closed_count
    → value handle (act_all handle acts σ) ≡ pos (opened acts - closed acts)
unfolding value peek
value-act_all handle acts σ small fewer even u =
    ap (λ (p : ℕ × ℕ). wrapping_sub_i64 p.0 p.1)
      (peek-act_all handle acts σ (omega (arith, even)) u)
    ∙ rw even (
        wrapping_sub_i64-wrapping_add (σ.regions handle).closed_count (opened acts) (closed acts) u
          small fewer)
