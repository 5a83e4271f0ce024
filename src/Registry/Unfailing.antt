-- ===== src/Registry/Unfailing.antt =====
-- A pass, and the arming of the clock, return no error.
use abacus_rts.Base.{
  ℕ, inl, inr, not, Option, none, some, List, [], ◌∷◌, leb, ◌==◌, panic, Unfailing, Unfailing-bind,
  Unfailing-if, Option-cases,
}
use abacus_rts.Base.U64.{wrapping_sub_i64, is_positive}
use abacus_rts.Base.Text.{Str, str_eq}
use abacus_rts.Base.Map
use abacus_rts.Core.Clock.{expiration_alive}
use abacus_rts.Core.Interlock.Words.{Shared, is_terminated}
use abacus_rts.Registry.Entry.{
  Tier, interlock, wait_counter, wait_timer, wait_cron, wait_barrier, InterlockEntry, Registry,
  clock_name, next_line, clock, refresh_clock_expiration,
}
use abacus_rts.Registry.Evaluate.{
  deliver, rearm, evaluate_cron, evaluate_contract, evaluate_entry, evaluate_loop, evaluate_all,
}

next_line-Unfailing : (now i : ℕ) → Unfailing (next_line now i)
unfolding next_line
next_line-Unfailing now i = Unfailing-if (i == 0) panic _ tt tt

rearm-Unfailing :
    (now h : ℕ) (interval : Option ℕ) (σ : Shared) → Unfailing (rearm now h interval σ)
unfolding rearm
rearm-Unfailing now h none σ = tt
rearm-Unfailing now h (some i) σ =
    Unfailing-bind (next_line now i) _ (next_line-Unfailing now i) λ line. tt

evaluate_contract-Unfailing :
    (t : Tier) (now : ℕ) (m : List (Str × InterlockEntry)) (e : InterlockEntry) (σ : Shared)
    → Unfailing (evaluate_contract t now m e σ)
unfolding evaluate_contract evaluate_cron
evaluate_contract-Unfailing interlock now m e σ = tt
evaluate_contract-Unfailing wait_counter now m e σ = tt
evaluate_contract-Unfailing wait_timer now m e σ = tt
evaluate_contract-Unfailing wait_barrier now m e σ = tt
evaluate_contract-Unfailing wait_cron now m e σ =
    Unfailing-if (leb (σ.regions e.handle).open_count now) _ _
      (rearm-Unfailing now e.handle e.interval_ms (deliver e.handle now σ)) tt

evaluate_entry-Unfailing :
    (now_ns now : ℕ) (m : List (Str × InterlockEntry)) (x : Str × InterlockEntry) (σ : Shared)
    → Unfailing (evaluate_entry now_ns now m x σ)
unfolding evaluate_entry
evaluate_entry-Unfailing now_ns now m (n, e) σ = Unfailing-if (str_eq n clock_name) _ _ tt (
    Unfailing-if (is_terminated (σ.regions e.handle)) _ _ tt (
      Unfailing-if (not (expiration_alive (σ.regions e.handle).expiration_ns now_ns)) _ _ tt (
        Unfailing-if
          (not (
            is_positive
              (wrapping_sub_i64 (σ.regions e.handle).open_count (σ.regions e.handle).closed_count)))
          _ _ tt
          (Unfailing-bind (evaluate_contract e.tier now m e σ) _
            (evaluate_contract-Unfailing e.tier now m e σ) λ σ'. tt))))

evaluate_loop-Unfailing :
    (now_ns now : ℕ) (m rest : List (Str × InterlockEntry)) (σ : Shared) (done : List Str)
    → Unfailing (evaluate_loop now_ns now m rest σ done)
unfolding evaluate_loop
evaluate_loop-Unfailing now_ns now m [] σ done = tt
evaluate_loop-Unfailing now_ns now m (x ∷ rest) σ done =
    Unfailing-bind (evaluate_entry now_ns now m x σ) _ (evaluate_entry-Unfailing now_ns now m x σ)
      λ r. evaluate_loop-Unfailing now_ns now m rest r.0 _

clock-Unfailing : (reg : Registry) → Unfailing (clock reg)
unfolding clock
clock-Unfailing reg = elim (Option-cases (Map.get clock_name reg.by_name)) [
  | inl q ↦ rw (q, clock) tt
  | inr (e, q) ↦ rw (q, clock) tt
]

pub evaluate_all-Unfailing :
    (now_ns now : ℕ) (reg : Registry) (σ : Shared) → Unfailing (evaluate_all now_ns now reg σ)
unfolding evaluate_all
evaluate_all-Unfailing now_ns now reg σ =
    Unfailing-bind (evaluate_loop now_ns now reg.by_name reg.by_name σ []) _
      (evaluate_loop-Unfailing now_ns now reg.by_name reg.by_name σ []) λ x. tt

pub refresh_clock_expiration-Unfailing :
    (now : ℕ) (reg : Registry) (σ : Shared) → Unfailing (refresh_clock_expiration now reg σ)
unfolding refresh_clock_expiration
refresh_clock_expiration-Unfailing now reg σ =
    Unfailing-bind (clock reg) _ (clock-Unfailing reg) λ h. tt
