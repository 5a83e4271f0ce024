-- ===== src/Registry/Wakes.antt =====
-- `evaluate_all`: no waiter of a `closed_count` is left asleep.
use mathlib.Core.List.{append_assoc}
use abacus_rts.Base.{
  ℕ, ◌≡◌, refl, ap, ◌≢◌, inl, inr, Bool, true, false, Option, none, some, List, [], ◌∷◌, ◌++◌, leb,
  ◌==◌, if◌then◌else◌, Ensures, Ensures-bind, Ensures-trivial, Yields, Yields-Ensures, Any,
  Any-append_left, Any-append_right, Bool-cases, ==_refl, arith,
}
use abacus_rts.Base.U64.{wrapping_sub_i64, is_positive}
use abacus_rts.Base.Text.{Str, str_eq}
use abacus_rts.Core.Clock.{expiration_alive}
use abacus_rts.Core.Interlock.Words.{WatchedWord, Shared, store, interlock_reap, is_terminated}
use abacus_rts.Registry.Entry.{
  Tier, interlock, wait_counter, wait_timer, wait_cron, wait_barrier, BarrierCondition,
  InterlockEntry, Registry, clock_name, next_line,
}
use abacus_rts.Registry.Evaluate.{
  deliver, watched_value, evaluate_timer, deliver_watched, evaluate_counter, rearm, evaluate_cron,
  all_met, evaluate_barrier, evaluate_contract, evaluate_entry, evaluate_loop, evaluate_all,
}
use abacus_rts.Registry.Invariant.{IsValid}
use abacus_rts.Registry.Survivors.{evaluate_all-IsValid}

abbrev closed_at : ℕ → Shared → ℕ
closed_at h σ = (σ.regions h).closed_count

-- From the one memory to the other, each word `closed_count` that has changed got a wake.
pub record Woken (σ σ' : Shared) : Type 0 where
  pub fresh : List (ℕ × WatchedWord)
  pub wakes : σ'.wakes ≡ fresh ++ σ.wakes
  pub woken :
      (h : ℕ) → closed_at h σ' ≢ closed_at h σ → Any (λ x. x ≡ (h, WatchedWord.closed_count)) fresh

Woken-refl : (σ : Shared) → Woken σ σ
Woken-refl σ = record { fresh = []; wakes = refl; woken = λ h ne. absurd (ne refl) }

Woken-trans : (σ σ' σ'' : Shared) → Woken σ σ' → Woken σ' σ'' → Woken σ σ''
Woken-trans σ σ' σ'' v w = record {
  fresh = w.fresh ++ v.fresh;
  wakes = rw (w.wakes, v.wakes, append_assoc w.fresh v.fresh σ.wakes) refl;
  woken = woken;
}
  where
    woken :
        (h : ℕ)
        → closed_at h σ'' ≢ closed_at h σ
        → Any (λ x. x ≡ (h, WatchedWord.closed_count)) (w.fresh ++ v.fresh)
    woken h ne = elim (Bool-cases (closed_at h σ'' == closed_at h σ')) [
      | inl same ↦ Any-append_right _ w.fresh v.fresh (v.woken h (ground arith))
      | inr changed ↦ Any-append_left _ w.fresh v.fresh (w.woken h (ground arith))
    ]

Woken-if :
    (b : Bool) (σ σ' σ'' : Shared) → Woken σ σ' → Woken σ σ'' → Woken σ (if b then σ' else σ'')
Woken-if true σ σ' σ'' v w = v
Woken-if false σ σ' σ'' v w = w

deliver-Woken : (h v : ℕ) (σ : Shared) → Woken σ (deliver h v σ)
unfolding deliver
deliver-Woken h v σ = record {
  fresh = (h, WatchedWord.closed_count) ∷ [];
  wakes = refl;
  woken = λ k ne. elim (Bool-cases (k == h)) [
    | inl same ↦ inl (ap (λ (j : ℕ). (j, WatchedWord.closed_count)) (ground arith))
    | inr other ↦ absurd (ne (rw (closed_at, other) refl))
  ];
}

interlock_reap-Woken : (h : ℕ) (σ : Shared) → Woken σ (interlock_reap h σ)
unfolding interlock_reap
interlock_reap-Woken h σ = record {
  fresh = (h, WatchedWord.closed_count) ∷ (h, WatchedWord.open_count) ∷ [];
  wakes = refl;
  woken = λ k ne. elim (Bool-cases (k == h)) [
    | inl same ↦ inl (ap (λ (j : ℕ). (j, WatchedWord.closed_count)) (ground arith))
    | inr other ↦ absurd (ne (rw (closed_at, other) refl))
  ];
}

-- The re-arming of a cron leaves `closed_count`, and wakes nobody.
rearm-Woken :
    (now h : ℕ) (interval : Option ℕ) (σ₀ σ : Shared)
    → Woken σ₀ σ
    → Ensures (Woken σ₀) (rearm now h interval σ)
unfolding rearm
rearm-Woken now h none σ₀ σ w = w
rearm-Woken now h (some i) σ₀ σ w =
    Ensures-bind (λ _. Unit {0}) (Woken σ₀) (next_line now i) _ (Ensures-trivial (next_line now i))
      λ line u.
        Woken-trans σ₀ σ (store h (record (σ.regions h) { open_count = line }) σ) w
          (record { fresh = []; wakes = refl; woken = λ k ne. absurd (ne (kept line k)) })
  where
    kept :
        (line k : ℕ)
        → closed_at k (store h (record (σ.regions h) { open_count = line }) σ) ≡ closed_at k σ
    kept line k = elim (Bool-cases (k == h)) [
      | inl same ↦ let q : k ≡ h = ground arith in rw (q, closed_at, ==_refl h) refl
      | inr other ↦ rw (closed_at, other) refl
    ]

deliver_watched-Woken : (h : ℕ) (seen : Option ℕ) (σ : Shared) → Woken σ (deliver_watched h seen σ)
unfolding deliver_watched
deliver_watched-Woken h none σ = Woken-refl σ
deliver_watched-Woken h (some v) σ =
    Woken-if (leb (σ.regions h).open_count v) σ (deliver h v σ) σ (deliver-Woken h v σ)
      (Woken-refl σ)

evaluate_counter-Woken :
    (m : List (Str × InterlockEntry)) (h : ℕ) (name : Option Str) (word : Option WatchedWord)
    (σ : Shared)
    → Woken σ (evaluate_counter m h name word σ)
unfolding evaluate_counter
evaluate_counter-Woken m h (some wn) (some ww) σ =
    deliver_watched-Woken h (watched_value m wn ww σ) σ
evaluate_counter-Woken m h (some wn) none σ = Woken-refl σ
evaluate_counter-Woken m h none word σ = Woken-refl σ

evaluate_barrier-Woken :
    (now : ℕ) (m : List (Str × InterlockEntry)) (h : ℕ) (conds : Option (List BarrierCondition))
    (σ : Shared)
    → Woken σ (evaluate_barrier now m h conds σ)
unfolding evaluate_barrier
evaluate_barrier-Woken now m h none σ = Woken-refl σ
evaluate_barrier-Woken now m h (some conds) σ =
    Woken-if (all_met m σ conds) σ (deliver h now σ) σ (deliver-Woken h now σ) (Woken-refl σ)

evaluate_contract-Woken :
    (t : Tier) (now : ℕ) (m : List (Str × InterlockEntry)) (e : InterlockEntry) (σ : Shared)
    → Ensures (Woken σ) (evaluate_contract t now m e σ)
unfolding evaluate_contract evaluate_timer evaluate_cron
evaluate_contract-Woken interlock now m e σ = Woken-refl σ
evaluate_contract-Woken wait_timer now m e σ =
    Woken-if (leb (σ.regions e.handle).open_count now) σ (deliver e.handle now σ) σ
      (deliver-Woken e.handle now σ) (Woken-refl σ)
evaluate_contract-Woken wait_counter now m e σ =
    evaluate_counter-Woken m e.handle e.watched_name e.watched_word σ
evaluate_contract-Woken wait_cron now m e σ =
    elim (Bool-cases (leb (σ.regions e.handle).open_count now)) [
      | inl due ↦ rw due (
          rearm-Woken now e.handle e.interval_ms σ (deliver e.handle now σ)
            (deliver-Woken e.handle now σ))
      | inr early ↦ rw early (Woken-refl σ)
    ]
evaluate_contract-Woken wait_barrier now m e σ =
    evaluate_barrier-Woken now m e.handle e.barrier_conditions σ

evaluate_entry-Woken :
    (now_ns now : ℕ) (m : List (Str × InterlockEntry)) (x : Str × InterlockEntry) (σ : Shared)
    → Ensures (λ r. Woken σ r.0) (evaluate_entry now_ns now m x σ)
unfolding evaluate_entry
evaluate_entry-Woken now_ns now m (n, e) σ = elim (Bool-cases (str_eq n clock_name)) [
  | inl clock ↦ rw clock (Woken-refl σ)
  | inr other ↦ rw other (elim (Bool-cases (is_terminated (σ.regions e.handle))) [
    | inl over ↦ rw over (interlock_reap-Woken e.handle σ)
    | inr running ↦
        rw running (elim (Bool-cases (expiration_alive (σ.regions e.handle).expiration_ns now_ns)) [
          | inl alive ↦
              rw alive
                (elim (Bool-cases (
                  is_positive (
                    wrapping_sub_i64 (σ.regions e.handle).open_count
                      (σ.regions e.handle).closed_count))) [
                        | inl positive ↦ rw positive (
                            Ensures-bind (Woken σ) (λ r. Woken σ r.0)
                              (evaluate_contract e.tier now m e σ) _
                              (evaluate_contract-Woken e.tier now m e σ) λ σ' w. w)
                        | inr flat ↦ rw flat (Woken-refl σ)
                      ])
          | inr lapsed ↦ rw lapsed (interlock_reap-Woken e.handle σ)
        ])
  ])
]

evaluate_loop-Woken :
    (now_ns now : ℕ) (m rest : List (Str × InterlockEntry)) (σ₀ σ : Shared) (done : List Str)
    → Woken σ₀ σ
    → Ensures (λ r. Woken σ₀ r.0) (evaluate_loop now_ns now m rest σ done)
unfolding evaluate_loop
evaluate_loop-Woken now_ns now m [] σ₀ σ done w = w
evaluate_loop-Woken now_ns now m (x ∷ rest) σ₀ σ done w =
    Ensures-bind (λ r. Woken σ r.0) (λ r. Woken σ₀ r.0) (evaluate_entry now_ns now m x σ) _
      (evaluate_entry-Woken now_ns now m x σ)
      λ r v. evaluate_loop-Woken now_ns now m rest σ₀ r.0 _ (Woken-trans σ₀ σ r.0 w v)

-- A pass over a valid registry returns, and has woken the waiters of closed_count of every region
-- whose closed_count it has changed.
pub evaluate_all-Woken :
    (now_ns now : ℕ) (reg : Registry) (σ : Shared)
    → IsValid reg σ.next_region
    → Yields (λ r. Woken σ r.1) (evaluate_all now_ns now reg σ)
unfolding evaluate_all
evaluate_all-Woken now_ns now reg σ valid =
    Yields-Ensures (evaluate_all now_ns now reg σ) (evaluate_all-IsValid now_ns now reg σ valid) (
      Ensures-bind (λ r. Woken σ r.0) (λ r. Woken σ r.1)
        (evaluate_loop now_ns now reg.by_name reg.by_name σ []) _
        (evaluate_loop-Woken now_ns now reg.by_name reg.by_name σ σ [] (Woken-refl σ)) λ r w. w)
