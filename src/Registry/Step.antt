-- ===== src/Registry/Step.antt =====
-- What one round of the evaluation loop does.
use abacus_rts.Base.{
  ℕ, ◌/◌, ◌≤◌, ◌<◌, ◌≡◌, refl, ◌≢◌, ◌⊎◌, inl, inr, Bool, true, false, not, ◌&&◌, Option, none, some,
  List, leb, if◌then◌else◌, ok, ◌>>=◌, Yields, yields, Yields-bind, Bool-cases, Option-cases,
  ==_refl, ==_false, arith,
}
use abacus_rts.Base.U64.{wrapping_add, wrapping_mul, wrapping_sub_i64, is_positive}
use abacus_rts.Base.Text.{Str, str_eq}
use abacus_rts.Core.Clock.{expiration_alive}
use abacus_rts.Core.Interlock.Words.{
  Interlock, Shared, WatchedWord, store, sentinel, is_terminated, interlock_reap,
}
use abacus_rts.Registry.Entry.{
  Tier, interlock, wait_counter, wait_timer, wait_cron, wait_barrier, InterlockEntry, clock_name,
}
use abacus_rts.Registry.Evaluate.{
  deliver, watched_value, evaluate_timer, deliver_watched, evaluate_counter, rearm, evaluate_cron,
  all_met, evaluate_barrier, evaluate_contract, is_dead, evaluate_entry,
}
use abacus_rts.Registry.Invariant.{Configured}

-- Nothing but the region `h` has changed.
pub record Frame (h : ℕ) (σ σ' : Shared) : Type 0 where
  pub next : σ'.next_region ≡ σ.next_region
  pub elsewhere : (k : ℕ) → k ≢ h → σ'.regions k ≡ σ.regions k

abbrev pub reaped_words : Interlock
reaped_words = record { open_count = sentinel; closed_count = sentinel; expiration_ns = sentinel }

abbrev pub grid_line : ℕ → ℕ → ℕ
grid_line now interval = wrapping_mul (wrapping_add (now / interval) 1) interval

-- The words of an open interlock before and after its contract is evaluated at the time `now`.
abbrev pub Fires : Tier → ℕ → InterlockEntry → Interlock → Interlock → Type 0
Fires interlock now e w w' = w' ≡ w
Fires wait_timer now e w w' =
    w' ≡ (if leb w.open_count now then record w { closed_count = now } else w)
Fires wait_counter now e w w' =
    (w' ≡ w) ⊎ ((v : ℕ) × (w.open_count ≤ v) × (w' ≡ record w { closed_count = v }))
Fires wait_cron now e w w' =
    (i : ℕ) × (e.interval_ms ≡ some i)
    × (w' ≡ (
        if leb w.open_count now
        then record w { open_count = grid_line now i; closed_count = now }
        else w))
Fires wait_barrier now e w w' = (w' ≡ w) ⊎ (w' ≡ record w { closed_count = now })

deliver-Frame : (h v : ℕ) (σ : Shared) → Frame h σ (deliver h v σ)
unfolding deliver
deliver-Frame h v σ = record { next = refl; elsewhere = λ k ne. ground arith }

deliver_words :
    (h v : ℕ) (σ : Shared) → (deliver h v σ).regions h ≡ record (σ.regions h) { closed_count = v }
unfolding deliver
deliver_words h v σ = ground arith

pub Frame-refl : (h : ℕ) (σ : Shared) → Frame h σ σ
Frame-refl h σ = record { next = refl; elsewhere = λ k ne. refl }

-- A contract that is evaluated for the tier `t`.
record Evaluated (t : Tier) (now : ℕ) (e : InterlockEntry) (σ σ' : Shared) : Type 0 where
  frame : Frame e.handle σ σ'
  fires : Fires t now e (σ.regions e.handle) (σ'.regions e.handle)

evaluate_timer-Evaluated :
    (now : ℕ) (e : InterlockEntry) (σ : Shared)
    → Evaluated wait_timer now e σ (evaluate_timer now e.handle σ)
unfolding evaluate_timer
evaluate_timer-Evaluated now e σ = elim (Bool-cases (leb (σ.regions e.handle).open_count now)) [
  | inl due ↦ rw due (record {
    frame = deliver-Frame e.handle now σ;
    fires = rw due (deliver_words e.handle now σ);
  })
  | inr early ↦ rw early (record { frame = Frame-refl e.handle σ; fires = rw early })
]

evaluate_barrier-Evaluated :
    (now : ℕ) (m : List (Str × InterlockEntry)) (e : InterlockEntry) (σ : Shared)
    → Evaluated wait_barrier now e σ (evaluate_barrier now m e.handle e.barrier_conditions σ)
unfolding evaluate_barrier
evaluate_barrier-Evaluated now m e σ = elim (Option-cases e.barrier_conditions) [
  | inl q ↦ rw (q, evaluate_barrier) (record { frame = Frame-refl e.handle σ; fires = inl refl })
  | inr (conds, q) ↦
      rw (q, evaluate_barrier)
        (elim (Bool-cases (all_met m σ conds)) [
          | inl met ↦ rw met (record {
            frame = deliver-Frame e.handle now σ;
            fires = inr (deliver_words e.handle now σ);
          })
          | inr unmet ↦ rw unmet (record { frame = Frame-refl e.handle σ; fires = inl refl })
        ])
]

deliver_watched-Evaluated :
    (now : ℕ) (e : InterlockEntry) (seen : Option ℕ) (σ : Shared)
    → Evaluated wait_counter now e σ (deliver_watched e.handle seen σ)
unfolding deliver_watched
deliver_watched-Evaluated now e none σ = record { frame = Frame-refl e.handle σ; fires = inl refl }
deliver_watched-Evaluated now e (some v) σ =
    elim (Bool-cases (leb (σ.regions e.handle).open_count v)) [
      | inl due ↦ rw due (record {
        frame = deliver-Frame e.handle v σ;
        fires = inr (v, ground arith, deliver_words e.handle v σ);
      })
      | inr early ↦ rw early (record { frame = Frame-refl e.handle σ; fires = inl refl })
    ]

evaluate_counter-Evaluated :
    (now : ℕ) (m : List (Str × InterlockEntry)) (e : InterlockEntry) (name : Option Str)
    (word : Option WatchedWord) (σ : Shared)
    → Evaluated wait_counter now e σ (evaluate_counter m e.handle name word σ)
unfolding evaluate_counter
evaluate_counter-Evaluated now m e (some wn) (some ww) σ =
    deliver_watched-Evaluated now e (watched_value m wn ww σ) σ
evaluate_counter-Evaluated now m e (some wn) none σ = record {
  frame = Frame-refl e.handle σ;
  fires = inl refl;
}
evaluate_counter-Evaluated now m e none word σ = record {
  frame = Frame-refl e.handle σ;
  fires = inl refl;
}

-- A cron that fires is stamped and then armed for the next line.
rearm_words :
    (now i : ℕ) (h : ℕ) (σ : Shared)
    → 0 < i
    → (σ' : Shared) × (rearm now h (some i) (deliver h now σ) ≡ ok σ')
      × Frame h σ σ'
      × (σ'.regions h ≡ record (σ.regions h) { open_count = grid_line now i; closed_count = now })
unfolding rearm deliver
rearm_words now i h σ pos = (
  store h (record (σ.regions h) { open_count = grid_line now i; closed_count = now })
      (deliver h now σ),
  rw (==_false i 0 (omega arith), ==_refl h),
  record { next = refl; elsewhere = λ k ne. ground arith },
  ground arith,
)

evaluate_cron-Evaluated :
    (now : ℕ) (e : InterlockEntry) (interval : Option ℕ) (i : ℕ) (σ : Shared)
    → e.interval_ms ≡ interval
    → interval ≡ some i
    → 0 < i
    → Yields (Evaluated wait_cron now e σ) (evaluate_cron now e.handle interval σ)
unfolding evaluate_cron
evaluate_cron-Evaluated now e none i σ p q pos = cc
evaluate_cron-Evaluated now e (some j) i σ p q pos =
    elim (Bool-cases (leb (σ.regions e.handle).open_count now)) [
      | inl due ↦
          let (σ', r, frame, words) = rearm_words now j e.handle σ (ground arith) in
          rw (due, r) (yields (record { frame = frame; fires = (j, p, rw due words) }))
      | inr early ↦
          rw early (yields (record { frame = Frame-refl e.handle σ; fires = (j, p, rw early) }))
    ]

-- The evaluation of a contract does not panic, changes only the entry's own region, and there what
-- the tier's contract says.
evaluate_contract-Evaluated :
    (t : Tier) (now : ℕ) (m : List (Str × InterlockEntry)) (e : InterlockEntry) (σ : Shared)
    → Configured t e
    → Yields (Evaluated t now e σ) (evaluate_contract t now m e σ)
unfolding evaluate_contract
evaluate_contract-Evaluated interlock now m e σ c =
    yields (record { frame = Frame-refl e.handle σ; fires = refl })
evaluate_contract-Evaluated wait_counter now m e σ c =
    yields (evaluate_counter-Evaluated now m e e.watched_name e.watched_word σ)
evaluate_contract-Evaluated wait_timer now m e σ c = yields (evaluate_timer-Evaluated now e σ)
evaluate_contract-Evaluated wait_cron now m e σ (i, q, pos) =
    evaluate_cron-Evaluated now e e.interval_ms i σ refl q pos
evaluate_contract-Evaluated wait_barrier now m e σ c = yields (evaluate_barrier-Evaluated now m e σ)

-- The words of the entry `name` before and after its round.
pub data Settles (now_ns now : ℕ) (name : Str) (e : InterlockEntry) (w w' : Interlock)
    : Type 0 where
  is_clock : str_eq name clock_name ≡ true → w' ≡ w → Settles now_ns now name e w w'
  reaped :
      str_eq name clock_name ≡ false
      → is_dead now_ns w ≡ true
      → w' ≡ reaped_words
      → Settles now_ns now name e w w'
  idle :
      str_eq name clock_name ≡ false
      → is_dead now_ns w ≡ false
      → is_positive (wrapping_sub_i64 w.open_count w.closed_count) ≡ false
      → w' ≡ w
      → Settles now_ns now name e w w'
  evaluated :
      str_eq name clock_name ≡ false
      → is_dead now_ns w ≡ false
      → is_positive (wrapping_sub_i64 w.open_count w.closed_count) ≡ true
      → Fires e.tier now e w w'
      → Settles now_ns now name e w w'

-- The pass removes the entry: it is not the clock, and its words are dead.
abbrev pub is_doomed : ℕ → Shared → Str × InterlockEntry → Bool
is_doomed now_ns σ (name, e) = not (str_eq name clock_name) && is_dead now_ns (σ.regions e.handle)

pub record Stepped (now_ns now : ℕ) (name : Str) (e : InterlockEntry) (σ : Shared)
    (r : Shared × Bool) : Type 0 where
  pub frame : Frame e.handle σ r.0
  pub removes : r.1 ≡ is_doomed now_ns σ (name, e)
  pub settles : Settles now_ns now name e (σ.regions e.handle) (r.0.regions e.handle)

pub reap-Frame : (h : ℕ) (σ : Shared) → Frame h σ (interlock_reap h σ)
unfolding interlock_reap
reap-Frame h σ = record { next = refl; elsewhere = λ k ne. ground arith }

pub reap_words : (h : ℕ) (σ : Shared) → (interlock_reap h σ).regions h ≡ reaped_words
unfolding interlock_reap
reap_words h σ = ground arith

is_dead_terminated : (now_ns : ℕ) (w : Interlock) → is_terminated w ≡ true → is_dead now_ns w ≡ true
unfolding is_dead
is_dead_terminated now_ns w h = rw h

is_dead_running :
    (now_ns : ℕ) (w : Interlock)
    → is_terminated w ≡ false
    → is_dead now_ns w ≡ not (expiration_alive w.expiration_ns now_ns)
unfolding is_dead
is_dead_running now_ns w h = rw h

-- A round of the evaluation, for an entry that has what its tier reads, returns, asks for the
-- removal of exactly the dead entries that are not the clock's, changes only the entry's own
-- region, and there what the entry's state and tier say.
pub evaluate_entry-Stepped :
    (now_ns now : ℕ) (m : List (Str × InterlockEntry)) (name : Str) (e : InterlockEntry)
    (σ : Shared)
    → Configured e.tier e
    → Yields (Stepped now_ns now name e σ) (evaluate_entry now_ns now m (name, e) σ)
unfolding evaluate_entry
evaluate_entry-Stepped now_ns now m name e σ c = elim (Bool-cases (str_eq name clock_name)) [
  | inl clock ↦ rw clock (
      yields (record {
        frame = Frame-refl e.handle σ;
        removes = rw clock;
        settles = is_clock clock refl;
      }))
  | inr other ↦ rw other (elim (Bool-cases (is_terminated (σ.regions e.handle))) [
    | inl over ↦ rw over (yields (reap other (is_dead_terminated now_ns (σ.regions e.handle) over)))
    | inr running ↦
        let dead = is_dead_running now_ns (σ.regions e.handle) running in
        rw running (elim (Bool-cases (expiration_alive (σ.regions e.handle).expiration_ns now_ns)) [
          | inl alive ↦ rw alive (live other (rw alive at dead))
          | inr lapsed ↦ rw lapsed (yields (reap other (rw lapsed at dead)))
        ])
  ])
]
  where
    reap :
        str_eq name clock_name ≡ false
        → is_dead now_ns (σ.regions e.handle) ≡ true
        → Stepped now_ns now name e σ (interlock_reap e.handle σ, true)
    reap other dead = record {
      frame = reap-Frame e.handle σ;
      removes = rw (other, dead);
      settles = Settles.reaped other dead (reap_words e.handle σ);
    }

    live :
        str_eq name clock_name ≡ false
        → is_dead now_ns (σ.regions e.handle) ≡ false
        → Yields (Stepped now_ns now name e σ) (
            if not (
              is_positive (
                wrapping_sub_i64 (σ.regions e.handle).open_count (σ.regions e.handle).closed_count))
            then ok (σ, false)
            else (evaluate_contract e.tier now m e σ >>= λ σ'. ok (σ', false)))
    live other dead =
        elim (Bool-cases (
          is_positive
            (wrapping_sub_i64 (σ.regions e.handle).open_count (σ.regions e.handle).closed_count))) [
              | inl positive ↦ rw positive (
                  Yields-bind (evaluate_contract-Evaluated e.tier now m e σ c) λ σ' done.
                    yields (record {
                      frame = done.frame;
                      removes = rw (other, dead);
                      settles = evaluated other dead positive done.fires;
                    }))
              | inr settled ↦ rw settled (
                  yields (record {
                    frame = Frame-refl e.handle σ;
                    removes = rw (other, dead);
                    settles = idle other dead settled refl;
                  }))
            ]
