-- ===== src/Client/Wait/RaceDelivery.antt =====
-- wait_race.rs and registry.rs: a race over counters, and the daemon's pass.
use abacus_rts.Base.{
  ℕ, ◌≤◌, ◌<◌, ◌≡◌, sym, subst, ◌⊎◌, inl, inr, some, List, [], ◌∷◌, ◌++◌, map, leb, if◌then◌else◌,
  Yields, Yields-mono, Any, Bool-cases, arith,
}
use abacus_rts.Base.Text.{Str}
use abacus_rts.Base.Map
use abacus_rts.Core.Interlock.Words.{Interlock, WatchedWord, Shared}
use abacus_rts.Registry.Entry.{wait_counter, InterlockEntry, Registry, word_of}
use abacus_rts.Registry.Evaluate.{evaluate_all}
use abacus_rts.Registry.Invariant.{IsValid}
use abacus_rts.Registry.Contracts.{IsWaiting, evaluate_all-counter}
use abacus_rts.Client.Wait.Rounds.{WaitResult}
use abacus_rts.Client.Wait.Methods.{counter_peek}
use abacus_rts.Client.Wait.Race.{wait_first}
use abacus_rts.Client.Wait.RaceEnds.{Advances, closed_counts, RaceEnds, wait_first-RaceEnds}

-- A poll of the race's counters, whose regions are `handles`.
abbrev pub poll_at : Shared → List ℕ → List (ℕ × ℕ)
poll_at σ handles = map (λ h. counter_peek h σ) handles

-- A counter of the race whose closed_count grows is one that has advanced.
poll_at-Advances :
    (h : ℕ) (σ σ' : Shared) (handles : List ℕ)
    → Any (λ k. k ≡ h) handles
    → (σ.regions h).closed_count < (σ'.regions h).closed_count
    → Advances (closed_counts (poll_at σ handles)) (poll_at σ' handles)
unfolding counter_peek
poll_at-Advances h σ σ' [] there grows = there
poll_at-Advances h σ σ' (k ∷ handles) (inl q) grows =
    inl (subst (λ x. (σ.regions x).closed_count < (σ'.regions x).closed_count) (sym q) grows)
poll_at-Advances h σ σ' (k ∷ handles) (inr there) grows =
    inr (poll_at-Advances h σ σ' handles there grows)

leb-cases : (m n : ℕ) → (m ≤ n) ⊎ (n < m)
leb-cases m n = elim (Bool-cases (leb m n)) [
  | inl over ↦ inl (ground arith)
  | inr under ↦ inr (ground arith)
]

delivered_grows :
    (v : ℕ) (w w' : Interlock)
    → w.closed_count < w.open_count
    → w.open_count ≤ v
    → w' ≡ (if leb w.open_count v then record w { closed_count = v } else w)
    → w.closed_count < w'.closed_count
delivered_grows v w w' waiting due q = elim (Bool-cases (leb w.open_count v)) [
  | inl over ↦ rw (q, over) (omega (arith, waiting, due))
  | inr under ↦ absurd (ground arith)
]

some_advances : {A : Type 0} (P : A → Type 0) (xs : List A) (x : A) → P x → Any P (xs ++ x ∷ [])
some_advances P [] x h = inl h
some_advances P (y ∷ xs) x h = inr (some_advances P xs x h)

-- A race that is entered with the words as at the start of a pass over a valid registry, one of
-- whose counters is alive with a positive value, closed_count below open_count, and a watched word
-- that is registered and not below the target at the pass's start, returns, whatever it reads in
-- its polls before the pass, at the first poll behind the pass at the latest, with the first
-- counter whose closed_count is above the one at the race's entry; unless the watched word is
-- below the target at the pass's end.
pub race_delivery :
    (now_ns now : ℕ) (reg : Registry) (σ : Shared) (n : Str) (e : InterlockEntry) (wn : Str)
    (ww : WatchedWord) (f : InterlockEntry) (handles : List ℕ) (polls : List (List (ℕ × ℕ)))
    → IsValid reg σ.next_region
    → IsWaiting now_ns reg σ n e
    → e.tier ≡ wait_counter
    → e.watched_name ≡ some wn
    → e.watched_word ≡ some ww
    → Map.get wn reg.by_name ≡ some f
    → (σ.regions e.handle).closed_count < (σ.regions e.handle).open_count
    → (σ.regions e.handle).open_count ≤ word_of ww (σ.regions f.handle)
    → Any (λ k. k ≡ e.handle) handles
    → Yields
        (λ r.
          ((index : ℕ) × (result : WaitResult) × (wait_first
                (poll_at σ handles)
                (polls ++ poll_at r.1 handles ∷ [])
              ≡ some (index, result))
            × RaceEnds
                (closed_counts (poll_at σ handles))
                (polls ++ poll_at r.1 handles ∷ [])
                index
                result)
          ⊎ (word_of ww (r.1.regions f.handle) < (σ.regions e.handle).open_count))
        (evaluate_all now_ns now reg σ)
race_delivery now_ns now reg σ n e wn ww f handles polls valid w tier name word there waiting due
      member =
    Yields-mono (evaluate_all-counter now_ns now reg σ n e valid w wn ww f tier name word there)
      λ r p. elim (leb-cases (σ.regions e.handle).open_count p.0) [
        | inl reached ↦ inl (
            wait_first-RaceEnds (poll_at σ handles) (polls ++ poll_at r.1 handles ∷ []) (
              some_advances _ polls (poll_at r.1 handles) (
                poll_at-Advances e.handle σ r.1 handles member (
                  delivered_grows p.0 (σ.regions e.handle) (r.1.regions e.handle) waiting reached
                    p.2))))
        | inr below ↦ inr (elim p.1 [
          | inl q ↦ absurd (omega (arith, below, due, q))
          | inr q ↦ omega (arith, below, q)
        ])
      ]
