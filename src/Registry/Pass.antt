-- ===== src/Registry/Pass.antt =====
-- What the whole evaluation loop does.
use mathlib.Core.List.{append_assoc, append-nil}
use abacus_rts.Base.{
  ℕ, ◌≡◌, refl, sym, ◌∙◌, ◌≢◌, Bool, true, false, List, [], ◌∷◌, ◌++◌, if◌then◌else◌, Yields,
  yields, Yields-bind, Yields-mono, All, All-map, All-map_both,
}
use abacus_rts.Base.Text.{Str}
use abacus_rts.Core.Interlock.Words.{Shared}
use abacus_rts.Registry.Entry.{InterlockEntry}
use abacus_rts.Registry.Evaluate.{evaluate_loop}
use abacus_rts.Registry.Invariant.{Configured, Differs, Separate}
use abacus_rts.Registry.Step.{Settles, is_doomed, Stepped, evaluate_entry-Stepped}

-- The names of the entries that the pass removes, by the memory at its start.
unfoldable pub doomed_names : ℕ → Shared → List (Str × InterlockEntry) → List Str
doomed_names now_ns σ [] = []
doomed_names now_ns σ (x ∷ rest) =
    let names = doomed_names now_ns σ rest in if is_doomed now_ns σ x then x.0 ∷ names else names

-- The memories hold the same words for each of the entries.
abbrev Agree : Shared → Shared → List (Str × InterlockEntry) → Type 0
Agree σ σ' = All λ x. σ'.regions x.1.handle ≡ σ.regions x.1.handle

doomed_names-Agree :
    (now_ns : ℕ) (σ σ' : Shared) (rest : List (Str × InterlockEntry))
    → Agree σ σ' rest
    → doomed_names now_ns σ' rest ≡ doomed_names now_ns σ rest
unfolding doomed_names
doomed_names-Agree now_ns σ σ' [] h = refl
doomed_names-Agree now_ns σ σ' ((n, e) ∷ rest) h = rw (h.0, doomed_names-Agree now_ns σ σ' rest h.1)

-- The entry settles from the words in the one memory to those in the other.
abbrev pub SettlesIn : ℕ → ℕ → Shared → Shared → Str × InterlockEntry → Type 0
SettlesIn now_ns now σ σ' (n, e) = Settles now_ns now n e (σ.regions e.handle) (σ'.regions e.handle)

pub record Passed (now_ns now : ℕ) (rest : List (Str × InterlockEntry)) (σ : Shared)
    (done : List Str) (r : Shared × List Str) : Type 0 where
  pub names : r.1 ≡ done ++ doomed_names now_ns σ rest
  pub next : r.0.next_region ≡ σ.next_region
  pub outside : (h : ℕ) → All (λ x. x.1.handle ≢ h) rest → r.0.regions h ≡ σ.regions h
  pub settles : All (SettlesIn now_ns now σ r.0) rest

append-if :
    (b : Bool) (n : Str) (done names : List Str)
    → (if b then done ++ n ∷ [] else done) ++ names ≡ done ++ (if b then n ∷ names else names)
append-if true n done names = append_assoc done (n ∷ []) names
append-if false n done names = refl

module _ (now_ns now : ℕ) where
  Passed-nil : (σ : Shared) (done : List Str) → Passed now_ns now [] σ done (σ, done)
  unfolding doomed_names
  Passed-nil σ done = record {
    names = sym (append-nil done);
    next = refl;
    outside = λ h hs. refl;
    settles = tt;
  }

  -- The rounds of the other entries see the memory that this one leaves.
  Passed-cons :
      (n : Str) (e : InterlockEntry) (rest : List (Str × InterlockEntry)) (σ : Shared)
      (done : List Str) (r : Shared × Bool) (r' : Shared × List Str)
      → All (Differs e.handle e.id) rest
      → Stepped now_ns now n e σ r
      → Passed now_ns now rest r.0 (if r.1 then done ++ n ∷ [] else done) r'
      → Passed now_ns now ((n, e) ∷ rest) σ done r'
  unfolding doomed_names
  Passed-cons n e rest σ done r r' apart st p = record {
    names =
        p.names
        ∙ rw (doomed_names-Agree now_ns σ r.0 rest agree, st.removes)
            (append-if (is_doomed now_ns σ (n, e)) n done _);
    next = p.next ∙ st.frame.next;
    outside = λ h hs. p.outside h hs.1 ∙ st.frame.elsewhere h (λ q. hs.0 (sym q));
    settles = (
      rw
          (p.outside e.handle (
            All-map (Differs e.handle e.id) (λ x. x.1.handle ≢ e.handle) rest
              (λ x d. d.other_region) apart))
          st.settles,
      All-map_both (λ x. r.0.regions x.1.handle ≡ σ.regions x.1.handle)
          (SettlesIn now_ns now r.0 r'.0) (SettlesIn now_ns now σ r'.0) rest (λ x q s. rw q at s)
          agree p.settles,
    );
  }
    where
      agree : Agree σ r.0 rest
      agree =
          All-map (Differs e.handle e.id) (λ x. r.0.regions x.1.handle ≡ σ.regions x.1.handle) rest
            (λ x d. st.frame.elsewhere x.1.handle d.other_region) apart

  -- The loop does not panic, and each entry settles by the words that it had at the start.
  pub evaluate_loop-Passed :
      (m rest : List (Str × InterlockEntry)) (σ : Shared) (done : List Str)
      → Separate rest
      → All (λ x. Configured x.1.tier x.1) rest
      → Yields (Passed now_ns now rest σ done) (evaluate_loop now_ns now m rest σ done)
  unfolding evaluate_loop
  evaluate_loop-Passed m [] σ done s c = yields (Passed-nil σ done)
  evaluate_loop-Passed m ((n, e) ∷ rest) σ done s c =
      Yields-bind (evaluate_entry-Stepped now_ns now m n e σ c.0) λ r st.
        Yields-mono (evaluate_loop-Passed m rest r.0 (if r.1 then done ++ n ∷ [] else done) s.1 c.1)
          λ r' p. Passed-cons n e rest σ done r r' s.0 st p
