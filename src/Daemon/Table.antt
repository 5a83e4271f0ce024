-- ===== src/Daemon/Table.antt =====
-- The table of connections of `daemon_run`: the removal by index of those that are gone.
use mathlib.Core.List.{append_assoc}
use abacus_rts.Base.{
  ℕ, zero, suc, ◌≤◌, ◌<◌, ◌≡◌, refl, sym, ap, ◌∙◌, Bool, true, false, List, [], ◌∷◌, ◌++◌, length,
  length-append, leb, ◌==◌, if◌then◌else◌, Result, ok, panic, ◌>>=◌, le→leb, ==_false, arith,
}

-- `sort_unstable`: the order of the result does not depend on the algorithm.
unfoldable pub insert_sorted : ℕ → List ℕ → List ℕ
insert_sorted x [] = x ∷ []
insert_sorted x (y ∷ ys) = let rest = insert_sorted x ys in if leb x y then x ∷ y ∷ ys else y ∷ rest

unfoldable pub sort_unstable : List ℕ → List ℕ
unfolding insert_sorted
sort_unstable [] = []
sort_unstable (x ∷ xs) = insert_sorted x (sort_unstable xs)

-- `dedup`: of equal neighbours the first stays.
abbrev prepend : ℕ → List ℕ → List ℕ
prepend x [] = x ∷ []
prepend x (y ∷ ys) = if x == y then x ∷ ys else x ∷ y ∷ ys

unfoldable pub dedup : List ℕ → List ℕ
dedup [] = []
dedup (x ∷ xs) = prepend x (dedup xs)

module _ {C : Type 0} where
  -- `Vec::remove`, which panics out of range.
  unfoldable pub remove_at : {E : Type 0} → ℕ → List C → Result E (List C)
  remove_at i [] = panic
  remove_at zero (c ∷ cs) = ok cs
  remove_at (suc i) (c ∷ cs) = do rest ← remove_at i cs; ok (c ∷ rest)

  -- The removals, the last index first.
  unfoldable pub remove_reverse : {E : Type 0} → List ℕ → List C → Result E (List C)
  unfolding remove_at
  remove_reverse [] cs = ok cs
  remove_reverse (i ∷ is) cs = do cs' ← remove_reverse is cs; remove_at i cs'

  unfoldable pub remove_clients : {E : Type 0} → List ℕ → List C → Result E (List C)
  unfolding sort_unstable dedup remove_reverse
  remove_clients to_remove cs = remove_reverse (dedup (sort_unstable to_remove)) cs

  -- Those of the connections that are not marked; the ones behind the marks are new, and stay.
  abbrev pub unmarked : List Bool → List C → List C
  unmarked [] cs = cs
  unmarked (gone ∷ marks) [] = []
  unmarked (true ∷ marks) (c ∷ cs) = unmarked marks cs
  unmarked (false ∷ marks) (c ∷ cs) = c ∷ unmarked marks cs

-- The indices of the marks, from `i`.
abbrev pub marked : ℕ → List Bool → List ℕ
marked i [] = []
marked i (true ∷ marks) = i ∷ marked (suc i) marks
marked i (false ∷ marks) = marked (suc i) marks

abbrev Above : ℕ → List ℕ → Type 0
Above i [] = Unit {0}
Above i (x ∷ xs) = (i < x) × Above x xs

Above-mono : (i j : ℕ) (xs : List ℕ) → i ≤ j → Above j xs → Above i xs
Above-mono i j [] le h = tt
Above-mono i j (x ∷ xs) le h = (omega (arith, h.0), h.1)

marked-Above : (i j : ℕ) (marks : List Bool) → i < j → Above i (marked j marks)
marked-Above i j [] lt = tt
marked-Above i j (true ∷ marks) lt = (lt, marked-Above j (suc j) marks (omega arith))
marked-Above i j (false ∷ marks) lt = marked-Above i (suc j) marks (omega arith)

insert_sorted-Above : (x : ℕ) (xs : List ℕ) → Above x xs → insert_sorted x xs ≡ x ∷ xs
unfolding insert_sorted
insert_sorted-Above x [] h = refl
insert_sorted-Above x (y ∷ ys) h = rw (le→leb x y (omega (arith, h.0))) refl

-- A list that ascends is sorted, and has nothing twice.
sort_unstable-Above : (x : ℕ) (xs : List ℕ) → Above x xs → sort_unstable (x ∷ xs) ≡ x ∷ xs
unfolding sort_unstable
sort_unstable-Above x [] h = insert_sorted-Above x [] h
sort_unstable-Above x (y ∷ ys) h =
    ap (insert_sorted x) (sort_unstable-Above y ys h.1) ∙ insert_sorted-Above x (y ∷ ys) h

dedup-Above : (x : ℕ) (xs : List ℕ) → Above x xs → dedup (x ∷ xs) ≡ x ∷ xs
unfolding dedup
dedup-Above x [] h = refl
dedup-Above x (y ∷ ys) h =
    ap (prepend x) (dedup-Above y ys h.1) ∙ rw (==_false x y (omega (arith, h.0))) refl

module _ {C : Type 0} where
  snoc :
      (before : List C) (c : C) (after : List C) → (before ++ c ∷ []) ++ after ≡ before ++ c ∷ after
  snoc before c after = append_assoc before (c ∷ []) after

  length-snoc : (before : List C) (c : C) → length (before ++ c ∷ []) ≡ suc (length before)
  length-snoc before c = omega (arith, length-append before (c ∷ []))

marked-sorted :
    (i : ℕ) (marks : List Bool) → dedup (sort_unstable (marked i marks)) ≡ marked i marks
unfolding dedup sort_unstable
marked-sorted i [] = refl
marked-sorted i (true ∷ marks) =
    let up = marked-Above i (suc i) marks (omega arith) in
    ap dedup (sort_unstable-Above i (marked (suc i) marks) up)
    ∙ dedup-Above i (marked (suc i) marks) up
marked-sorted i (false ∷ marks) = marked-sorted (suc i) marks

module _ {C E : Type 0} where
  remove_at-append :
      (before : List C) (c : C) (after : List C)
      → remove_at {E = E} (length before) (before ++ c ∷ after) ≡ ok (before ++ after)
  unfolding remove_at
  remove_at-append [] c after = refl
  remove_at-append (b ∷ before) c after = rw (remove_at-append before c after) refl

  -- One connection more in front.
  remove_reverse-snoc :
      (marks : List Bool) (before : List C) (c : C) (cs kept : List C)
      → remove_reverse {E = E} (marked (length (before ++ c ∷ [])) marks) ((before ++ c ∷ []) ++ cs)
        ≡ ok ((before ++ c ∷ []) ++ kept)
      → remove_reverse {E = E} (marked (suc (length before)) marks) (before ++ c ∷ cs)
        ≡ ok (before ++ c ∷ kept)
  remove_reverse-snoc marks before c cs kept h =
      ap (λ n. remove_reverse (marked n marks) (before ++ c ∷ cs)) (sym (length-snoc before c))
      ∙ ap (remove_reverse (marked (length (before ++ c ∷ [])) marks)) (sym (snoc before c cs))
      ∙ h
      ∙ ap ok (snoc before c kept)

  remove_reverse-marked :
      (marks : List Bool) (before cs : List C)
      → length marks ≤ length cs
      → remove_reverse {E = E} (marked (length before) marks) (before ++ cs)
        ≡ ok (before ++ unmarked marks cs)
  unfolding remove_reverse
  remove_reverse-marked [] before cs le = refl
  remove_reverse-marked (m ∷ marks) before [] le = absurd (omega arith)
  remove_reverse-marked (true ∷ marks) before (c ∷ cs) le =
      ap (λ r. r >>= remove_at (length before))
        (remove_reverse-snoc marks before c cs (unmarked marks cs)
          (remove_reverse-marked marks (before ++ c ∷ []) cs (omega arith)))
      ∙ remove_at-append before c (unmarked marks cs)
  remove_reverse-marked (false ∷ marks) before (c ∷ cs) le =
      remove_reverse-snoc marks before c cs (unmarked marks cs)
        (remove_reverse-marked marks (before ++ c ∷ []) cs (omega arith))

  -- The removals leave the connections that are not marked, in order, and do not panic.
  pub remove_clients-unmarked :
      (marks : List Bool) (cs : List C)
      → length marks ≤ length cs
      → remove_clients {E = E} (marked 0 marks) cs ≡ ok (unmarked marks cs)
  unfolding remove_clients
  remove_clients-unmarked marks cs le =
      ap (λ is. remove_reverse is cs) (marked-sorted 0 marks) ∙ remove_reverse-marked marks [] cs le

pub unmarked-append :
    {C : Type 0} (marks : List Bool) (cs added : List C)
    → length marks ≡ length cs
    → unmarked marks (cs ++ added) ≡ unmarked marks cs ++ added
unmarked-append [] cs added h = refl
unmarked-append (m ∷ marks) [] added h = absurd (omega arith)
unmarked-append (true ∷ marks) (c ∷ cs) added h = unmarked-append marks cs added (omega arith)
unmarked-append (false ∷ marks) (c ∷ cs) added h =
    ap (◌∷◌ c) (unmarked-append marks cs added (omega arith))
