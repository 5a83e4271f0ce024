-- ===== src/Base/Map.antt =====
-- Rust's `HashMap` with string keys: an association list in the order in which the table iterates.
-- Nothing is assumed of that order, so what is proved of every list holds for each iteration order.
use mathlib.Core.Path.{◌≡◌, refl, subst}
use mathlib.Core.Logic.{inl, inr}
use mathlib.Core.Bool.{Bool, true, false}
use mathlib.Core.Option.{Option, none, some}
use mathlib.Core.List.{List, [], ◌∷◌}
use native.Mathlib.Omega.{arith}
use abacus_rts.Base.Tests.{if◌then◌else◌, Bool-cases}
use abacus_rts.Base.Lists.{All}
use abacus_rts.Base.Text.{Str, str_eq, str_eq→eq, str_eq_refl}

module _ {V : Type 0} where
  unfoldable pub get : Str → List (Str × V) → Option V
  get k [] = none
  get k ((j, v) ∷ m) = if str_eq j k then some v else get k m

  unfoldable pub remove : Str → List (Str × V) → List (Str × V)
  remove k [] = []
  remove k ((j, v) ∷ m) = let rest = remove k m in if str_eq j k then rest else (j, v) ∷ rest

  -- The new entry may stand anywhere in the iteration; it stands first here.
  unfoldable pub insert : Str → V → List (Str × V) → List (Str × V)
  unfolding remove
  insert k v m = (k, v) ∷ remove k m

  abbrev pub contains_key : Str → List (Str × V) → Bool
  contains_key k m = elim (get k m) [ none ↦ false | some v ↦ true ]

  -- No entry has the key.
  abbrev pub Fresh : Str → List (Str × V) → Type 0
  Fresh k = All λ e. str_eq e.0 k ≡ false

  -- Each key has one entry.
  abbrev pub Distinct : List (Str × V) → Type 0
  Distinct [] = Unit {0}
  Distinct (e ∷ m) = Fresh e.0 m × Distinct m

module _ {V : Type 0} where
  pub get-remove :
      (k j : Str) (m : List (Str × V)) → get j (remove k m) ≡ (if str_eq k j then none else get j m)
  unfolding get remove
  get-remove k j [] = ground arith
  get-remove k j ((i, v) ∷ m) =
      ground (arith, get-remove k j m, str_eq→eq i k, str_eq→eq i j, str_eq→eq k j, str_eq_refl k)

  pub get-insert :
      (k j : Str) (v : V) (m : List (Str × V))
      → get j (insert k v m) ≡ (if str_eq k j then some v else get j m)
  unfolding get insert
  get-insert k j v m = ground (arith, get-remove k j m)

  pub remove-All {κ} :
      (P : Str × V → Type κ) (k : Str) (m : List (Str × V)) → All P m → All P (remove k m)
  unfolding remove
  remove-All P k [] h = tt
  remove-All P k ((j, v) ∷ m) h = elim (Bool-cases (str_eq j k)) [
    | inl e ↦ rw e (remove-All P k m h.1)
    | inr e ↦ rw e (h.0, remove-All P k m h.1)
  ]

  pub remove-Fresh : (k : Str) (m : List (Str × V)) → Fresh k (remove k m)
  unfolding remove
  remove-Fresh k [] = tt
  remove-Fresh k ((j, v) ∷ m) = elim (Bool-cases (str_eq j k)) [
    | inl e ↦ rw e (remove-Fresh k m)
    | inr e ↦ rw e (e, remove-Fresh k m)
  ]

  pub get-Fresh : (k : Str) (m : List (Str × V)) → Fresh k m → get k m ≡ none
  unfolding get
  get-Fresh k [] h = refl
  get-Fresh k ((j, v) ∷ m) h = rw h.0 (get-Fresh k m h.1)

  pub get-All {κ} :
      (P : Str × V → Type κ) (k : Str) (m : List (Str × V)) {v : V}
      → All P m
      → get k m ≡ some v
      → P (k, v)
  unfolding get
  get-All P k [] h e = cc
  get-All P k ((j, w) ∷ m) {v = v} h e = elim (Bool-cases (str_eq j k)) [
    | inl hit ↦
        let q : w ≡ v = ground arith in
        let p : j ≡ k = str_eq→eq j k hit in subst (λ (x : Str × V). P x) (λ i. (p i, q i)) h.0
    | inr miss ↦ get-All P k m h.1 (rw miss at e)
  ]

  pub remove-Distinct : (k : Str) (m : List (Str × V)) → Distinct m → Distinct (remove k m)
  unfolding remove
  remove-Distinct k [] h = tt
  remove-Distinct k ((j, v) ∷ m) h = elim (Bool-cases (str_eq j k)) [
    | inl e ↦ rw e (remove-Distinct k m h.1)
    | inr e ↦ rw e (remove-All (λ x. str_eq x.0 j ≡ false) k m h.0, remove-Distinct k m h.1)
  ]

  pub insert-Distinct :
      (k : Str) (v : V) (m : List (Str × V)) → Distinct m → Distinct (insert k v m)
  unfolding insert
  insert-Distinct k v m h = (remove-Fresh k m, remove-Distinct k m h)
