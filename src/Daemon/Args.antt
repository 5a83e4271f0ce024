-- ===== src/Daemon/Args.antt =====
-- The arguments of main.rs.
use abacus_rts.Base.{
  ◌≡◌, ◌≢◌, refl, ap, ◌∙◌, ◌⊎◌, inl, inr, false, Bool-cases, Option-cases, Option, none, some, List,
  [], ◌∷◌, ◌++◌, ◌==◌, if◌then◌else◌, All, arith,
}
use abacus_rts.Base.Text.{Str, str, str_eq, str_eq→eq, str_eq_refl}

abbrev pub flag : Str
flag = str "--socket-path"

abbrev pub prefix : Str
prefix = str "--socket-path="

abbrev pub default_path : Str
default_path = str "/run/abacus-rts/abacus.sock"

-- `strip_prefix`.
unfoldable pub strip_prefix : Str → Str → Option Str
strip_prefix [] s = some s
strip_prefix (a ∷ p) [] = none
strip_prefix (a ∷ p) (b ∷ s) = let rest = strip_prefix p s in if a == b then rest else none

-- The first loop.
unfoldable pub find_prefixed : List Str → Option Str
unfolding strip_prefix
find_prefixed [] = none
find_prefixed (arg ∷ args) =
    let rest = find_prefixed args in
    elim (strip_prefix prefix arg) [ some path ↦ some path | none ↦ rest ]

-- The second loop, in which a flag takes the argument behind it.
unfoldable pub find_paired : List Str → Option Str
unfolding str_eq
find_paired [] = none
find_paired (arg ∷ []) = none
find_paired (arg ∷ path ∷ args) =
    let rest = find_paired (path ∷ args) in if str_eq arg flag then some path else rest

abbrev or_default : Option Str → Str
or_default (some path) = path
or_default none = default_path

-- `parse_args`; the slice from the first argument on panics when there is no program name.
unfoldable pub parse_args : List Str → Option Str
unfolding find_prefixed find_paired
parse_args [] = none
parse_args (program ∷ args) = elim (find_prefixed args) [
  | some path ↦ some path
  | none ↦ some (or_default (find_paired args))
]

-- Not of the form `--socket-path=...`.
abbrev pub IsPlain : Str → Type 0
IsPlain s = (path : Str) → s ≢ prefix ++ path

abbrev pub IsNotFlag : Str → Type 0
IsNotFlag s = s ≢ flag

-- The path that the arguments ask for.
pub data Chosen (args : List Str) : Str → Type 0 where
  prefixed :
      (before after : List Str) (path : Str)
      → args ≡ before ++ (prefix ++ path) ∷ after
      → All IsPlain before
      → Chosen args path
  paired :
      (before after : List Str) (path : Str)
      → All IsPlain args
      → args ≡ before ++ flag ∷ path ∷ after
      → All IsNotFlag before
      → Chosen args path
  nothing :
      (before last : List Str)
      → All IsPlain args
      → args ≡ before ++ last
      → All IsNotFlag before
      → (last ≡ []) ⊎ ((arg : Str) × (last ≡ arg ∷ []))
      → Chosen args default_path

strip_prefix-eq : (p s : Str) {rest : Str} → strip_prefix p s ≡ some rest → s ≡ p ++ rest
unfolding strip_prefix
strip_prefix-eq [] s e = cc
strip_prefix-eq (a ∷ p) [] e = cc
strip_prefix-eq (a ∷ p) (b ∷ s) {rest} e = ground (arith, strip_prefix-eq p s {rest = rest})

strip_prefix-append : (p rest : Str) → strip_prefix p (p ++ rest) ≡ some rest
unfolding strip_prefix
strip_prefix-append [] rest = refl
strip_prefix-append (a ∷ p) rest = ground (arith, strip_prefix-append p rest)

strip_prefix-IsPlain : (s : Str) → strip_prefix prefix s ≡ none → IsPlain s
strip_prefix-IsPlain s e path q =
    cc (e, ap (strip_prefix prefix) q, strip_prefix-append prefix path)

find_prefixed-some :
    (args : List Str) {path : Str}
    → find_prefixed args ≡ some path
    → (before : List Str) × (after : List Str) × (args ≡ before ++ (prefix ++ path) ∷ after)
      × All IsPlain before
unfolding find_prefixed
find_prefixed-some [] e = cc
find_prefixed-some (arg ∷ args) e = elim (Option-cases (strip_prefix prefix arg)) [
  | inl q ↦
      let (before, after, split, plain) = find_prefixed-some args (rw (q, find_prefixed) at e) in
      (arg ∷ before, after, ap (◌∷◌ arg) split, (strip_prefix-IsPlain arg q, plain))
  | inr (path, q) ↦ (
    [],
    args,
    ap (λ a. a ∷ args) (strip_prefix-eq prefix arg (q ∙ (rw (q, find_prefixed) at e))),
    tt,
  )
]

find_prefixed-none : (args : List Str) → find_prefixed args ≡ none → All IsPlain args
unfolding find_prefixed
find_prefixed-none [] e = tt
find_prefixed-none (arg ∷ args) e = elim (Option-cases (strip_prefix prefix arg)) [
  | inl q ↦ (strip_prefix-IsPlain arg q, find_prefixed-none args (rw (q, find_prefixed) at e))
  | inr (path, q) ↦ cc (rw (q, find_prefixed) at e)
]

IsNotFlag-of : (s : Str) → str_eq s flag ≡ false → IsNotFlag s
IsNotFlag-of s e q = cc (e, ap (λ t. str_eq t flag) q, str_eq_refl flag)

find_paired-Chosen :
    (args : List Str)
    → ((before : List Str) × (after : List Str) × (path : Str) × (find_paired args ≡ some path)
        × (args ≡ before ++ flag ∷ path ∷ after)
        × All IsNotFlag before)
      ⊎ ((before : List Str) × (last : List Str) × (find_paired args ≡ none)
          × (args ≡ before ++ last)
          × All IsNotFlag before
          × ((last ≡ []) ⊎ ((arg : Str) × (last ≡ arg ∷ []))))
unfolding find_paired
find_paired-Chosen [] = inr ([], [], refl, refl, tt, inl refl)
find_paired-Chosen (arg ∷ []) = inr ([], arg ∷ [], refl, refl, tt, inr (arg, refl))
find_paired-Chosen (arg ∷ path ∷ args) = elim (Bool-cases (str_eq arg flag)) [
  | inl hit ↦
      inl ([], args, path, rw hit refl, ap (λ a. a ∷ path ∷ args) (str_eq→eq arg flag hit), tt)
  | inr miss ↦ elim (find_paired-Chosen (path ∷ args)) [
    | inl (before, after, chosen, q, split, others) ↦ inl (
      arg ∷ before,
      after,
      chosen,
      rw miss q,
      ap (◌∷◌ arg) split,
      (IsNotFlag-of arg miss, others),
    )
    | inr (before, last, q, split, others, end) ↦
        inr
          (arg ∷ before, last, rw miss q, ap (◌∷◌ arg) split, (IsNotFlag-of arg miss, others), end)
  ]
]

-- The arguments behind the program's name always give a path: that of the first argument of the
-- form --socket-path=PATH; without one, the argument behind the first --socket-path; without that,
-- the default.
pub parse_args-Chosen :
    (program : Str) (args : List Str)
    → (path : Str) × (parse_args (program ∷ args) ≡ some path) × Chosen args path
unfolding parse_args
parse_args-Chosen program args = elim (Option-cases (find_prefixed args)) [
  | inr (path, q) ↦
      let (before, after, split, plain) = find_prefixed-some args q in
      (path, rw (q, parse_args) refl, prefixed before after path split plain)
  | inl q ↦
      let plain = find_prefixed-none args q in
      elim (find_paired-Chosen args) [
        | inl (before, after, path, q', split, others) ↦
            (path, rw (q, parse_args, q') refl, paired before after path plain split others)
        | inr (before, last, q', split, others, end) ↦
            (default_path, rw (q, parse_args, q') refl, nothing before last plain split others end)
      ]
]
