-- ===== src/Base/Results.antt =====
-- Rust's `Result`, with the case that the code panics: an index or a division out of range, an
-- `unwrap` or `expect` on nothing.
use mathlib.Core.Path.{◌≡◌, refl, sym, subst}
use mathlib.Core.Logic.{◌⊎◌, inl, inr, ◌≢◌}
use mathlib.Core.Bool.{Bool, true, false}
use mathlib.Core.Option.{Option, none, some}
use abacus_rts.Base.Tests.{if◌then◌else◌}

pub data Result {ℓ κ} (E : Type ℓ) (A : Type κ) : Type (ℓ ⊔ κ) where
  ok : A → Result E A
  err : E → Result E A
  panic : Result E A

infixl 5 ◌>>=◌ ◌>>◌
abbrev pub ◌>>=◌ {ℓ κ μ} :
    {E : Type ℓ} {A : Type κ} {B : Type μ} → Result E A → (A → Result E B) → Result E B
ok a >>= f = f a
err e >>= f = err e
panic >>= f = panic

abbrev pub ◌>>◌ {ℓ κ} : {E : Type ℓ} {B : Type κ} → Result E (Unit {0}) → Result E B → Result E B
m >> k = m >>= λ _. k

-- `if b { return Err(e) }`.
abbrev pub fail_if {ℓ} : {E : Type ℓ} → Bool → E → Result E (Unit {0})
fail_if true e = err e
fail_if false e = ok tt

-- `ok_or(e)?`.
abbrev pub ok_or {ℓ κ} : {E : Type ℓ} {A : Type κ} → Option A → E → Result E A
ok_or none e = err e
ok_or (some a) e = ok a

-- `unwrap`, `expect`, and an index.
abbrev pub unwrap {ℓ κ} : {E : Type ℓ} {A : Type κ} → Option A → Result E A
unwrap none = panic
unwrap (some a) = ok a

-- `expect` of a result.
abbrev pub expect_ok {ℓ κ} : {E : Type ℓ} {A : Type κ} → Result E A → Result E A
expect_ok (ok a) = ok a
expect_ok (err e) = panic
expect_ok panic = panic

-- `map_err`.
abbrev pub map_err {ℓ κ μ} :
    {E : Type ℓ} {F : Type κ} {A : Type μ} → (E → F) → Result E A → Result F A
map_err f (ok a) = ok a
map_err f (err e) = err (f e)
map_err f panic = panic

pub Result-cases {ℓ κ} :
    {E : Type ℓ} {A : Type κ} (r : Result E A)
    → r ≢ panic
    → ((a : A) × (r ≡ ok a)) ⊎ ((e : E) × (r ≡ err e))
Result-cases (ok a) h = inl (a, refl)
Result-cases (err e) h = inr (e, refl)
Result-cases panic h = absurd (h refl)

-- A bind that succeeds has run both of its parts.
pub >>=-eq-ok {ℓ κ μ} :
    {E : Type ℓ} {A : Type κ} {B : Type μ} (m : Result E A) (next : A → Result E B) {b : B}
    (done : (m >>= next) ≡ ok b)
    → (a : A) × (m ≡ ok a) × (next a ≡ ok b)
>>=-eq-ok panic next done = cc
>>=-eq-ok (err e) next done = cc
>>=-eq-ok (ok a) next done = (a, refl, done)

-- A bind does not panic if its parts do not.
pub >>=-ne-panic {ℓ κ μ} :
    {E : Type ℓ} {A : Type κ} {B : Type μ} (m : Result E A) (f : A → Result E B)
    → m ≢ panic
    → ((a : A) → m ≡ ok a → f a ≢ panic)
    → (m >>= f) ≢ panic
>>=-ne-panic (ok a) f h k = k a refl
>>=-ne-panic (err e) f h k = λ e. cc
>>=-ne-panic panic f h k = absurd (h refl)

pub ok-injective {ℓ κ} :
    {E : Type ℓ} {A : Type κ} {a b : A} → ◌≡◌ {A = Result E A} (ok a) (ok b) → a ≡ b
ok-injective e = cc

-- The code does not panic, and a result that it returns satisfies `P`.
pub data Yields {ℓ κ μ} {E : Type ℓ} {A : Type κ} (P : A → Type μ)
    : Result E A → Type (ℓ ⊔ κ ⊔ μ) where
  yields : {a : A} → P a → Yields P (ok a)
  fails : {e : E} → Yields P (err e)

pub Yields-bind {ℓ κ μ ν ρ} :
    {E : Type ℓ} {A : Type κ} {B : Type μ} {P : A → Type ν} {Q : B → Type ρ} {m : Result E A}
    {f : A → Result E B}
    → Yields P m
    → ((a : A) → P a → Yields Q (f a))
    → Yields Q (m >>= f)
Yields-bind (yields p) k = k _ p
Yields-bind fails k = fails

pub fail_if-Yields {ℓ} : {E : Type ℓ} (b : Bool) (e : E) → Yields (λ _. b ≡ false) (fail_if b e)
fail_if-Yields true e = fails
fail_if-Yields false e = yields refl

pub Yields-ne-panic {ℓ κ μ} :
    {E : Type ℓ} {A : Type κ} {P : A → Type μ} {r : Result E A} → Yields P r → r ≢ panic
Yields-ne-panic (yields p) = λ e. cc
Yields-ne-panic fails = λ e. cc

pub Yields-eq-ok {ℓ κ μ} :
    {E : Type ℓ} {A : Type κ} {P : A → Type μ} {r : Result E A} {a : A}
    → Yields P r
    → r ≡ ok a
    → P a
Yields-eq-ok {P = P} (yields p) e = subst P (ok-injective e) p
Yields-eq-ok fails e = cc

-- Nothing is claimed of the result: the code does not panic.
abbrev pub NoPanic {ℓ κ} : {E : Type ℓ} {A : Type κ} → Result E A → Type (ℓ ⊔ κ)
NoPanic r = Yields (λ _. Unit {0}) r

pub Yields-mono {ℓ κ μ ν} :
    {E : Type ℓ} {A : Type κ} {P : A → Type μ} {Q : A → Type ν} {r : Result E A}
    → Yields P r
    → ((a : A) → P a → Q a)
    → Yields Q r
Yields-mono (yields p) k = yields (k _ p)
Yields-mono fails k = fails

pub ok_or-Yields {ℓ κ} :
    {E : Type ℓ} {A : Type κ} (o : Option A) (e : E) → Yields (λ a. o ≡ some a) (ok_or o e)
ok_or-Yields none e = fails
ok_or-Yields (some a) e = yields refl

pub Yields-both {ℓ κ μ ν} :
    {E : Type ℓ} {A : Type κ} {P : A → Type μ} {Q : A → Type ν} {r : Result E A}
    → Yields P r
    → Yields Q r
    → Yields (λ a. P a × Q a) r
Yields-both (yields p) y = yields (p, Yields-eq-ok y refl)
Yields-both fails y = fails

pub Yields-of-eq {ℓ κ μ} :
    {E : Type ℓ} {A : Type κ} {P : A → Type μ} {a : A} {r : Result E A}
    → r ≡ ok a
    → P a
    → Yields P r
Yields-of-eq {P = P} e p = subst (Yields P) (sym e) (yields p)

-- A result that the code returns satisfies `P`; whether it panics is left open.
abbrev pub Ensures {ℓ κ} : {E : Type ℓ} {A : Type κ} → (A → Type 0) → Result E A → Type 0
Ensures P (ok a) = P a
Ensures P (err e) = Unit {0}
Ensures P panic = Unit {0}

pub Ensures-bind {ℓ κ μ} :
    {E : Type ℓ} {A : Type κ} {B : Type μ} (P : A → Type 0) (Q : B → Type 0) (m : Result E A)
    (f : A → Result E B)
    → Ensures P m
    → ((a : A) → P a → Ensures Q (f a))
    → Ensures Q (m >>= f)
Ensures-bind P Q (ok a) f h k = k a h
Ensures-bind P Q (err e) f h k = tt
Ensures-bind P Q panic f h k = tt

pub Ensures-trivial {ℓ κ} : {E : Type ℓ} {A : Type κ} (m : Result E A) → Ensures (λ _. Unit {0}) m
Ensures-trivial (ok a) = tt
Ensures-trivial (err e) = tt
Ensures-trivial panic = tt

pub Yields-Ensures {ℓ κ μ} :
    {E : Type ℓ} {A : Type κ} {P : A → Type 0} {Q : A → Type μ} (r : Result E A)
    → Yields Q r
    → Ensures P r
    → Yields P r
Yields-Ensures (ok a) y p = yields p
Yields-Ensures (err e) y p = fails
Yields-Ensures {P = P} panic y p = absurd (Yields-ne-panic y refl)

pub Yields-of-err {ℓ κ μ} :
    {E : Type ℓ} {A : Type κ} {P : A → Type μ} {e : E} {r : Result E A} → r ≡ err e → Yields P r
Yields-of-err {P = P} e = subst (Yields P) (sym e) fails

-- The code does not return an error; whether it panics is left open.
abbrev pub Unfailing {ℓ κ} : {E : Type ℓ} {A : Type κ} → Result E A → Type 0
Unfailing (ok a) = Unit {0}
Unfailing (err e) = ⊥
Unfailing panic = Unit {0}

pub Unfailing-bind {ℓ κ μ} :
    {E : Type ℓ} {A : Type κ} {B : Type μ} (m : Result E A) (f : A → Result E B)
    → Unfailing m
    → ((a : A) → Unfailing (f a))
    → Unfailing (m >>= f)
Unfailing-bind (ok a) f h k = k a
Unfailing-bind (err e) f h k = absurd h
Unfailing-bind panic f h k = tt

pub Unfailing-map_err {ℓ κ μ} :
    {E : Type ℓ} {F : Type κ} {A : Type μ} (f : E → F) (m : Result E A)
    → Unfailing m
    → Unfailing (map_err f m)
Unfailing-map_err f (ok a) h = tt
Unfailing-map_err f (err e) h = absurd h
Unfailing-map_err f panic h = tt

pub Yields-Unfailing {ℓ κ μ} :
    {E : Type ℓ} {A : Type κ} {P : A → Type μ} {r : Result E A}
    → Yields P r
    → Unfailing r
    → (a : A) × (r ≡ ok a) × P a
Yields-Unfailing (yields p) h = (_, refl, p)
Yields-Unfailing fails h = absurd h

pub Unfailing-if {ℓ κ} :
    {E : Type ℓ} {A : Type κ} (b : Bool) (r r' : Result E A)
    → Unfailing r
    → Unfailing r'
    → Unfailing (if b then r else r')
Unfailing-if true r r' h k = h
Unfailing-if false r r' h k = k
