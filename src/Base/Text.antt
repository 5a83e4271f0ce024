-- ===== src/Base/Text.antt =====
-- Rust strings as their bytes: literals, equality, UTF-8 validity, numbers in decimal and hex.
use Prim.Native.Nat.{ℕ, zero, suc, ◌+◌, ◌/◌, ◌%◌}
use Prim.Native.Char.{code}
use Prim.Native.String.{String}
use mathlib.Core.Path.{◌≡◌, refl}
use mathlib.Core.Bool.{Bool, true, false, ◌&&◌}
use mathlib.Core.Option.{Option, none, some}
use mathlib.Core.List.{List, [], ◌∷◌}
use native.Mathlib.Omega.{arith}
use abacus_rts.Base.Tests.{ltb, leb, ◌==◌, if◌then◌else◌}

-- A `String` or `&str`, by its UTF-8 bytes.
abbrev pub Str : Type 0
Str = List ℕ

-- The bytes of an ASCII literal.
abbrev pub str : String → Str
str String.[] = []
str (String.◌∷◌ c s) = code c ∷ str s

unfoldable pub str_eq : Str → Str → Bool
str_eq [] [] = true
str_eq [] (b ∷ bs) = false
str_eq (a ∷ as') [] = false
str_eq (a ∷ as') (b ∷ bs) = a == b && str_eq as' bs

pub str_eq→eq : (s t : Str) → str_eq s t ≡ true → s ≡ t
unfolding str_eq
str_eq→eq [] [] h = refl
str_eq→eq [] (b ∷ bs) h = cc
str_eq→eq (a ∷ s) [] h = cc
str_eq→eq (a ∷ s) (b ∷ t) h = ground (arith, str_eq→eq s t)

pub str_eq_refl : (s : Str) → str_eq s s ≡ true
unfolding str_eq
str_eq_refl [] = refl
str_eq_refl (a ∷ s) = ground (arith, str_eq_refl s)

-- What the next bytes must be: the start of a character, or `more` and then `count` continuation
-- bytes, the first of which lies in the range.
pub data Utf8 : Type 0 where
  start : Utf8
  more : (lo hi count : ℕ) → Utf8

abbrev in_range : ℕ → ℕ → ℕ → Bool
in_range lo hi b = leb lo b && leb b hi

-- The table of well-formed byte sequences of the Unicode standard.
utf8_first : ℕ → Option Utf8
utf8_first b =
    if ltb b 0x80
    then some start
    else if in_range 0xc2 0xdf b
    then some (more 0x80 0xbf 0)
    else if b == 0xe0
    then some (more 0xa0 0xbf 1)
    else if in_range 0xe1 0xec b
    then some (more 0x80 0xbf 1)
    else if b == 0xed
    then some (more 0x80 0x9f 1)
    else if in_range 0xee 0xef b
    then some (more 0x80 0xbf 1)
    else if b == 0xf0
    then some (more 0x90 0xbf 2)
    else if in_range 0xf1 0xf3 b
    then some (more 0x80 0xbf 2)
    else if b == 0xf4
    then some (more 0x80 0x8f 2)
    else none

utf8_step : Utf8 → ℕ → Option Utf8
unfolding utf8_first
utf8_step start b = utf8_first b
utf8_step (more lo hi zero) b = if in_range lo hi b then some start else none
utf8_step (more lo hi (suc n)) b = if in_range lo hi b then some (more 0x80 0xbf n) else none

utf8_scan : Utf8 → List ℕ → Bool
unfolding utf8_step
utf8_scan start [] = true
utf8_scan (more lo hi count) [] = false
utf8_scan s (b ∷ bs) = elim (utf8_step s b) [ none ↦ false | some s' ↦ utf8_scan s' bs ]

-- `String::from_utf8` succeeds.
unfoldable pub is_utf8 : List ℕ → Bool
unfolding utf8_scan
is_utf8 = utf8_scan start

-- A number in the given base, the highest digit first, with fuel for the digits.
digits_loop : (ℕ → ℕ) → ℕ → ℕ → ℕ → Str → Str
digits_loop digit base zero n out = out
digits_loop digit base (suc fuel) n out =
    let rest = digits_loop digit base fuel (n / base) (digit (n % base) ∷ out) in
    if ltb n base then digit n ∷ out else rest

-- `{n}`: a u64 has at most 20 digits.
unfoldable pub decimal : ℕ → Str
unfolding digits_loop
decimal n = digits_loop (λ d. d + b'0') 10 20 n []

hex_digit : ℕ → ℕ
hex_digit d = if ltb d 10 then d + b'0' else d + 87

-- `{b:02x}` of a byte.
unfoldable pub hex_byte : ℕ → Str
unfolding hex_digit
hex_byte b = hex_digit (b / 16) ∷ hex_digit (b % 16) ∷ []
