-- ===== src/Wire/Cursor.antt =====
-- A position in a received payload with the bytes that follow it, and what the reads of
-- wire.rs give there.
use abacus_rts.Base.{
  ℕ, zero, suc, ◌+◌, ◌-◌, ◌≤◌, ◌≡◌, refl, sym, ap, ◌∙◌, some, List, [], ◌∷◌, ◌++◌, true, length,
  drop, get_elem?, take-append, drop-append, length-append, ok, arith, le→leb,
}
use abacus_rts.Base.U64.{le_bytes, from_le_bytes, from_le_bytes-le_bytes, length-le_bytes, IsU64}
use abacus_rts.Base.Text.{Str, is_utf8}
use abacus_rts.Wire.Decode.{byte_at, slice_from, slice, decode_string, read_u64}

-- The bytes from `at` on are `s`.
pub record At (bytes : List ℕ) (at : ℕ) (s : List ℕ) : Type 0 where
  pub rest : drop at bytes ≡ s
  pub size : length bytes ≡ at + length s

drop-drop : (m n k : ℕ) (xs : List ℕ) → k ≡ m + n → drop n (drop m xs) ≡ drop k xs
drop-drop zero n k xs e = ap (λ (j : ℕ). drop j xs) (omega arith)
drop-drop (suc m) n zero xs e = absurd (omega arith)
drop-drop (suc m) zero (suc k) [] e = refl
drop-drop (suc m) (suc n) (suc k) [] e = refl
drop-drop (suc m) n (suc k) (x ∷ xs) e = drop-drop m n k xs (omega arith)

get_elem?-drop :
    (n : ℕ) (xs : List ℕ) {b : ℕ} {s : List ℕ} → drop n xs ≡ b ∷ s → get_elem? xs n ≡ some b
get_elem?-drop zero [] e = cc
get_elem?-drop zero (x ∷ xs) e = cc
get_elem?-drop (suc n) [] e = cc
get_elem?-drop (suc n) (x ∷ xs) e = get_elem?-drop n xs e

pub At-start : (s : List ℕ) → At s 0 s
At-start s = record { rest = refl; size = omega arith }

module _ {bytes : List ℕ} {at : ℕ} where
  pub At-skip :
      (xs : List ℕ) {s : List ℕ} {next : ℕ}
      → At bytes at (xs ++ s)
      → next ≡ at + length xs
      → At bytes next s
  At-skip xs {s = s} {next = next} h e = record {
    rest =
        sym (drop-drop at (length xs) next bytes e)
        ∙ ap (drop (length xs)) h.rest
        ∙ drop-append xs s;
    size = omega (arith, h.size, length-append xs s);
  }

  pub At-next : {b : ℕ} {s : List ℕ} → At bytes at (b ∷ s) → At bytes (at + 1) s
  At-next {b} {s} h = At-skip (b ∷ []) {s = s} h (omega arith)

  pub byte_at-At : {b : ℕ} {s : List ℕ} → At bytes at (b ∷ s) → byte_at bytes at ≡ ok b
  unfolding byte_at
  byte_at-At h = rw (get_elem?-drop at bytes h.rest)

  pub slice_from-At : {s : List ℕ} → At bytes at s → slice_from bytes at ≡ ok s
  unfolding slice_from
  slice_from-At h = rw (le→leb at (length bytes) (omega (arith, h.size)), h.rest)

  pub slice-At :
      (xs s : List ℕ) {next : ℕ}
      → At bytes at (xs ++ s)
      → next ≡ at + length xs
      → slice bytes at next ≡ ok xs
  unfolding slice
  slice-At xs s {next = next} h e =
      let count : next - at ≡ length xs = omega arith in
      rw (
        le→leb at next (omega arith),
        le→leb next (length bytes) (omega (arith, h.size, length-append xs s)),
        h.rest,
        count,
        take-append xs s,
      )

  pub read_u64-At :
      (v : ℕ) (s : List ℕ) → IsU64 v → At bytes at (le_bytes 8 v ++ s) → read_u64 bytes at ≡ ok v
  unfolding read_u64
  read_u64-At v s h a = rw (
    slice-At (le_bytes 8 v) s {next = at + 8} a (omega (arith, length-le_bytes 8 v)),
    from_le_bytes-le_bytes 8 v (omega arith),
  )

-- A string behind its length.
abbrev pub string_bytes : Str → List ℕ
string_bytes s = le_bytes 2 (length s) ++ s

pub length-string_bytes : (s : Str) → length (string_bytes s) ≡ 2 + length s
length-string_bytes s =
    omega (arith, length-append (le_bytes 2 (length s)) s, length-le_bytes 2 (length s))

pub decode_string-string_bytes :
    (s tail : List ℕ)
    → is_utf8 s ≡ true
    → length s ≤ 65535
    → decode_string (string_bytes s ++ tail) ≡ ok s
unfolding decode_string le_bytes
decode_string-string_bytes s tail u h =
    let size : length (s ++ tail) ≡ length s + length tail = length-append s tail in
    let len : from_le_bytes (le_bytes 2 (length s)) ≡ length s =
      from_le_bytes-le_bytes 2 (length s) (omega arith) in
    let count : 2 + length s - 2 ≡ length s = omega arith in
    rw len (ground (arith, take-append s tail))
