-- ===== src/Wire/Safety.antt =====
-- The decoders on any input, such as a hostile peer sends: they do not panic, and what they accept
-- is well formed.
use abacus_rts.Base.{
  ℕ, zero, suc, ◌+◌, ◌-◌, ◌^◌, ◌≤◌, ◌<◌, ◌≡◌, refl, ap, inl, inr, true, not, List, [], ◌∷◌, length,
  drop, get_elem?-lt, length-drop, length-take, ltb, leb, ◌==◌, if◌then◌else◌, ok, ◌>>=◌, Yields,
  yields, fails, Yields-bind, Yields-mono, fail_if-Yields, arith, Bool-cases, le→leb, All, All-take,
  All-drop, All-append, All-get_elem?,
}
use abacus_rts.Base.U64.{from_le_bytes, from_le_bytes-lt, IsByte, IsU64}
use abacus_rts.Base.Text.{Str, is_utf8}
use abacus_rts.Wire.Message.{
  CreateInterlock, Request, create_interlock, Response, created, attached, WireCondition,
}
use abacus_rts.Wire.Decode.{
  byte_at, slice_from, slice, decode_string, read_u64, decode_conditions, decode_tier,
  decode_create, decode_attach, decode_header, decode_id, decode_error, decode_request,
  decode_response,
}
use abacus_rts.Wire.Layout.{
  TierFields, plain, counter, cron, barrier, WireRequest, create, attach, create_fields, to_request,
  IsValidCondition, IsValidFields, IsValidRequest,
}
use abacus_rts.Wire.RoundTrip.{IsValidResponse}

-- What a slice of the input is.
record IsPart (size : ℕ) (s : List ℕ) : Type 0 where
  len : length s ≡ size
  octets : All IsByte s

-- What is read is UTF-8, and lies in the input behind its length.
record IsRead (bytes : List ℕ) (s : Str) : Type 0 where
  utf8 : is_utf8 s ≡ true
  fits : 2 + length s ≤ length bytes

module _ (bytes : List ℕ) (octets : All IsByte bytes) where
  byte_at-Yields : (i : ℕ) → i < length bytes → Yields IsByte (byte_at bytes i)
  unfolding byte_at
  byte_at-Yields i h =
      let (b, e) = get_elem?-lt bytes i h in rw e (yields (All-get_elem? IsByte bytes i octets e))

  slice_from-Yields :
      (lo : ℕ) → lo ≤ length bytes → Yields (IsPart (length bytes - lo)) (slice_from bytes lo)
  unfolding slice_from
  slice_from-Yields lo h =
      rw (le→leb lo (length bytes) h)
        (yields (record { len = length-drop lo bytes; octets = All-drop IsByte lo bytes octets }))

  slice-Yields :
      (lo hi : ℕ) → lo ≤ hi → hi ≤ length bytes → Yields (IsPart (hi - lo)) (slice bytes lo hi)
  unfolding slice
  slice-Yields lo hi h k =
      rw (le→leb lo hi h, le→leb hi (length bytes) k)
        (yields (record {
          len = length-take (hi - lo) (drop lo bytes) (omega (arith, length-drop lo bytes));
          octets = All-take IsByte (hi - lo) (drop lo bytes) (All-drop IsByte lo bytes octets);
        }))

  read_u64-Yields : (pos : ℕ) → pos + 8 ≤ length bytes → Yields IsU64 (read_u64 bytes pos)
  unfolding read_u64
  read_u64-Yields pos h = Yields-bind (slice-Yields pos (pos + 8) (omega arith) h) λ s part.
      let size : length s ≡ 8 = omega (arith, part.len) in
      let bound : from_le_bytes s < 256 ^ length s = from_le_bytes-lt s part.octets in
      yields (rw size at bound)

  decode_string-Yields : Yields (IsRead bytes) (decode_string bytes)
  unfolding decode_string
  decode_string-Yields = Yields-bind (fail_if-Yields (ltb (length bytes) 2) _) λ _ two.
      Yields-bind (byte_at-Yields 0 (ground arith)) λ lo _.
        Yields-bind (byte_at-Yields 1 (ground arith)) λ hi _.
          Yields-bind (fail_if-Yields (ltb (length bytes) (2 + from_le_bytes (lo ∷ hi ∷ []))) _)
            λ _ long.
              Yields-bind
                (slice-Yields 2 (2 + from_le_bytes (lo ∷ hi ∷ [])) (omega arith) (ground arith))
                λ s part. Yields-bind (fail_if-Yields (not (is_utf8 s)) _) λ _ valid.
                  yields (record { utf8 = ground arith; fits = ground (arith, part.len) })

module _ (rest : List ℕ) (octets : All IsByte rest) where
  decode_conditions-Yields :
      (count pos : ℕ) (done : List WireCondition)
      → pos ≤ length rest
      → All IsValidCondition done
      → Yields (All IsValidCondition) (decode_conditions count rest pos done)
  unfolding decode_conditions
  decode_conditions-Yields zero pos done h v = yields v
  decode_conditions-Yields (suc count) pos done h v =
      Yields-bind (slice_from-Yields rest octets pos h) λ from part.
        Yields-bind (decode_string-Yields from part.octets) λ wn named.
          Yields-bind (fail_if-Yields (leb (length rest) (pos + (2 + length wn))) _) λ _ more.
            Yields-bind (byte_at-Yields rest octets (pos + (2 + length wn)) (ground arith))
              λ ww octet.
                Yields-bind (fail_if-Yields (ltb (length rest) (pos + (2 + length wn) + 1 + 8)) _)
                  λ _ long.
                    Yields-bind
                      (read_u64-Yields rest octets (pos + (2 + length wn) + 1) (ground arith))
                      λ t bound.
                        decode_conditions-Yields count (pos + (2 + length wn) + 1 + 8) _
                          (ground arith)
                          (All-append IsValidCondition done ((wn, ww, t) ∷ []) v
                            ((named.utf8, octet, bound), tt))

  -- A tier is decoded to the request with exactly the fields of that tier.
  IsCreate : Str → CreateInterlock → Type 0
  IsCreate name r = (f : TierFields) × (r ≡ create_fields name f) × IsValidFields f

  decode_tier-Yields :
      (len pos : ℕ) (name : Str) (t : ℕ)
      → pos ≤ length rest
      → IsByte t
      → Yields (IsCreate name) (decode_tier len rest pos name t)
  unfolding decode_tier IsCreate
  decode_tier-Yields len pos name t h octet = elim (Bool-cases (t == 1)) [
    | inl one ↦ rw one (
        Yields-bind (slice_from-Yields rest octets pos h) λ from part.
          Yields-bind (decode_string-Yields from part.octets) λ wn named.
            Yields-bind (fail_if-Yields (leb (length rest) (pos + (2 + length wn))) _) λ _ more.
              Yields-bind (byte_at-Yields rest octets (pos + (2 + length wn)) (ground arith))
                λ ww word. yields (counter wn ww, ground arith, (named.utf8, word)))
    | inr not_one ↦ rw not_one (elim (Bool-cases (t == 3)) [
      | inl three ↦ rw three (
          Yields-bind (fail_if-Yields (ltb (length rest) (pos + 8)) _) λ _ long.
            Yields-bind (read_u64-Yields rest octets pos (ground arith))
              λ ival bound. yields (cron ival, ground arith, bound))
      | inr not_three ↦ rw not_three (elim (Bool-cases (t == 4)) [
        | inl four ↦ rw four (
            Yields-bind (fail_if-Yields (ltb (length rest) (pos + 2)) _) λ _ long.
              Yields-bind (byte_at-Yields rest octets pos (ground arith)) λ lo _.
                Yields-bind (byte_at-Yields rest octets (pos + 1) (ground arith)) λ hi _.
                  Yields-bind
                    (decode_conditions-Yields (from_le_bytes (lo ∷ hi ∷ [])) (pos + 2) []
                      (ground arith) tt)
                    λ conds valid. yields (barrier conds, ground arith, valid))
        | inr not_four ↦
            rw not_four (yields (plain t, refl, (octet, ground arith, ground arith, ground arith)))
      ])
    ])
  ]

-- A request whose fields are those of its tier, with valid names and numbers.
pub IsDecoded : Request → Type 0
IsDecoded req = (m : WireRequest) × (req ≡ to_request m) × IsValidRequest m

module _ (bytes : List ℕ) (octets : All IsByte bytes) where
  decode_create-Yields : (len : ℕ) → Yields IsDecoded (decode_create len bytes)
  unfolding decode_create IsDecoded IsCreate
  decode_create-Yields len = Yields-bind (decode_string-Yields bytes octets) λ name named.
      Yields-bind (fail_if-Yields (leb (length bytes) (2 + length name)) _) λ _ more.
        Yields-bind (byte_at-Yields bytes octets (2 + length name) (ground arith)) λ t octet.
          Yields-bind
            (decode_tier-Yields bytes octets len (2 + length name + 1) name t (ground arith) octet)
            λ r (f, e, valid). yields (create name f, ap create_interlock e, (named.utf8, valid))

  decode_attach-Yields : Yields IsDecoded (decode_attach bytes)
  unfolding decode_attach IsDecoded
  decode_attach-Yields =
      Yields-bind (decode_string-Yields bytes octets)
        λ name named. yields (attach name, refl, named.utf8)

  decode_header-Yields : Yields (λ p. All IsByte p.1) (decode_header bytes)
  unfolding decode_header
  decode_header-Yields = Yields-bind (fail_if-Yields (ltb (length bytes) 2) _) λ _ two.
      Yields-bind (byte_at-Yields bytes octets 0 (ground arith)) λ version _.
        Yields-bind (fail_if-Yields (not (version == 1)) _) λ _ _.
          Yields-bind (byte_at-Yields bytes octets 1 (ground arith)) λ tag _.
            Yields-bind (slice_from-Yields bytes octets 2 (ground arith))
              λ rest part. yields part.octets

  decode_id-Yields :
      (len : ℕ) (of_id : ℕ → Response)
      → ((id : ℕ) → IsU64 id → IsValidResponse (of_id id))
      → Yields IsValidResponse (decode_id len bytes of_id)
  unfolding decode_id
  decode_id-Yields len of_id valid = Yields-bind (fail_if-Yields (ltb (length bytes) 8) _) λ _ long.
      Yields-bind (read_u64-Yields bytes octets 0 (ground arith))
        λ id bound. yields (valid id bound)

  decode_message-Yields :
      Yields
        (λ s. is_utf8 s ≡ true)
        (if ltb 1 (length bytes)
          then (slice_from bytes 1 >>= λ from. decode_string from)
          else ok [])
  unfolding is_utf8
  decode_message-Yields = elim (Bool-cases (ltb 1 (length bytes))) [
    | inl more ↦ rw more (
        Yields-bind (slice_from-Yields bytes octets 1 (ground arith)) λ from part.
          Yields-mono (decode_string-Yields from part.octets) λ message named. named.utf8)
    | inr end ↦ rw end (yields refl)
  ]

  decode_error-Yields : (len : ℕ) → Yields IsValidResponse (decode_error len bytes)
  unfolding decode_error
  decode_error-Yields len = Yields-bind (fail_if-Yields (leb (length bytes) 0) _) λ _ some_byte.
      Yields-bind (byte_at-Yields bytes octets 0 (ground arith))
        λ code _. Yields-bind decode_message-Yields λ message valid. yields valid

module _ (bytes : List ℕ) (octets : All IsByte bytes) where
  -- On every sequence of bytes decode_request returns without a panic, and a request it accepts
  -- has exactly the fields of its tier, with UTF-8 names and numbers in range.
  pub decode_request-Yields : Yields IsDecoded (decode_request bytes)
  unfolding decode_request
  decode_request-Yields = Yields-bind (decode_header-Yields bytes octets) λ p rest.
      elim (Bool-cases (p.0 == 1)) [
        | inl e ↦ rw e (decode_create-Yields p.1 rest (length bytes))
        | inr not_create ↦ rw not_create (elim (Bool-cases (p.0 == 2)) [
          | inl e ↦ rw e (decode_attach-Yields p.1 rest)
          | inr other ↦ rw other fails
        ])
      ]

  -- On every sequence of bytes decode_response returns without a panic, and a response it accepts
  -- has an id in range or a UTF-8 message.
  pub decode_response-Yields : Yields IsValidResponse (decode_response bytes)
  unfolding decode_response
  decode_response-Yields = Yields-bind (decode_header-Yields bytes octets) λ p rest.
      elim (Bool-cases (p.0 == 0x81)) [
        | inl e ↦ rw e (decode_id-Yields p.1 rest (length bytes) created (λ id h. h))
        | inr not_created ↦ rw not_created (elim (Bool-cases (p.0 == 0x82)) [
          | inl e ↦ rw e (decode_id-Yields p.1 rest (length bytes) attached (λ id h. h))
          | inr not_attached ↦ rw not_attached (elim (Bool-cases (p.0 == 0x88)) [
            | inl e ↦ rw e (decode_error-Yields p.1 rest (length bytes))
            | inr other ↦ rw other fails
          ])
        ])
      ]
