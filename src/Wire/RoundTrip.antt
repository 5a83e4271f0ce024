-- ===== src/Wire/RoundTrip.antt =====
-- Decoding what was encoded.
use mathlib.Core.List.{append_assoc, append-nil}
use abacus_rts.Base.{
  ℕ, ◌+◌, ◌*◌, ◌/◌, ◌%◌, ◌≤◌, ◌<◌, ◌≡◌, true, List, [], ◌∷◌, ◌++◌, length, drop, take,
  length-append, ok, arith, All, lt→leb_false, le→ltb_false, lt→ltb,
}
use abacus_rts.Base.U64.{le_bytes, from_le_bytes, from_le_bytes-le_bytes, length-le_bytes, IsU64}
use abacus_rts.Base.Text.{Str, is_utf8}
use abacus_rts.Wire.Message.{Response, created, attached, error, WireCondition}
use abacus_rts.Wire.Encode.{encode_request, encode_response}
use abacus_rts.Wire.Decode.{
  decode_string, decode_conditions, decode_tier, decode_create, decode_header, decode_request,
  decode_response, decode_id, decode_error,
}
use abacus_rts.Wire.Cursor.{
  At, At-start, At-skip, At-next, byte_at-At, slice_from-At, read_u64-At, string_bytes,
  length-string_bytes, decode_string-string_bytes,
}
use abacus_rts.Wire.Layout.{
  TierFields, plain, counter, cron, barrier, WireRequest, create, attach, create_fields, to_request,
  tier, IsValidCondition, IsValidFields, IsValidRequest, conditions_bytes, fields_bytes,
  request_bytes, response_bytes, FitsCondition, FitsFields, Fits, FitsResponse,
  encode_request-request_bytes, encode_response-response_bytes,
}

decode_conditions-conditions_bytes :
    (conds : List WireCondition) (rest : List ℕ) (pos : ℕ) (done : List WireCondition)
    → All IsValidCondition conds
    → All FitsCondition conds
    → At rest pos (conditions_bytes conds)
    → decode_conditions (length conds) rest pos done ≡ ok (done ++ conds)
unfolding decode_conditions conditions_bytes
decode_conditions-conditions_bytes [] rest pos done v f h = rw append-nil
decode_conditions-conditions_bytes ((wn, ww, threshold) ∷ conds) rest pos done v f h =
    let more : List ℕ = le_bytes 8 threshold ++ conditions_bytes conds in
    let at_word : At rest (pos + (2 + length wn)) (ww ∷ more) =
      At-skip (string_bytes wn) {s = ww ∷ more} h (omega (arith, length-string_bytes wn)) in
    let at_value : At rest (pos + (2 + length wn) + 1) more = At-next at_word in
    let at_next : At rest (pos + (2 + length wn) + 1 + 8) (conditions_bytes conds) =
      At-skip (le_bytes 8 threshold) {s = conditions_bytes conds} at_value
        (omega (arith, length-le_bytes 8 threshold)) in
    rw (
      slice_from-At h,
      decode_string-string_bytes wn (ww ∷ more) v.0.0 f.0,
      lt→leb_false (length rest) (pos + (2 + length wn)) (omega (arith, at_word.size)),
      byte_at-At at_word,
      le→ltb_false (length rest) (pos + (2 + length wn) + 1 + 8) (omega (arith, at_next.size)),
      read_u64-At threshold (conditions_bytes conds) v.0.2 at_value,
      decode_conditions-conditions_bytes conds rest _ (done ++ (wn, ww, threshold) ∷ []) v.1 f.1
          at_next,
      append_assoc,
    )

-- A condition takes eleven bytes at least, so a payload holds fewer than 2 ^ 16 of them.
length-conditions_bytes :
    (conds : List WireCondition) → 11 * length conds ≤ length (conditions_bytes conds)
unfolding conditions_bytes
length-conditions_bytes [] = omega arith
length-conditions_bytes ((wn, ww, threshold) ∷ conds) =
    let more : List ℕ = le_bytes 8 threshold ++ conditions_bytes conds in
    omega (
      arith,
      length-append (string_bytes wn) (ww ∷ more),
      length-string_bytes wn,
      length-append (le_bytes 8 threshold) (conditions_bytes conds),
      length-le_bytes 8 threshold,
      length-conditions_bytes conds,
    )

-- The tier's fields, from the byte of the tier on.
decode_tier-fields_bytes :
    (fields : TierFields) (name : Str) (len : ℕ) (rest : List ℕ) (pos : ℕ)
    → IsValidFields fields
    → FitsFields fields
    → length (fields_bytes fields) ≤ 4096
    → At rest pos (fields_bytes fields)
    → decode_tier len rest (pos + 1) name (tier fields) ≡ ok (create_fields name fields)
unfolding decode_tier le_bytes
decode_tier-fields_bytes (plain t) name len rest pos v f size h = ground arith
decode_tier-fields_bytes (counter wn ww) name len rest pos v f size h =
    let from : At rest (pos + 1) (string_bytes wn ++ (ww ∷ [])) = At-next h in
    let at_word : At rest (pos + 1 + (2 + length wn)) (ww ∷ []) =
      At-skip (string_bytes wn) {s = ww ∷ []} from (omega (arith, length-string_bytes wn)) in
    rw (
      slice_from-At from,
      decode_string-string_bytes wn (ww ∷ []) v.0 f,
      lt→leb_false (length rest) (pos + 1 + (2 + length wn)) (omega (arith, at_word.size)),
      byte_at-At at_word,
    )
decode_tier-fields_bytes (cron ival) name len rest pos v f size h =
    let from : At rest (pos + 1) (le_bytes 8 ival ++ []) = rw append-nil (At-next h) in
    rw (
      le→ltb_false (length rest) (pos + 1 + 8)
          (omega (arith, from.size, length-append (le_bytes 8 ival) [], length-le_bytes 8 ival)),
      read_u64-At ival [] v from,
    )
decode_tier-fields_bytes (barrier conds) name len rest pos v f size h =
    let n : ℕ = length conds in
    let few : n < 65536 = omega (
      arith,
      length-conditions_bytes conds,
      length-append (le_bytes 2 n) (conditions_bytes conds),
    ) in
    let lo : At rest (pos + 1) (n % 256 ∷ (n / 256 % 256 ∷ conditions_bytes conds)) =
      At-next {s = le_bytes 2 n ++ conditions_bytes conds} h in
    let hi : At rest (pos + 1 + 1) (n / 256 % 256 ∷ conditions_bytes conds) = At-next lo in
    let from : At rest (pos + 1 + 2) (conditions_bytes conds) =
      At-skip (n % 256 ∷ n / 256 % 256 ∷ []) {s = conditions_bytes conds} lo (omega arith) in
    let count : from_le_bytes (n % 256 ∷ n / 256 % 256 ∷ []) ≡ n =
      from_le_bytes-le_bytes 2 n (omega arith) in
    rw (
      le→ltb_false (length rest) (pos + 1 + 2) (omega (arith, from.size)),
      byte_at-At lo,
      byte_at-At hi,
      count,
      decode_conditions-conditions_bytes conds rest (pos + 1 + 2) [] v f from,
    )

decode_create-create_bytes :
    (name : Str) (fields : TierFields) (len : ℕ)
    → IsValidRequest (create name fields)
    → Fits (create name fields)
    → length (request_bytes (create name fields)) ≤ 4096
    → decode_create len (string_bytes name ++ fields_bytes fields)
      ≡ ok (to_request (create name fields))
unfolding decode_create
decode_create-create_bytes name fields len v f size =
    let rest : List ℕ = string_bytes name ++ fields_bytes fields in
    let whole : length rest ≡ 2 + length name + length (fields_bytes fields) =
      omega (
        arith,
        length-append (string_bytes name) (fields_bytes fields),
        length-string_bytes name,
      ) in
    let at_tier : At rest (2 + length name) (fields_bytes fields) =
      At-skip (string_bytes name) {s = fields_bytes fields} (At-start rest)
        (omega (arith, length-string_bytes name)) in
    rw (
      decode_string-string_bytes name (fields_bytes fields) v.0 f.0,
      lt→leb_false (length rest) (2 + length name) (omega arith),
      byte_at-At at_tier,
      decode_tier-fields_bytes fields name len rest (2 + length name) v.1 f.1 (omega arith) at_tier,
    )

decode_header_lem : (tag : ℕ) (rest : List ℕ) → decode_header (1 ∷ tag ∷ rest) ≡ ok (tag, rest)
unfolding decode_header
decode_header_lem tag rest = ground arith

decode_request-request_bytes :
    (m : WireRequest)
    → IsValidRequest m
    → Fits m
    → length (request_bytes m) ≤ 4096
    → decode_request (request_bytes m) ≡ ok (to_request m)
unfolding decode_request
decode_request-request_bytes (create name fields) v f size =
    rw decode_header_lem (decode_create-create_bytes name fields _ v f size)
decode_request-request_bytes (attach name) v f size =
    let named : decode_string (string_bytes name) ≡ ok name =
      rw append-nil at (decode_string-string_bytes name [] v f) in
    rw (decode_header_lem, named)

-- For a request with the fields of its tier, UTF-8 names and numbers in range that encodes, the
-- length prefix is the length of the payload, which is at most 4096, and the payload decodes to
-- the request.
pub decode_request-encode_request :
    (m : WireRequest) {f : List ℕ}
    → IsValidRequest m
    → encode_request (to_request m) ≡ ok f
    → (from_le_bytes (take 4 f) ≡ length (drop 4 f))
      × (length (drop 4 f) ≤ 4096)
      × (decode_request (drop 4 f) ≡ ok (to_request m))
unfolding le_bytes
decode_request-encode_request m v e =
    let (q, size, fits) = encode_request-request_bytes m v e in
    rw q (
      from_le_bytes-le_bytes 4 (length (request_bytes m)) (omega arith),
      size,
      decode_request-request_bytes m v fits size,
    )

abbrev pub IsValidResponse : Response → Type 0
IsValidResponse (created id) = IsU64 id
IsValidResponse (attached id) = IsU64 id
IsValidResponse (error code message) = is_utf8 message ≡ true

decode_id_lem :
    (len id : ℕ) (of_id : ℕ → Response)
    → IsU64 id
    → decode_id len (le_bytes 8 id) of_id ≡ ok (of_id id)
unfolding decode_id
decode_id_lem len id of_id h =
    let from : At (le_bytes 8 id) 0 (le_bytes 8 id ++ []) =
      rw append-nil (At-start (le_bytes 8 id)) in
    rw (
      le→ltb_false (length (le_bytes 8 id)) 8 (omega (arith, length-le_bytes 8 id)),
      read_u64-At id [] h from,
    )

decode_error_lem :
    (len code : ℕ) (message : Str)
    → is_utf8 message ≡ true
    → length message ≤ 65535
    → decode_error len (code ∷ string_bytes message) ≡ ok (error code message)
unfolding decode_error
decode_error_lem len code message u h =
    let named : decode_string (string_bytes message) ≡ ok message =
      rw append-nil at (decode_string-string_bytes message [] u h) in
    let rest : List ℕ = code ∷ string_bytes message in
    let from : At rest 1 (string_bytes message) = At-next (At-start rest) in
    rw (
      lt→leb_false (length rest) 0 (omega arith),
      lt→ltb 1 (length rest) (omega (arith, length-string_bytes message)),
      slice_from-At from,
      named,
    )

decode_response-response_bytes :
    (resp : Response)
    → IsValidResponse resp
    → FitsResponse resp
    → decode_response (response_bytes resp) ≡ ok resp
unfolding decode_response
decode_response-response_bytes (created id) v f =
    rw decode_header_lem (decode_id_lem _ id created v)
decode_response-response_bytes (attached id) v f =
    rw decode_header_lem (decode_id_lem _ id attached v)
decode_response-response_bytes (error code message) v f =
    rw decode_header_lem (decode_error_lem _ code message v f)

-- For a response with an id in range or a UTF-8 message that encodes, the length prefix is the
-- length of the payload, which is at most 4096, and the payload decodes to the response.
pub decode_response-encode_response :
    (resp : Response) {f : List ℕ}
    → IsValidResponse resp
    → encode_response resp ≡ ok f
    → (from_le_bytes (take 4 f) ≡ length (drop 4 f))
      × (length (drop 4 f) ≤ 4096)
      × (decode_response (drop 4 f) ≡ ok resp)
unfolding le_bytes
decode_response-encode_response resp v e =
    let (q, size, fits) = encode_response-response_bytes resp e in
    rw q (
      from_le_bytes-le_bytes 4 (length (response_bytes resp)) (omega arith),
      size,
      decode_response-response_bytes resp v fits,
    )
