-- ===== src/Wire/Layout.antt =====
-- The format of a payload, written down without the encoder, and what `encode_request` and
-- `encode_response` put behind the length prefix.
use mathlib.Core.List.{append_assoc, append-nil}
use abacus_rts.Base.{
  ℕ, ◌≤◌, ◌≡◌, sym, ◌≢◌, ◌∙◌, true, Option, none, some, List, [], ◌∷◌, ◌++◌, length, ok, >>=-eq-ok,
  ok-injective, arith, All,
}
use abacus_rts.Base.U64.{le_bytes, IsU64, IsByte}
use abacus_rts.Base.Text.{Str, is_utf8}
use abacus_rts.Wire.Message.{
  CreateInterlock, Request, create_interlock, attach_interlock, Response, created, attached, error,
  WireCondition,
}
use abacus_rts.Wire.Encode.{
  encode_string_into, encode_conditions, encode_tier, encode_request_payload, encode_request,
  encode_response_payload, encode_response, frame,
}
use abacus_rts.Wire.Cursor.{string_bytes}

-- What a create request carries for its tier. `plain` is a tier without fields of its own.
pub data TierFields : Type 0 where
  plain : (t : ℕ) → TierFields
  counter : (wn : Str) (ww : ℕ) → TierFields
  cron : (ival : ℕ) → TierFields
  barrier : (conds : List WireCondition) → TierFields

-- A request with exactly the fields that its tier uses.
pub data WireRequest : Type 0 where
  create : (name : Str) (fields : TierFields) → WireRequest
  attach : (name : Str) → WireRequest

abbrev pub tier : TierFields → ℕ
tier (plain t) = t
tier (counter wn ww) = 1
tier (cron ival) = 3
tier (barrier conds) = 4

abbrev pub watched_name : TierFields → Option Str
watched_name (counter wn ww) = some wn
watched_name _ = none

abbrev pub watched_word : TierFields → Option ℕ
watched_word (counter wn ww) = some ww
watched_word _ = none

abbrev pub interval_ns : TierFields → Option ℕ
interval_ns (cron ival) = some ival
interval_ns _ = none

abbrev pub conditions : TierFields → Option (List WireCondition)
conditions (barrier conds) = some conds
conditions _ = none

abbrev pub create_fields : Str → TierFields → CreateInterlock
create_fields name fields = record {
  name = name;
  tier = tier fields;
  watched_name = watched_name fields;
  watched_word = watched_word fields;
  interval_ns = interval_ns fields;
  conditions = conditions fields;
}

abbrev pub to_request : WireRequest → Request
to_request (create name fields) = create_interlock (create_fields name fields)
to_request (attach name) = attach_interlock name

-- The values fit their Rust types: names are UTF-8, numbers are u8 and u64.
abbrev pub IsValidCondition : WireCondition → Type 0
IsValidCondition (wn, ww, threshold) = (is_utf8 wn ≡ true) × IsByte ww × IsU64 threshold

abbrev pub IsValidFields : TierFields → Type 0
IsValidFields (plain t) = IsByte t × (t ≢ 1) × (t ≢ 3) × (t ≢ 4)
IsValidFields (counter wn ww) = (is_utf8 wn ≡ true) × IsByte ww
IsValidFields (cron ival) = IsU64 ival
IsValidFields (barrier conds) = All IsValidCondition conds

abbrev pub IsValidRequest : WireRequest → Type 0
IsValidRequest (create name fields) = (is_utf8 name ≡ true) × IsValidFields fields
IsValidRequest (attach name) = is_utf8 name ≡ true

unfoldable pub conditions_bytes : List WireCondition → List ℕ
conditions_bytes [] = []
conditions_bytes ((wn, ww, threshold) ∷ conds) =
    string_bytes wn ++ (ww ∷ (le_bytes 8 threshold ++ conditions_bytes conds))

abbrev pub fields_body : TierFields → List ℕ
fields_body (plain t) = []
fields_body (counter wn ww) = string_bytes wn ++ (ww ∷ [])
fields_body (cron ival) = le_bytes 8 ival
fields_body (barrier conds) = le_bytes 2 (length conds) ++ conditions_bytes conds

abbrev pub fields_bytes : TierFields → List ℕ
fields_bytes fields = tier fields ∷ fields_body fields

abbrev pub request_bytes : WireRequest → List ℕ
request_bytes (create name fields) = 1 ∷ 0x01 ∷ (string_bytes name ++ fields_bytes fields)
request_bytes (attach name) = 1 ∷ 0x02 ∷ string_bytes name

abbrev pub response_bytes : Response → List ℕ
response_bytes (created id) = 1 ∷ 0x81 ∷ le_bytes 8 id
response_bytes (attached id) = 1 ∷ 0x82 ∷ le_bytes 8 id
response_bytes (error code message) = 1 ∷ 0x88 ∷ code ∷ string_bytes message

-- The strings fit their two bytes of length.
abbrev pub FitsCondition : WireCondition → Type 0
FitsCondition (wn, ww, threshold) = length wn ≤ 65535

abbrev pub FitsFields : TierFields → Type 0
FitsFields (plain t) = Unit {0}
FitsFields (counter wn ww) = length wn ≤ 65535
FitsFields (cron ival) = Unit {0}
FitsFields (barrier conds) = All FitsCondition conds

abbrev pub Fits : WireRequest → Type 0
Fits (create name fields) = (length name ≤ 65535) × FitsFields fields
Fits (attach name) = length name ≤ 65535

pub encode_string_into-string_bytes :
    (buf s : List ℕ) {p : List ℕ}
    → encode_string_into buf s ≡ ok p
    → (p ≡ buf ++ string_bytes s) × (length s ≤ 65535)
unfolding encode_string_into
encode_string_into-string_bytes buf s e = ground (arith, append_assoc buf (le_bytes 2 (length s)) s)

encode_conditions-conditions_bytes :
    (conds : List WireCondition) (buf p : List ℕ)
    → encode_conditions buf conds ≡ ok p
    → (p ≡ buf ++ conditions_bytes conds) × All FitsCondition conds
unfolding encode_conditions conditions_bytes
encode_conditions-conditions_bytes [] buf p e = ground (arith, append-nil buf)
encode_conditions-conditions_bytes ((wn, ww, threshold) ∷ conds) buf p e =
    let (named, e1, e2) = >>=-eq-ok (encode_string_into buf wn) _ e in
    let (q, fits) = encode_string_into-string_bytes buf wn e1 in
    let (r, rest) =
      encode_conditions-conditions_bytes conds ((named ++ ww ∷ []) ++ le_bytes 8 threshold) p e2 in
    (r ∙ rw q (simp append_assoc), (fits, rest))

encode_tier-fields_bytes :
    (fields : TierFields) (name : Str) (buf p : List ℕ)
    → IsValidFields fields
    → encode_tier (buf ++ (create_fields name fields).tier ∷ []) (create_fields name fields) ≡ ok p
    → (p ≡ buf ++ fields_bytes fields) × FitsFields fields
unfolding encode_tier
encode_tier-fields_bytes (plain t) name buf p v e = ground arith
encode_tier-fields_bytes (counter wn ww) name buf p v e =
    let (named, e1, e2) = >>=-eq-ok (encode_string_into (buf ++ 1 ∷ []) wn) _ e in
    let (q, fits) = encode_string_into-string_bytes (buf ++ 1 ∷ []) wn e1 in
    (sym (ok-injective e2) ∙ rw q (simp append_assoc), fits)
encode_tier-fields_bytes (cron ival) name buf p v e = (sym (ok-injective e) ∙ simp append_assoc, tt)
encode_tier-fields_bytes (barrier conds) name buf p v e =
    let (q, fits) = encode_conditions-conditions_bytes conds _ p e in (q ∙ simp append_assoc, fits)

encode_request_payload-request_bytes :
    (m : WireRequest) {p : List ℕ}
    → IsValidRequest m
    → encode_request_payload (to_request m) ≡ ok p
    → (p ≡ request_bytes m) × Fits m
unfolding encode_request_payload
encode_request_payload-request_bytes (create name fields) {p} v e =
    let (named, e1, e2) = >>=-eq-ok (encode_string_into (1 ∷ 0x01 ∷ []) name) _ e in
    let (q, fits) = encode_string_into-string_bytes (1 ∷ 0x01 ∷ []) name e1 in
    let (r, rest) = encode_tier-fields_bytes fields name named p v.1 e2 in (r ∙ rw q, (fits, rest))
encode_request_payload-request_bytes (attach name) v e =
    encode_string_into-string_bytes (1 ∷ 0x02 ∷ []) name e

frame_lem :
    (payload : List ℕ) {f : List ℕ}
    → frame payload ≡ ok f
    → (f ≡ le_bytes 4 (length payload) ++ payload) × (length payload ≤ 4096)
unfolding frame
frame_lem payload e = ground arith

-- A frame that encode_request returns for a request with the fields of its tier, UTF-8 names and
-- numbers in range is the length prefix and the documented layout of the request, which is at most
-- 4096 bytes long and whose strings fit their length fields.
pub encode_request-request_bytes :
    (m : WireRequest) {f : List ℕ}
    → IsValidRequest m
    → encode_request (to_request m) ≡ ok f
    → (f ≡ le_bytes 4 (length (request_bytes m)) ++ request_bytes m)
      × (length (request_bytes m) ≤ 4096)
      × Fits m
unfolding encode_request
encode_request-request_bytes m v e =
    let (payload, e1, e2) = >>=-eq-ok (encode_request_payload (to_request m)) _ e in
    let (q, fits) = encode_request_payload-request_bytes m v e1 in
    let (r, size) = frame_lem payload e2 in (rw (← q) r, rw (← q) size, fits)

abbrev pub FitsResponse : Response → Type 0
FitsResponse (created id) = Unit {0}
FitsResponse (attached id) = Unit {0}
FitsResponse (error code message) = length message ≤ 65535

encode_response_payload-response_bytes :
    (resp : Response) {p : List ℕ}
    → encode_response_payload resp ≡ ok p
    → (p ≡ response_bytes resp) × FitsResponse resp
unfolding encode_response_payload
encode_response_payload-response_bytes (created id) e = ground arith
encode_response_payload-response_bytes (attached id) e = ground arith
encode_response_payload-response_bytes (error code message) e =
    encode_string_into-string_bytes (1 ∷ 0x88 ∷ code ∷ []) message e

-- A frame that encode_response returns is the length prefix and the documented layout of the
-- response, which is at most 4096 bytes long.
pub encode_response-response_bytes :
    (resp : Response) {f : List ℕ}
    → encode_response resp ≡ ok f
    → (f ≡ le_bytes 4 (length (response_bytes resp)) ++ response_bytes resp)
      × (length (response_bytes resp) ≤ 4096)
      × FitsResponse resp
unfolding encode_response
encode_response-response_bytes resp e =
    let (payload, e1, e2) = >>=-eq-ok (encode_response_payload resp) _ e in
    let (q, fits) = encode_response_payload-response_bytes resp e1 in
    let (r, size) = frame_lem payload e2 in (rw (← q) r, rw (← q) size, fits)
