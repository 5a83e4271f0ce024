-- ===== src/Wire/Totality.antt =====
-- When a request is encoded: the encoder refuses only what does not fit.
use mathlib.Core.List.{append_assoc, append-nil}
use abacus_rts.Base.{ℕ, ◌≤◌, ◌≡◌, ap, List, [], ◌∷◌, ◌++◌, length, ok, ==_false, le→ltb_false, All}
use abacus_rts.Base.U64.{le_bytes}
use abacus_rts.Base.Text.{Str}
use abacus_rts.Wire.Message.{WireCondition}
use abacus_rts.Wire.Encode.{
  encode_string_into, encode_conditions, encode_tier, encode_watched_name, encode_interval,
  encode_barrier, encode_request_payload, encode_request,
}
use abacus_rts.Wire.Cursor.{string_bytes}
use abacus_rts.Wire.Layout.{
  TierFields, plain, counter, cron, barrier, WireRequest, create, attach, create_fields, to_request,
  IsValidFields, IsValidRequest, conditions_bytes, fields_bytes, request_bytes, FitsCondition,
  FitsFields, Fits, tier,
}

encode_string_into_fits :
    (buf s : List ℕ) → length s ≤ 65535 → encode_string_into buf s ≡ ok (buf ++ string_bytes s)
unfolding encode_string_into
encode_string_into_fits buf s h =
    rw (le→ltb_false 65535 (length s) h) (ap ok (append_assoc buf (le_bytes 2 (length s)) s))

encode_conditions_fit :
    (conds : List WireCondition) (buf : List ℕ)
    → All FitsCondition conds
    → encode_conditions buf conds ≡ ok (buf ++ conditions_bytes conds)
unfolding encode_conditions conditions_bytes
encode_conditions_fit [] buf h = rw append-nil
encode_conditions_fit ((wn, ww, threshold) ∷ conds) buf h = rw (
  encode_string_into_fits buf wn h.0,
  encode_conditions_fit conds _ h.1,
  append_assoc,
  append_assoc,
  append_assoc,
)

encode_tier_fits :
    (name : Str) (fields : TierFields) (buf : List ℕ)
    → IsValidFields fields
    → FitsFields fields
    → encode_tier (buf ++ tier fields ∷ []) (create_fields name fields)
      ≡ ok (buf ++ fields_bytes fields)
unfolding encode_tier encode_watched_name encode_interval encode_barrier
encode_tier_fits name (plain t) buf v h = rw (==_false t 1 v.1, ==_false t 3 v.2, ==_false t 4 v.3)
encode_tier_fits name (counter wn ww) buf v h =
    rw (encode_string_into_fits (buf ++ 1 ∷ []) wn h, append_assoc, append_assoc)
encode_tier_fits name (cron ival) buf v h = rw append_assoc
encode_tier_fits name (barrier conds) buf v h =
    rw (encode_conditions_fit conds _ h, append_assoc, append_assoc)

encode_request_payload-Fits :
    (m : WireRequest)
    → IsValidRequest m
    → Fits m
    → encode_request_payload (to_request m) ≡ ok (request_bytes m)
unfolding encode_request_payload
encode_request_payload-Fits (create name fields) v h =
    rw (encode_string_into_fits (1 ∷ 1 ∷ []) name h.0)
      (encode_tier_fits name fields (1 ∷ 1 ∷ string_bytes name) v.1 h.1)
encode_request_payload-Fits (attach name) v h = encode_string_into_fits (1 ∷ 2 ∷ []) name h

-- A request with the fields of its tier, UTF-8 names and numbers in range, whose strings fit their
-- length fields and whose layout has at most 4096 bytes, is encoded, as the length prefix and that
-- layout.
pub encode_request-Fits :
    (m : WireRequest)
    → IsValidRequest m
    → Fits m
    → length (request_bytes m) ≤ 4096
    → encode_request (to_request m) ≡ ok (le_bytes 4 (length (request_bytes m)) ++ request_bytes m)
unfolding encode_request
encode_request-Fits m v h small =
    rw (encode_request_payload-Fits m v h, le→ltb_false 4096 (length (request_bytes m)) small)
