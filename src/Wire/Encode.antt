-- ===== src/Wire/Encode.antt =====
-- `encode_request` and `encode_response`.
use abacus_rts.Base.{
  ℕ, Option, none, some, List, [], ◌∷◌, ◌++◌, length, ltb, ◌==◌, if◌then◌else◌, Result, ok, ◌>>=◌,
  ◌>>◌, fail_if, ok_or,
}
use abacus_rts.Base.U64.{le_bytes}
use abacus_rts.Base.Text.{Str}
use abacus_rts.Core.Error.{ProtocolFault, truncated, frame_too_large}
use abacus_rts.Wire.Message.{
  CreateInterlock, Request, create_interlock, attach_interlock, Response, created, attached, error,
  WireCondition, tag_attach_interlock, tag_attached, tag_create_interlock, tag_created, tag_error,
  max_message_size, protocol_version,
}

abbrev pub u16_max : ℕ
u16_max = 65535

-- The buffer with the string behind it, its length in two bytes first.
unfoldable pub encode_string_into : List ℕ → Str → Result ProtocolFault (List ℕ)
encode_string_into buf s = do
  fail_if (ltb u16_max (length s)) (frame_too_large (length s) u16_max)
  ok (buf ++ le_bytes 2 (length s) ++ s)

-- The loop over the conditions of a barrier.
unfoldable pub encode_conditions : List ℕ → List WireCondition → Result ProtocolFault (List ℕ)
unfolding encode_string_into
encode_conditions payload [] = ok payload
encode_conditions payload ((wn, ww, threshold) ∷ conds) = do
  named ← encode_string_into payload wn
  encode_conditions ((named ++ ww ∷ []) ++ le_bytes 8 threshold) conds

-- `if let Some(ref wn) = watched_name { encode_string_into(…)? }`.
unfoldable pub encode_watched_name : List ℕ → Option Str → Result ProtocolFault (List ℕ)
unfolding encode_string_into
encode_watched_name payload none = ok payload
encode_watched_name payload (some wn) = encode_string_into payload wn

unfoldable pub encode_interval : List ℕ → Option ℕ → Result ProtocolFault (List ℕ)
encode_interval payload none = ok payload
encode_interval payload (some ival) = ok (payload ++ le_bytes 8 ival)

unfoldable pub encode_barrier : List ℕ → Option (List WireCondition) → Result ProtocolFault (List ℕ)
unfolding encode_conditions
encode_barrier payload none = ok payload
encode_barrier payload (some conds) = encode_conditions (payload ++ le_bytes 2 (length conds)) conds

-- The fields that depend on the tier.
unfoldable pub encode_tier : List ℕ → CreateInterlock → Result ProtocolFault (List ℕ)
unfolding encode_watched_name encode_interval encode_barrier
encode_tier payload r =
    if r.tier == 1
    then (do
      ww ← ok_or r.watched_word (truncated 1 0)
      named ← encode_watched_name payload r.watched_name
      ok (named ++ ww ∷ []))
    else if r.tier == 3
    then encode_interval payload r.interval_ns
    else if r.tier == 4
    then encode_barrier payload r.conditions
    else ok payload

-- The payload of a request, before its length is checked.
unfoldable pub encode_request_payload : Request → Result ProtocolFault (List ℕ)
unfolding encode_string_into encode_tier
encode_request_payload (create_interlock r) = do
  named ← encode_string_into (protocol_version ∷ tag_create_interlock ∷ []) r.name
  encode_tier (named ++ r.tier ∷ []) r
encode_request_payload (attach_interlock name) =
    encode_string_into (protocol_version ∷ tag_attach_interlock ∷ []) name

-- The length prefix and the payload.
unfoldable pub frame : List ℕ → Result ProtocolFault (List ℕ)
frame payload = do
  fail_if (ltb max_message_size (length payload))
      (frame_too_large (length payload) max_message_size)
  ok (le_bytes 4 (length payload) ++ payload)

unfoldable pub encode_request : Request → Result ProtocolFault (List ℕ)
unfolding encode_request_payload frame
encode_request req = do payload ← encode_request_payload req; frame payload

unfoldable pub encode_response_payload : Response → Result ProtocolFault (List ℕ)
unfolding encode_string_into
encode_response_payload (created id) = ok (protocol_version ∷ tag_created ∷ le_bytes 8 id)
encode_response_payload (attached id) = ok (protocol_version ∷ tag_attached ∷ le_bytes 8 id)
encode_response_payload (error code message) =
    encode_string_into (protocol_version ∷ tag_error ∷ code ∷ []) message

unfoldable pub encode_response : Response → Result ProtocolFault (List ℕ)
unfolding encode_response_payload frame
encode_response resp = do payload ← encode_response_payload resp; frame payload
