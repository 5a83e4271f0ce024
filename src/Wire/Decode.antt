-- ===== src/Wire/Decode.antt =====
-- `decode_request` and `decode_response`. An index or a slice out of range is a panic.
use abacus_rts.Base.{
  ℕ, zero, suc, ◌+◌, ◌-◌, ◌&&◌, none, some, List, [], ◌∷◌, ◌++◌, length, take, drop, get_elem?, ltb,
  leb, ◌==◌, if◌then◌else◌, not, Result, ok, err, panic, ◌>>=◌, ◌>>◌, fail_if, unwrap,
}
use abacus_rts.Base.U64.{from_le_bytes}
use abacus_rts.Base.Text.{Str, is_utf8}
use abacus_rts.Core.Error.{ProtocolFault, truncated, unsupported_version, unknown_tag, invalid_utf8}
use abacus_rts.Wire.Message.{
  CreateInterlock, Request, create_interlock, attach_interlock, Response, created, attached, error,
  WireCondition, tag_attach_interlock, tag_attached, tag_create_interlock, tag_created, tag_error,
  protocol_version,
}

-- `bytes[i]`, `&bytes[lo..]` and `&bytes[lo..hi]`.
unfoldable pub byte_at : List ℕ → ℕ → Result ProtocolFault ℕ
byte_at bytes i = unwrap (get_elem? bytes i)

unfoldable pub slice_from : List ℕ → ℕ → Result ProtocolFault (List ℕ)
slice_from bytes lo = if leb lo (length bytes) then ok (drop lo bytes) else panic

unfoldable pub slice : List ℕ → ℕ → ℕ → Result ProtocolFault (List ℕ)
slice bytes lo hi =
    if leb lo hi && leb hi (length bytes) then ok (take (hi - lo) (drop lo bytes)) else panic

unfoldable pub decode_string : List ℕ → Result ProtocolFault Str
unfolding byte_at slice
decode_string data' = do
  fail_if (ltb (length data') 2) (truncated 2 (length data'))
  lo ← byte_at data' 0
  hi ← byte_at data' 1
  let len = from_le_bytes (lo ∷ hi ∷ [])
  fail_if (ltb (length data') (2 + len)) (truncated (2 + len) (length data'))
  bytes ← slice data' 2 (2 + len)
  fail_if (not (is_utf8 bytes)) invalid_utf8
  ok bytes

-- `u64::from_le_bytes(rest[pos..pos + 8])`.
unfoldable pub read_u64 : List ℕ → ℕ → Result ProtocolFault ℕ
unfolding slice
read_u64 rest pos = do bytes ← slice rest pos (pos + 8); ok (from_le_bytes bytes)

-- The loop `for _ in 0..count`.
unfoldable pub decode_conditions :
    ℕ → List ℕ → ℕ → List WireCondition → Result ProtocolFault (List WireCondition)
unfolding decode_string byte_at slice_from read_u64
decode_conditions zero rest pos conds = ok conds
decode_conditions (suc count) rest pos conds = do
  from ← slice_from rest pos
  wn ← decode_string from
  let word_pos = pos + (2 + length wn)
  fail_if (leb (length rest) word_pos) (truncated (word_pos + 1) (length rest))
  ww ← byte_at rest word_pos
  let value_pos = word_pos + 1
  fail_if (ltb (length rest) (value_pos + 8)) (truncated (value_pos + 8) (length rest))
  threshold ← read_u64 rest value_pos
  decode_conditions count rest (value_pos + 8) (conds ++ (wn, ww, threshold) ∷ [])

-- The fields that depend on the tier; `pos` is behind the tier, and `len` is `data.len()`.
unfoldable pub decode_tier : ℕ → List ℕ → ℕ → Str → ℕ → Result ProtocolFault CreateInterlock
unfolding decode_string byte_at slice_from read_u64 decode_conditions
decode_tier len rest pos name tier =
    let plain : CreateInterlock = record {
      name = name;
      tier = tier;
      watched_name = none;
      watched_word = none;
      interval_ns = none;
      conditions = none;
    } in
    if tier == 1
    then (do
      from ← slice_from rest pos
      wn ← decode_string from
      let word_pos = pos + (2 + length wn)
      fail_if (leb (length rest) word_pos) (truncated (len + 1) len)
      ww ← byte_at rest word_pos
      ok (record plain { watched_name = some wn; watched_word = some ww }))
    else if tier == 3
    then (do
      fail_if (ltb (length rest) (pos + 8)) (truncated (pos + 8 + 2) (length rest))
      ival ← read_u64 rest pos
      ok (record plain { interval_ns = some ival }))
    else if tier == 4
    then (do
      fail_if (ltb (length rest) (pos + 2)) (truncated (pos + 2) (length rest))
      lo ← byte_at rest pos
      hi ← byte_at rest (pos + 1)
      conds ← decode_conditions (from_le_bytes (lo ∷ hi ∷ [])) rest (pos + 2) []
      ok (record plain { conditions = some conds }))
    else ok plain

unfoldable pub decode_create : ℕ → List ℕ → Result ProtocolFault Request
unfolding decode_string byte_at decode_tier
decode_create len rest = do
  name ← decode_string rest
  let pos = 2 + length name
  fail_if (leb (length rest) pos) (truncated (len + 1) len)
  tier ← byte_at rest pos
  r ← decode_tier len rest (pos + 1) name tier
  ok (create_interlock r)

unfoldable pub decode_attach : List ℕ → Result ProtocolFault Request
unfolding decode_string
decode_attach rest = do name ← decode_string rest; ok (attach_interlock name)

-- The version and the tag, and the bytes behind them.
unfoldable pub decode_header : List ℕ → Result ProtocolFault (ℕ × List ℕ)
unfolding byte_at slice_from
decode_header data' = do
  fail_if (ltb (length data') 2) (truncated 2 (length data'))
  version ← byte_at data' 0
  fail_if (not (version == protocol_version)) (unsupported_version version)
  tag ← byte_at data' 1
  rest ← slice_from data' 2
  ok (tag, rest)

unfoldable pub decode_request : List ℕ → Result ProtocolFault Request
unfolding decode_header decode_create decode_attach
decode_request data' = do
  (tag, rest) ← decode_header data'
  if tag == tag_create_interlock
      then decode_create (length data') rest
      else if tag == tag_attach_interlock
      then decode_attach rest
      else err (unknown_tag tag)

-- `Created` and `Attached` carry an id.
unfoldable pub decode_id : ℕ → List ℕ → (ℕ → Response) → Result ProtocolFault Response
unfolding read_u64
decode_id len rest of_id = do
  fail_if (ltb (length rest) 8) (truncated 10 len)
  id ← read_u64 rest 0
  ok (of_id id)

unfoldable pub decode_error : ℕ → List ℕ → Result ProtocolFault Response
unfolding decode_string byte_at slice_from
decode_error len rest = do
  fail_if (leb (length rest) 0) (truncated 3 len)
  code ← byte_at rest 0
  message ← if ltb 1 (length rest) then (do from ← slice_from rest 1; decode_string from) else ok []
  ok (error code message)

unfoldable pub decode_response : List ℕ → Result ProtocolFault Response
unfolding decode_header decode_id decode_error
decode_response data' = do
  (tag, rest) ← decode_header data'
  if tag == tag_created
      then decode_id (length data') rest created
      else if tag == tag_attached
      then decode_id (length data') rest attached
      else if tag == tag_error
      then decode_error (length data') rest
      else err (unknown_tag tag)
