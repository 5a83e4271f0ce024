-- ===== src/Tests/Wire.antt =====
-- Frames of concrete requests and responses.
use abacus_rts.Base.{ℕ, ◌≤◌, ◌≡◌, refl, List, [], ◌∷◌, length, take, drop, All, ok, Yields, arith}
use abacus_rts.Base.U64.{le_bytes, from_le_bytes, IsByte}
use abacus_rts.Base.Text.{str, is_utf8}
use abacus_rts.Wire.Message.{Response, error}
use abacus_rts.Wire.Encode.{encode_request, encode_response}
use abacus_rts.Wire.Decode.{decode_request, decode_response}
use abacus_rts.Wire.Layout.{WireRequest, create, counter, to_request, IsValidRequest}
use abacus_rts.Wire.RoundTrip.{
  IsValidResponse, decode_request-encode_request, decode_response-encode_response,
}
use abacus_rts.Wire.Safety.{IsDecoded, decode_request-Yields}

-- The interlock `b`, which waits for the closed word of `a`.
abbrev pub watch : WireRequest
watch = create (str "b") (counter (str "a") 1)

abbrev pub watch_frame : List ℕ
watch_frame = 10 ∷ 0 ∷ 0 ∷ 0 ∷ 1 ∷ 1 ∷ 1 ∷ 0 ∷ 98 ∷ 1 ∷ 1 ∷ 0 ∷ 97 ∷ 1 ∷ []

pub watch-IsValidRequest : IsValidRequest watch
unfolding is_utf8
watch-IsValidRequest = (refl, (refl, omega arith))

pub watch_encodes : encode_request (to_request watch) ≡ ok watch_frame
unfolding encode_request le_bytes
watch_encodes = refl

decode_request-encode_request_example :
    (from_le_bytes (take 4 watch_frame) ≡ length (drop 4 watch_frame))
    × (length (drop 4 watch_frame) ≤ 4096)
    × (decode_request (drop 4 watch_frame) ≡ ok (to_request watch))
decode_request-encode_request_example =
    decode_request-encode_request watch watch-IsValidRequest watch_encodes

abbrev pub refusal : Response
refusal = error 4 (str "no")

abbrev pub refusal_frame : List ℕ
refusal_frame = 7 ∷ 0 ∷ 0 ∷ 0 ∷ 1 ∷ 0x88 ∷ 4 ∷ 2 ∷ 0 ∷ 110 ∷ 111 ∷ []

pub refusal-IsValidResponse : IsValidResponse refusal
unfolding is_utf8
refusal-IsValidResponse = refl

pub refusal_encodes : encode_response refusal ≡ ok refusal_frame
unfolding encode_response le_bytes
refusal_encodes = refl

decode_response-encode_response_example :
    (from_le_bytes (take 4 refusal_frame) ≡ length (drop 4 refusal_frame))
    × (length (drop 4 refusal_frame) ≤ 4096)
    × (decode_response (drop 4 refusal_frame) ≡ ok refusal)
decode_response-encode_response_example =
    decode_response-encode_response refusal refusal-IsValidResponse refusal_encodes

-- A payload that says more than it holds.
abbrev cut_short : List ℕ
cut_short = 1 ∷ 1 ∷ 9 ∷ 0 ∷ 98 ∷ []

cut_short-All : All IsByte cut_short
cut_short-All = (omega arith, (omega arith, (omega arith, (omega arith, (omega arith, tt)))))

decode_request-Yields_example : Yields IsDecoded (decode_request cut_short)
decode_request-Yields_example = decode_request-Yields cut_short cut_short-All
