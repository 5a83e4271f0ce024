-- ===== src/Transport/Delivery.antt =====
-- Frames that are written arrive, however the two kernels cut them into pieces.
use abacus_rts.Base.{
  ℕ, ◌≤◌, ◌≡◌, refl, ap, ◌∙◌, subst, inl, inr, true, false, some, List, [], ◌++◌, length, All,
  Result, ok, le→ltb_false, arith,
}
use mathlib.Core.List.{append_assoc}
use abacus_rts.Base.U64.{le_bytes, length-le_bytes, from_le_bytes-le_bytes}
use abacus_rts.Core.Error.{TransportError}
use abacus_rts.Wire.Message.{Request}
use abacus_rts.Wire.Encode.{encode_request}
use abacus_rts.Wire.Decode.{decode_request}
use abacus_rts.Wire.Layout.{
  WireRequest, to_request, IsValidRequest, request_bytes, encode_request-request_bytes,
}
use abacus_rts.Wire.RoundTrip.{decode_request-encode_request}
use abacus_rts.Transport.Stream.{ReadEvent, Received, then_receive}
use abacus_rts.Transport.Receive.{check_length, read_frame_prefix, read_frame_payload, recv_request}
use abacus_rts.Transport.Fragments.{pending, IsOpen, IsReady, HasRead, read_exact_retrying-HasRead}

-- A receiving that goes on with what the first one leaves.
pub HasRead-then_receive :
    {A B : Type 0} {result : Received A} {value : A} {between : List ℕ} {value' : B} {more : List ℕ}
    (next : A → List ReadEvent → Received B)
    → HasRead result value between
    → ((es : List ReadEvent)
        → pending es ≡ between
        → All IsOpen es
        → HasRead (next value es) value' more)
    → HasRead (then_receive result next) value' more
HasRead-then_receive next h k =
    let then = k h.rest h.leaves h.stays in
    record {
      rest = then.rest;
      returns = rw h.returns then.returns;
      leaves = then.leaves;
      stays = then.stays;
    }

pub HasRead-some :
    {A : Type 0} {r : Result TransportError A} {value : A} (es : List ReadEvent)
    → r ≡ ok value
    → All IsOpen es
    → HasRead (some (r, es)) value (pending es)
HasRead-some es q o = record { rest = es; returns = rw q; leaves = refl; stays = o }

pub check_length_lem : (n : ℕ) → n ≤ 4096 → check_length n ≡ ok n
unfolding check_length
check_length_lem n h = rw (le→ltb_false 4096 n h)

pub read_frame_prefix-HasRead :
    (n : ℕ) (es : List ReadEvent) (more : List ℕ)
    → n ≤ 4096
    → All IsOpen es
    → IsReady es
    → pending es ≡ le_bytes 4 n ++ more
    → HasRead (read_frame_prefix es) n more
unfolding read_frame_prefix
read_frame_prefix-HasRead n es more small o ready q =
    HasRead-then_receive _
      (read_exact_retrying-HasRead 4 true es [] (le_bytes 4 n) more o (inr ready)
        (omega (arith, length-le_bytes 4 n)) q)
      λ es' left o'. subst (HasRead _ n) left (
        HasRead-some es' (rw (from_le_bytes-le_bytes 4 n (omega arith)) (check_length_lem n small))
          o')

pub read_frame_payload-HasRead :
    (payload : List ℕ) (es : List ReadEvent) (more : List ℕ)
    → All IsOpen es
    → pending es ≡ payload ++ more
    → HasRead (read_frame_payload (length payload) es) payload more
unfolding read_frame_payload
read_frame_payload-HasRead payload es more o q =
    read_exact_retrying-HasRead (length payload) false es [] payload more o (inl refl) (omega arith)
      q

recv_request-HasRead :
    (payload : List ℕ) (r : Request) (es : List ReadEvent) (more : List ℕ)
    → decode_request payload ≡ ok r
    → length payload ≤ 4096
    → All IsOpen es
    → IsReady es
    → pending es ≡ (le_bytes 4 (length payload) ++ payload) ++ more
    → HasRead (recv_request es) r more
unfolding recv_request
recv_request-HasRead payload r es more decoded small o ready q =
    HasRead-then_receive _
      (read_frame_prefix-HasRead (length payload) es (payload ++ more) small o ready
        (q ∙ append_assoc (le_bytes 4 (length payload)) payload more))
      λ es' left o'.
        HasRead-then_receive _ (read_frame_payload-HasRead payload es' more o' left)
          λ es'' left' o''. subst (HasRead _ r) left' (HasRead-some es'' (rw decoded) o'')

decode_request-request_bytes_sent :
    (m : WireRequest) {f : List ℕ}
    → IsValidRequest m
    → encode_request (to_request m) ≡ ok f
    → f ≡ le_bytes 4 (length (request_bytes m)) ++ request_bytes m
    → decode_request (request_bytes m) ≡ ok (to_request m)
unfolding le_bytes
decode_request-request_bytes_sent m v e shape = rw shape at (decode_request-encode_request m v e).2

-- A valid request whose frame arrives on a stream that stays open, with bytes ready, is received
-- as it was sent, and exactly the bytes behind the frame are left, wherever the kernel cuts the
-- stream and whichever calls it interrupts, or lets block once the frame has begun.
pub recv_request-encode_request :
    (m : WireRequest) {f : List ℕ} (es : List ReadEvent) (more : List ℕ)
    → IsValidRequest m
    → encode_request (to_request m) ≡ ok f
    → All IsOpen es
    → IsReady es
    → pending es ≡ f ++ more
    → HasRead (recv_request es) (to_request m) more
recv_request-encode_request m es more v e o ready q =
    let (shape, small, _) = encode_request-request_bytes m v e in
    recv_request-HasRead (request_bytes m) (to_request m) es more
      (decode_request-request_bytes_sent m v e shape) small o ready (q ∙ ap (λ f. f ++ more) shape)
