-- ===== src/Transport/Replies.antt =====
-- Responses arrive with their descriptors.
use abacus_rts.Base.{
  ℕ, ◌+◌, ◌-◌, ◌≤◌, ◌≡◌, refl, sym, ap, ◌∙◌, subst, inl, inr, false, some, List, [], ◌∷◌, ◌++◌,
  length, length-append, take, drop, take-append, drop-append, ltb, ltb→lt, All, ok, map_err,
  Bool-cases, ==_false, ==_refl, arith,
}
use mathlib.Core.List.{append_assoc, append-nil}
use abacus_rts.Base.U64.{le_bytes, from_le_bytes, length-le_bytes, from_le_bytes-le_bytes}
use abacus_rts.Core.Error.{protocol}
use abacus_rts.Wire.Message.{Response, expected_fd_count}
use abacus_rts.Wire.Encode.{encode_response}
use abacus_rts.Wire.Decode.{decode_response}
use abacus_rts.Wire.Layout.{response_bytes, encode_response-response_bytes}
use abacus_rts.Wire.RoundTrip.{IsValidResponse, decode_response-encode_response}
use abacus_rts.Transport.Stream.{ReadEvent, chunk, interrupted, blocked, failed}
use abacus_rts.Transport.Receive.{
  Control, check_length, recvmsg_prefix_with_fds, check_fds, recv_response,
}
use abacus_rts.Transport.Fragments.{
  pending, IsOpen, IsReady, HasRead, read_exact_retrying-HasRead, append-split, take_all,
}
use abacus_rts.Transport.Delivery.{
  HasRead-then_receive, HasRead-some, check_length_lem, read_frame_payload-HasRead,
}

nil_of-length : (xs : List ℕ) → length xs ≡ 0 → xs ≡ []
nil_of-length [] h = refl
nil_of-length (x ∷ xs) h = absurd (omega arith)

cut-nil : (xs ys : List ℕ) {zs : List ℕ} → ys ≡ [] → zs ≡ xs ++ ys → zs ≡ xs
cut-nil xs ys e q = q ∙ rw (e, append-nil)

tail-nil : (ys : List ℕ) {zs more : List ℕ} → ys ≡ [] → zs ≡ ys ++ more → zs ≡ more
tail-nil ys e q = q ∙ rw e

-- A whole prefix is in the first chunk, with more behind it.
take-prefix : (prefix b left : List ℕ) → length prefix ≡ 4 → b ≡ prefix ++ left → take 4 b ≡ prefix
take-prefix prefix b left size cut =
    subst (λ n. take n b ≡ prefix) size (rw cut (take-append prefix left))

drop-prefix : (prefix b left : List ℕ) → length prefix ≡ 4 → b ≡ prefix ++ left → drop 4 b ≡ left
drop-prefix prefix b left size cut =
    subst (λ n. drop n b ≡ left) size (rw cut (drop-append prefix left))

module _ (c : Control) (whole : c.ctrunc ≡ false) where
  recvmsg_prefix_with_fds-HasRead :
      (prefix : List ℕ) (es : List ReadEvent) (more : List ℕ)
      → length prefix ≡ 4
      → All IsOpen es
      → IsReady es
      → pending es ≡ prefix ++ more
      → HasRead (recvmsg_prefix_with_fds c es) (prefix, c.fds) more
  unfolding recvmsg_prefix_with_fds
  recvmsg_prefix_with_fds-HasRead prefix [] more size o ready q = absurd ready
  recvmsg_prefix_with_fds-HasRead prefix (interrupted ∷ es) more size o ready q =
      recvmsg_prefix_with_fds-HasRead prefix es more size o.1 ready q
  recvmsg_prefix_with_fds-HasRead prefix (blocked e ∷ es) more size o ready q = absurd ready
  recvmsg_prefix_with_fds-HasRead prefix (failed e ∷ es) more size o ready q = absurd o.0
  recvmsg_prefix_with_fds-HasRead prefix (chunk b ∷ es) more size o ready q =
      elim (Bool-cases (ltb 4 (length b))) [
        | inl long ↦
            let (left, cut, tail) =
              append-split prefix more b (pending es) (sym q) (ground arith) in
            let sizes : length b ≡ length prefix + length left =
              ap length cut ∙ length-append prefix left in
            rw
              (
                long,
                take-prefix prefix b left size cut,
                drop-prefix prefix b left size cut,
                size,
                whole,
              )
              (record {
                rest = chunk left ∷ es;
                returns = refl;
                leaves = sym tail;
                stays = (omega (arith, sizes, size, ltb→lt _ _ long), o.1);
              })
        | inr short ↦
            let (want, cut, tail) = append-split b (pending es) prefix more q (ground arith) in
            let sizes : length prefix ≡ length b + length want =
              ap length cut ∙ length-append b want in
            rw
              (
                short,
                take_all 4 b (ground arith),
                ==_false (length b) 0 (omega (arith, o.0)),
                whole,
              )
              (elim (Bool-cases (ltb (length b) 4)) [
                | inl partial ↦ rw partial (
                    HasRead-then_receive _
                      (read_exact_retrying-HasRead (4 - length b) false es [] want more o.1
                        (inl refl) (omega (arith, sizes, size)) tail)
                      λ es' left o'.
                        subst (HasRead _ (prefix, c.fds)) left (HasRead-some es' (rw cut) o'))
                | inr complete ↦
                    let none_left : want ≡ [] = nil_of-length want (ground arith) in
                    rw complete (record {
                      rest = es;
                      returns =
                          ap (λ x. some (ok (x, c.fds), es)) (sym (cut-nil b want none_left cut));
                      leaves = tail-nil want none_left tail;
                      stays = o.1;
                    })
              ])
      ]

decode_response-response_bytes_sent :
    (resp : Response) {f : List ℕ}
    → IsValidResponse resp
    → encode_response resp ≡ ok f
    → f ≡ le_bytes 4 (length (response_bytes resp)) ++ response_bytes resp
    → decode_response (response_bytes resp) ≡ ok resp
unfolding le_bytes
decode_response-response_bytes_sent resp v e shape =
    rw shape at (decode_response-encode_response resp v e).2

recv_response-HasRead :
    (c : Control) (payload : List ℕ) (resp : Response) (es : List ReadEvent) (more : List ℕ)
    → c.ctrunc ≡ false
    → length c.fds ≡ expected_fd_count resp
    → decode_response payload ≡ ok resp
    → length payload ≤ 4096
    → All IsOpen es
    → IsReady es
    → pending es ≡ (le_bytes 4 (length payload) ++ payload) ++ more
    → HasRead (recv_response c es) (resp, c.fds) more
unfolding recv_response check_fds
recv_response-HasRead c payload resp es more whole count decoded small o ready q =
    let checked : check_length (from_le_bytes (le_bytes 4 (length payload))) ≡ ok (length payload) =
      rw (from_le_bytes-le_bytes 4 (length payload) (omega arith))
        (check_length_lem (length payload) small) in
    let understood : map_err protocol (decode_response payload) ≡ ok resp = rw decoded in
    let counted : check_fds c.fds resp ≡ ok (resp, c.fds) =
      rw (count, ==_refl (expected_fd_count resp)) in
    HasRead-then_receive _
      (recvmsg_prefix_with_fds-HasRead c whole (le_bytes 4 (length payload)) es (payload ++ more)
        (length-le_bytes 4 (length payload)) o ready
        (q ∙ append_assoc (le_bytes 4 (length payload)) payload more))
      λ es₁ left₁ o₁. HasRead-then_receive _ (HasRead-some es₁ checked o₁) λ es₂ left₂ o₂.
        HasRead-then_receive _ (read_frame_payload-HasRead payload es₂ more o₂ (left₂ ∙ left₁))
          λ es₃ left₃ o₃. HasRead-then_receive _ (HasRead-some es₃ understood o₃) λ es₄ left₄ o₄.
            subst (HasRead _ (resp, c.fds)) (left₄ ∙ left₃) (HasRead-some es₄ counted o₄)

-- A valid response whose frame arrives on a stream that stays open, with bytes ready, with as many
-- descriptors as it calls for and its control data whole, is received as it was sent together with
-- them, and exactly the bytes behind the frame are left.
pub recv_response-encode_response :
    (c : Control) (resp : Response) {f : List ℕ} (es : List ReadEvent) (more : List ℕ)
    → c.ctrunc ≡ false
    → length c.fds ≡ expected_fd_count resp
    → IsValidResponse resp
    → encode_response resp ≡ ok f
    → All IsOpen es
    → IsReady es
    → pending es ≡ f ++ more
    → HasRead (recv_response c es) (resp, c.fds) more
recv_response-encode_response c resp es more whole count v e o ready q =
    let (shape, small, _) = encode_response-response_bytes resp e in
    recv_response-HasRead c (response_bytes resp) resp es more whole count
      (decode_response-response_bytes_sent resp v e shape) small o ready
      (q ∙ ap (λ f. f ++ more) shape)
