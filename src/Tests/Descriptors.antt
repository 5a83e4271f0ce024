-- ===== src/Tests/Descriptors.antt =====
-- A descriptor in a control message, and a stream that ends early.
use abacus_rts.Base.{ℕ, ◌+◌, ◌≡◌, refl, false, some, List, [], ◌∷◌, ◌++◌, ok, err, arith}
use abacus_rts.Base.U64.{le_bytes}
use abacus_rts.Wire.Message.{created, expected_fd_count}
use abacus_rts.Wire.Encode.{encode_response}
use abacus_rts.Transport.Stream.{chunk, interrupted, blocked}
use abacus_rts.Transport.Receive.{recv_request, recv_response}
use abacus_rts.Transport.Fragments.{HasRead}
use abacus_rts.Transport.Ancillary.{
  Libc, align, IsDocumented, Cmsg, control_message, received_control,
}
use abacus_rts.Transport.Descriptors.{recv_response-control_message}
use abacus_rts.Transport.EarlyEnd.{cut_short, recv_request-cut_short}

-- A libc with headers of 16 bytes.
abbrev libc : Libc
libc = record {
  sol_socket = 1;
  scm_rights = 1;
  einval = 22;
  cmsghdr_size = 16;
  cmsg_len = λ n. 16 + n;
  cmsg_space = λ n. align 16 + align n;
}

libc-IsDocumented : IsDocumented libc
libc-IsDocumented = record { grows = λ n. omega arith; small = omega arith }

abbrev nine : Cmsg
nine = record { level = 1; kind = 1; len = 20; body = 9 ∷ 0 ∷ 0 ∷ 0 ∷ [] }

-- The credentials that a sender may pass along.
abbrev credentials : Cmsg
credentials = record { level = 1; kind = 2; len = 28; body = [] }

nine_made : control_message libc (9 ∷ []) ≡ ok (nine, 24)
unfolding control_message align le_bytes
nine_made = refl

abbrev created_frame : List ℕ
created_frame = 10 ∷ 0 ∷ 0 ∷ 0 ∷ 1 ∷ 0x81 ∷ 7 ∷ 0 ∷ 0 ∷ 0 ∷ 0 ∷ 0 ∷ 0 ∷ 0 ∷ []

created_encodes : encode_response (created 7) ≡ ok created_frame
unfolding encode_response le_bytes
created_encodes = refl

recv_response-control_message_example :
    HasRead
      (recv_response
        (received_control libc ((credentials ∷ []) ++ nine ∷ []) false)
        (chunk created_frame ∷ []))
      (created 7, 9 ∷ [])
      []
unfolding expected_fd_count
recv_response-control_message_example =
    recv_response-control_message libc (9 ∷ []) (credentials ∷ []) [] (created 7)
      (chunk created_frame ∷ []) [] libc-IsDocumented (omega arith) (omega arith, tt) nine_made
      (refl, tt) tt refl (omega arith) created_encodes (omega arith, tt) tt refl

-- The frame announces three bytes, and two of them come.
recv_request-cut_short_example :
    recv_request (
      (interrupted ∷ chunk (3 ∷ 0 ∷ 0 ∷ 0 ∷ 1 ∷ []) ∷ blocked 11 ∷ chunk (2 ∷ []) ∷ [])
      ++ chunk [] ∷ [])
    ≡ some (err (cut_short 3 6), [])
unfolding le_bytes
recv_request-cut_short_example =
    recv_request-cut_short (1 ∷ 2 ∷ 3 ∷ []) (3 ∷ [])
      (interrupted ∷ chunk (3 ∷ 0 ∷ 0 ∷ 0 ∷ 1 ∷ []) ∷ blocked 11 ∷ chunk (2 ∷ []) ∷ []) []
      (omega arith) (tt, (omega arith, (tt, (omega arith, tt)))) tt refl (omega arith)
