-- ===== src/Transport/Receive.antt =====
-- The receiving and the sending of whole messages.
use abacus_rts.Base.{
  ℕ, ◌-◌, Bool, true, false, none, some, List, [], ◌∷◌, ◌++◌, length, take, drop, ltb, ◌==◌,
  if◌then◌else◌, not, Result, ok, err, panic, map_err,
}
use abacus_rts.Base.U64.{from_le_bytes}
use abacus_rts.Core.Error.{
  truncated, frame_too_large, recv_msg, TransportError, protocol, io, connection_closed,
}
use abacus_rts.Wire.Message.{
  Request, Response, length_prefix_bytes, max_message_size, expected_fd_count,
}
use abacus_rts.Wire.Encode.{encode_response}
use abacus_rts.Wire.Decode.{decode_request, decode_response}
use abacus_rts.Transport.Stream.{
  ReadEvent, chunk, interrupted, blocked, failed, Received, then_receive, read_exact_retrying,
  WriteEvent, Written, write_all_retrying,
}

abbrev pub max_fds_per_message : ℕ
max_fds_per_message = 1

-- The length of a frame, once it is known to be in bounds.
unfoldable pub check_length : ℕ → Result TransportError ℕ
check_length len =
    if ltb max_message_size len
    then err (protocol (frame_too_large len max_message_size))
    else ok len

unfoldable pub read_frame_prefix : List ReadEvent → Received ℕ
unfolding read_exact_retrying check_length
read_frame_prefix es =
    then_receive (read_exact_retrying length_prefix_bytes true es [])
      λ prefix es'. some (check_length (from_le_bytes prefix), es')

unfoldable pub read_frame_payload : ℕ → List ReadEvent → Received (List ℕ)
unfolding read_exact_retrying
read_frame_payload len es = read_exact_retrying len false es []

unfoldable pub recv_request : List ReadEvent → Received Request
unfolding read_frame_prefix read_frame_payload decode_request
recv_request es = then_receive (read_frame_prefix es) λ len es'.
    then_receive (read_frame_payload len es')
      λ payload es''. some (map_err protocol (decode_request payload), es'')

-- What comes along with the first bytes: the descriptors, and whether the kernel has cut them off.
pub record Control : Type 0 where
  pub fds : List ℕ
  pub ctrunc : Bool

-- `recvmsg_retry` with a buffer of four bytes: the bytes, which are none at the end of the stream.
unfoldable pub recvmsg_retry : List ReadEvent → Received (List ℕ)
recvmsg_retry [] = none
recvmsg_retry (interrupted ∷ es) = recvmsg_retry es
recvmsg_retry (blocked errno ∷ es) = some (err (io recv_msg errno), es)
recvmsg_retry (failed errno ∷ es) = some (err (io recv_msg errno), es)
recvmsg_retry (chunk bytes ∷ es) = some (
  ok (take length_prefix_bytes bytes),
  if ltb length_prefix_bytes (length bytes)
      then chunk (drop length_prefix_bytes bytes) ∷ es
      else es,
)

-- The rest of the prefix is read where the first call has not brought all of it.
unfoldable pub recvmsg_prefix_with_fds : Control → List ReadEvent → Received (List ℕ × List ℕ)
unfolding recvmsg_retry read_exact_retrying
recvmsg_prefix_with_fds c es = then_receive (recvmsg_retry es) λ received es'.
    if length received == 0
    then some (err connection_closed, es')
    else if c.ctrunc
    then some (err (protocol (truncated max_fds_per_message (length c.fds))), es')
    else if ltb (length received) length_prefix_bytes
    then then_receive (read_exact_retrying (length_prefix_bytes - length received) false es' [])
        (λ more es''. some (ok (received ++ more, c.fds), es''))
    else some (ok (received, c.fds), es')

-- The message, with as many descriptors as it calls for.
unfoldable pub check_fds : List ℕ → Response → Result TransportError (Response × List ℕ)
unfolding expected_fd_count
check_fds fds response =
    if not (length fds == expected_fd_count response)
    then err (protocol (truncated (expected_fd_count response) (length fds)))
    else ok (response, fds)

unfoldable pub recv_response : Control → List ReadEvent → Received (Response × List ℕ)
unfolding recvmsg_prefix_with_fds check_length read_frame_payload decode_response check_fds
recv_response c es = then_receive (recvmsg_prefix_with_fds c es) λ first es'.
    then_receive (some (check_length (from_le_bytes first.0), es')) λ len es''.
      then_receive (read_frame_payload len es'') λ payload es₃.
        then_receive (some (map_err protocol (decode_response payload), es₃))
          λ response es₄. some (check_fds first.1 response, es₄)

unfoldable pub send_response : ℕ → List WriteEvent → Response → Written
unfolding encode_response write_all_retrying
send_response epipe es resp = elim (encode_response resp) [
  | ok frame ↦ write_all_retrying epipe es frame
  | err fault ↦ some (err (protocol fault), [])
  | panic ↦ some (panic, [])
]
