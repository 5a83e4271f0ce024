-- ===== src/Client/Conn.antt =====
-- `ClientConn` of client.rs: the client's own framing on its socket. Its `read_exact` differs from
-- that of the daemon's transport.rs in a read that would block.
use abacus_rts.Base.{
  ℕ, ◌+◌, ◌-◌, ◌/◌, ◌%◌, ◌^◌, ◌&&◌, Bool, false, Option, Result, none, some, List, [], ◌∷◌, ◌++◌,
  length, take, drop, ltb, leb, ◌==◌, if◌then◌else◌, ok, err, map_err,
}
use abacus_rts.Base.U64.{from_le_bytes}
use abacus_rts.Core.Error.{
  truncated, read, write, connect, recv_msg, TransportError, protocol, io, connection_closed,
}
use abacus_rts.Wire.Message.{Response, length_prefix_bytes}
use abacus_rts.Wire.Decode.{decode_response}
use abacus_rts.Transport.Stream.{
  ReadEvent, chunk, interrupted, blocked, failed, Received, then_receive, end_of_stream, WriteEvent,
  accepted, write_interrupted, write_failed, Written, after_taking,
}
use abacus_rts.Transport.Receive.{Control, check_length, check_fds}
use abacus_rts.Transport.Ancillary.{Libc, Cmsg, raw_fd_bytes, read_fds}

abbrev pub max_fds : ℕ
max_fds = 1

-- The loop on the bytes that are left.
unfoldable pub send_frame : ℕ → List WriteEvent → List ℕ → Written
send_frame epipe [] left = if length left == 0 then some (ok tt, []) else none
send_frame epipe (accepted count ∷ es) left =
    let rest = send_frame epipe es (drop count left) in
    if length left == 0
    then some (ok tt, [])
    else if count == 0
    then some (err (io write epipe), [])
    else after_taking (take count left) rest
send_frame epipe (write_interrupted ∷ es) left =
    let rest = send_frame epipe es left in if length left == 0 then some (ok tt, []) else rest
send_frame epipe (write_failed errno ∷ es) left =
    if length left == 0 then some (ok tt, []) else some (err (io write errno), [])

-- A read that would block is an error of the read here.
unfoldable pub read_exact : ℕ → Bool → List ReadEvent → List ℕ → Received (List ℕ)
unfolding end_of_stream
read_exact total is_frame_start [] buf = if ltb (length buf) total then none else some (ok buf, [])
read_exact total is_frame_start (chunk bytes ∷ es) buf =
    let room = total - length buf in
    let rest = read_exact total is_frame_start es (buf ++ take room bytes) in
    if leb total (length buf)
    then some (ok buf, chunk bytes ∷ es)
    else if length bytes == 0
    then some (err (end_of_stream total is_frame_start (length buf)), es)
    else if ltb room (length bytes)
    then some (ok (buf ++ take room bytes), chunk (drop room bytes) ∷ es)
    else rest
read_exact total is_frame_start (interrupted ∷ es) buf =
    let rest = read_exact total is_frame_start es buf in
    if leb total (length buf) then some (ok buf, interrupted ∷ es) else rest
read_exact total is_frame_start (blocked errno ∷ es) buf =
    if leb total (length buf)
    then some (ok buf, blocked errno ∷ es)
    else some (err (io read errno), es)
read_exact total is_frame_start (failed errno ∷ es) buf =
    if leb total (length buf)
    then some (ok buf, failed errno ∷ es)
    else some (err (io read errno), es)

-- `recvmsg_retry` of the client, with a buffer of four bytes.
unfoldable pub receive_retry : List ReadEvent → Received (List ℕ)
receive_retry [] = none
receive_retry (interrupted ∷ es) = receive_retry es
receive_retry (blocked errno ∷ es) = some (err (io recv_msg errno), es)
receive_retry (failed errno ∷ es) = some (err (io recv_msg errno), es)
receive_retry (chunk bytes ∷ es) = some (
  ok (take length_prefix_bytes bytes),
  if ltb length_prefix_bytes (length bytes)
      then chunk (drop length_prefix_bytes bytes) ∷ es
      else es,
)

-- The client's copy of the walk over the control messages.
unfoldable pub extract_fds : Libc → List Cmsg → List ℕ
unfolding read_fds
extract_fds l [] = []
extract_fds l (c ∷ cs) =
    let data_len = (c.len + 2 ^ 64 - l.cmsg_len 0) % 2 ^ 64 in
    let fds = read_fds (data_len / raw_fd_bytes) c.body in
    let rest = extract_fds l cs in
    if c.level == l.sol_socket && c.kind == l.scm_rights then fds ++ rest else rest

-- `ClientConn::connect`.
unfoldable pub conn_connect : Option ℕ → Result TransportError (Unit {0})
conn_connect none = ok tt
conn_connect (some errno) = err (io connect errno)

unfoldable pub recvmsg_prefix : Control → List ReadEvent → Received (List ℕ × List ℕ)
unfolding receive_retry read_exact
recvmsg_prefix c es = then_receive (receive_retry es) λ received es'.
    if length received == 0
    then some (err connection_closed, es')
    else if c.ctrunc
    then some (err (protocol (truncated max_fds (length c.fds))), es')
    else if ltb (length received) length_prefix_bytes
    then then_receive (read_exact (length_prefix_bytes - length received) false es' [])
        (λ more es''. some (ok (received ++ more, c.fds), es''))
    else some (ok (received, c.fds), es')

-- `recv_response` of a client's connection.
unfoldable pub receive_response : Control → List ReadEvent → Received (Response × List ℕ)
unfolding recvmsg_prefix check_length read_exact decode_response check_fds
receive_response c es = then_receive (recvmsg_prefix c es) λ first es'.
    then_receive (some (check_length (from_le_bytes first.0), es')) λ len es''.
      then_receive (read_exact len false es'' []) λ payload es₃.
        then_receive (some (map_err protocol (decode_response payload), es₃))
          λ response es₄. some (check_fds first.1 response, es₄)
