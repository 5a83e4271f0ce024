-- ===== src/Transport/Ancillary.antt =====
-- The control messages that carry descriptors: the buffer that `sendmsg_with_fds` fills, and
-- `extract_fds_from_cmsg`. The macros of cmsg(3), the constants and the size of `cmsghdr` are libc's,
-- and parameters; what the macros are documented to do is `IsDocumented`.
use abacus_rts.Base.{
  Option, none, some, panic, ℕ, zero, suc, ◌+◌, ◌-◌, ◌*◌, ◌/◌, ◌%◌, ◌^◌, ◌<◌, ◌≡◌, Bool, ◌&&◌, List,
  [], ◌∷◌, ◌++◌, length, take, drop, ltb, ◌==◌, if◌then◌else◌, Result, ok, err,
}
use abacus_rts.Base.U64.{le_bytes, from_le_bytes}
use abacus_rts.Core.Error.{frame_too_large, send_msg, TransportError, protocol, io}
use abacus_rts.Wire.Message.{Response}
use abacus_rts.Wire.Encode.{encode_response}
use abacus_rts.Transport.Stream.{
  WriteEvent, accepted, write_interrupted, write_failed, Written, write_all_retrying, after_taking,
}
use abacus_rts.Transport.Receive.{Control, max_fds_per_message}

pub record Libc : Type 0 where
  pub sol_socket : ℕ
  pub scm_rights : ℕ
  pub einval : ℕ
  pub cmsghdr_size : ℕ
  pub cmsg_len : ℕ → ℕ
  pub cmsg_space : ℕ → ℕ

-- `size_of::<usize>()` and `size_of::<RawFd>()`.
abbrev pub usize_bytes : ℕ
usize_bytes = 8

abbrev pub raw_fd_bytes : ℕ
raw_fd_bytes = 4

-- `(n + size_of::<usize>() - 1) & !(size_of::<usize>() - 1)`: the mask clears the low three bits.
unfoldable pub align : ℕ → ℕ
align n = (n + usize_bytes - 1) / usize_bytes * usize_bytes

unfoldable pub cmsg_space_for_fds : Libc → ℕ → ℕ
unfolding align
cmsg_space_for_fds l n = align l.cmsghdr_size + align (n * raw_fd_bytes)

-- The size of a `CmsgBuf`.
unfoldable pub cmsg_buf_len : Libc → ℕ
unfolding cmsg_space_for_fds
cmsg_buf_len l = cmsg_space_for_fds l max_fds_per_message

-- cmsg(3): CMSG_LEN is what goes into `cmsg_len` for data of a length, the header's part included.
pub record IsDocumented (l : Libc) : Type 0 where
  pub grows : (n : ℕ) → l.cmsg_len n ≡ l.cmsg_len 0 + n
  pub small : l.cmsg_len 0 < 2 ^ 32

-- A control message as CMSG_FIRSTHDR and CMSG_NXTHDR find it, with the bytes from CMSG_DATA on.
pub record Cmsg : Type 0 where
  pub level : ℕ
  pub kind : ℕ
  pub len : ℕ
  pub body : List ℕ

-- The descriptors as the bytes of a `Vec<RawFd>`.
unfoldable pub fd_bytes : List ℕ → List ℕ
fd_bytes [] = []
fd_bytes (fd ∷ fds) = le_bytes raw_fd_bytes fd ++ fd_bytes fds

-- The message and `msg_controllen`. CMSG_FIRSTHDR is null when no header fits that length.
unfoldable pub control_message : Libc → List ℕ → Result TransportError (Cmsg × ℕ)
unfolding fd_bytes
control_message l fds =
    let n = length fds * raw_fd_bytes in
    if ltb max_fds_per_message (length fds)
    then err (protocol (frame_too_large (length fds) max_fds_per_message))
    else if ltb (l.cmsg_space n) l.cmsghdr_size
    then err (io send_msg l.einval)
    else ok (
      record { level = l.sol_socket; kind = l.scm_rights; len = l.cmsg_len n; body = fd_bytes fds },
      l.cmsg_space n,
    )

-- `sendmsg_retry`, and then the writing of what it has left; the descriptors go with the first byte.
unfoldable pub sendmsg_frame : ℕ → List WriteEvent → List ℕ → Written
unfolding write_all_retrying
sendmsg_frame epipe [] frame = none
sendmsg_frame epipe (write_interrupted ∷ es) frame = sendmsg_frame epipe es frame
sendmsg_frame epipe (write_failed errno ∷ es) frame = some (err (io send_msg errno), [])
sendmsg_frame epipe (accepted sent ∷ es) frame =
    if ltb sent (length frame)
    then after_taking (take sent frame) (write_all_retrying epipe es (drop sent frame))
    else some (ok tt, frame)

-- The control message and `msg_controllen` that go to `sendmsg`, when one is made, and how the
-- sending ends.
abbrev pub SentWith : Type 0
SentWith = Option (Cmsg × ℕ) × Written

unfoldable pub sendmsg_with_fds : Libc → ℕ → List WriteEvent → List ℕ → List ℕ → SentWith
unfolding control_message sendmsg_frame
sendmsg_with_fds l epipe es frame fds = elim (control_message l fds) [
  | ok control ↦ (some control, sendmsg_frame epipe es frame)
  | err e ↦ (none, some (err e, []))
  | panic ↦ (none, some (panic, []))
]

unfoldable pub send_response_with_fds : Libc → ℕ → List WriteEvent → Response → List ℕ → SentWith
unfolding encode_response sendmsg_with_fds
send_response_with_fds l epipe es resp fds = elim (encode_response resp) [
  | ok frame ↦ sendmsg_with_fds l epipe es frame fds
  | err fault ↦ (none, some (err (protocol fault), []))
  | panic ↦ (none, some (panic, []))
]

-- So many descriptors, from the start of the data.
unfoldable pub read_fds : ℕ → List ℕ → List ℕ
read_fds zero body = []
read_fds (suc n) body = from_le_bytes (take raw_fd_bytes body) ∷ read_fds n (drop raw_fd_bytes body)

-- The subtraction is of `usize`, and wraps.
unfoldable pub extract_fds_from_cmsg : Libc → List Cmsg → List ℕ
unfolding read_fds
extract_fds_from_cmsg l [] = []
extract_fds_from_cmsg l (c ∷ cs) =
    let data_len = (c.len + 2 ^ 64 - l.cmsg_len 0) % 2 ^ 64 in
    let fds = read_fds (data_len / raw_fd_bytes) c.body in
    let rest = extract_fds_from_cmsg l cs in
    if c.level == l.sol_socket && c.kind == l.scm_rights then fds ++ rest else rest

-- What `recvmsg` brings along, with the flag MSG_CTRUNC.
unfoldable pub received_control : Libc → List Cmsg → Bool → Control
unfolding extract_fds_from_cmsg
received_control l messages ctrunc = record {
  fds = extract_fds_from_cmsg l messages;
  ctrunc = ctrunc;
}
