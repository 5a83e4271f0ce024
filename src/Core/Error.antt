-- ===== src/Core/Error.antt =====
-- crates/abacus-core/src/error.rs: the conditions and faults, and their text.
use abacus_rts.Base.{ℕ, Bool, true, false, ◌++◌}
use abacus_rts.Base.Text.{Str, str, decimal, hex_byte}

pub data AllocationStep : Type 0 where
  memfd_create ftruncate mmap : AllocationStep

pub data Condition : Type 0 where
  interlock_reaped : Condition
  interlock_not_found : (name : Str) → Condition
  allocation_failed : (failed : AllocationStep) (errno : ℕ) → Condition
  invalid_request : (message : Str) → Condition

-- `{step:?}`, the derived Debug text.
AllocationStep_debug : AllocationStep → Str
AllocationStep_debug memfd_create = str "MemfdCreate"
AllocationStep_debug ftruncate = str "Ftruncate"
AllocationStep_debug mmap = str "Mmap"

-- `fmt` of `Condition`.
unfoldable pub Condition_fmt : Condition → Str
unfolding AllocationStep_debug decimal
Condition_fmt interlock_reaped = str "InterlockReaped"
Condition_fmt (interlock_not_found name) = str "InterlockNotFound: " ++ name
Condition_fmt (allocation_failed failed errno) =
    str "AllocationFailed at " ++ AllocationStep_debug failed ++ str ", errno=" ++ decimal errno
Condition_fmt (invalid_request message) = str "InvalidRequest: " ++ message

pub data IoOperation : Type 0 where
  bind listen accept connect send_msg recv_msg read write stat unlink set_non_blocking poll :
      IoOperation

-- `{operation:?}`, the derived Debug text.
IoOperation_debug : IoOperation → Str
IoOperation_debug bind = str "Bind"
IoOperation_debug listen = str "Listen"
IoOperation_debug accept = str "Accept"
IoOperation_debug connect = str "Connect"
IoOperation_debug send_msg = str "SendMsg"
IoOperation_debug recv_msg = str "RecvMsg"
IoOperation_debug read = str "Read"
IoOperation_debug write = str "Write"
IoOperation_debug stat = str "Stat"
IoOperation_debug unlink = str "Unlink"
IoOperation_debug set_non_blocking = str "SetNonBlocking"
IoOperation_debug poll = str "Poll"

pub data ProtocolFault : Type 0 where
  truncated : (needed have : ℕ) → ProtocolFault
  frame_too_large : (len limit : ℕ) → ProtocolFault
  unsupported_version : (version : ℕ) → ProtocolFault
  unknown_tag : (tag : ℕ) → ProtocolFault
  invalid_utf8 : ProtocolFault

-- `fmt` of `ProtocolFault`.
unfoldable pub ProtocolFault_fmt : ProtocolFault → Str
unfolding decimal hex_byte
ProtocolFault_fmt (truncated needed have) =
    str "truncated: needed " ++ decimal needed ++ str ", have " ++ decimal have
ProtocolFault_fmt (frame_too_large len limit) =
    str "frame too large: " ++ decimal len ++ str " > " ++ decimal limit
ProtocolFault_fmt (unsupported_version version) = str "unsupported version: " ++ decimal version
ProtocolFault_fmt (unknown_tag tag) = str "unknown tag: 0x" ++ hex_byte tag
ProtocolFault_fmt invalid_utf8 = str "invalid UTF-8"

pub data TransportError : Type 0 where
  protocol : (fault : ProtocolFault) → TransportError
  io : (operation : IoOperation) (errno : ℕ) → TransportError
  connection_closed : TransportError
  would_block : TransportError
  socket_path_occupied : (path : Str) (live_daemon : Bool) → TransportError

-- `fmt` of `TransportError`.
unfoldable pub TransportError_fmt : TransportError → Str
unfolding IoOperation_debug ProtocolFault_fmt decimal
TransportError_fmt (protocol fault) = str "protocol fault: " ++ ProtocolFault_fmt fault
TransportError_fmt (io operation errno) =
    str "I/O error in " ++ IoOperation_debug operation ++ str ": errno " ++ decimal errno
TransportError_fmt connection_closed = str "connection closed by peer"
TransportError_fmt would_block = str "would block (no data available)"
TransportError_fmt (socket_path_occupied path true) =
    str "socket path occupied by a live daemon: " ++ path
TransportError_fmt (socket_path_occupied path false) =
    str "socket path occupied by a non-socket object: " ++ path

pub data StartupError : Type 0 where
  transport : TransportError → StartupError
  allocation : Condition → StartupError
  event_loop_failed : (errno : ℕ) → StartupError

-- `fmt` of `StartupError`.
unfoldable pub StartupError_fmt : StartupError → Str
unfolding TransportError_fmt Condition_fmt decimal
StartupError_fmt (transport e) = str "transport: " ++ TransportError_fmt e
StartupError_fmt (allocation e) = str "allocation: " ++ Condition_fmt e
StartupError_fmt (event_loop_failed errno) =
    str "event loop: poll failed permanently, errno=" ++ decimal errno
