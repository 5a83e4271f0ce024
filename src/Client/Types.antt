-- ===== src/Client/Types.antt =====
-- types.rs, and the functions of client.rs that read an answer.
use abacus_rts.Base.{
  ℕ, ◌||◌, List, [], ◌∷◌, ◌++◌, length, ltb, leb, ◌==◌, if◌then◌else◌, Result, ok, err,
}
use abacus_rts.Base.U64.{wrapping_sub_i64, is_negative, is_positive}
use abacus_rts.Base.Text.{Str, str, hex_byte}
use abacus_rts.Core.Error.{truncated, TransportError, protocol, TransportError_fmt}
use abacus_rts.Core.Interlock.Words.{sentinel, WatchedWord}

-- The states of an interlock.
pub data InterlockState : Type 0 where
  closed open_state overrun_state expired : InterlockState

unfoldable pub interlock_state : ℕ → ℕ → ℕ → ℕ → InterlockState
interlock_state opened closed_count expiration_ns clock_ns =
    if opened == sentinel || closed_count == sentinel || expiration_ns == sentinel
    then expired
    else if leb expiration_ns clock_ns
    then expired
    else if is_negative (wrapping_sub_i64 opened closed_count)
    then overrun_state
    else if is_positive (wrapping_sub_i64 opened closed_count)
    then open_state
    else closed

-- How a wait ended.
pub data WaitState : Type 0 where
  normal overrun timeout : WaitState

unfoldable pub check_wake_state : ℕ → ℕ → WaitState
check_wake_state opened closed_count =
    if closed_count == opened then normal else if ltb opened closed_count then overrun else timeout

-- `WatchedWord::to_u8`.
unfoldable pub to_u8 : WatchedWord → ℕ
to_u8 WatchedWord.open_count = 0
to_u8 WatchedWord.closed_count = 1

-- The errors of the client that an answer leads to.
pub data SdkError : Type 0 where
  sdk_transport : (error : TransportError) → SdkError
  sdk_interlock_reaped : SdkError
  sdk_interlock_not_found : (name : Str) → SdkError
  sdk_allocation_failed : (message : Str) → SdkError
  sdk_mmap_failed : (message : Str) → SdkError
  sdk_invalid_request : (message : Str) → SdkError
  sdk_unexpected_response : (message : Str) → SdkError

-- `fmt` of `SdkError`.
unfoldable pub SdkError_fmt : SdkError → Str
unfolding TransportError_fmt
SdkError_fmt sdk_interlock_reaped = str "interlock reaped"
SdkError_fmt (sdk_interlock_not_found name) = str "interlock not found: " ++ name
SdkError_fmt (sdk_allocation_failed message) = str "allocation failed: " ++ message
SdkError_fmt (sdk_transport e) = str "transport: " ++ TransportError_fmt e
SdkError_fmt (sdk_mmap_failed message) = str "mmap failed: " ++ message
SdkError_fmt (sdk_invalid_request message) = str "invalid request: " ++ message
SdkError_fmt (sdk_unexpected_response message) = str "unexpected response: " ++ message

-- The names of two wake states.
abbrev pub rts_timeout : WaitState
rts_timeout = timeout

abbrev pub rts_overrun : WaitState
rts_overrun = overrun

unfoldable pub parse_daemon_error : ℕ → Str → SdkError
unfolding hex_byte
parse_daemon_error code message =
    if code == 0x01
    then sdk_interlock_reaped
    else if code == 0x02
    then sdk_interlock_not_found message
    else if code == 0x03
    then sdk_allocation_failed message
    else if code == 0x04
    then sdk_invalid_request message
    else sdk_unexpected_response
        (str "unknown daemon error 0x" ++ hex_byte code ++ str ": " ++ message)

unfoldable pub extract_single_fd : List ℕ → Result SdkError ℕ
extract_single_fd [] = err (sdk_transport (protocol (truncated 1 0)))
extract_single_fd (fd ∷ []) = ok fd
extract_single_fd (fd ∷ fd' ∷ fds) =
    err (sdk_transport (protocol (truncated 1 (length (fd ∷ fd' ∷ fds)))))
