-- ===== src/Client/Calls.antt =====
-- `AbacusClient` of client.rs: the requests of the API, sent on the client's connection, and its
-- answers. A handle that comes back stands for the object that wraps it; what a constructor does to
-- the words or its threads is in `Client/Touch`.
use abacus_rts.Base.{
  ℕ, Bool, true, false, ◌||◌, Option, none, some, List, [], map, ◌==◌, if◌then◌else◌, Result, ok,
  err, panic, map_err,
}
use abacus_rts.Base.U64.{saturating_mul}
use abacus_rts.Base.Text.{Str, str, str_eq}
use abacus_rts.Core.Error.{ProtocolFault, protocol}
use abacus_rts.Core.Interlock.Words.{WatchedWord}
use abacus_rts.Core.Interlock.Create.{Kernel}
use abacus_rts.Wire.Message.{Request, create_interlock, attach_interlock, Response}
use abacus_rts.Wire.Encode.{encode_request}
use abacus_rts.Transport.Stream.{ReadEvent, Received, WriteEvent, Written}
use abacus_rts.Transport.Receive.{Control}
use abacus_rts.Client.Types.{SdkError, sdk_transport, sdk_invalid_request, to_u8}
use abacus_rts.Client.Answers.{answer_to_create, answer_to_attach}
use abacus_rts.Client.Conn.{conn_connect, send_frame, receive_response}

-- One exchange on the socket: the results of the calls that write, the descriptors that come along,
-- the results of the calls that read, the kernel that maps, and the number of EPIPE.
pub record Link : Type 0 where
  pub epipe : ℕ
  pub writes : List WriteEvent
  pub control : Control
  pub reads : List ReadEvent
  pub kernel : Kernel

-- What a call returns, `none` when it waits for ever, and the bytes that the kernel has taken.
abbrev pub Exchanged : Type 0 → Type 0
Exchanged A = Option (Result SdkError A) × List ℕ

abbrev received : {A : Type 0} → Received A → Option (Result SdkError A)
received none = none
received (some (r, es)) = some (map_err sdk_transport r)

abbrev pub after_sending : {A : Type 0} → Written → Received A → Exchanged A
after_sending none answer = (none, [])
after_sending (some (ok u, sent)) answer = (received answer, sent)
after_sending (some (err e, sent)) answer = (some (err (sdk_transport e)), sent)
after_sending (some (panic, sent)) answer = (some panic, sent)

-- The sending of a frame that was encoded, and the receiving of the answer.
abbrev pub exchange : Link → Result ProtocolFault (List ℕ) → Exchanged (Response × List ℕ)
exchange l (ok frame) =
    after_sending (send_frame l.epipe l.writes frame) (receive_response l.control l.reads)
exchange l (err fault) = (some (err (sdk_transport (protocol fault))), [])
exchange l panic = (some panic, [])

unfoldable pub send_recv : Link → Request → Exchanged (Response × List ℕ)
unfolding encode_request
send_recv l req = exchange l (encode_request req)

-- The `match` on the response.
abbrev pub answered :
    (Response → List ℕ → Result SdkError ℕ) → Exchanged (Response × List ℕ) → Exchanged ℕ
answered f (none, sent) = (none, sent)
answered f (some (ok (resp, fds)), sent) = (some (f resp fds), sent)
answered f (some (err e), sent) = (some (err e), sent)
answered f (some panic, sent) = (some panic, sent)

unfoldable pub do_create : Link → Str → ℕ → Option Str → Option ℕ → Exchanged ℕ
unfolding send_recv answer_to_create
do_create l name tier watched_name watched_word = answered (answer_to_create l.kernel) (
    send_recv l (
      create_interlock (record {
        name = name;
        tier = tier;
        watched_name = watched_name;
        watched_word = watched_word;
        interval_ns = none;
        conditions = none;
      })))

unfoldable pub do_attach : Link → Str → Exchanged ℕ
unfolding send_recv answer_to_attach
do_attach l name = answered (answer_to_attach l.kernel) (send_recv l (attach_interlock name))

-- `AbacusClient::create_interlock` and `AbacusClient::attach_interlock`.
unfoldable pub client_create_interlock : Link → Str → Exchanged ℕ
unfolding do_create
client_create_interlock l name = do_create l name 0 none none

unfoldable pub client_attach_interlock : Link → Str → Exchanged ℕ
unfolding do_attach
client_attach_interlock l name =
    if str_eq name (str "clock")
    then (
      some (err (sdk_invalid_request (str "use client.clock() to access the system clock"))),
      [],
    )
    else do_attach l name

unfoldable pub attach_wait_counter : Link → Str → Exchanged ℕ
unfolding do_attach
attach_wait_counter l name = do_attach l name

unfoldable pub create_wait_counter : Link → Str → Str → WatchedWord → Exchanged ℕ
unfolding do_create to_u8
create_wait_counter l name watched_name watched_word =
    do_create l name 1 (some watched_name) (some (to_u8 watched_word))

unfoldable pub create_wait_timer : Link → Str → Exchanged ℕ
unfolding do_create
create_wait_timer l name = do_create l name 2 none none

unfoldable pub create_wait_cron : Link → Str → ℕ → Exchanged ℕ
unfolding send_recv answer_to_create
create_wait_cron l name interval_ms = answered (answer_to_create l.kernel) (
    send_recv l (
      create_interlock (record {
        name = name;
        tier = 3;
        watched_name = none;
        watched_word = none;
        interval_ns = some (saturating_mul interval_ms 1_000_000);
        conditions = none;
      })))

-- A condition as the wire has it.
unfoldable pub wire_condition : Str × WatchedWord × ℕ → Str × ℕ × ℕ
unfolding to_u8
wire_condition (n, w, t) = (n, to_u8 w, t)

unfoldable pub create_wait_barrier : Link → Str → List (Str × WatchedWord × ℕ) → Exchanged ℕ
unfolding send_recv answer_to_create wire_condition
create_wait_barrier l name conditions = answered (answer_to_create l.kernel) (
    send_recv l (
      create_interlock (record {
        name = name;
        tier = 4;
        watched_name = none;
        watched_word = none;
        interval_ns = none;
        conditions = some (map wire_condition conditions);
      })))

unfoldable pub create_process_clock : Link → Str → Exchanged ℕ
unfolding do_create
create_process_clock l name = do_create l name 0 none none

-- `connect`, with the errno of the socket's connect; the handle is the clock's.
unfoldable pub client_connect : Option ℕ → Link → Exchanged ℕ
unfolding conn_connect do_attach
client_connect errno l = elim (conn_connect errno) [
  | ok u ↦ do_attach l (str "clock")
  | err e ↦ (some (err (sdk_transport e)), [])
  | panic ↦ (some panic, [])
]

-- The result of the `recv` that peeks.
pub data Peeked : Type 0 where
  peeked : (bytes : ℕ) → Peeked
  peek_failed : (errno : ℕ) → Peeked

-- `is_connected`, with the numbers of EAGAIN and EWOULDBLOCK.
unfoldable pub is_connected : ℕ → ℕ → Peeked → Bool
is_connected eagain ewouldblock (peeked bytes) = if bytes == 0 then false else true
is_connected eagain ewouldblock (peek_failed errno) = errno == eagain || errno == ewouldblock
