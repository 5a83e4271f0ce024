-- ===== src/Daemon/Request.antt =====
-- `handle_client_request` and the functions that classify errors.
use abacus_rts.Base.{
  ℕ, Bool, true, false, ◌&&◌, ◌||◌, Option, none, some, ◌++◌, ◌==◌, if◌then◌else◌, Result, ok, err,
  panic,
}
use abacus_rts.Base.Text.{Str, str}
use abacus_rts.Core.Error.{
  Condition, Condition_fmt, interlock_reaped, interlock_not_found, allocation_failed,
  invalid_request, IoOperation, read, write, send_msg, recv_msg, ProtocolFault_fmt, TransportError,
  protocol, io, connection_closed, would_block,
}
use abacus_rts.Core.Interlock.Words.{Shared}
use abacus_rts.Core.Interlock.Create.{Kernel, interlock_dup_fd}
use abacus_rts.Wire.Message.{
  CreateInterlock, Request, create_interlock, attach_interlock, Response, created, attached,
  response_interlock_reaped, response_interlock_not_found, response_allocation_failed,
  response_invalid_request,
}
use abacus_rts.Registry.Entry.{
  Tier, interlock, wait_counter, wait_timer, wait_cron, wait_barrier, Registry, attach,
}
use abacus_rts.Registry.Create.{CreateArgs, create}

-- The errnos of a connection that is gone, as the C library of the platform numbers them.
pub record Errno : Type 0 where
  pub epipe : ℕ
  pub econnreset : ℕ

is_transfer : IoOperation → Bool
is_transfer read = true
is_transfer write = true
is_transfer send_msg = true
is_transfer recv_msg = true
is_transfer _ = false

unfoldable pub is_connection_error : Errno → TransportError → Bool
unfolding is_transfer
is_connection_error c connection_closed = true
is_connection_error c (io operation errno) =
    is_transfer operation && (errno == c.epipe || errno == c.econnreset)
is_connection_error c _ = false

unfoldable pub map_condition_to_response : Condition → Response
unfolding Condition_fmt response_interlock_reaped response_interlock_not_found
    response_allocation_failed response_invalid_request
map_condition_to_response (interlock_not_found name) =
    response_interlock_not_found (Condition_fmt (interlock_not_found name))
map_condition_to_response interlock_reaped = response_interlock_reaped
map_condition_to_response (allocation_failed failed errno) =
    response_allocation_failed (Condition_fmt (allocation_failed failed errno))
map_condition_to_response (invalid_request message) =
    response_invalid_request (Condition_fmt (invalid_request message))

unfoldable pub tier_of : ℕ → Option Tier
tier_of t =
    if t == 0
    then some interlock
    else if t == 1
    then some wait_counter
    else if t == 2
    then some wait_timer
    else if t == 3
    then some wait_cron
    else if t == 4
    then some wait_barrier
    else none

-- What a request leads to: the message that is sent, with the region whose descriptor goes along;
-- whether an error of the sending is returned; and the new state.
pub record Handled : Type 0 where
  pub response : Response
  pub fd : Option ℕ
  pub propagates : Bool
  pub registry : Registry
  pub shared : Shared

abbrev pub error_reply : Response → Registry → Shared → Handled
error_reply resp reg σ = record {
  response = resp;
  fd = none;
  propagates = true;
  registry = reg;
  shared = σ;
}

-- The reply with a duplicated descriptor; where the `dup` fails, an error is sent instead.
unfoldable pub reply_with_fd : Kernel → Response → ℕ → Registry → Shared → Result Condition Handled
unfolding interlock_dup_fd response_allocation_failed Condition_fmt
reply_with_fd k resp h reg σ = elim (interlock_dup_fd k h) [
  | ok fd ↦
      ok (record { response = resp; fd = some fd; propagates = true; registry = reg; shared = σ })
  | err e ↦ ok (record {
    response = response_allocation_failed (str "fd dup failed: " ++ Condition_fmt e);
    fd = none;
    propagates = false;
    registry = reg;
    shared = σ;
  })
  | panic ↦ panic
]

abbrev pub args_of : CreateInterlock → Tier → CreateArgs
args_of r t = record {
  name = r.name;
  tier = t;
  watched_name = r.watched_name;
  watched_word = r.watched_word;
  interval_ns = r.interval_ns;
  barrier_conditions = r.conditions;
}

unfoldable pub handle_create : Kernel → CreateArgs → Registry → Shared → Result Condition Handled
unfolding create reply_with_fd map_condition_to_response
handle_create k a reg σ = elim (create k a reg σ) [
  | ok ((id, h), reg', σ') ↦ reply_with_fd k (created id) h reg' σ'
  | err e ↦ ok (error_reply (map_condition_to_response e) reg σ)
  | panic ↦ panic
]

unfoldable pub handle_attach : Kernel → Str → Registry → Shared → Result Condition Handled
unfolding attach reply_with_fd map_condition_to_response
handle_attach k name reg σ = elim (attach name reg) [
  | ok (id, h) ↦ reply_with_fd k (attached id) h reg σ
  | err e ↦ ok (error_reply (map_condition_to_response e) reg σ)
  | panic ↦ panic
]

-- The `match request` of `handle_client_request`.
unfoldable pub handle_request : Kernel → Request → Registry → Shared → Result Condition Handled
unfolding tier_of handle_create handle_attach response_invalid_request
handle_request k (create_interlock r) reg σ = elim (tier_of r.tier) [
  | some t ↦ handle_create k (args_of r t) reg σ
  | none ↦ ok (error_reply (response_invalid_request (str "invalid tier")) reg σ)
]
handle_request k (attach_interlock name) reg σ = handle_attach k name reg σ

-- The outcome for the event loop: the message, if one is sent, the state, and the error returned.
pub record Served : Type 0 where
  pub message : Option (Response × Option ℕ)
  pub result : Result TransportError (Unit {0})
  pub registry : Registry
  pub shared : Shared

-- What an ignored or propagated sending returns.
abbrev pub sent_result : Bool → Result TransportError (Unit {0}) → Result TransportError (Unit {0})
sent_result true r = r
sent_result false r = ok tt

-- `received` is what `recv_request` returns, and `send` how the sending of a message ends.
unfoldable pub handle_client_request :
    Kernel
    → Result TransportError Request
    → (Response → Option ℕ → Result TransportError (Unit {0}))
    → Registry
    → Shared
    → Result Condition Served
unfolding handle_request response_invalid_request ProtocolFault_fmt
handle_client_request k panic send reg σ = panic
handle_client_request k (err would_block) send reg σ =
    ok (record { message = none; result = ok tt; registry = reg; shared = σ })
handle_client_request k (err (protocol fault)) send reg σ = ok (record {
  message = some (response_invalid_request (ProtocolFault_fmt fault), none);
  result = ok tt;
  registry = reg;
  shared = σ;
})
handle_client_request k (err e) send reg σ =
    ok (record { message = none; result = err e; registry = reg; shared = σ })
handle_client_request k (ok request) send reg σ = elim (handle_request k request reg σ) [
  | ok h ↦ ok (record {
    message = some (h.response, h.fd);
    result = sent_result h.propagates (send h.response h.fd);
    registry = h.registry;
    shared = h.shared;
  })
  | err e ↦ err e
  | panic ↦ panic
]
