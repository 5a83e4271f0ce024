-- ===== src/Client/EndToEnd.antt =====
-- A create of the API, from the client's call over both sockets and the daemon back to the client.
use mathlib.Core.List.{append-nil}
use abacus_rts.Base.{
  ℕ, ◌≤◌, ◌<◌, ◌≡◌, refl, sym, ap, ◌∙◌, true, Option, none, some, List, [], ◌∷◌, ◌++◌, map, length,
  Result, ok, err, All, Yields-eq-ok, Ensures, panic, false, arith,
}
use abacus_rts.Base.U64.{IsU64, saturating_mul}
use abacus_rts.Base.Text.{Str, is_utf8}
use abacus_rts.Core.Interlock.Words.{Shared, WatchedWord}
use abacus_rts.Core.Interlock.Create.{Kernel}
use abacus_rts.Wire.Message.{Response, expected_fd_count}
use abacus_rts.Wire.Encode.{encode_request, encode_response}
use abacus_rts.Wire.Layout.{
  WireRequest, create, TierFields, plain, counter, cron, barrier, to_request, IsValidRequest,
  IsValidCondition, create_fields,
}
use abacus_rts.Wire.RoundTrip.{IsValidResponse}
use abacus_rts.Registry.Entry.{Registry}
use abacus_rts.Registry.Invariant.{IsValid}
use abacus_rts.Daemon.Request.{Handled, handle_request}
use abacus_rts.Daemon.Replies.{fd_count, handle_request-IsBalanced}
use abacus_rts.Transport.Stream.{ReadEvent}
use abacus_rts.Transport.Receive.{recv_request}
use abacus_rts.Transport.Fragments.{pending, IsOpen, IsReady, HasRead}
use abacus_rts.Transport.Sent.{IsWriting, calls_accepted, write_all_retrying-eq-some}
use abacus_rts.Transport.Delivery.{recv_request-encode_request}
use abacus_rts.Transport.Replies.{recv_response-encode_response}
use abacus_rts.Client.Types.{SdkError, to_u8}
use abacus_rts.Client.Answers.{answer_to_create, fds_of}
use abacus_rts.Client.Creation.{Obtains, handle_request-answer_to_create}
use abacus_rts.Client.Conn.{send_frame, receive_response}
use abacus_rts.Client.ConnAgrees.{
  NeverBlocks, send_frame-write_all_retrying, receive_response-recv_response,
}
use abacus_rts.Client.Calls.{
  Link, Exchanged, send_recv, answered, exchange, do_create, client_create_interlock,
  create_wait_counter, create_wait_timer, create_wait_cron, wire_condition, create_wait_barrier,
  create_process_clock,
}

-- The creating calls of the API.
pub data CreateCall : Type 0 where
  plain_interlock : (name : Str) → CreateCall
  counter_of : (name watched_name : Str) → (watched_word : WatchedWord) → CreateCall
  timer : (name : Str) → CreateCall
  cron_at : (name : Str) → (interval_ms : ℕ) → CreateCall
  barrier_on : (name : Str) → (conditions : List (Str × WatchedWord × ℕ)) → CreateCall
  process : (name : Str) → CreateCall

abbrev pub perform : Link → CreateCall → Exchanged ℕ
perform l (plain_interlock name) = client_create_interlock l name
perform l (counter_of name watched_name watched_word) =
    create_wait_counter l name watched_name watched_word
perform l (timer name) = create_wait_timer l name
perform l (cron_at name interval_ms) = create_wait_cron l name interval_ms
perform l (barrier_on name conditions) = create_wait_barrier l name conditions
perform l (process name) = create_process_clock l name

-- The name, and the fields that its tier uses.
abbrev pub name_of : CreateCall → Str
name_of (plain_interlock name) = name
name_of (counter_of name watched_name watched_word) = name
name_of (timer name) = name
name_of (cron_at name interval_ms) = name
name_of (barrier_on name conditions) = name
name_of (process name) = name

abbrev pub fields_of : CreateCall → TierFields
fields_of (plain_interlock name) = plain 0
fields_of (counter_of name watched_name watched_word) = counter watched_name (to_u8 watched_word)
fields_of (timer name) = plain 2
fields_of (cron_at name interval_ms) = cron (saturating_mul interval_ms 1_000_000)
fields_of (barrier_on name conditions) = barrier (map wire_condition conditions)
fields_of (process name) = plain 0

-- The arguments are Rust's: names are UTF-8, thresholds are u64.
abbrev pub IsThreshold : Str × WatchedWord × ℕ → Type 0
IsThreshold (n, w, t) = (is_utf8 n ≡ true) × IsU64 t

abbrev pub IsCall : CreateCall → Type 0
IsCall (plain_interlock name) = is_utf8 name ≡ true
IsCall (counter_of name watched_name watched_word) =
    (is_utf8 name ≡ true) × (is_utf8 watched_name ≡ true)
IsCall (timer name) = is_utf8 name ≡ true
IsCall (cron_at name interval_ms) = is_utf8 name ≡ true
IsCall (barrier_on name conditions) = (is_utf8 name ≡ true) × All IsThreshold conditions
IsCall (process name) = is_utf8 name ≡ true

to_u8-lt : (w : WatchedWord) → to_u8 w < 256
unfolding to_u8
to_u8-lt WatchedWord.open_count = omega arith
to_u8-lt WatchedWord.closed_count = omega arith

wire_condition-IsValid :
    (conditions : List (Str × WatchedWord × ℕ))
    → All IsThreshold conditions
    → All IsValidCondition (map wire_condition conditions)
unfolding wire_condition
wire_condition-IsValid [] h = tt
wire_condition-IsValid ((n, w, t) ∷ cs) h =
    ((h.0.0, to_u8-lt w, h.0.1), wire_condition-IsValid cs h.1)

call-IsValidRequest :
    (c : CreateCall) → IsCall c → IsValidRequest (create (name_of c) (fields_of c))
call-IsValidRequest (plain_interlock name) h =
    (h, (omega arith, omega arith, omega arith, omega arith))
call-IsValidRequest (counter_of name wn ww) h = (h.0, (h.1, to_u8-lt ww))
call-IsValidRequest (timer name) h = (h, (omega arith, omega arith, omega arith, omega arith))
call-IsValidRequest (cron_at name interval_ms) h = (h, omega arith)
call-IsValidRequest (barrier_on name conditions) h = (h.0, wire_condition-IsValid conditions h.1)
call-IsValidRequest (process name) h = (h, (omega arith, omega arith, omega arith, omega arith))

-- Each call sends the request of its name and fields.
perform-send_recv :
    (l : Link) (c : CreateCall)
    → perform l c
      ≡ answered
          (answer_to_create l.kernel)
          (send_recv l (to_request (create (name_of c) (fields_of c))))
unfolding client_create_interlock create_wait_counter create_wait_timer create_wait_cron
    create_wait_barrier create_process_clock do_create
perform-send_recv l (plain_interlock name) = refl
perform-send_recv l (counter_of name wn ww) = refl
perform-send_recv l (timer name) = refl
perform-send_recv l (cron_at name interval_ms) = refl
perform-send_recv l (barrier_on name conditions) = refl
perform-send_recv l (process name) = refl

length-fds_of : (fd : Option ℕ) → length (fds_of fd) ≡ fd_count fd
length-fds_of none = refl
length-fds_of (some fd) = refl

-- The client's socket takes a frame of `sent` bytes, and brings the frame `back` with the
-- descriptors `fds` before it would block.
pub record Carries (l : Link) (sent back : List ℕ) (fds : List ℕ) : Type 0 where
  pub writing : All IsWriting l.writes
  pub enough : length sent ≤ calls_accepted l.writes
  pub whole : l.control.ctrunc ≡ false
  pub descriptors : l.control.fds ≡ fds
  pub stays : All IsOpen l.reads
  pub ready : IsReady l.reads
  pub unblocked : All NeverBlocks l.reads
  pub brings : pending l.reads ≡ back

send_recv-Carries :
    (l : Link) (m : WireRequest) (resp : Response) (fds : List ℕ) {f g : List ℕ}
    → encode_request (to_request m) ≡ ok f
    → IsValidResponse resp
    → encode_response resp ≡ ok g
    → length fds ≡ expected_fd_count resp
    → Carries l f g fds
    → send_recv l (to_request m) ≡ (some (ok (resp, fds)), f)
unfolding send_recv
send_recv-Carries l m resp fds {f} {g} e v e' count c =
    let taken : send_frame l.epipe l.writes f ≡ some (ok tt, f) =
      send_frame-write_all_retrying l.epipe l.writes f
      ∙ write_all_retrying-eq-some l.epipe l.writes f c.writing c.enough in
    let arrived =
      recv_response-encode_response l.control resp l.reads [] c.whole
        (ap length c.descriptors ∙ count) v e' c.stays c.ready (c.brings ∙ sym (append-nil g)) in
    let answer : receive_response l.control l.reads ≡ some (ok (resp, fds), arrived.rest) =
      receive_response-recv_response l.control l.reads c.unblocked
      ∙ arrived.returns
      ∙ ap (λ (x : List ℕ). some (ok (resp, x), arrived.rest)) c.descriptors in
    ap (exchange l) e ∙ rw (taken, answer) refl

-- For each creating call of the API with UTF-8 names and thresholds that fit a u64, on a daemon
-- with a valid registry: when the bytes the client sends arrive at the daemon and the daemon's
-- encoded reply with its descriptor arrives at the client, on streams that stay open, bring bytes
-- in time and at the client never block, and the reply is a valid response, the daemon receives
-- exactly the call's request, the call returns what the client makes of the daemon's reply, and if
-- that is a handle, it is the region newly registered under the name.
pub perform-Obtains :
    (c : CreateCall) (l : Link) (kd : Kernel) (reg : Registry) (σ : Shared)
    (arrivals : List ReadEvent) (more : List ℕ) {f g : List ℕ} {h : Handled}
    → IsCall c
    → IsValid reg σ.next_region
    → encode_request (to_request (create (name_of c) (fields_of c))) ≡ ok f
    → All IsOpen arrivals
    → IsReady arrivals
    → pending arrivals ≡ f ++ more
    → handle_request kd (to_request (create (name_of c) (fields_of c))) reg σ ≡ ok h
    → IsValidResponse h.response
    → encode_response h.response ≡ ok g
    → Carries l f g (fds_of h.fd)
    → HasRead (recv_request arrivals) (to_request (create (name_of c) (fields_of c))) more
      × (perform l c ≡ (some (answer_to_create l.kernel h.response (fds_of h.fd)), f))
      × Ensures
          (Obtains (name_of c) h.registry σ)
          (answer_to_create l.kernel h.response (fds_of h.fd))
perform-Obtains c l kd reg σ arrivals more {f} {h = h} call valid e stays ready arrive handled v e'
      carries =
    let m = create (name_of c) (fields_of c) in
    let balanced : fd_count h.fd ≡ expected_fd_count h.response =
      Yields-eq-ok (handle_request-IsBalanced kd (to_request m) reg σ valid) handled in
    (
      recv_request-encode_request m arrivals more (call-IsValidRequest c call) e stays ready arrive,
      perform-send_recv l c
          ∙ rw
              (send_recv-Carries l m h.response (fds_of h.fd) e v e' (length-fds_of h.fd ∙ balanced)
                carries)
              refl,
      obtains (answer_to_create l.kernel h.response (fds_of h.fd)) refl,
    )
  where
    obtains :
        (r : Result SdkError ℕ)
        → answer_to_create l.kernel h.response (fds_of h.fd) ≡ r
        → Ensures (Obtains (name_of c) h.registry σ) r
    obtains (ok handle) q =
        handle_request-answer_to_create kd l.kernel reg σ valid
          (create_fields (name_of c) (fields_of c)) handled q
    obtains (err e) q = tt
    obtains panic q = tt
