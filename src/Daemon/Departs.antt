-- ===== src/Daemon/Departs.antt =====
-- The turn of a connection: which ones are to be removed, and the state that each turn leaves.
use abacus_rts.Base.{
  Ensures, Ensures-bind, subst, some, ℕ, ◌≡◌, refl, sym, ◌⊎◌, inl, inr, Bool, true, false, ◌||◌,
  ◌==◌, List, [], ◌∷◌, if◌then◌else◌, Result, ok, err, panic, ◌>>=◌, Bool-cases, arith,
}
use abacus_rts.Core.Error.{
  Condition, IoOperation, bind, listen, accept, connect, read, write, send_msg, recv_msg, stat,
  unlink, poll, set_non_blocking, TransportError, protocol, io, connection_closed, would_block,
  socket_path_occupied,
}
use abacus_rts.Core.Interlock.Words.{Shared}
use abacus_rts.Wire.Message.{Request}
use abacus_rts.Registry.Entry.{Registry}
use abacus_rts.Daemon.Request.{
  Errno, is_connection_error, Handled, Served, handle_request, handle_client_request, sent_result,
}
use abacus_rts.Daemon.Loop.{Slot, meanwhile, is_gone, turn}

abbrev pub IsTransfer : IoOperation → Type 0
IsTransfer read = Unit {0}
IsTransfer write = Unit {0}
IsTransfer send_msg = Unit {0}
IsTransfer recv_msg = Unit {0}
IsTransfer _ = ⊥

-- The errors after which a connection is of no more use: its end, and a transfer that fails because
-- the peer has gone.
abbrev pub EndsConnection : Errno → TransportError → Type 0
EndsConnection c connection_closed = Unit {0}
EndsConnection c (io operation errno) =
    IsTransfer operation × ((errno ≡ c.epipe) ⊎ (errno ≡ c.econnreset))
EndsConnection c would_block = ⊥
EndsConnection c (protocol fault) = ⊥
EndsConnection c (socket_path_occupied path live) = ⊥

-- The mark says whether it holds.
abbrev pub Marks : Bool → Type 0 → Type 0
Marks gone P = ((gone ≡ true) × P) ⊎ ((gone ≡ false) × ¬ P)

-- The sending of the answer, where its failure is returned, ends with an error of the connection.
abbrev pub AnswerFails : Errno → Slot → Handled → Type 0
AnswerFails c slot h =
    (h.propagates ≡ true)
    × ((e : TransportError) × (slot.send h.response h.fd ≡ err e) × EndsConnection c e)

-- The turn of one connection, with its mark and the state that it leaves. The clients' writes come
-- first.
pub data Took (c : Errno) (slot : Slot) (reg : Registry) (σ : Shared)
    : Bool → Registry → Shared → Type 0 where
  hung_up : slot.hangup ≡ true → Took c slot reg σ true reg (meanwhile slot.clients_do σ)
  silent :
      slot.hangup ≡ false
      → slot.readable ≡ false
      → Took c slot reg σ false reg (meanwhile slot.clients_do σ)
  unread :
      {gone : Bool} {e : TransportError}
      → slot.hangup ≡ false
      → slot.readable ≡ true
      → slot.received ≡ err e
      → Marks gone (EndsConnection c e)
      → Took c slot reg σ gone reg (meanwhile slot.clients_do σ)
  answered :
      {gone : Bool} {req : Request} {h : Handled}
      → slot.hangup ≡ false
      → slot.readable ≡ true
      → slot.received ≡ ok req
      → handle_request slot.kernel req reg (meanwhile slot.clients_do σ) ≡ ok h
      → Marks gone (AnswerFails c slot h)
      → Took c slot reg σ gone h.registry h.shared

-- The turns of all of the connections, one after the other.
pub data TookAll (c : Errno)
    : List Slot → Registry → Shared → List Bool → Registry → Shared → Type 0 where
  done : {reg : Registry} {σ : Shared} → TookAll c [] reg σ [] reg σ
  next :
      {slot : Slot} {slots : List Slot} {reg reg' reg'' : Registry} {σ σ' σ'' : Shared}
      {gone : Bool} {marks : List Bool}
      → Took c slot reg σ gone reg' σ'
      → TookAll c slots reg' σ' marks reg'' σ''
      → TookAll c (slot ∷ slots) reg σ (gone ∷ marks) reg'' σ''

-- The errno of a transfer.
errno-Marks :
    (c : Errno) (errno : ℕ)
    → Marks
        (errno == c.epipe || errno == c.econnreset)
        (Unit {0} × ((errno ≡ c.epipe) ⊎ (errno ≡ c.econnreset)))
errno-Marks c errno = elim (Bool-cases (errno == c.epipe || errno == c.econnreset)) [
  | inl goes ↦ inl (goes, (tt, ground arith))
  | inr stays ↦ inr (stays, λ h. ground (arith, h.1))
]

io-Marks :
    (c : Errno) (operation : IoOperation) (errno : ℕ)
    → Marks (is_connection_error c (io operation errno)) (EndsConnection c (io operation errno))
unfolding is_connection_error
io-Marks c read errno = errno-Marks c errno
io-Marks c write errno = errno-Marks c errno
io-Marks c send_msg errno = errno-Marks c errno
io-Marks c recv_msg errno = errno-Marks c errno
io-Marks c bind errno = inr (refl, λ h. h.0)
io-Marks c listen errno = inr (refl, λ h. h.0)
io-Marks c accept errno = inr (refl, λ h. h.0)
io-Marks c connect errno = inr (refl, λ h. h.0)
io-Marks c stat errno = inr (refl, λ h. h.0)
io-Marks c unlink errno = inr (refl, λ h. h.0)
io-Marks c set_non_blocking errno = inr (refl, λ h. h.0)
io-Marks c poll errno = inr (refl, λ h. h.0)

is_connection_error-Marks :
    (c : Errno) (e : TransportError) → Marks (is_connection_error c e) (EndsConnection c e)
unfolding is_connection_error
is_connection_error-Marks c connection_closed = inl (refl, tt)
is_connection_error-Marks c would_block = inr (refl, λ h. h)
is_connection_error-Marks c (protocol fault) = inr (refl, λ h. h)
is_connection_error-Marks c (socket_path_occupied path live) = inr (refl, λ h. h)
is_connection_error-Marks c (io operation errno) = io-Marks c operation errno

Ensures-if :
    {E A : Type 0} (P : A → Type 0) (b : Bool) (r r' : Result E A)
    → (b ≡ true → Ensures P r)
    → (b ≡ false → Ensures P r')
    → Ensures P (if b then r else r')
Ensures-if P true r r' h k = h refl
Ensures-if P false r r' h k = k refl

err-injective :
    {e e' : TransportError} → ◌≡◌ {A = Result TransportError (Unit {0})} (err e) (err e') → e ≡ e'
err-injective q = cc

-- What the loop makes of the result of a sending, where its failure is returned and where not.
is_gone-sent_result :
    (c : Errno) (propagates : Bool) (r : Result TransportError (Unit {0}))
    → Ensures
        (λ gone.
          Marks gone
            ((propagates ≡ true) × ((e : TransportError) × (r ≡ err e) × EndsConnection c e)))
        (is_gone c (sent_result propagates r))
is_gone-sent_result c false r = inr (refl, λ h. cc (h.0))
is_gone-sent_result c true (ok u) = inr (refl, λ (_, (e, q, _)). cc (q))
is_gone-sent_result c true panic = tt
is_gone-sent_result c true (err e) = elim (is_connection_error-Marks c e) [
  | inl (gone, ends) ↦ inl (gone, (refl, (e, refl, ends)))
  | inr (stays, goes_on) ↦
      inr (
        stays,
        λ (_, (e', q, ends)). goes_on (subst (EndsConnection c) (sym (err-injective q)) ends),
      )
]

-- The request is handled, and the answer sent.
abbrev Answers : Slot → Request → Registry → Shared → Served → Type 0
Answers slot req reg σ v =
    (h : Handled) × (handle_request slot.kernel req reg σ ≡ ok h)
    × (v ≡ record {
      message = some (h.response, h.fd);
      result = sent_result h.propagates (slot.send h.response h.fd);
      registry = h.registry;
      shared = h.shared;
    })

handle_client_request-Answers :
    (slot : Slot) (req : Request) (reg : Registry) (σ : Shared)
    → Ensures (Answers slot req reg σ) (handle_client_request slot.kernel (ok req) slot.send reg σ)
unfolding handle_client_request
handle_client_request-Answers slot req reg σ = handled (handle_request slot.kernel req reg σ) refl
  where
    handled :
        (x : Result Condition Handled)
        → handle_request slot.kernel req reg σ ≡ x
        → Ensures (Answers slot req reg σ) (elim x as (λ y. Result Condition Served) [
          | ok h ↦ ok (record {
            message = some (h.response, h.fd);
            result = sent_result h.propagates (slot.send h.response h.fd);
            registry = h.registry;
            shared = h.shared;
          })
          | err e ↦ err e
          | panic ↦ panic
        ])
    handled (ok h) q = (h, q, refl)
    handled (err e) q = tt
    handled panic q = tt

module _ (c : Errno) (slot : Slot) (reg : Registry) (σ : Shared) where
  abbrev IsTaken : Bool × Registry × Shared → Type 0
  IsTaken r = Took c slot reg σ r.0 r.1 r.2

  -- A request that is not received.
  unread-Took :
      (e : TransportError)
      → slot.received ≡ err e
      → slot.hangup ≡ false
      → slot.readable ≡ true
      → Ensures IsTaken (
          handle_client_request slot.kernel (err e) slot.send reg (meanwhile slot.clients_do σ)
          >>= λ v. is_gone c v.result >>= λ gone. ok (gone, v.registry, v.shared))
  unfolding handle_client_request
  unread-Took would_block q on ready = unread on ready q (inr (refl, λ h. h))
  unread-Took (protocol fault) q on ready = unread on ready q (inr (refl, λ h. h))
  unread-Took (io operation errno) q on ready =
      unread on ready q (is_connection_error-Marks c (io operation errno))
  unread-Took connection_closed q on ready =
      unread on ready q (is_connection_error-Marks c connection_closed)
  unread-Took (socket_path_occupied path live) q on ready =
      unread on ready q (is_connection_error-Marks c (socket_path_occupied path live))

  served-Took :
      (received : Result TransportError Request)
      → slot.received ≡ received
      → slot.hangup ≡ false
      → slot.readable ≡ true
      → Ensures IsTaken (
          handle_client_request slot.kernel received slot.send reg (meanwhile slot.clients_do σ)
          >>= λ v. is_gone c v.result >>= λ gone. ok (gone, v.registry, v.shared))
  unfolding handle_client_request
  served-Took (err e) q on ready = unread-Took e q on ready
  served-Took panic q on ready = tt
  served-Took (ok req) q on ready =
      Ensures-bind (Answers slot req reg (meanwhile slot.clients_do σ)) _ _ _
        (handle_client_request-Answers slot req reg (meanwhile slot.clients_do σ))
        λ v (h, made, answer).
          Ensures-bind _ _ _ _
            (subst
              (λ (x : Served).
                Ensures (λ gone. Marks gone (AnswerFails c slot h)) (is_gone c x.result))
              (sym answer) (is_gone-sent_result c h.propagates (slot.send h.response h.fd)))
            λ gone marks.
              subst (λ (x : Served). Took c slot reg σ gone x.registry x.shared) (sym answer)
                (answered on ready q made marks)

  pub turn-Took : Ensures IsTaken (turn c slot reg σ)
  unfolding turn
  turn-Took =
      Ensures-if IsTaken slot.hangup _ _ (λ up. hung_up up)
        λ on.
          Ensures-if IsTaken slot.readable _ _ (λ ready. served-Took slot.received refl on ready)
            λ quiet. silent on quiet
