-- ===== src/Daemon/Loop.antt =====
-- The event loop of `daemon_run`: one round from the return of `poll` to the end of the cycle.
use abacus_rts.Base.{
  ℕ, suc, Bool, true, false, Option, none, some, List, [], ◌∷◌, ◌++◌, ◌==◌, if◌then◌else◌, Result,
  ok, err, panic, ◌>>=◌, map_err,
}
use abacus_rts.Core.Error.{Condition, TransportError, StartupError, allocation, event_loop_failed}
use abacus_rts.Core.Interlock.Words.{Interlock, Shared}
use abacus_rts.Core.Interlock.Create.{Kernel}
use abacus_rts.Wire.Message.{Request, Response}
use abacus_rts.Registry.Entry.{Registry}
use abacus_rts.Daemon.Request.{Errno, handle_client_request, is_connection_error}
use abacus_rts.Daemon.Cycle.{advance}
use abacus_rts.Daemon.Table.{remove_clients}
use abacus_rts.Daemon.Reach.{State}

-- What one call of `try_accept` brings: a connection, and whether it could be set to non-blocking;
-- nothing more; or an error.
pub data AcceptEvent : Type 0 where
  connection : (conn : ℕ) (nonblocking : Bool) → AcceptEvent
  no_more : AcceptEvent
  accept_failed : (errno : ℕ) → AcceptEvent

-- The accept loop; `none` when its calls have not come to an end.
unfoldable pub accept_loop : List AcceptEvent → List ℕ → Option (List ℕ)
accept_loop [] clients = none
accept_loop (connection conn nonblocking ∷ es) clients =
    accept_loop es (if nonblocking then clients ++ conn ∷ [] else clients)
accept_loop (no_more ∷ es) clients = some clients
accept_loop (accept_failed errno ∷ es) clients = some clients

-- What is found at one connection: its `revents`, what `recv_request` returns, how the sending of
-- a message ends, the kernel's answers, and what clients have done to the words by then.
pub record Slot : Type 0 where
  pub hangup : Bool
  pub readable : Bool
  pub received : Result TransportError Request
  pub send : Response → Option ℕ → Result TransportError (Unit {0})
  pub kernel : Kernel
  pub clients_do : (ℕ → Interlock) → ℕ → Interlock

abbrev pub meanwhile : ((ℕ → Interlock) → ℕ → Interlock) → Shared → Shared
meanwhile clients_do σ = record σ { regions = clients_do σ.regions }

-- An error of the connection asks for its removal; every other one is only printed.
abbrev pub is_gone : Errno → Result TransportError (Unit {0}) → Result Condition Bool
is_gone c (ok u) = ok false
is_gone c (err e) = ok (is_connection_error c e)
is_gone c panic = panic

-- The turn of one connection: whether it is to be removed, and the state.
unfoldable pub turn : Errno → Slot → Registry → Shared → Result Condition (Bool × Registry × Shared)
unfolding handle_client_request
turn c s reg σ =
    if s.hangup
    then ok (true, reg, meanwhile s.clients_do σ)
    else if s.readable
    then (do
      served ← handle_client_request s.kernel s.received s.send reg (meanwhile s.clients_do σ)
      gone ← is_gone c served.result
      ok (gone, served.registry, served.shared))
    else ok (false, reg, meanwhile s.clients_do σ)

-- The turns of the connections from the index `i`, and the indices that are to be removed.
unfoldable pub serve :
    Errno → ℕ → List Slot → Registry → Shared → Result Condition (List ℕ × Registry × Shared)
unfolding turn
serve c i [] reg σ = ok ([], reg, σ)
serve c i (s ∷ slots) reg σ = do
  (gone, reg', σ') ← turn c s reg σ
  (to_remove, reg'', σ'') ← serve c (suc i) slots reg' σ'
  ok (if gone then i ∷ to_remove else to_remove, reg'', σ'')

-- What one cycle meets: the errno of a failed poll, the listener's readiness, the accepts, the
-- connections in the order of the table, the words at the end, and the three readings of the clock.
pub record Cycle : Type 0 where
  pub poll_errno : Option ℕ
  pub listener : Bool
  pub accepts : List AcceptEvent
  pub slots : List Slot
  pub clients_do : (ℕ → Interlock) → ℕ → Interlock
  pub now : ℕ
  pub now_ns : ℕ
  pub arm_now : ℕ

-- `poll` failed, with another error than EINTR.
abbrev pub poll_fails : ℕ → Option ℕ → Option ℕ
poll_fails eintr none = none
poll_fails eintr (some errno) = if errno == eintr then none else some errno

-- The rest of the cycle, with the connections after the accepts.
unfoldable pub finish_cycle : Errno → Cycle → List ℕ → State → Result StartupError (List ℕ × State)
unfolding serve remove_clients advance
finish_cycle c y clients s = do
  (to_remove, reg, σ) ← map_err allocation (serve c 0 y.slots s.registry s.shared)
  clients' ← remove_clients to_remove clients
  (reg', σ') ←
      map_err allocation
        (advance s.clock_handle y.now y.now_ns y.arm_now reg (meanwhile y.clients_do σ))
  ok (clients', record s { registry = reg'; shared = σ' })

-- A cycle; `none` when the accept loop has not come to an end.
unfoldable pub daemon_cycle :
    Errno → ℕ → Cycle → List ℕ → State → Option (Result StartupError (List ℕ × State))
unfolding accept_loop finish_cycle
daemon_cycle c eintr y clients s = elim (poll_fails eintr y.poll_errno) [
  | some errno ↦ some (err (event_loop_failed errno))
  | none ↦ elim (if y.listener then accept_loop y.accepts clients else some clients) [
    | none ↦ none
    | some clients' ↦ some (finish_cycle c y clients' s)
  ]
]
