-- ===== src/Daemon/Cycles.antt =====
-- What a cycle of the event loop does to the state and to the table of connections.
use mathlib.Core.List.{append_assoc, append-nil}
use abacus_rts.Base.{
  Any, ◌≢◌, ◌==◌, ℕ, ◌+◌, ◌^◌, ◌<◌, ◌≡◌, refl, sym, ap, ◌∙◌, inl, inr, Bool, true, false, Option,
  none, some, List, [], ◌∷◌, ◌++◌, length, length-append, if◌then◌else◌, Result, ok, err, map_err,
  All, Result-cases, Yields-ne-panic, Yields-Unfailing, ◌⊎◌, Yields, Yields-of-eq, Yields-of-err,
  yields, fails, Yields-bind, Bool-cases, arith,
}
use abacus_rts.Core.Error.{StartupError, allocation, event_loop_failed}
use abacus_rts.Daemon.Request.{Errno}
use abacus_rts.Daemon.Cycle.{advance}
use abacus_rts.Daemon.Table.{unmarked, remove_clients, remove_clients-unmarked, unmarked-append}
use abacus_rts.Daemon.Reach.{State, cycle, Reachable, next, Reachable-Inv, advance-Inv}
use abacus_rts.Daemon.Unfailing.{finish_cycle-Unfailing}
use abacus_rts.Daemon.Loop.{
  AcceptEvent, connection, no_more, accept_failed, accept_loop, meanwhile, Cycle, poll_fails,
  finish_cycle, daemon_cycle,
}
use abacus_rts.Daemon.Departs.{TookAll}
use abacus_rts.Core.Interlock.Words.{Shared}
use abacus_rts.Registry.Entry.{Registry}
use abacus_rts.Daemon.Turns.{Returns, serve-ServedAll, clients-Reachable}

-- The accept loop ends with this event.
abbrev pub EndsAccepts : AcceptEvent → Type 0
EndsAccepts (connection conn nonblocking) = ⊥
EndsAccepts no_more = Unit {0}
EndsAccepts (accept_failed errno) = Unit {0}

-- The connections before that which could be set to non-blocking.
abbrev pub accepted : List AcceptEvent → List ℕ
accepted [] = []
accepted (connection conn true ∷ es) = conn ∷ accepted es
accepted (connection conn false ∷ es) = accepted es
accepted (no_more ∷ es) = []
accepted (accept_failed errno ∷ es) = []

accept_loop-accepted :
    (es : List AcceptEvent) (before : List ℕ)
    → Any EndsAccepts es
    → accept_loop es before ≡ some (before ++ accepted es)
unfolding accept_loop
accept_loop-accepted [] before h = absurd h
accept_loop-accepted (no_more ∷ es) before h = ap some (sym (append-nil before))
accept_loop-accepted (accept_failed errno ∷ es) before h = ap some (sym (append-nil before))
accept_loop-accepted (connection conn true ∷ es) before (inr h) =
    accept_loop-accepted es (before ++ conn ∷ []) h
    ∙ ap some (append_assoc before (conn ∷ []) (accepted es))
accept_loop-accepted (connection conn false ∷ es) before (inr h) = accept_loop-accepted es before h
accept_loop-accepted (connection conn nonblocking ∷ es) before (inl h) = absurd h

accepting :
    (listener : Bool) (es : List AcceptEvent) (before : List ℕ)
    → (listener ≡ true → Any EndsAccepts es)
    → (if listener then accept_loop es before else some before)
      ≡ some (before ++ (if listener then accepted es else []))
accepting true es before h = accept_loop-accepted es before (h refl)
accepting false es before h = ap some (sym (append-nil before))

-- What a cycle leaves of the table and of the state: the connections take their turns, those that
-- are marked go, and the end of the cycle follows, behind the clients' writes.
pub record Cycled (c : Errno) (y : Cycle) (before added : List ℕ) (s : State) (r : List ℕ × State)
    : Type 0 where
  pub marks : List Bool
  pub registry : Registry
  pub shared : Shared
  pub turns : TookAll c y.slots s.registry s.shared marks registry shared
  pub table : r.0 ≡ unmarked marks before ++ added
  pub ends :
      advance s.clock_handle y.now y.now_ns y.arm_now registry (meanwhile y.clients_do shared)
      ≡ ok (r.1.registry, r.1.shared)
  pub same_clock : r.1.clock_handle ≡ s.clock_handle
  pub reachable : Reachable r.1

map_err-Yields :
    {E F A : Type 0} {P : A → Type 0} (f : E → F) {r : Result E A}
    → Yields P r
    → Yields P (map_err f r)
map_err-Yields f (yields p) = yields p
map_err-Yields f fails = fails

advance-Reachable :
    (s : State) (now now_ns arm_now : ℕ)
    → Reachable s
    → Yields
        (λ r.
          Reachable (record s { registry = r.0; shared = r.1 })
          × (advance s.clock_handle now now_ns arm_now s.registry s.shared ≡ ok r))
        (advance s.clock_handle now now_ns arm_now s.registry s.shared)
advance-Reachable s now now_ns arm_now r =
    elim (Result-cases (advance s.clock_handle now now_ns arm_now s.registry s.shared)
      (Yields-ne-panic (advance-Inv s now now_ns arm_now (Reachable-Inv r)))) [
        | inl ((reg, σ), e) ↦ Yields-of-eq e (next r (cycle now now_ns arm_now reg σ e refl), e)
        | inr (c, e) ↦ Yields-of-err e
      ]

finish_cycle-Cycled :
    (c : Errno) (y : Cycle) (before added : List ℕ) (s : State)
    → All Returns y.slots
    → length y.slots ≡ length before
    → Reachable s
    → s.registry.next_id + length y.slots < 2 ^ 64
    → Yields (Cycled c y before added s) (finish_cycle c y (before ++ added) s)
unfolding finish_cycle
finish_cycle-Cycled c y before added s back size r room =
    Yields-bind (map_err-Yields allocation (serve-ServedAll c 0 y.slots s back r room)) λ t all.
      let s' : State = record s { registry = t.1; shared = t.2 } in
      let removed : remove_clients {E = StartupError} t.0 (before ++ added)
          ≡ ok (unmarked all.marks before ++ added) =
        ap (λ is. remove_clients is (before ++ added)) all.indices
        ∙ remove_clients-unmarked all.marks (before ++ added)
            (omega (arith, length-append before added, all.one_each, size))
        ∙ ap ok (unmarked-append all.marks before added (all.one_each ∙ size)) in
      Yields-bind {P = λ cs. cs ≡ unmarked all.marks before ++ added} (Yields-of-eq removed refl)
        λ cs kept.
          Yields-bind
            (map_err-Yields allocation (
              advance-Reachable (record s' { shared = meanwhile y.clients_do t.2 }) y.now y.now_ns
                y.arm_now (clients-Reachable s' y.clients_do all.follows.reachable)))
            λ u reached. yields (record {
              marks = all.marks;
              registry = t.1;
              shared = t.2;
              turns = all.turns;
              table = kept;
              ends = reached.1;
              same_clock = refl;
              reachable = reached.0;
            })

-- The poll has not failed, but for an interruption.
abbrev pub IsPolled : ℕ → Option ℕ → Type 0
IsPolled eintr none = Unit {0}
IsPolled eintr (some errno) = errno ≡ eintr

poll_fails-cases :
    (eintr : ℕ) (o : Option ℕ)
    → ((errno : ℕ) × (o ≡ some errno) × (errno ≢ eintr) × (poll_fails eintr o ≡ some errno))
      ⊎ (IsPolled eintr o × (poll_fails eintr o ≡ none))
poll_fails-cases eintr none = inr (tt, refl)
poll_fails-cases eintr (some errno) = elim (Bool-cases (errno == eintr)) [
  | inl same ↦ inr (ground arith, rw same refl)
  | inr other ↦ inl (errno, refl, ground arith, rw other refl)
]

-- A cycle of the event loop in a reachable state, with one entry of the poll for each connection,
-- ids left for each of them, calls that return, and accepts that come to an end when the listener
-- is ready, returns: the error of a poll that has failed with another errno than EINTR; or else
-- the state behind the turns of the connections and the end of the cycle, which is reachable, with
-- the connections in order that have not hung up and met no error that ends a connection, and then
-- the ones accepted before that end that could be set to non-blocking.
pub daemon_cycle-Cycled :
    (c : Errno) (eintr : ℕ) (y : Cycle) (before : List ℕ) (s : State)
    → All Returns y.slots
    → length y.slots ≡ length before
    → Reachable s
    → s.registry.next_id + length y.slots < 2 ^ 64
    → (y.listener ≡ true → Any EndsAccepts y.accepts)
    → ((errno : ℕ) × (y.poll_errno ≡ some errno)
        × (errno ≢ eintr)
        × (daemon_cycle c eintr y before s ≡ some (err (event_loop_failed errno))))
      ⊎ (IsPolled eintr y.poll_errno
          × ((t : List ℕ × State) × (daemon_cycle c eintr y before s ≡ some (ok t))
              × Cycled c y before (if y.listener then accepted y.accepts else []) s t))
unfolding daemon_cycle
daemon_cycle-Cycled c eintr y before s back size reach room come =
    let added = if y.listener then accepted y.accepts else [] in
    let clients = accepting y.listener y.accepts before come in
    let (t, ends, cycled) =
      Yields-Unfailing (finish_cycle-Cycled c y before added s back size reach room)
        (finish_cycle-Unfailing c y (before ++ added) s) in
    elim (poll_fails-cases eintr y.poll_errno) [
      | inl (errno, q, other, failed) ↦ inl (errno, q, other, rw (failed, daemon_cycle) refl)
      | inr (polled, q) ↦ inr (polled, (t, rw (q, daemon_cycle, clients) (ap some ends), cycled))
    ]
