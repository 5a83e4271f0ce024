-- ===== src/Daemon/Turns.antt =====
-- What the turns of the connections do to the state.
use abacus_rts.Base.{
  ℕ, suc, ◌+◌, ◌^◌, ◌≤◌, ◌<◌, ◌≡◌, ◌≢◌, refl, ap, ◌∙◌, inl, inr, Bool, true, false, Option, List,
  [], ◌∷◌, length, if◌then◌else◌, Result, ok, err, panic, All, Result-cases, Yields-ne-panic,
  Yields, Yields-eq-ok, yields, fails, Yields-bind, Bool-cases, NoPanic, Yields-both,
  Yields-Ensures, arith,
}
use abacus_rts.Core.Error.{
  TransportError, would_block, protocol, io, connection_closed, socket_path_occupied,
}
use abacus_rts.Core.Interlock.Words.{Interlock, Shared}
use abacus_rts.Core.Interlock.Create.{Kernel}
use abacus_rts.Wire.Message.{Request, Response}
use abacus_rts.Registry.Entry.{Registry}
use abacus_rts.Daemon.Request.{
  Errno, Handled, Served, handle_request, handle_client_request, sent_result,
}
use abacus_rts.Registry.Created.{create-Created}
use abacus_rts.Daemon.Outcome.{handle_request-Outcome}
use abacus_rts.Daemon.Table.{marked}
use abacus_rts.Daemon.Reach.{
  State, request, clients, Reachable, next, Reachable-NoPanic, Reachable-Inv,
}
use abacus_rts.Daemon.Departs.{Took, TookAll, done, next, turn-Took}
use abacus_rts.Daemon.Loop.{Slot, meanwhile, is_gone, turn, serve}

-- The state of the daemon after a part of a cycle, whose ids are at most `bound`.
pub record Follows (s : State) (bound : ℕ) (reg : Registry) (σ : Shared) : Type 0 where
  pub reachable : Reachable (record s { registry = reg; shared = σ })
  pub ids : reg.next_id ≤ bound

-- A create uses one id.
handle_request-next_id :
    (k : Kernel) (r : Request) (s : State) (h : Handled)
    → Reachable s
    → handle_request k r s.registry s.shared ≡ ok h
    → h.registry.next_id ≤ s.registry.next_id + 1
handle_request-next_id k r s h reach e = elim (handle_request-Outcome k r s.registry s.shared h e) [
  | inl (same, _) ↦ rw same (omega arith)
  | inr (a, p, made, x, y) ↦
      let done =
        Yields-eq-ok (create-Created k a s.registry s.shared (Reachable-Inv reach).valid) made in
      rw (x, done.counted) (omega arith)
]

pub clients-Reachable :
    (s : State) (clients_do : (ℕ → Interlock) → ℕ → Interlock)
    → Reachable s
    → Reachable (record s { shared = meanwhile clients_do s.shared })
clients-Reachable s clients_do r = next r (clients (clients_do s.shared.regions) refl)

-- The calls on a connection return.
abbrev pub Returns : Slot → Type 0
Returns slot =
    (slot.received ≢ panic) × ((resp : Response) (fd : Option ℕ) → slot.send resp fd ≢ panic)

-- What a request leaves, in a state with an id left.
abbrev Turned : State → Served → Type 0
Turned s v = Follows s (s.registry.next_id + 1) v.registry v.shared × (v.result ≢ panic)

unchanged : (s : State) → Reachable s → Follows s (s.registry.next_id + 1) s.registry s.shared
unchanged s r = record { reachable = r; ids = omega arith }

sent-ne-panic :
    (b : Bool) (r : Result TransportError (Unit {0})) → r ≢ panic → sent_result b r ≢ panic
sent-ne-panic true r h = h
sent-ne-panic false r h = λ q. cc

handle_client_request-Turned :
    (slot : Slot) (received : Result TransportError Request) (s : State)
    → received ≢ panic
    → ((resp : Response) (fd : Option ℕ) → slot.send resp fd ≢ panic)
    → Reachable s
    → s.registry.next_id + 1 < 2 ^ 64
    → Yields (Turned s) (handle_client_request slot.kernel received slot.send s.registry s.shared)
unfolding handle_client_request
handle_client_request-Turned slot panic s np sends r room = absurd (np refl)
handle_client_request-Turned slot (err would_block) s np sends r room =
    yields (unchanged s r, λ q. cc)
handle_client_request-Turned slot (err (protocol fault)) s np sends r room =
    yields (unchanged s r, λ q. cc)
handle_client_request-Turned slot (err (io operation errno)) s np sends r room =
    yields (unchanged s r, λ q. cc)
handle_client_request-Turned slot (err connection_closed) s np sends r room =
    yields (unchanged s r, λ q. cc)
handle_client_request-Turned slot (err (socket_path_occupied path live)) s np sends r room =
    yields (unchanged s r, λ q. cc)
handle_client_request-Turned slot (ok req) s np sends r room =
    elim (Result-cases (handle_request slot.kernel req s.registry s.shared)
      (Yields-ne-panic (Reachable-NoPanic slot.kernel req 0 0 0 r).0)) [
        | inl (h, e) ↦
            rw (e, handle_client_request)
              (yields (
                record {
                  reachable = next r (request slot.kernel req h room e refl);
                  ids = handle_request-next_id slot.kernel req s h r e;
                },
                sent-ne-panic h.propagates (slot.send h.response h.fd) (sends h.response h.fd),
              ))
        | inr (c, e) ↦ rw (e, handle_client_request) fails
      ]

is_gone-Yields :
    (c : Errno) (r : Result TransportError (Unit {0})) → r ≢ panic → NoPanic (is_gone c r)
is_gone-Yields c (ok u) h = yields tt
is_gone-Yields c (err e) h = yields tt
is_gone-Yields c panic h = absurd (h refl)

turn-Follows :
    (c : Errno) (slot : Slot) (s : State)
    → Returns slot
    → Reachable s
    → s.registry.next_id + 1 < 2 ^ 64
    → Yields (λ r. Follows s (s.registry.next_id + 1) r.1 r.2) (turn c slot s.registry s.shared)
unfolding turn
turn-Follows c slot s back r room =
    let s' : State = record s { shared = meanwhile slot.clients_do s.shared } in
    let r' : Reachable s' = clients-Reachable s slot.clients_do r in
    elim (Bool-cases slot.hangup) [
      | inl up ↦ rw up (yields (record { reachable = r'; ids = omega arith }))
      | inr on ↦ rw on (elim (Bool-cases slot.readable) [
        | inl ready ↦ rw ready (
            Yields-bind (handle_client_request-Turned slot slot.received s' back.0 back.1 r' room)
              λ v done.
                Yields-bind (is_gone-Yields c v.result done.1)
                  λ gone u. yields (record { reachable = done.0.reachable; ids = done.0.ids }))
        | inr quiet ↦ rw quiet (yields (record { reachable = r'; ids = omega arith }))
      ])
    ]

-- The turn, with its mark.
turn-Turned :
    (c : Errno) (slot : Slot) (s : State)
    → Returns slot
    → Reachable s
    → s.registry.next_id + 1 < 2 ^ 64
    → Yields
        (λ r.
          Follows s (s.registry.next_id + 1) r.1 r.2 × Took c slot s.registry s.shared r.0 r.1 r.2)
        (turn c slot s.registry s.shared)
turn-Turned c slot s back r room =
    let follows = turn-Follows c slot s back r room in
    Yields-both follows (
      Yields-Ensures (turn c slot s.registry s.shared) follows
        (turn-Took c slot s.registry s.shared))

-- What the turns leave: the indices are those of the marks of the turns, one for each connection.
pub record ServedAll (c : Errno) (s : State) (i : ℕ) (slots : List Slot)
    (r : List ℕ × Registry × Shared) : Type 0 where
  pub marks : List Bool
  pub turns : TookAll c slots s.registry s.shared marks r.1 r.2
  pub one_each : length marks ≡ length slots
  pub indices : r.0 ≡ marked i marks
  pub follows : Follows s (s.registry.next_id + length slots) r.1 r.2

marked-if :
    (gone : Bool) (i : ℕ) (marks : List Bool)
    → (if gone then i ∷ marked (suc i) marks else marked (suc i) marks) ≡ marked i (gone ∷ marks)
marked-if true i marks = refl
marked-if false i marks = refl

pub serve-ServedAll :
    (c : Errno) (i : ℕ) (slots : List Slot) (s : State)
    → All Returns slots
    → Reachable s
    → s.registry.next_id + length slots < 2 ^ 64
    → Yields (ServedAll c s i slots) (serve c i slots s.registry s.shared)
unfolding serve
serve-ServedAll c i [] s back r room = yields (record {
  marks = [];
  turns = done;
  one_each = refl;
  indices = refl;
  follows = record { reachable = r; ids = omega arith };
})
serve-ServedAll c i (slot ∷ slots) s back r room =
    Yields-bind (turn-Turned c slot s back.0 r (omega arith)) λ t (first, took).
      Yields-bind
        (serve-ServedAll c (suc i) slots (record s { registry = t.1; shared = t.2 }) back.1
          first.reachable (omega (arith, first.ids, room)))
        λ u rest. yields (record {
          marks = t.0 ∷ rest.marks;
          turns = next took rest.turns;
          one_each = ap suc rest.one_each;
          indices =
              ap (λ (is : List ℕ). if t.0 then i ∷ is else is) rest.indices
              ∙ marked-if t.0 i rest.marks;
          follows = record {
            reachable = rest.follows.reachable;
            ids = omega (arith, rest.follows.ids, first.ids);
          };
        })
