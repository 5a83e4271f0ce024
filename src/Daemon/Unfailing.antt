-- ===== src/Daemon/Unfailing.antt =====
-- The parts of a cycle that return no error: each error of a request becomes a message or a removal.
use abacus_rts.Base.{
  ℕ, zero, suc, map_err, ◌/◌, inl, inr, Option, some, List, [], ◌∷◌, Result, ok, err, panic,
  Unfailing, Unfailing-bind, Unfailing-map_err, Unfailing-if, Option-cases,
}
use abacus_rts.Base.Map
use abacus_rts.Core.Clock.{nanos_per_ms}
use abacus_rts.Core.Error.{
  Condition, TransportError, protocol, io, connection_closed, would_block, socket_path_occupied,
  StartupError, allocation,
}
use abacus_rts.Core.Interlock.Words.{Shared, WatchedWord, store, futex_wake}
use abacus_rts.Core.Interlock.Create.{Kernel, interlock_dup_fd}
use abacus_rts.Wire.Message.{
  Request, create_interlock, attach_interlock, Response, created, attached,
}
use abacus_rts.Registry.Entry.{Registry, refresh_clock_expiration}
use abacus_rts.Registry.Create.{CreateArgs, create}
use abacus_rts.Registry.Evaluate.{evaluate_all}
use abacus_rts.Daemon.Request.{
  Errno, Handled, Served, error_reply, map_condition_to_response, tier_of, args_of, reply_with_fd,
  handle_create, handle_attach, handle_request, handle_client_request, sent_result,
}
use abacus_rts.Registry.Unfailing.{evaluate_all-Unfailing, refresh_clock_expiration-Unfailing}
use abacus_rts.Daemon.Cycle.{advance}
use abacus_rts.Daemon.Table.{sort_unstable, dedup, remove_at, remove_reverse, remove_clients}
use abacus_rts.Daemon.Reach.{State}
use abacus_rts.Daemon.Loop.{Slot, Cycle, meanwhile, is_gone, turn, serve, finish_cycle}

reply_with_fd-Unfailing :
    (k : Kernel) (resp : Response) (h : ℕ) (reg : Registry) (σ : Shared)
    → Unfailing (reply_with_fd k resp h reg σ)
unfolding reply_with_fd interlock_dup_fd
reply_with_fd-Unfailing k resp h reg σ = elim (Option-cases k.dup_errno) [
  | inl q ↦ rw (q, reply_with_fd) tt
  | inr (errno, q) ↦ rw (q, reply_with_fd) tt
]

handle_create-Unfailing :
    (k : Kernel) (a : CreateArgs) (reg : Registry) (σ : Shared)
    → Unfailing (handle_create k a reg σ)
unfolding handle_create
handle_create-Unfailing k a reg σ = go (create k a reg σ)
  where
    go :
        (made : Result Condition ((ℕ × ℕ) × Registry × Shared))
        → Unfailing (elim made as (λ r. Result Condition Handled) [
          | ok ((id, h), reg', σ') ↦ reply_with_fd k (created id) h reg' σ'
          | err e ↦ ok (error_reply (map_condition_to_response e) reg σ)
          | panic ↦ panic
        ])
    go (ok ((id, h), reg', σ')) = reply_with_fd-Unfailing k (created id) h reg' σ'
    go (err e) = tt
    go panic = tt

handle_request-Unfailing :
    (k : Kernel) (r : Request) (reg : Registry) (σ : Shared) → Unfailing (handle_request k r reg σ)
unfolding handle_request handle_attach
handle_request-Unfailing k (create_interlock r) reg σ = elim (Option-cases (tier_of r.tier)) [
  | inl q ↦ rw (q, handle_request) tt
  | inr (t, q) ↦ rw (q, handle_request) (handle_create-Unfailing k (args_of r t) reg σ)
]
handle_request-Unfailing k (attach_interlock name) reg σ =
    elim (Option-cases (Map.get name reg.by_name)) [
      | inl q ↦ rw (q, handle_request, handle_attach) tt
      | inr (f, q) ↦
          rw (q, handle_request, handle_attach)
            (reply_with_fd-Unfailing k (attached f.id) f.handle reg σ)
    ]

handle_client_request-Unfailing :
    (k : Kernel) (received : Result TransportError Request)
    (send : Response → Option ℕ → Result TransportError (Unit {0})) (reg : Registry) (σ : Shared)
    → Unfailing (handle_client_request k received send reg σ)
unfolding handle_client_request
handle_client_request-Unfailing k panic send reg σ = tt
handle_client_request-Unfailing k (err would_block) send reg σ = tt
handle_client_request-Unfailing k (err (protocol fault)) send reg σ = tt
handle_client_request-Unfailing k (err (io operation errno)) send reg σ = tt
handle_client_request-Unfailing k (err connection_closed) send reg σ = tt
handle_client_request-Unfailing k (err (socket_path_occupied path live)) send reg σ = tt
handle_client_request-Unfailing k (ok req) send reg σ =
    go (handle_request k req reg σ) (handle_request-Unfailing k req reg σ)
  where
    go :
        (r : Result Condition Handled)
        → Unfailing r
        → Unfailing (elim r as (λ x. Result Condition Served) [
          | ok h ↦ ok (record {
            message = some (h.response, h.fd);
            result = sent_result h.propagates (send h.response h.fd);
            registry = h.registry;
            shared = h.shared;
          })
          | err e ↦ err e
          | panic ↦ panic
        ])
    go (ok h) u = tt
    go (err e) u = absurd u
    go panic u = tt

is_gone-Unfailing : (c : Errno) (r : Result TransportError (Unit {0})) → Unfailing (is_gone c r)
is_gone-Unfailing c (ok u) = tt
is_gone-Unfailing c (err e) = tt
is_gone-Unfailing c panic = tt

turn-Unfailing : (c : Errno) (s : Slot) (reg : Registry) (σ : Shared) → Unfailing (turn c s reg σ)
unfolding turn
turn-Unfailing c s reg σ = Unfailing-if s.hangup _ _ tt (
    Unfailing-if s.readable _ _
      (Unfailing-bind
        (handle_client_request s.kernel s.received s.send reg (meanwhile s.clients_do σ)) _
        (handle_client_request-Unfailing s.kernel s.received s.send reg (meanwhile s.clients_do σ))
        λ v. Unfailing-bind (is_gone c v.result) _ (is_gone-Unfailing c v.result) λ gone. tt)
      tt)

serve-Unfailing :
    (c : Errno) (i : ℕ) (slots : List Slot) (reg : Registry) (σ : Shared)
    → Unfailing (serve c i slots reg σ)
unfolding serve
serve-Unfailing c i [] reg σ = tt
serve-Unfailing c i (s ∷ slots) reg σ =
    Unfailing-bind (turn c s reg σ) _ (turn-Unfailing c s reg σ) λ t.
      Unfailing-bind (serve c (suc i) slots t.1 t.2) _ (serve-Unfailing c (suc i) slots t.1 t.2)
        λ u. tt

advance-Unfailing :
    (clock_handle now now_ns arm_now : ℕ) (reg : Registry) (σ : Shared)
    → Unfailing (advance clock_handle now now_ns arm_now reg σ)
unfolding advance
advance-Unfailing clock_handle now now_ns arm_now reg σ =
    let σ₁ : Shared =
      store clock_handle (record (σ.regions clock_handle) { open_count = now / nanos_per_ms }) σ in
    Unfailing-bind (evaluate_all now_ns (now / nanos_per_ms) reg σ₁) _
      (evaluate_all-Unfailing now_ns (now / nanos_per_ms) reg σ₁)
      λ r.
        let σ₃ : Shared = futex_wake clock_handle WatchedWord.open_count r.1 in
        Unfailing-bind (refresh_clock_expiration arm_now r.0 σ₃) (λ σ₄. ok (r.0, σ₄))
          (refresh_clock_expiration-Unfailing arm_now r.0 σ₃) λ σ₄. tt

remove_at-Unfailing :
    {C : Type 0} (i : ℕ) (cs : List C) → Unfailing (remove_at {E = StartupError} i cs)
unfolding remove_at
remove_at-Unfailing i [] = tt
remove_at-Unfailing zero (c ∷ cs) = tt
remove_at-Unfailing (suc i) (c ∷ cs) =
    Unfailing-bind (remove_at {E = StartupError} i cs) _ (remove_at-Unfailing i cs) λ rest. tt

remove_reverse-Unfailing :
    {C : Type 0} (is : List ℕ) (cs : List C) → Unfailing (remove_reverse {E = StartupError} is cs)
unfolding remove_reverse
remove_reverse-Unfailing [] cs = tt
remove_reverse-Unfailing (i ∷ is) cs =
    Unfailing-bind (remove_reverse {E = StartupError} is cs) _ (remove_reverse-Unfailing is cs)
      λ cs'. remove_at-Unfailing i cs'

pub finish_cycle-Unfailing :
    (c : Errno) (y : Cycle) (clients : List ℕ) (s : State) → Unfailing (finish_cycle c y clients s)
unfolding finish_cycle remove_clients
finish_cycle-Unfailing c y clients s =
    Unfailing-bind (map_err allocation (serve c 0 y.slots s.registry s.shared)) _
      (Unfailing-map_err allocation _ (serve-Unfailing c 0 y.slots s.registry s.shared))
      λ t.
        Unfailing-bind (remove_clients {E = StartupError} t.0 clients) _
          (remove_reverse-Unfailing (dedup (sort_unstable t.0)) clients)
          λ clients'.
            let σ : Shared = meanwhile y.clients_do t.2 in
            Unfailing-bind
              (map_err allocation (advance s.clock_handle y.now y.now_ns y.arm_now t.1 σ)) _
              (Unfailing-map_err allocation _
                (advance-Unfailing s.clock_handle y.now y.now_ns y.arm_now t.1 σ))
              λ u. tt
