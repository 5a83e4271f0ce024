-- ===== src/Daemon/Outcome.antt =====
-- The state that a request leaves: as before, or as `create` leaves it.
use abacus_rts.Base.{ℕ, ◌≡◌, refl, ◌⊎◌, inl, inr, Result, ok, err, panic, Option-cases, arith}
use abacus_rts.Base.Map
use abacus_rts.Core.Error.{Condition}
use abacus_rts.Core.Interlock.Words.{Shared}
use abacus_rts.Core.Interlock.Create.{Kernel, interlock_dup_fd}
use abacus_rts.Wire.Message.{
  Response, created, attached, Request, create_interlock, attach_interlock,
}
use abacus_rts.Registry.Entry.{Registry}
use abacus_rts.Registry.Create.{CreateArgs, create}
use abacus_rts.Daemon.Request.{
  Handled, error_reply, map_condition_to_response, handle_request, handle_create, handle_attach,
  reply_with_fd, tier_of, args_of,
}

reply_with_fd-state :
    (k : Kernel) (resp : Response) (fd : ℕ) (reg : Registry) (σ : Shared) (h : Handled)
    → reply_with_fd k resp fd reg σ ≡ ok h
    → (h.registry ≡ reg) × (h.shared ≡ σ)
unfolding reply_with_fd interlock_dup_fd
reply_with_fd-state k resp fd reg σ h e = ground arith

abbrev pub Outcome : Kernel → Registry → Shared → Handled → Type 0
Outcome k reg σ h =
    ((h.registry ≡ reg) × (h.shared ≡ σ))
    ⊎ ((a : CreateArgs) × (p : (ℕ × ℕ) × Registry × Shared) × (create k a reg σ ≡ ok p)
        × (h.registry ≡ p.1)
        × (h.shared ≡ p.2))

handle_create-Outcome :
    (k : Kernel) (a : CreateArgs) (reg : Registry) (σ : Shared) (h : Handled)
    → handle_create k a reg σ ≡ ok h
    → Outcome k reg σ h
unfolding handle_create
handle_create-Outcome k a reg σ h e = go (create k a reg σ) refl e
  where
    go :
        (made : Result Condition ((ℕ × ℕ) × Registry × Shared))
        → create k a reg σ ≡ made
        → elim made [
          | ok ((id, fd), reg', σ') ↦ reply_with_fd k (created id) fd reg' σ'
          | err e ↦ ok (error_reply (map_condition_to_response e) reg σ)
          | panic ↦ panic
        ]
          ≡ ok h
        → Outcome k reg σ h
    go (ok ((id, fd), reg', σ')) q r =
        let (x, y) = reply_with_fd-state k (created id) fd reg' σ' h r in
        inr (a, ((id, fd), reg', σ'), q, x, y)
    go (err c) q r = inl (ground arith)
    go panic q r = cc

-- A request that is handled leaves the registry and the memory as they were, or as a successful
-- create leaves them.
pub handle_request-Outcome :
    (k : Kernel) (request : Request) (reg : Registry) (σ : Shared) (h : Handled)
    → handle_request k request reg σ ≡ ok h
    → Outcome k reg σ h
unfolding handle_request handle_attach
handle_request-Outcome k (create_interlock r) reg σ h e = elim (Option-cases (tier_of r.tier)) [
  | inl q ↦ inl (ground arith)
  | inr (t, q) ↦ handle_create-Outcome k (args_of r t) reg σ h (rw (q, handle_request) at e)
]
handle_request-Outcome k (attach_interlock name) reg σ h e =
    elim (Option-cases (Map.get name reg.by_name)) [
      | inl q ↦ inl (ground arith)
      | inr (f, q) ↦ inl (
          reply_with_fd-state k (attached f.id) f.handle reg σ h
            (rw (q, handle_request, handle_attach) at e))
    ]
