-- ===== src/Daemon/Replies.antt =====
-- What a client gets for its request.
use abacus_rts.Base.{
  ℕ, ◌≡◌, refl, sym, inl, inr, Option, none, some, Result, ok, err, panic, Yields, yields,
  Yields-ne-panic, Option-cases,
}
use abacus_rts.Base.Text.{Str}
use abacus_rts.Base.Map
use abacus_rts.Core.Error.{Condition, interlock_not_found}
use abacus_rts.Core.Interlock.Words.{Shared}
use abacus_rts.Core.Interlock.Create.{Kernel, interlock_dup_fd}
use abacus_rts.Wire.Message.{
  Request, create_interlock, attach_interlock, Response, created, attached, expected_fd_count,
}
use abacus_rts.Registry.Entry.{Registry}
use abacus_rts.Registry.Create.{CreateArgs, create}
use abacus_rts.Registry.Invariant.{IsValid}
use abacus_rts.Registry.Created.{Created, create-Created}
use abacus_rts.Daemon.Request.{
  Handled, error_reply, map_condition_to_response, tier_of, args_of, reply_with_fd, handle_create,
  handle_attach, handle_request,
}

abbrev pub fd_count : Option ℕ → ℕ
fd_count none = 0
fd_count (some fd) = 1

-- The message carries as many descriptors as the receiver expects of it.
abbrev pub IsBalanced : Handled → Type 0
IsBalanced h = fd_count h.fd ≡ expected_fd_count h.response

map_condition-no_fd : (e : Condition) → expected_fd_count (map_condition_to_response e) ≡ 0
unfolding map_condition_to_response expected_fd_count
map_condition-no_fd Condition.interlock_reaped = refl
map_condition-no_fd (interlock_not_found name) = refl
map_condition-no_fd (Condition.allocation_failed failed errno) = refl
map_condition-no_fd (Condition.invalid_request message) = refl

reply_with_fd-IsBalanced :
    (k : Kernel) (resp : Response) (h : ℕ) (reg : Registry) (σ : Shared)
    → expected_fd_count resp ≡ 1
    → Yields IsBalanced (reply_with_fd k resp h reg σ)
unfolding reply_with_fd interlock_dup_fd expected_fd_count
reply_with_fd-IsBalanced k resp h reg σ one = elim (Option-cases k.dup_errno) [
  | inl q ↦ rw (q, reply_with_fd) (yields (sym one))
  | inr (errno, q) ↦ rw (q, reply_with_fd) (yields refl)
]

handle_create-IsBalanced :
    (k : Kernel) (a : CreateArgs) (reg : Registry) (σ : Shared)
    → IsValid reg σ.next_region
    → Yields IsBalanced (handle_create k a reg σ)
unfolding handle_create
handle_create-IsBalanced k a reg σ v = go (create k a reg σ) (create-Created k a reg σ v)
  where
    go :
        (made : Result Condition ((ℕ × ℕ) × Registry × Shared))
        → Yields (Created a reg σ) made
        → Yields IsBalanced (elim made [
          | ok ((id, h), reg', σ') ↦ reply_with_fd k (created id) h reg' σ'
          | err e ↦ ok (error_reply (map_condition_to_response e) reg σ)
          | panic ↦ panic
        ])
    go (ok ((id, h), reg', σ')) y =
        reply_with_fd-IsBalanced k (created id) h reg' σ' (unfold expected_fd_count in refl)
    go (err e) y = yields (sym (map_condition-no_fd e))
    go panic y = absurd (Yields-ne-panic y refl)

handle_attach-IsBalanced :
    (k : Kernel) (name : Str) (reg : Registry) (σ : Shared)
    → Yields IsBalanced (handle_attach k name reg σ)
unfolding handle_attach
handle_attach-IsBalanced k name reg σ = elim (Option-cases (Map.get name reg.by_name)) [
  | inl q ↦ rw (q, handle_attach) (yields (sym (map_condition-no_fd (interlock_not_found name))))
  | inr (e, q) ↦
      rw (q, handle_attach)
        (reply_with_fd-IsBalanced k (attached e.id) e.handle reg σ
          (unfold expected_fd_count in refl))
]

-- With a valid registry a request does not make the daemon panic, and the reply carries exactly as
-- many descriptors as the receiver expects of that message.
pub handle_request-IsBalanced :
    (k : Kernel) (request : Request) (reg : Registry) (σ : Shared)
    → IsValid reg σ.next_region
    → Yields IsBalanced (handle_request k request reg σ)
unfolding handle_request expected_fd_count
handle_request-IsBalanced k (create_interlock r) reg σ v = elim (Option-cases (tier_of r.tier)) [
  | inl q ↦ rw (q, handle_request) (yields refl)
  | inr (t, q) ↦ rw (q, handle_request) (handle_create-IsBalanced k (args_of r t) reg σ v)
]
handle_request-IsBalanced k (attach_interlock name) reg σ v = handle_attach-IsBalanced k name reg σ
