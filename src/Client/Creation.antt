-- ===== src/Client/Creation.antt =====
-- A create from the request to the client's handle.
use abacus_rts.Base.{
  ℕ, ◌≡◌, refl, sym, subst, inl, inr, [], Result, ok, err, panic, Yields-eq-ok, Option-cases,
  ok-injective,
}
use abacus_rts.Base.Text.{Str, str}
use abacus_rts.Core.Error.{Condition}
use abacus_rts.Core.Interlock.Words.{Shared}
use abacus_rts.Core.Interlock.Create.{Kernel}
use abacus_rts.Wire.Message.{
  CreateInterlock, create_interlock, Response, created, response_invalid_request,
}
use abacus_rts.Registry.Entry.{Registry, attach}
use abacus_rts.Registry.Create.{CreateArgs, create}
use abacus_rts.Registry.Invariant.{IsValid}
use abacus_rts.Registry.Created.{create-Created}
use abacus_rts.Daemon.Request.{
  Handled, handle_request, handle_create, reply_with_fd, error_reply, map_condition_to_response,
  tier_of, args_of,
}
use abacus_rts.Client.Types.{SdkError, sdk_invalid_request}
use abacus_rts.Client.Answers.{
  answer_to_create, fds_of, reply_with_fd-answer, answer-map_condition_to_response,
}

-- The client's handle is the new region, which the name now leads to.
abbrev pub Obtains : Str → Registry → Shared → ℕ → Type 0
Obtains name reg' σ handle =
    (id : ℕ) × (attach name reg' ≡ ok (id, handle)) × (handle ≡ σ.next_region)

answer-response_invalid_request :
    (k : Kernel) (m : Str)
    → answer_to_create k (response_invalid_request m) [] ≡ err (sdk_invalid_request m)
unfolding answer_to_create response_invalid_request
answer-response_invalid_request k m = refl

-- A client that gets an error's message returns no handle.
refused :
    (k : Kernel) (resp : Response) {e : SdkError} {reg : Registry} {σ : Shared} {h : Handled}
    {handle : ℕ}
    → answer_to_create k resp [] ≡ err e
    → ◌≡◌ {A = Result Condition Handled} (ok (error_reply resp reg σ)) (ok h)
    → answer_to_create k h.response (fds_of h.fd) ≡ ok handle
    → ⊥
refused k resp {handle = handle} answers reply q =
    let back : answer_to_create k resp [] ≡ ok handle =
      subst (λ h. answer_to_create k h.response (fds_of h.fd) ≡ ok handle)
        (sym (ok-injective reply)) q in
    cc (answers, back)

module _ (kd kc : Kernel) (reg : Registry) (σ : Shared) (v : IsValid reg σ.next_region) where
  handle_create-answer_to_create :
      (a : CreateArgs) {h : Handled} {handle : ℕ}
      → handle_create kd a reg σ ≡ ok h
      → answer_to_create kc h.response (fds_of h.fd) ≡ ok handle
      → Obtains a.name h.registry σ handle
  unfolding handle_create
  handle_create-answer_to_create a {h} {handle} e q = go (create kd a reg σ) refl e
    where
      go :
          (made : Result Condition ((ℕ × ℕ) × Registry × Shared))
          → create kd a reg σ ≡ made
          → elim made [
            | ok ((id, fd), reg', σ') ↦ reply_with_fd kd (created id) fd reg' σ'
            | err c ↦ ok (error_reply (map_condition_to_response c) reg σ)
            | panic ↦ panic
          ]
            ≡ ok h
          → Obtains a.name h.registry σ handle
      go (ok ((id, fd), reg', σ')) made reply =
          let (same, registry) = reply_with_fd-answer kd kc id fd reg' σ' reply q in
          let done = Yields-eq-ok (create-Created kd a reg σ v) made in
          rw (same, registry) (id, done.attaches, done.new_region)
      go (err c) made reply = absurd (
          refused kc (map_condition_to_response c) (answer-map_condition_to_response kc c []).0
            reply q)
      go panic made reply = cc

  -- When a client's create returns a handle, whatever happened in the daemon's kernel and its own,
  -- a valid registry has registered a new interlock under the name, and the handle is that one's
  -- region.
  pub handle_request-answer_to_create :
      (r : CreateInterlock) {h : Handled} {handle : ℕ}
      → handle_request kd (create_interlock r) reg σ ≡ ok h
      → answer_to_create kc h.response (fds_of h.fd) ≡ ok handle
      → Obtains r.name h.registry σ handle
  unfolding handle_request
  handle_request-answer_to_create r {h} {handle} e q = elim (Option-cases (tier_of r.tier)) [
    | inl unknown ↦ absurd (
        refused kc (response_invalid_request (str "invalid tier"))
          (answer-response_invalid_request kc (str "invalid tier"))
          (rw (unknown, handle_request) at e) q)
    | inr (t, known) ↦
        handle_create-answer_to_create (args_of r t) (rw (known, handle_request) at e) q
  ]
