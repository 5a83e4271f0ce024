-- ===== src/Client/Answers.antt =====
-- The daemon's errors as a client gets to see them.
use abacus_rts.Base.{
  ℕ, ◌≡◌, refl, ◌++◌, Option, none, some, List, [], ◌∷◌, Result, ok, err, ◌>>=◌, map_err, arith,
}
use abacus_rts.Base.Text.{str}
use abacus_rts.Core.Error.{
  Condition, Condition_fmt, interlock_reaped, interlock_not_found, allocation_failed,
  invalid_request,
}
use abacus_rts.Wire.Message.{Response, created, attached, error}
use abacus_rts.Core.Interlock.Words.{Shared}
use abacus_rts.Core.Interlock.Create.{Kernel, interlock_open, interlock_dup_fd, mmap_interlock}
use abacus_rts.Registry.Entry.{Registry}
use abacus_rts.Daemon.Request.{Handled, reply_with_fd, map_condition_to_response}
use abacus_rts.Client.Types.{
  SdkError, sdk_interlock_reaped, sdk_interlock_not_found, sdk_allocation_failed,
  sdk_invalid_request, sdk_unexpected_response, sdk_mmap_failed, parse_daemon_error,
  extract_single_fd,
}

-- The mapping of a received descriptor.
unfoldable pub open_received : Kernel → List ℕ → Result SdkError ℕ
unfolding extract_single_fd interlock_open
open_received k fds = do
  fd ← extract_single_fd fds
  map_err (λ e. sdk_mmap_failed (Condition_fmt e)) (interlock_open k fd)

-- What the client returns for an answer to a create, with the descriptors that came along.
unfoldable pub answer_to_create : Kernel → Response → List ℕ → Result SdkError ℕ
unfolding open_received parse_daemon_error
answer_to_create k (created id) fds = open_received k fds
answer_to_create k (error code message) fds = err (parse_daemon_error code message)
answer_to_create k (attached id) fds =
    err (sdk_unexpected_response (str "unexpected response type for create"))

unfoldable pub answer_to_attach : Kernel → Response → List ℕ → Result SdkError ℕ
unfolding open_received parse_daemon_error
answer_to_attach k (attached id) fds = open_received k fds
answer_to_attach k (error code message) fds = err (parse_daemon_error code message)
answer_to_attach k (created id) fds =
    err (sdk_unexpected_response (str "unexpected response type for attach"))

-- The kind of error, and the text that a client has for each.
abbrev pub seen_by_client : Condition → SdkError
seen_by_client interlock_reaped = sdk_interlock_reaped
seen_by_client (interlock_not_found name) =
    sdk_interlock_not_found (str "InterlockNotFound: InterlockNotFound: " ++ name)
seen_by_client (allocation_failed failed errno) =
    sdk_allocation_failed (Condition_fmt (allocation_failed failed errno))
seen_by_client (invalid_request message) =
    sdk_invalid_request (Condition_fmt (invalid_request message))

-- A client that asks to create or to attach gets the kind of each error of the daemon, with its
-- message; for a name that is not found it has the prefix of the message twice before the name.
pub answer-map_condition_to_response :
    (k : Kernel) (e : Condition) (fds : List ℕ)
    → (answer_to_create k (map_condition_to_response e) fds ≡ err (seen_by_client e))
      × (answer_to_attach k (map_condition_to_response e) fds ≡ err (seen_by_client e))
unfolding answer_to_create answer_to_attach map_condition_to_response Condition_fmt
answer-map_condition_to_response k interlock_reaped fds = (refl, refl)
answer-map_condition_to_response k (interlock_not_found name) fds = (refl, refl)
answer-map_condition_to_response k (allocation_failed failed errno) fds = (refl, refl)
answer-map_condition_to_response k (invalid_request message) fds = (refl, refl)

-- The descriptors of a message that the daemon sends.
abbrev pub fds_of : Option ℕ → List ℕ
fds_of none = []
fds_of (some fd) = fd ∷ []

pub reply_with_fd-answer :
    (kd kc : Kernel) (id fd : ℕ) (reg : Registry) (σ : Shared) {h : Handled} {handle : ℕ}
    → reply_with_fd kd (created id) fd reg σ ≡ ok h
    → answer_to_create kc h.response (fds_of h.fd) ≡ ok handle
    → (handle ≡ fd) × (h.registry ≡ reg)
unfolding reply_with_fd answer_to_create interlock_dup_fd open_received extract_single_fd
    interlock_open mmap_interlock
reply_with_fd-answer kd kc id fd reg σ e q = ground arith
