-- ===== src/Tests/Client.antt =====
-- The client at the words of an interlock, and at the daemon's answers.
use abacus_rts.Base.{◌≡◌, ◌↔◌, true}
use abacus_rts.Base.Text.{str}
use abacus_rts.Core.Interlock.Words.{Interlock}
use abacus_rts.Registry.Evaluate.{is_dead}
use abacus_rts.Daemon.Reach.{Reachable-Inv}
use abacus_rts.Client.Types.{expired, interlock_state}
use abacus_rts.Client.Agreement.{interlock_state-is_dead}
use abacus_rts.Client.Creation.{Obtains, handle_request-answer_to_create}
use abacus_rts.Tests.Registry.{kernel}
use abacus_rts.Tests.Daemon.{
  job_fields, started, started-Reachable, served, handle_request-job, answer-served,
}

abbrev words : Interlock
words = record { open_count = 3; closed_count = 1; expiration_ns = 500 }

interlock_state-is_dead_example :
    (interlock_state 3 1 500 600 ≡ expired) ↔ (is_dead 600 words ≡ true)
interlock_state-is_dead_example = interlock_state-is_dead words 600

handle_request-answer_to_create_example : Obtains (str "job") served.registry started.shared 1
handle_request-answer_to_create_example =
    handle_request-answer_to_create kernel kernel started.registry started.shared
      (Reachable-Inv started-Reachable).valid job_fields handle_request-job answer-served
