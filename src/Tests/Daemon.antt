-- ===== src/Tests/Daemon.antt =====
-- A daemon that starts, serves a request, and advances its clock.
use abacus_rts.Base.{
  ◌≡◌, refl, true, none, some, [], Result, ok, err, panic, Yields, NoPanic, arith,
}
use abacus_rts.Base.Text.{str, str_eq}
use abacus_rts.Core.Error.{Condition}
use abacus_rts.Core.Interlock.Words.{Shared}
use abacus_rts.Wire.Message.{CreateInterlock, Request, attached, create_interlock}
use abacus_rts.Registry.Entry.{Registry, new, clock}
use abacus_rts.Daemon.Request.{Handled, handle_request}
use abacus_rts.Daemon.Replies.{IsBalanced, handle_request-IsBalanced}
use abacus_rts.Daemon.Cycle.{advance}
use abacus_rts.Daemon.Reach.{
  State, request, cycle, Reachable, start, next, Inv, Reachable-Inv, Reachable-NoPanic,
}
use abacus_rts.Client.Answers.{answer_to_create, fds_of}
use abacus_rts.Tests.Registry.{two, memory, two-IsValid, kernel}

abbrev pub job_fields : CreateInterlock
job_fields = record {
  name = str "job";
  tier = 3;
  watched_name = none;
  watched_word = none;
  interval_ns = some 25_000_000;
  conditions = none;
}

abbrev pub job : Request
job = create_interlock job_fields

handle_request-IsBalanced_example : Yields IsBalanced (handle_request kernel job two memory)
handle_request-IsBalanced_example = handle_request-IsBalanced kernel job two memory two-IsValid

-- What a result holds, or else a default.
abbrev from_ok : {A : Type 0} → A → Result Condition A → A
from_ok d (ok a) = a
from_ok d (err e) = d
from_ok d panic = d

abbrev no_memory : Shared
no_memory = record {
  regions = λ _. record { open_count = 0; closed_count = 0; expiration_ns = 0 };
  next_region = 0;
  wakes = [];
}

abbrev no_registry : Registry
no_registry = record { next_id = 0; by_name = [] }

abbrev pub started : State
unfolding new
started =
    let (reg, σ) =
      from_ok (no_registry, no_memory) (new kernel 5_000_000_100 5_000_000_200 no_memory) in
    record { registry = reg; shared = σ; clock_handle = 0 }

pub started-Reachable : Reachable started
unfolding new clock str_eq
started-Reachable = start kernel 5_000_000_100 5_000_000_200 no_memory started refl refl

-- The cron is created in the first cycle.
abbrev pub served : Handled
unfolding handle_request
served =
    from_ok
      (record {
        response = attached 0;
        fd = none;
        propagates = true;
        registry = no_registry;
        shared = no_memory;
      })
      (handle_request kernel job started.registry started.shared)

abbrev with_cron : State
with_cron = record started { registry = served.registry; shared = served.shared }

with_cron-Reachable : Reachable with_cron
unfolding new handle_request str_eq clock
with_cron-Reachable = next started-Reachable (request kernel job served (omega arith) refl refl)

-- The first cycle ends.
abbrev advanced : Registry × Shared
unfolding advance
advanced =
    from_ok (no_registry, no_memory)
      (advance 0 5_001_000_000 5_001_000_050 5_001_000_090 with_cron.registry with_cron.shared)

abbrev after_cycle : State
after_cycle = record with_cron { registry = advanced.0; shared = advanced.1 }

after_cycle-Reachable : Reachable after_cycle
unfolding new handle_request advance str_eq clock
after_cycle-Reachable =
    next with_cron-Reachable
      (cycle 5_001_000_000 5_001_000_050 5_001_000_090 advanced.0 advanced.1 refl refl)

Reachable-Inv_example : Inv after_cycle
Reachable-Inv_example = Reachable-Inv after_cycle-Reachable

Reachable-NoPanic_example :
    NoPanic (handle_request kernel job after_cycle.registry after_cycle.shared)
    × NoPanic (
        advance after_cycle.clock_handle 5_002_000_000 5_002_000_050 5_002_000_090
          after_cycle.registry after_cycle.shared)
Reachable-NoPanic_example =
    Reachable-NoPanic kernel job 5_002_000_000 5_002_000_050 5_002_000_090 after_cycle-Reachable

pub handle_request-job : handle_request kernel job started.registry started.shared ≡ ok served
unfolding new handle_request str_eq clock
handle_request-job = refl

-- The client maps the region of the cron.
pub answer-served : answer_to_create kernel served.response (fds_of served.fd) ≡ ok 1
unfolding answer_to_create handle_request new str_eq clock
answer-served = refl
