-- ===== src/Tests/Startup.antt =====
-- The start of a daemon, its arguments, and the clock behind a cycle.
use abacus_rts.Base.{◌/◌, ◌≡◌, refl, false, none, some, List, [], ◌∷◌, ok, Yields, arith}
use abacus_rts.Base.Text.{Str, str}
use abacus_rts.Transport.Server.{Place, is_socket_file}
use abacus_rts.Client.Handles.{start_time_ms}
use abacus_rts.Client.ClockView.{ClockShows, advance-ClockShows}
use abacus_rts.Daemon.Cycle.{advance}
use abacus_rts.Daemon.Args.{parse_args, Chosen, parse_args-Chosen}
use abacus_rts.Daemon.Start.{Boot, daemon_start, Started, daemon_start-Started}
use abacus_rts.Tests.Registry.{memory, kernel}
use abacus_rts.Tests.Daemon.{started, started-Reachable}

abbrev free_place : Place
free_place = record {
  exists = false;
  is_socket = ok false;
  answers = false;
  bind_errno = none;
  nonblocking_errno = none;
  listen_errno = some 98;
  stale_errno = none;
  unlink_errno = some 13;
}

abbrev boot : Boot
boot = record {
  place = free_place;
  kernel = kernel;
  arm_now = 5_000_000_100;
  start_now = 5_000_000_200;
  shared = memory;
  drop_errno = none;
}

daemon_start-Started_example :
    Started free_place
      (str "/run/a")
      (daemon_start boot (str "/run/a")).0
      (daemon_start boot (str "/run/a")).1
unfolding is_socket_file
daemon_start-Started_example =
    daemon_start-Started boot (str "/run/a") none false refl (omega arith)

-- The form with `=` counts before the other one, wherever it stands.
abbrev arguments : List Str
arguments = str "--socket-path" ∷ str "/a" ∷ str "--socket-path=/b" ∷ []

parse_args-Chosen_example :
    (path : Str) × (parse_args (str "abacus" ∷ arguments) ≡ some path) × Chosen arguments path
parse_args-Chosen_example = parse_args-Chosen (str "abacus") arguments

form_with_equals : parse_args (str "abacus" ∷ arguments) ≡ some (str "/b")
unfolding parse_args
form_with_equals = refl

flag_alone :
    parse_args (str "abacus" ∷ str "--socket-path" ∷ []) ≡ some (str "/run/abacus-rts/abacus.sock")
unfolding parse_args
flag_alone = refl

advance-ClockShows_example :
    Yields
      (λ r.
        ClockShows started.clock_handle
          (5_003_000_000 / 1_000_000)
          (start_time_ms started.clock_handle started.shared)
          r.1)
      (advance started.clock_handle 5_003_000_000 5_003_000_050 5_003_000_090 started.registry
        started.shared)
advance-ClockShows_example =
    advance-ClockShows started 5_003_000_000 5_003_000_050 5_003_000_090 started-Reachable
