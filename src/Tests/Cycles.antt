-- ===== src/Tests/Cycles.antt =====
-- A cycle of the daemon with two connections, of which one asks for a cron and one is gone.
use abacus_rts.Base.{
  ◌≢◌, inl, inr, ℕ, ◌≡◌, refl, true, false, some, List, [], ◌∷◌, ok, err, ◌⊎◌, All, arith,
}
use abacus_rts.Core.Error.{event_loop_failed}
use abacus_rts.Registry.Entry.{new}
use abacus_rts.Daemon.Request.{Errno}
use abacus_rts.Daemon.Reach.{State}
use abacus_rts.Daemon.Loop.{connection, no_more, Slot, Cycle, daemon_cycle}
use abacus_rts.Daemon.Turns.{Returns}
use abacus_rts.Daemon.Cycles.{IsPolled, Cycled, daemon_cycle-Cycled}
use abacus_rts.Tests.Registry.{kernel}
use abacus_rts.Tests.Daemon.{job, started, started-Reachable}

abbrev errno : Errno
errno = record { epipe = 32; econnreset = 104 }

abbrev asks : Slot
asks = record {
  hangup = false;
  readable = true;
  received = ok job;
  send = λ resp fd. ok tt;
  kernel = kernel;
  clients_do = λ regions. regions;
}

abbrev gone : Slot
gone = record asks { hangup = true }

abbrev meets : Cycle
meets = record {
  poll_errno = some 4;
  listener = true;
  accepts = connection 9 true ∷ connection 10 false ∷ no_more ∷ [];
  slots = gone ∷ asks ∷ [];
  clients_do = λ regions. regions;
  now = 5_001_000_000;
  now_ns = 5_001_000_050;
  arm_now = 5_001_000_090;
}

Returns-both : All Returns meets.slots
Returns-both = ((λ e. cc, λ resp fd e. cc), ((λ e. cc, λ resp fd e. cc), tt))

daemon_cycle-Cycled_example :
    ((e : ℕ) × (some 4 ≡ some e)
      × (e ≢ 4)
      × (daemon_cycle errno 4 meets (7 ∷ 8 ∷ []) started ≡ some (err (event_loop_failed e))))
    ⊎ (IsPolled 4 (some 4)
        × ((t : List ℕ × State) × (daemon_cycle errno 4 meets (7 ∷ 8 ∷ []) started ≡ some (ok t))
            × Cycled errno meets (7 ∷ 8 ∷ []) (9 ∷ []) started t))
unfolding new
daemon_cycle-Cycled_example =
    daemon_cycle-Cycled errno 4 meets (7 ∷ 8 ∷ []) started Returns-both refl started-Reachable
      (omega arith) (λ e. inr (inr (inl tt)))
