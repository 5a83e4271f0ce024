-- ===== src/Tests/EndToEnd.antt =====
-- A cron that a client creates on a daemon that has just started.
use abacus_rts.Base.{ℕ, ◌≡◌, refl, false, some, List, [], ◌∷◌, ok, Ensures, arith}
use abacus_rts.Base.U64.{le_bytes}
use abacus_rts.Base.Text.{str, str_eq, is_utf8}
use abacus_rts.Wire.Encode.{encode_request, encode_response}
use abacus_rts.Wire.Layout.{to_request, create}
use abacus_rts.Wire.RoundTrip.{IsValidResponse}
use abacus_rts.Registry.Entry.{new, clock}
use abacus_rts.Daemon.Request.{handle_request}
use abacus_rts.Daemon.Reach.{Reachable-Inv}
use abacus_rts.Transport.Stream.{chunk, interrupted, accepted, write_interrupted}
use abacus_rts.Transport.Receive.{recv_request, recv_response}
use abacus_rts.Transport.Fragments.{HasRead}
use abacus_rts.Client.Answers.{answer_to_create, fds_of}
use abacus_rts.Client.Creation.{Obtains}
use abacus_rts.Client.Calls.{Link}
use abacus_rts.Client.Conn.{receive_response}
use abacus_rts.Client.ConnAgrees.{receive_response-recv_response}
use abacus_rts.Client.EndToEnd.{
  CreateCall, cron_at, perform, name_of, fields_of, IsCall, Carries, perform-Obtains,
}
use abacus_rts.Tests.Registry.{kernel}
use abacus_rts.Tests.Daemon.{started, started-Reachable, served, handle_request-job}

abbrev every_25ms : CreateCall
every_25ms = cron_at (str "job") 25

abbrev asked : List ℕ
asked =
    16 ∷ 0 ∷ 0 ∷ 0 ∷ 1 ∷ 1 ∷ 3 ∷ 0 ∷ 106 ∷ 111 ∷ 98 ∷ 3 ∷ 64 ∷ 120 ∷ 125 ∷ 1 ∷ 0 ∷ 0 ∷ 0 ∷ 0 ∷ []

abbrev answer : List ℕ
answer = 10 ∷ 0 ∷ 0 ∷ 0 ∷ 1 ∷ 129 ∷ 1 ∷ 0 ∷ 0 ∷ 0 ∷ 0 ∷ 0 ∷ 0 ∷ 0 ∷ []

-- The client's socket takes the frame in one call, after an interrupted one.
abbrev link : Link
link = record {
  epipe = 32;
  writes =
      write_interrupted
      ∷ accepted 1
      ∷ accepted 1
      ∷ accepted 1
      ∷ accepted 1
      ∷ accepted 1
      ∷ accepted 1
      ∷ accepted 1
      ∷ accepted 1
      ∷ accepted 1
      ∷ accepted 1
      ∷ accepted 1
      ∷ accepted 1
      ∷ accepted 1
      ∷ accepted 1
      ∷ accepted 1
      ∷ accepted 1
      ∷ accepted 1
      ∷ accepted 1
      ∷ accepted 1
      ∷ accepted 1
      ∷ [];
  control = record { fds = 1 ∷ []; ctrunc = false };
  reads = chunk answer ∷ [];
  kernel = kernel;
}

every_25ms-IsCall : IsCall every_25ms
unfolding is_utf8
every_25ms-IsCall = refl

every_25ms_encodes :
    encode_request (to_request (create (name_of every_25ms) (fields_of every_25ms))) ≡ ok asked
unfolding encode_request le_bytes
every_25ms_encodes = refl

served-IsValidResponse : IsValidResponse served.response
unfolding new handle_request str_eq clock
served-IsValidResponse = omega arith

served_encodes : encode_response served.response ≡ ok answer
unfolding encode_response le_bytes new handle_request str_eq clock
served_encodes = refl

link-Carries : Carries link asked answer (fds_of served.fd)
unfolding new handle_request str_eq clock
link-Carries = record {
  writing = ground arith;
  enough = omega arith;
  whole = refl;
  descriptors = refl;
  stays = (omega arith, tt);
  ready = tt;
  unblocked = (tt, tt);
  brings = refl;
}

perform-Obtains_example :
    HasRead
      (recv_request (chunk asked ∷ []))
      (to_request (create (name_of every_25ms) (fields_of every_25ms)))
      []
    × (perform link every_25ms
        ≡ (some (answer_to_create kernel served.response (fds_of served.fd)), asked))
    × Ensures
        (Obtains (str "job") served.registry started.shared)
        (answer_to_create kernel served.response (fds_of served.fd))
perform-Obtains_example =
    perform-Obtains every_25ms link kernel started.registry started.shared (chunk asked ∷ []) []
      every_25ms-IsCall (Reachable-Inv started-Reachable).valid every_25ms_encodes (omega arith, tt)
      tt refl handle_request-job served-IsValidResponse served_encodes link-Carries

receive_response-recv_response_example :
    receive_response link.control (chunk (10 ∷ 0 ∷ []) ∷ interrupted ∷ [])
    ≡ recv_response link.control (chunk (10 ∷ 0 ∷ []) ∷ interrupted ∷ [])
receive_response-recv_response_example =
    receive_response-recv_response link.control (chunk (10 ∷ 0 ∷ []) ∷ interrupted ∷ [])
      (tt, (tt, tt))
