-- ===== src/Tests/Transport.antt =====
-- A frame in pieces.
use abacus_rts.Base.{ℕ, Result, arith, ◌≡◌, refl, some, List, [], ◌∷◌, err}
use abacus_rts.Core.Error.{TransportError, io, write}
use abacus_rts.Wire.Layout.{to_request}
use abacus_rts.Transport.Stream.{
  ReadEvent, chunk, interrupted, blocked, accepted, write_interrupted, write_failed,
  write_all_retrying,
}
use abacus_rts.Transport.Receive.{recv_request}
use abacus_rts.Transport.Fragments.{HasRead}
use abacus_rts.Transport.Delivery.{recv_request-encode_request}
use abacus_rts.Transport.Sent.{Sent, write_all_retrying_ends}
use abacus_rts.Tests.Wire.{watch, watch-IsValidRequest, watch_encodes}

-- The frame in three pieces, the last one with two bytes of the next frame.
abbrev pieces : List ReadEvent
pieces =
    interrupted
    ∷ chunk (10 ∷ 0 ∷ [])
    ∷ blocked 11
    ∷ chunk (0 ∷ 0 ∷ 1 ∷ 1 ∷ 1 ∷ 0 ∷ [])
    ∷ chunk (98 ∷ 1 ∷ 1 ∷ 0 ∷ 97 ∷ 1 ∷ 5 ∷ 0 ∷ [])
    ∷ []

recv_request-encode_request_example : HasRead (recv_request pieces) (to_request watch) (5 ∷ 0 ∷ [])
recv_request-encode_request_example =
    recv_request-encode_request watch pieces (5 ∷ 0 ∷ []) watch-IsValidRequest watch_encodes
      (tt, (omega arith, (tt, (omega arith, (omega arith, tt))))) tt refl

broken_off :
    write_all_retrying 32 (accepted 2 ∷ write_interrupted ∷ write_failed 11 ∷ []) (1 ∷ 2 ∷ 3 ∷ [])
    ≡ some (err (io write 11), 1 ∷ 2 ∷ [])
unfolding write_all_retrying
broken_off = refl

write_all_retrying_ends_example :
    (r : Result TransportError (Unit {0})) × (sent : List ℕ) × (write_all_retrying 32
        (accepted 2 ∷ write_interrupted ∷ write_failed 11 ∷ accepted 1 ∷ [])
        (1 ∷ 2 ∷ 3 ∷ [])
      ≡ some (r, sent))
    × Sent (1 ∷ 2 ∷ 3 ∷ []) r sent
write_all_retrying_ends_example =
    write_all_retrying_ends 32 (accepted 2 ∷ write_interrupted ∷ write_failed 11 ∷ accepted 1 ∷ [])
      (1 ∷ 2 ∷ 3 ∷ []) (omega arith)
