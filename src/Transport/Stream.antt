-- ===== src/Transport/Stream.antt =====
-- `read_exact_retrying` and `write_all_retrying`. What the calls of the kernel return is given as a
-- list of events, one for each call; a loop that has used them all up waits for ever.
use abacus_rts.Base.{
  ℕ, ◌-◌, Bool, ◌&&◌, Option, none, some, List, [], ◌∷◌, ◌++◌, length, take, drop, ltb, leb, ◌==◌,
  if◌then◌else◌, Result, ok, err, panic,
}
use abacus_rts.Core.Error.{
  truncated, read, write, TransportError, protocol, io, connection_closed, would_block,
}

-- The bytes that have arrived, of which a read takes what its buffer holds and leaves the rest for
-- the next one; a read that is interrupted, would block, or fails. No bytes are the end of the stream.
pub data ReadEvent : Type 0 where
  chunk : (bytes : List ℕ) → ReadEvent
  interrupted : ReadEvent
  blocked : (errno : ℕ) → ReadEvent
  failed : (errno : ℕ) → ReadEvent

-- The result of a call, and the events that it leaves; `none` when it does not return.
abbrev pub Received : Type 0 → Type 0
Received A = Option (Result TransportError A × List ReadEvent)

-- `?` on a call that returns.
abbrev pub then_receive :
    {A B : Type 0} → Received A → (A → List ReadEvent → Received B) → Received B
then_receive none next = none
then_receive (some (ok a, es)) next = next a es
then_receive (some (err e, es)) next = some (err e, es)
then_receive (some (panic, es)) next = some (panic, es)

-- The end of the stream, when `filled` of `total` bytes have come.
unfoldable pub end_of_stream : ℕ → Bool → ℕ → TransportError
end_of_stream total is_frame_start filled =
    if filled == 0 && is_frame_start then connection_closed else protocol (truncated total filled)

-- The loop, with the bytes that are in the buffer; their number is `filled`.
unfoldable pub read_exact_retrying : ℕ → Bool → List ReadEvent → List ℕ → Received (List ℕ)
unfolding end_of_stream
read_exact_retrying total is_frame_start [] buf =
    if ltb (length buf) total then none else some (ok buf, [])
read_exact_retrying total is_frame_start (chunk bytes ∷ es) buf =
    let room = total - length buf in
    let rest = read_exact_retrying total is_frame_start es (buf ++ take room bytes) in
    if leb total (length buf)
    then some (ok buf, chunk bytes ∷ es)
    else if length bytes == 0
    then some (err (end_of_stream total is_frame_start (length buf)), es)
    else if ltb room (length bytes)
    then some (ok (buf ++ take room bytes), chunk (drop room bytes) ∷ es)
    else rest
read_exact_retrying total is_frame_start (interrupted ∷ es) buf =
    let rest = read_exact_retrying total is_frame_start es buf in
    if leb total (length buf) then some (ok buf, interrupted ∷ es) else rest
read_exact_retrying total is_frame_start (blocked errno ∷ es) buf =
    let rest = read_exact_retrying total is_frame_start es buf in
    if leb total (length buf)
    then some (ok buf, blocked errno ∷ es)
    else if length buf == 0 && is_frame_start
    then some (err would_block, es)
    else rest
read_exact_retrying total is_frame_start (failed errno ∷ es) buf =
    if leb total (length buf)
    then some (ok buf, failed errno ∷ es)
    else some (err (io read errno), es)

-- A write takes so many bytes, is interrupted, or fails; one that would block fails here.
pub data WriteEvent : Type 0 where
  accepted : (count : ℕ) → WriteEvent
  write_interrupted : WriteEvent
  write_failed : (errno : ℕ) → WriteEvent

-- How the writing ends, and the bytes that the kernel has taken.
abbrev pub Written : Type 0
Written = Option (Result TransportError (Unit {0}) × List ℕ)

abbrev pub after_taking : List ℕ → Written → Written
after_taking taken none = none
after_taking taken (some (r, sent)) = some (r, taken ++ sent)

-- The loop on the bytes that are left, with the number of EPIPE.
unfoldable pub write_all_retrying : ℕ → List WriteEvent → List ℕ → Written
write_all_retrying epipe [] left = if length left == 0 then some (ok tt, []) else none
write_all_retrying epipe (accepted count ∷ es) left =
    let rest = write_all_retrying epipe es (drop count left) in
    if length left == 0
    then some (ok tt, [])
    else if count == 0
    then some (err (io write epipe), [])
    else after_taking (take count left) rest
write_all_retrying epipe (write_interrupted ∷ es) left =
    let rest = write_all_retrying epipe es left in
    if length left == 0 then some (ok tt, []) else rest
write_all_retrying epipe (write_failed errno ∷ es) left =
    if length left == 0 then some (ok tt, []) else some (err (io write errno), [])
