-- ===== src/Client/ConnAgrees.antt =====
-- `ClientConn` of client.rs and `Connection` of transport.rs: where the two framings agree.
use abacus_rts.Base.{
  ℕ, ◌-◌, ◌≡◌, refl, ap, ◌∙◌, Bool, true, false, none, some, List, [], ◌∷◌, ◌++◌, length, take,
  drop, ltb, leb, ◌==◌, if◌then◌else◌, Result, ok, err, panic, map_err, All, Bool-cases, inl, inr,
}
use abacus_rts.Base.U64.{from_le_bytes}
use abacus_rts.Core.Error.{TransportError, protocol}
use abacus_rts.Wire.Message.{length_prefix_bytes}
use abacus_rts.Wire.Decode.{decode_response}
use abacus_rts.Transport.Stream.{
  ReadEvent, chunk, interrupted, blocked, failed, Received, then_receive, read_exact_retrying,
  WriteEvent, accepted, write_interrupted, write_failed, write_all_retrying,
}
use abacus_rts.Transport.Receive.{
  Control, check_length, check_fds, recvmsg_retry, recvmsg_prefix_with_fds, read_frame_payload,
  recv_response,
}
use abacus_rts.Client.Conn.{
  send_frame, read_exact, receive_retry, extract_fds, recvmsg_prefix, receive_response,
}
use abacus_rts.Transport.Ancillary.{Libc, Cmsg, extract_fds_from_cmsg}

-- The stream does not let a call block.
abbrev pub NeverBlocks : ReadEvent → Type 0
NeverBlocks (chunk bytes) = Unit {0}
NeverBlocks interrupted = Unit {0}
NeverBlocks (blocked errno) = ⊥
NeverBlocks (failed errno) = Unit {0}

pub send_frame-write_all_retrying :
    (epipe : ℕ) (es : List WriteEvent) (left : List ℕ)
    → send_frame epipe es left ≡ write_all_retrying epipe es left
unfolding send_frame write_all_retrying
send_frame-write_all_retrying epipe [] left = refl
send_frame-write_all_retrying epipe (accepted count ∷ es) left =
    rw (send_frame-write_all_retrying epipe es (drop count left)) refl
send_frame-write_all_retrying epipe (write_interrupted ∷ es) left =
    rw (send_frame-write_all_retrying epipe es left) refl
send_frame-write_all_retrying epipe (write_failed errno ∷ es) left = refl

pub read_exact-read_exact_retrying :
    (total : ℕ) (start : Bool) (es : List ReadEvent) (buf : List ℕ)
    → All NeverBlocks es
    → read_exact total start es buf ≡ read_exact_retrying total start es buf
unfolding read_exact read_exact_retrying
read_exact-read_exact_retrying total start [] buf h = refl
read_exact-read_exact_retrying total start (chunk bytes ∷ es) buf h =
    rw (read_exact-read_exact_retrying total start es (buf ++ take (total - length buf) bytes) h.1)
      refl
read_exact-read_exact_retrying total start (interrupted ∷ es) buf h =
    rw (read_exact-read_exact_retrying total start es buf h.1) refl
read_exact-read_exact_retrying total start (blocked errno ∷ es) buf h = absurd h.0
read_exact-read_exact_retrying total start (failed errno ∷ es) buf h = refl

-- What is left of such a stream by a call that succeeds is one.
abbrev Leaves : {A : Type 0} → Received A → Type 0
Leaves none = Unit {0}
Leaves (some (ok a, es)) = All NeverBlocks es
Leaves (some (err e, es)) = Unit {0}
Leaves (some (panic, es)) = Unit {0}

Leaves-if :
    {A : Type 0} (b : Bool) (r r' : Received A)
    → Leaves r
    → Leaves r'
    → Leaves (if b then r else r')
Leaves-if true r r' h k = h
Leaves-if false r r' h k = k

read_exact_retrying-Leaves :
    (total : ℕ) (start : Bool) (es : List ReadEvent) (buf : List ℕ)
    → All NeverBlocks es
    → Leaves (read_exact_retrying total start es buf)
unfolding read_exact_retrying
read_exact_retrying-Leaves total start [] buf h =
    Leaves-if (ltb (length buf) total) none (some (ok buf, [])) tt tt
read_exact_retrying-Leaves total start (chunk bytes ∷ es) buf h =
    Leaves-if (leb total (length buf)) _ _ h (
      Leaves-if (length bytes == 0) (some (err _, es)) _ tt (
        Leaves-if (ltb (total - length buf) (length bytes)) _ _ h
          (read_exact_retrying-Leaves total start es (buf ++ take (total - length buf) bytes) h.1)))
read_exact_retrying-Leaves total start (interrupted ∷ es) buf h =
    Leaves-if (leb total (length buf)) _ _ h (read_exact_retrying-Leaves total start es buf h.1)
read_exact_retrying-Leaves total start (blocked errno ∷ es) buf h = absurd h.0
read_exact_retrying-Leaves total start (failed errno ∷ es) buf h =
    Leaves-if (leb total (length buf)) _ (some (err _, es)) h tt

recvmsg_retry-Leaves : (es : List ReadEvent) → All NeverBlocks es → Leaves (recvmsg_retry es)
unfolding recvmsg_retry
recvmsg_retry-Leaves [] h = tt
recvmsg_retry-Leaves (interrupted ∷ es) h = recvmsg_retry-Leaves es h.1
recvmsg_retry-Leaves (blocked errno ∷ es) h = tt
recvmsg_retry-Leaves (failed errno ∷ es) h = tt
recvmsg_retry-Leaves (chunk bytes ∷ es) h =
    elim (Bool-cases (ltb length_prefix_bytes (length bytes))) [
      | inl long ↦ rw long h
      | inr short ↦ rw short h.1
    ]

-- What follows a call may be replaced by what is equal on such streams.
then_receive-ext :
    {A B : Type 0} (r r' : Received A) (f g : A → List ReadEvent → Received B)
    → r ≡ r'
    → Leaves r'
    → ((a : A) (es : List ReadEvent) → All NeverBlocks es → f a es ≡ g a es)
    → then_receive r f ≡ then_receive r' g
then_receive-ext r r' f g q h k = ap (λ r. then_receive r f) q ∙ go r' h
  where
    go : (r : Received _) → Leaves r → then_receive r f ≡ then_receive r g
    go none h = refl
    go (some (ok a, es)) h = k a es h
    go (some (err e, es)) h = refl
    go (some (panic, es)) h = refl

if-ext :
    {A : Type 0} (b : Bool) {x x' y y' : A}
    → x ≡ x'
    → y ≡ y'
    → (if b then x else y) ≡ (if b then x' else y')
if-ext true p q = p
if-ext false p q = q

Leaves-then_receive :
    {A B : Type 0} (r : Received A) (f : A → List ReadEvent → Received B)
    → Leaves r
    → ((a : A) (es : List ReadEvent) → All NeverBlocks es → Leaves (f a es))
    → Leaves (then_receive r f)
Leaves-then_receive none f h k = tt
Leaves-then_receive (some (ok a, es)) f h k = k a es h
Leaves-then_receive (some (err e, es)) f h k = tt
Leaves-then_receive (some (panic, es)) f h k = tt

Leaves-some :
    {A : Type 0} (r : Result TransportError A) (es : List ReadEvent)
    → All NeverBlocks es
    → Leaves (some (r, es))
Leaves-some (ok a) es h = h
Leaves-some (err e) es h = tt
Leaves-some panic es h = tt

receive_retry-recvmsg_retry : (es : List ReadEvent) → receive_retry es ≡ recvmsg_retry es
unfolding receive_retry recvmsg_retry
receive_retry-recvmsg_retry [] = refl
receive_retry-recvmsg_retry (interrupted ∷ es) = receive_retry-recvmsg_retry es
receive_retry-recvmsg_retry (blocked errno ∷ es) = refl
receive_retry-recvmsg_retry (failed errno ∷ es) = refl
receive_retry-recvmsg_retry (chunk bytes ∷ es) = refl

-- Both take the same descriptors out of the same control messages.
pub extract_fds-extract_fds_from_cmsg :
    (l : Libc) (cs : List Cmsg) → extract_fds l cs ≡ extract_fds_from_cmsg l cs
unfolding extract_fds extract_fds_from_cmsg
extract_fds-extract_fds_from_cmsg l [] = refl
extract_fds-extract_fds_from_cmsg l (c ∷ cs) = rw (extract_fds-extract_fds_from_cmsg l cs) refl

recvmsg_prefix-recvmsg_prefix_with_fds :
    (c : Control) (es : List ReadEvent)
    → All NeverBlocks es
    → recvmsg_prefix c es ≡ recvmsg_prefix_with_fds c es
unfolding recvmsg_prefix recvmsg_prefix_with_fds
recvmsg_prefix-recvmsg_prefix_with_fds c es h =
    then_receive-ext (receive_retry es) (recvmsg_retry es) _ _ (receive_retry-recvmsg_retry es)
      (recvmsg_retry-Leaves es h)
      λ received es' h'. if-ext (length received == 0) refl (
        if-ext c.ctrunc refl (
          if-ext (ltb (length received) length_prefix_bytes)
            (ap
              (λ (r : Received (List ℕ)).
                then_receive r (λ more es''. some (ok (received ++ more, c.fds), es'')))
              (read_exact-read_exact_retrying (length_prefix_bytes - length received) false es' []
                h'))
            refl))

recvmsg_prefix_with_fds-Leaves :
    (c : Control) (es : List ReadEvent) → All NeverBlocks es → Leaves (recvmsg_prefix_with_fds c es)
unfolding recvmsg_prefix_with_fds
recvmsg_prefix_with_fds-Leaves c es h =
    Leaves-then_receive (recvmsg_retry es) _ (recvmsg_retry-Leaves es h) λ received es' h'.
      Leaves-if (length received == 0) (some (err _, es')) _ tt (
        Leaves-if c.ctrunc (some (err _, es')) _ tt (
          Leaves-if (ltb (length received) length_prefix_bytes) _ (some (ok _, es'))
            (Leaves-then_receive
              (read_exact_retrying (length_prefix_bytes - length received) false es' []) _
              (read_exact_retrying-Leaves (length_prefix_bytes - length received) false es' [] h')
              λ more es'' h''. h'')
            h'))

-- On a stream on which no call would block, the client's own receiving of a response does exactly
-- what that of the daemon's transport does.
pub receive_response-recv_response :
    (c : Control) (es : List ReadEvent)
    → All NeverBlocks es
    → receive_response c es ≡ recv_response c es
unfolding receive_response recv_response read_frame_payload
receive_response-recv_response c es h =
    then_receive-ext (recvmsg_prefix c es) (recvmsg_prefix_with_fds c es) _ _
      (recvmsg_prefix-recvmsg_prefix_with_fds c es h) (recvmsg_prefix_with_fds-Leaves c es h)
      λ first es' h'.
        then_receive-ext (some (check_length (from_le_bytes first.0), es')) _ _ _ refl
          (Leaves-some (check_length (from_le_bytes first.0)) es' h')
          λ len es'' h''.
            ap
              (λ (r : Received (List ℕ)). then_receive r λ payload es₃.
                then_receive (some (map_err protocol (decode_response payload), es₃))
                  λ response es₄. some (check_fds first.1 response, es₄))
              (read_exact-read_exact_retrying len false es'' [] h'')
