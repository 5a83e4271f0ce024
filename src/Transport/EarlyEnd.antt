-- ===== src/Transport/EarlyEnd.antt =====
-- Streams that end within a frame.
use abacus_rts.Base.{
  ℕ, ◌+◌, ◌-◌, ◌≤◌, ◌<◌, ◌≡◌, refl, sym, ap, ◌∙◌, inl, inr, ◌⊎◌, Bool, true, false, ◌&&◌, ◌≢◌, none,
  some, List, [], ◌∷◌, ◌++◌, length, length-append, take, ltb, leb, ◌==◌, if◌then◌else◌, All,
  Result, ok, err, panic, Bool-cases, ==_false, lt→leb_false, le→ltb_false, arith,
}
use abacus_rts.Base.U64.{le_bytes, length-le_bytes}
use abacus_rts.Core.Error.{TransportError, protocol, truncated, connection_closed}
use abacus_rts.Transport.Stream.{
  ReadEvent, Received, then_receive, chunk, interrupted, blocked, failed, end_of_stream,
  read_exact_retrying,
}
use abacus_rts.Transport.Receive.{read_frame_prefix, read_frame_payload, recv_request}
use abacus_rts.Transport.Fragments.{pending, IsOpen, IsReady, Continues, append-split, take_all}
use abacus_rts.Transport.Delivery.{read_frame_prefix-HasRead}

-- More events behind those that a call leaves.
abbrev followed_by : {A : Type 0} → List ReadEvent → Received A → Received A
followed_by tail none = none
followed_by tail (some (r, es)) = some (r, es ++ tail)

module _ (total : ℕ) (start : Bool) where
  full_buffer :
      (es : List ReadEvent) (buf : List ℕ)
      → leb total (length buf) ≡ true
      → read_exact_retrying total start es buf ≡ some (ok buf, es)
  unfolding read_exact_retrying
  full_buffer [] buf h = ground arith
  full_buffer (chunk b ∷ es) buf h = rw h refl
  full_buffer (interrupted ∷ es) buf h = rw h refl
  full_buffer (blocked n ∷ es) buf h = rw h refl
  full_buffer (failed n ∷ es) buf h = rw h refl

  -- A read that its events decide leaves what follows them.
  read_exact_retrying-append :
      (es tail : List ReadEvent) (buf : List ℕ)
      → read_exact_retrying total start es buf ≢ none
      → read_exact_retrying total start (es ++ tail) buf
        ≡ followed_by tail (read_exact_retrying total start es buf)
  unfolding read_exact_retrying
  read_exact_retrying-append [] tail buf h = elim (Bool-cases (ltb (length buf) total)) [
    | inl lacks ↦ absurd (h (rw lacks refl))
    | inr full ↦ rw full (full_buffer tail buf (ground arith))
  ]
  read_exact_retrying-append (chunk b ∷ es) tail buf h =
      let room = total - length buf in
      elim (Bool-cases (leb total (length buf))) [
        | inl full ↦ rw full refl
        | inr lacks ↦ elim (Bool-cases (length b == 0)) [
          | inl ended ↦ rw (lacks, ended) refl
          | inr some_bytes ↦ elim (Bool-cases (ltb room (length b))) [
            | inl long ↦ rw (lacks, some_bytes, long) refl
            | inr short ↦
                rw (lacks, some_bytes, short)
                  (read_exact_retrying-append es tail (buf ++ take room b)
                    (rw (lacks, some_bytes, short) at h))
          ]
        ]
      ]
  read_exact_retrying-append (interrupted ∷ es) tail buf h =
      elim (Bool-cases (leb total (length buf))) [
        | inl full ↦ rw full refl
        | inr lacks ↦ rw lacks (read_exact_retrying-append es tail buf (rw lacks at h))
      ]
  read_exact_retrying-append (blocked n ∷ es) tail buf h =
      elim (Bool-cases (leb total (length buf))) [
        | inl full ↦ rw full refl
        | inr lacks ↦ elim (Bool-cases (length buf == 0 && start)) [
          | inl first ↦ rw (lacks, first) refl
          | inr within ↦
              rw (lacks, within) (read_exact_retrying-append es tail buf (rw (lacks, within) at h))
        ]
      ]
  read_exact_retrying-append (failed n ∷ es) tail buf h =
      elim (Bool-cases (leb total (length buf))) [
        | inl full ↦ rw full refl
        | inr lacks ↦ rw lacks refl
      ]

  -- With some bytes in the buffer, or not at the start of a frame, or with bytes or the end ready,
  -- a stream that ends before the buffer is full ends the read, with the number of bytes that came.
  read_exact_retrying-ends :
      (es rest : List ReadEvent) (buf : List ℕ)
      → All IsOpen es
      → Continues start buf ⊎ IsReady (es ++ chunk [] ∷ rest)
      → length buf + length (pending es) < total
      → read_exact_retrying total start (es ++ chunk [] ∷ rest) buf
        ≡ some (err (end_of_stream total start (length buf + length (pending es))), rest)
  unfolding read_exact_retrying
  read_exact_retrying-ends [] rest buf o c h =
      rw (lt→leb_false total (length buf) (omega arith))
        (ap (λ k. some (err (end_of_stream total start k), rest)) (omega arith))
  read_exact_retrying-ends (interrupted ∷ es) rest buf o c h =
      rw (lt→leb_false total (length buf) (omega arith))
        (read_exact_retrying-ends es rest buf o.1 c h)
  read_exact_retrying-ends (blocked n ∷ es) rest buf o (inl c) h =
      rw (lt→leb_false total (length buf) (omega arith), c)
        (read_exact_retrying-ends es rest buf o.1 (inl c) h)
  read_exact_retrying-ends (blocked n ∷ es) rest buf o (inr c) h = absurd c
  read_exact_retrying-ends (failed n ∷ es) rest buf o c h = absurd o.0
  read_exact_retrying-ends (chunk b ∷ es) rest buf o c h =
      let sizes = length-append b (pending es) in
      let grown = length-append buf b in
      rw
        (
          lt→leb_false total (length buf) (omega (arith, sizes)),
          ==_false (length b) 0 (omega (arith, o.0)),
          le→ltb_false (total - length buf) (length b) (omega (arith, sizes)),
          take_all (total - length buf) b (omega (arith, sizes)),
          read_exact_retrying-ends es rest (buf ++ b) o.1
              (inl (rw (==_false (length (buf ++ b)) 0 (omega (arith, grown, o.0)))))
              (omega (arith, sizes, grown)),
        )
        (ap (λ k. some (err (end_of_stream total start k), rest)) (omega (arith, sizes, grown)))

-- What the receiver of a request makes of a stream that ends with `count` bytes of a frame that has
-- announced a payload of `len` bytes.
abbrev pub cut_short : ℕ → ℕ → TransportError
cut_short len count =
    if count == 0
    then connection_closed
    else if ltb count 4
    then protocol (truncated 4 count)
    else protocol (truncated len (count - 4))

end_of_stream-cut_short :
    (len count : ℕ) → count < 4 → end_of_stream 4 true count ≡ cut_short len count
unfolding end_of_stream
end_of_stream-cut_short len count h = ground arith

-- The stream ends within the prefix.
prefix_ends :
    (len : ℕ) (es rest : List ReadEvent)
    → All IsOpen es
    → IsReady (es ++ chunk [] ∷ rest)
    → length (pending es) < 4
    → recv_request (es ++ chunk [] ∷ rest) ≡ some (err (cut_short len (length (pending es))), rest)
unfolding recv_request read_frame_prefix
prefix_ends len es rest o ready h =
    rw (read_exact_retrying-ends 4 true es rest [] o (inr ready) (omega arith)) (
      ap (λ e. some (err e, rest))
        (ap (end_of_stream 4 true) (omega arith)
          ∙ end_of_stream-cut_short len (length (pending es)) h))

then_receive-followed_by :
    {A B : Type 0} (tail : List ReadEvent) (f : A → Result TransportError B) (r : Received A)
    → then_receive (followed_by tail r) (λ a es. some (f a, es))
      ≡ followed_by tail (then_receive r λ a es. some (f a, es))
then_receive-followed_by tail f none = refl
then_receive-followed_by tail f (some (ok a, es)) = refl
then_receive-followed_by tail f (some (err e, es)) = refl
then_receive-followed_by tail f (some (panic, es)) = refl

read_frame_prefix-append :
    (es tail : List ReadEvent) {n : ℕ} {rest : List ReadEvent}
    → read_frame_prefix es ≡ some (ok n, rest)
    → read_frame_prefix (es ++ tail) ≡ some (ok n, rest ++ tail)
unfolding read_frame_prefix
read_frame_prefix-append es tail e =
    rw (read_exact_retrying-append 4 true es tail [] (λ q. cc (rw q at e)))
      (then_receive-followed_by tail _ (read_exact_retrying 4 true es []) ∙ ap (followed_by tail) e)

end_of_stream_within :
    (len count : ℕ) → end_of_stream len false count ≡ protocol (truncated len count)
unfolding end_of_stream
end_of_stream_within len count = ground arith

-- The stream ends within the payload.
payload_ends :
    (len : ℕ) (es rest : List ReadEvent) (came : List ℕ)
    → len ≤ 4096
    → All IsOpen es
    → IsReady es
    → pending es ≡ le_bytes 4 len ++ came
    → length came < len
    → recv_request (es ++ chunk [] ∷ rest)
      ≡ some (err (protocol (truncated len (length came))), rest)
unfolding recv_request read_frame_payload
payload_ends len es rest came small o ready q h =
    let read = read_frame_prefix-HasRead len es came small o ready q in
    let count : length (pending read.rest) ≡ length came = ap length read.leaves in
    rw
      (
        read_frame_prefix-append es (chunk [] ∷ rest) read.returns,
        read_exact_retrying-ends len false read.rest rest [] read.stays (inl refl)
            (omega (arith, count)),
      )
      (ap (λ e. some (err e, rest))
        (ap (end_of_stream len false) (omega (arith, count))
          ∙ end_of_stream_within len (length came)))

IsReady-append :
    (es tail : List ReadEvent)
    → All IsOpen es
    → 0 < length (pending es)
    → IsReady (es ++ tail)
    → IsReady es
IsReady-append [] tail o h r = elim h [ ]
IsReady-append (chunk b ∷ es) tail o h r = tt
IsReady-append (interrupted ∷ es) tail o h r = IsReady-append es tail o.1 h r
IsReady-append (blocked n ∷ es) tail o h r = r
IsReady-append (failed n ∷ es) tail o h r = absurd o.0

-- When a stream with bytes or its end ready brings a proper beginning of a frame of at most 4096
-- bytes of payload and then ends, without a failing call, receiving a request returns an error
-- whatever the payload is: a closed connection if no byte came, and otherwise a truncation with
-- the length of the part that is incomplete and the number of its bytes that came.
pub recv_request-cut_short :
    (payload missing : List ℕ) (es rest : List ReadEvent)
    → length payload ≤ 4096
    → All IsOpen es
    → IsReady (es ++ chunk [] ∷ rest)
    → pending es ++ missing ≡ le_bytes 4 (length payload) ++ payload
    → 0 < length missing
    → recv_request (es ++ chunk [] ∷ rest)
      ≡ some (err (cut_short (length payload) (length (pending es))), rest)
recv_request-cut_short payload missing es rest small o ready q h =
    elim (Bool-cases (ltb (length (pending es)) 4)) [
      | inl early ↦ prefix_ends (length payload) es rest o ready (ground arith)
      | inr later ↦
          let n = length payload in
          let size = length-le_bytes 4 n in
          let (came, split, left) =
            append-split (le_bytes 4 n) payload (pending es) missing (sym q)
              (omega (arith, size, le_of_ltb later)) in
          let whole : length payload ≡ length came + length missing =
            ap length left ∙ length-append came missing in
          let counted : length (pending es) ≡ 4 + length came =
            ap length split ∙ length-append (le_bytes 4 n) came ∙ ap (λ k. k + length came) size in
          payload_ends n es rest came small o
            (IsReady-append es (chunk [] ∷ rest) o (omega (arith, counted)) ready) split
            (omega (arith, whole, h))
          ∙ ap (λ e. some (err e, rest)) (within n came counted)
    ]
  where
    le_of_ltb : ltb (length (pending es)) 4 ≡ false → 4 ≤ length (pending es)
    le_of_ltb e = ground arith

    within :
        (n : ℕ) (came : List ℕ)
        → length (pending es) ≡ 4 + length came
        → protocol (truncated n (length came)) ≡ cut_short n (length (pending es))
    within n came e = rw e (ground arith)
