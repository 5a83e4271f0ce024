-- ===== src/Transport/Descriptors.antt =====
-- Descriptors on their way: what is put into the control message is taken out.
use mathlib.Core.List.{append-nil}
use abacus_rts.Base.{
  ℕ, ◌+◌, ◌-◌, ◌*◌, ◌/◌, ◌%◌, ◌^◌, ◌≤◌, ◌<◌, ◌≡◌, refl, sym, ap, ◌∙◌, subst, false, ◌&&◌, List, [],
  ◌∷◌, ◌++◌, length, take, drop, take-append, drop-append, length-append, ltb, ◌==◌, ok,
  ok-injective, All, Bool-cases, inl, inr, ==_refl, arith,
}
use abacus_rts.Base.U64.{le_bytes, length-le_bytes, from_le_bytes-le_bytes}
use abacus_rts.Wire.Message.{Response, expected_fd_count}
use abacus_rts.Wire.Encode.{encode_response}
use abacus_rts.Wire.RoundTrip.{IsValidResponse}
use abacus_rts.Transport.Stream.{ReadEvent}
use abacus_rts.Transport.Receive.{max_fds_per_message, recv_response}
use abacus_rts.Transport.Fragments.{pending, IsOpen, IsReady, HasRead}
use abacus_rts.Transport.Replies.{recv_response-encode_response}
use abacus_rts.Transport.Ancillary.{
  Libc, raw_fd_bytes, IsDocumented, Cmsg, fd_bytes, control_message, read_fds,
  extract_fds_from_cmsg, received_control,
}

length-fd_bytes : (fds : List ℕ) → length (fd_bytes fds) ≡ length fds * raw_fd_bytes
unfolding fd_bytes
length-fd_bytes [] = omega arith
length-fd_bytes (fd ∷ fds) = omega (
  arith,
  length-append {0} (le_bytes raw_fd_bytes fd) (fd_bytes fds),
  length-le_bytes raw_fd_bytes fd,
  length-fd_bytes fds,
)

-- The message as it is made, when it is made.
abbrev rights : Libc → List ℕ → Cmsg
rights l fds = record {
  level = l.sol_socket;
  kind = l.scm_rights;
  len = l.cmsg_len (length fds * raw_fd_bytes);
  body = fd_bytes fds;
}

take_first : (n : ℕ) (xs ys : List ℕ) → length xs ≡ n → take n (xs ++ ys) ≡ xs
take_first n xs ys q = subst (λ k. take k (xs ++ ys) ≡ xs) q (take-append xs ys)

drop_first : (n : ℕ) (xs ys : List ℕ) → length xs ≡ n → drop n (xs ++ ys) ≡ ys
drop_first n xs ys q = subst (λ k. drop k (xs ++ ys) ≡ ys) q (drop-append xs ys)

read_fds-fd_bytes :
    (fds : List ℕ) → All (λ fd. fd < 2 ^ 32) fds → read_fds (length fds) (fd_bytes fds) ≡ fds
unfolding read_fds fd_bytes
read_fds-fd_bytes [] h = refl
read_fds-fd_bytes (fd ∷ fds) h =
    let size = length-le_bytes raw_fd_bytes fd in
    rw
      (
        take_first raw_fd_bytes (le_bytes raw_fd_bytes fd) (fd_bytes fds) size,
        drop_first raw_fd_bytes (le_bytes raw_fd_bytes fd) (fd_bytes fds) size,
        from_le_bytes-le_bytes raw_fd_bytes fd (omega (arith, h.0)),
      )
      (ap (◌∷◌ fd) (read_fds-fd_bytes fds h.1))

-- Not SCM_RIGHTS of SOL_SOCKET.
abbrev pub IsOther : Libc → Cmsg → Type 0
IsOther l c = (c.level == l.sol_socket && c.kind == l.scm_rights) ≡ false

extract-others : (l : Libc) (cs : List Cmsg) → All (IsOther l) cs → extract_fds_from_cmsg l cs ≡ []
unfolding extract_fds_from_cmsg
extract-others l [] h = refl
extract-others l (c ∷ cs) h = rw h.0 (extract-others l cs h.1)

extract-append :
    (l : Libc) (before cs : List Cmsg)
    → All (IsOther l) before
    → extract_fds_from_cmsg l (before ++ cs) ≡ extract_fds_from_cmsg l cs
unfolding extract_fds_from_cmsg
extract-append l [] cs h = refl
extract-append l (c ∷ before) cs h = rw h.0 (extract-append l before cs h.1)

-- The length that is declared gives the number of descriptors back.
count_of :
    (l : Libc) (fds : List ℕ)
    → IsDocumented l
    → length fds ≤ max_fds_per_message
    → (l.cmsg_len (length fds * raw_fd_bytes) + 2 ^ 64 - l.cmsg_len 0) % 2 ^ 64 / raw_fd_bytes
      ≡ length fds
count_of l fds d few = omega (arith, d.grows (length fds * raw_fd_bytes), d.small)

extract-rights :
    (l : Libc) (fds : List ℕ) (after : List Cmsg)
    → IsDocumented l
    → length fds ≤ max_fds_per_message
    → All (λ fd. fd < 2 ^ 32) fds
    → All (IsOther l) after
    → extract_fds_from_cmsg l (rights l fds ∷ after) ≡ fds
unfolding extract_fds_from_cmsg
extract-rights l fds after d few small others =
    rw
      (
        ==_refl l.sol_socket,
        ==_refl l.scm_rights,
        count_of l fds d few,
        read_fds-fd_bytes fds small,
        extract-others l after others,
      )
      (append-nil fds)

-- The message that is made is that one.
control_message-rights :
    (l : Libc) (fds : List ℕ) {c : Cmsg} {n : ℕ}
    → control_message l fds ≡ ok (c, n)
    → c ≡ rights l fds
unfolding control_message
control_message-rights l fds e = elim (Bool-cases (ltb max_fds_per_message (length fds))) [
  | inl many ↦ cc (rw many at e)
  | inr few ↦ elim (Bool-cases (ltb (l.cmsg_space (length fds * raw_fd_bytes)) l.cmsghdr_size)) [
    | inl null ↦ cc (rw (few, null) at e)
    | inr fits ↦ sym (ap (λ r. r.0) (ok-injective (rw (few, fits) at e)))
  ]
]

-- What the receiver takes out.
pub extract-control_message :
    (l : Libc) (fds : List ℕ) {c : Cmsg} {n : ℕ} (before after : List Cmsg)
    → IsDocumented l
    → length fds ≤ max_fds_per_message
    → All (λ fd. fd < 2 ^ 32) fds
    → control_message l fds ≡ ok (c, n)
    → All (IsOther l) before
    → All (IsOther l) after
    → extract_fds_from_cmsg l (before ++ c ∷ after) ≡ fds
extract-control_message l fds before after d few small e first others =
    extract-append l before _ first
    ∙ rw (control_message-rights l fds e) (extract-rights l fds after d few small others)

-- With macros that do what cmsg(3) documents, descriptors that fit the control message and 32
-- bits, and as many as a valid response calls for, are received with it as they were put into the
-- message, among whatever other control messages, when the response's frame arrives on a stream
-- that stays open, with bytes ready, and the control data is whole; exactly the bytes behind the
-- frame are left.
pub recv_response-control_message :
    (l : Libc) (fds : List ℕ) {c : Cmsg} {n : ℕ} (before after : List Cmsg) (resp : Response)
    {f : List ℕ} (es : List ReadEvent) (more : List ℕ)
    → IsDocumented l
    → length fds ≤ max_fds_per_message
    → All (λ fd. fd < 2 ^ 32) fds
    → control_message l fds ≡ ok (c, n)
    → All (IsOther l) before
    → All (IsOther l) after
    → length fds ≡ expected_fd_count resp
    → IsValidResponse resp
    → encode_response resp ≡ ok f
    → All IsOpen es
    → IsReady es
    → pending es ≡ f ++ more
    → HasRead (recv_response (received_control l (before ++ c ∷ after) false) es) (resp, fds) more
unfolding received_control
recv_response-control_message l fds {c = c} before after resp es more d few small e first others
      count v sent o ready q =
    let taken : extract_fds_from_cmsg l (before ++ c ∷ after) ≡ fds =
      extract-control_message l fds before after d few small e first others in
    subst
      (λ got.
        HasRead (recv_response (received_control l (before ++ c ∷ after) false) es) (resp, got)
          more)
      taken
      (recv_response-encode_response (received_control l (before ++ c ∷ after) false) resp es more
        refl (ap length taken ∙ count) v sent o ready q)
