-- ===== src/Transport/Server.antt =====
-- `Server::create`: the socket file, and the listener on it. What the file system and the kernel
-- answer is an argument; the result has the calls that would change the file.
use abacus_rts.Base.{
  subst, sym, All, ◌≢◌, ℕ, ◌≡◌, refl, ap, ◌⊎◌, inl, inr, ◌++◌, Bool-cases, Option-cases, Bool, true,
  false, Option, none, some, List, [], ◌∷◌, if◌then◌else◌, Result, ok, err, panic, ◌>>◌,
}
use abacus_rts.Base.Text.{Str}
use abacus_rts.Core.Error.{
  IoOperation, TransportError, io, bind, listen, connect, read, write, stat, set_non_blocking,
  socket_path_occupied,
}

-- A call of the kernel that fails with an errno is an error of the operation.
abbrev pub call : IoOperation → Option ℕ → Result TransportError (Unit {0})
call operation none = ok tt
call operation (some errno) = err (io operation errno)

-- `is_socket_file`, by the result of the stat and the type that it finds.
unfoldable pub is_socket_file : Option ℕ → Bool → Result TransportError Bool
is_socket_file stat_errno is_socket = do call stat stat_errno; ok is_socket

-- `probe_connect_succeeds`, by the result of the connect.
unfoldable pub probe_connect_succeeds : Option ℕ → Bool
probe_connect_succeeds none = true
probe_connect_succeeds (some errno) = false

-- `Connection::connect`, `set_timeouts` and `set_nonblocking`, by the results of their calls.
unfoldable pub connection_connect : Option ℕ → Result TransportError (Unit {0})
connection_connect connect_errno = call connect connect_errno

unfoldable pub set_timeouts : Option ℕ → Option ℕ → Result TransportError (Unit {0})
set_timeouts read_errno write_errno = do call read read_errno; call write write_errno

unfoldable pub set_nonblocking : Option ℕ → Result TransportError (Unit {0})
set_nonblocking errno = call set_non_blocking errno

-- What is found at the path, and the errno of each call that fails.
pub record Place : Type 0 where
  pub exists : Bool
  pub is_socket : Result TransportError Bool
  pub answers : Bool
  pub bind_errno : Option ℕ
  pub nonblocking_errno : Option ℕ
  pub listen_errno : Option ℕ
  pub stale_errno : Option ℕ
  pub unlink_errno : Option ℕ

-- A binding that has succeeded, and a `remove_file` with the errno, which is ignored, of one that
-- has failed and so left the file.
pub data FileCall : Type 0 where
  bound : FileCall
  remove_file : (errno : Option ℕ) → FileCall

-- The binding, and what follows it.
unfoldable pub listen_at : Place → Result TransportError (Unit {0}) × List FileCall
listen_at p = elim p.bind_errno [
  | some errno ↦ (err (io bind errno), [])
  | none ↦ elim p.nonblocking_errno [
    | some errno ↦ (err (io set_non_blocking errno), bound ∷ [])
    | none ↦ elim p.listen_errno [
      | some errno ↦ (err (io listen errno), bound ∷ remove_file p.unlink_errno ∷ [])
      | none ↦ (ok tt, bound ∷ [])
    ]
  ]
]

abbrev after_removal :
    Option ℕ
    → Result TransportError (Unit {0}) × List FileCall
    → Result TransportError (Unit {0}) × List FileCall
after_removal errno (r, calls) = (r, remove_file errno ∷ calls)

unfoldable pub server_create : Place → Str → Result TransportError (Unit {0}) × List FileCall
unfolding listen_at
server_create p path =
    if p.exists
    then elim p.is_socket [
      | ok true ↦
          if p.answers
          then (err (socket_path_occupied path true), [])
          else after_removal p.stale_errno (listen_at p)
      | ok false ↦ (err (socket_path_occupied path false), [])
      | err e ↦ (err e, [])
      | panic ↦ (panic, [])
    ]
    else listen_at p

-- `Drop` of the server.
unfoldable pub server_drop : Option ℕ → List FileCall → List FileCall
server_drop errno calls = calls ++ remove_file errno ∷ []

-- There is no file, or a socket at which nobody answers.
abbrev pub IsFree : Place → Type 0
IsFree p = (p.exists ≡ false) ⊎ ((p.is_socket ≡ ok true) × (p.answers ≡ false))

-- A daemon answers, or the file is no socket, or it could not be looked at.
abbrev pub Refused : Place → Str → TransportError → Type 0
Refused p path e =
    (p.exists ≡ true)
    × (((p.is_socket ≡ ok true) × (p.answers ≡ true) × (e ≡ socket_path_occupied path true))
        ⊎ (((p.is_socket ≡ ok false) × (e ≡ socket_path_occupied path false))
            ⊎ (p.is_socket ≡ err e)))

abbrev pub EndsWith : FileCall → List FileCall → Type 0
EndsWith c calls = (before : List FileCall) × (calls ≡ before ++ c ∷ [])

-- The last call was to remove the file, or none has bound it.
abbrev pub IsUndone : List FileCall → Type 0
IsUndone calls =
    ((errno : Option ℕ) × EndsWith (remove_file errno) calls) ⊎ All (λ c. c ≢ bound) calls

-- What a creation of the server has done at the path.
abbrev pub Left : Place → Str → Result TransportError (Unit {0}) → List FileCall → Type 0
Left p path (ok u) calls = IsFree p × EndsWith bound calls
Left p path (err e) calls =
    (Refused p path e × (calls ≡ []))
    ⊎ (IsFree p × (IsUndone calls ⊎ ((n : ℕ) × (e ≡ io set_non_blocking n))))
Left p path panic calls = ⊥

-- The same of what follows the look at the path.
abbrev Listened : Result TransportError (Unit {0}) → List FileCall → Type 0
Listened (ok u) calls = EndsWith bound calls
Listened (err e) calls = IsUndone calls ⊎ ((n : ℕ) × (e ≡ io set_non_blocking n))
Listened panic calls = ⊥

listen_at-Listened : (p : Place) → Listened (listen_at p).0 (listen_at p).1
unfolding listen_at
listen_at-Listened p = elim (Option-cases p.bind_errno) [
  | inr (n, q) ↦ rw q (inl (inr tt))
  | inl q ↦ elim (Option-cases p.nonblocking_errno) [
    | inr (n, q') ↦ rw (q, q') (inr (n, refl))
    | inl q' ↦ elim (Option-cases p.listen_errno) [
      | inr (n, q'') ↦ rw (q, q', q'') (inl (inl (_, (bound ∷ [], refl))))
      | inl q'' ↦ rw (q, q', q'') ([], refl)
    ]
  ]
]

after_removal-Listened :
    (errno : Option ℕ) (r : Result TransportError (Unit {0})) (calls : List FileCall)
    → Listened r calls
    → Listened r (remove_file errno ∷ calls)
after_removal-Listened errno (ok u) calls (before, q) =
    (remove_file errno ∷ before, ap (◌∷◌ (remove_file errno)) q)
after_removal-Listened errno (err e) calls (inl (inl (n, (before, q)))) =
    inl (inl (n, (remove_file errno ∷ before, ap (◌∷◌ (remove_file errno)) q)))
after_removal-Listened errno (err e) calls (inl (inr never)) = inl (inr (λ q. cc, never))
after_removal-Listened errno (err e) calls (inr n) = inr n
after_removal-Listened errno panic calls h = h

free-Left :
    (p : Place) (path : Str) (r : Result TransportError (Unit {0})) (calls : List FileCall)
    → IsFree p
    → Listened r calls
    → Left p path r calls
free-Left p path (ok u) calls free h = (free, h)
free-Left p path (err e) calls free h = inr (free, h)
free-Left p path panic calls free h = h

-- The creation of the server.
pub server_create-Left :
    (p : Place) (path : Str) (stat_errno : Option ℕ) (is_socket : Bool)
    → p.is_socket ≡ is_socket_file stat_errno is_socket
    → Left p path (server_create p path).0 (server_create p path).1
unfolding server_create is_socket_file
server_create-Left p path stat_errno is_socket found = elim (Bool-cases p.exists) [
  | inr absent ↦
      comes (listen_at p) (rw absent refl)
        (free-Left p path (listen_at p).0 (listen_at p).1 (inl absent) (listen_at-Listened p))
  | inl there ↦ there_is stat_errno is_socket there found
]
  where
    comes :
        (x : Result TransportError (Unit {0}) × List FileCall)
        → server_create p path ≡ x
        → Left p path x.0 x.1
        → Left p path (server_create p path).0 (server_create p path).1
    comes x q h =
        subst (λ (y : Result TransportError (Unit {0}) × List FileCall). Left p path y.0 y.1)
          (sym q) h

    there_is :
        (stat_errno : Option ℕ) (is_socket : Bool)
        → p.exists ≡ true
        → p.is_socket ≡ is_socket_file stat_errno is_socket
        → Left p path (server_create p path).0 (server_create p path).1
    there_is (some n) is_socket there q =
        comes (err (io stat n), []) (rw (there, q) refl) (inl ((there, inr (inr q)), refl))
    there_is none false there q =
        comes (err (socket_path_occupied path false), []) (rw (there, q) refl)
          (inl ((there, inr (inl (q, refl))), refl))
    there_is none true there q = elim (Bool-cases p.answers) [
      | inl live ↦
          comes (err (socket_path_occupied path true), []) (rw (there, q, live) refl)
            (inl ((there, inl (q, live, refl)), refl))
      | inr dead ↦ comes (after_removal p.stale_errno (listen_at p)) (rw (there, q, dead) refl) (
          free-Left p path _ _ (inr (q, dead)) (
            after_removal-Listened p.stale_errno (listen_at p).0 (listen_at p).1
              (listen_at-Listened p)))
    ]
