-- ===== src/Daemon/Start.antt =====
-- `daemon_run` before its loop, and main.rs.
use abacus_rts.Base.{
  ℕ, ◌≡◌, refl, ◌⊎◌, inl, inr, Bool, false, Option, List, [], ◌++◌, Result, ok, err, panic, ◌+◌,
  ◌<◌, ◌==◌, Yields, yields, fails, Yields-bind, arith, ==_refl, subst, sym, ap,
}
use abacus_rts.Base.Text.{Str, str, str_eq_refl}
use abacus_rts.Core.Error.{
  Condition, TransportError, io, set_non_blocking, StartupError, transport, allocation,
  StartupError_fmt,
}
use abacus_rts.Core.Interlock.Words.{Shared, sentinel, creation_ttl_nanos}
use abacus_rts.Core.Interlock.Create.{Kernel}
use abacus_rts.Registry.Entry.{Registry, new, clock, arm, clock_name}
use abacus_rts.Base.Map
use abacus_rts.Core.Interlock.Arm.{arm_atomic}
use abacus_rts.Registry.Resolve.{interlock_create-Yields}
use abacus_rts.Transport.Server.{
  FileCall, Place, is_socket_file, server_create, server_drop, EndsWith, bound, Left, IsFree,
  Refused, IsUndone, server_create-Left,
}
use abacus_rts.Daemon.Reach.{State, Reachable, start}

-- What the start meets: the path, the kernel, and the readings of the clock in `Registry::new`.
pub record Boot : Type 0 where
  pub place : Place
  pub kernel : Kernel
  pub arm_now : ℕ
  pub start_now : ℕ
  pub shared : Shared
  pub drop_errno : Option ℕ

-- `From` for the two kinds of errors: `transport` and `allocation`. The server that is bound is
-- dropped when the registry fails.
unfoldable pub with_registry :
    Option ℕ
    → Result Condition (Registry × Shared)
    → List FileCall
    → Result StartupError State × List FileCall
unfolding server_drop clock
with_registry errno (err c) calls = (err (allocation c), server_drop errno calls)
with_registry errno panic calls = (panic, server_drop errno calls)
with_registry errno (ok (reg, σ)) calls = elim (clock reg) [
  | ok h ↦ (ok (record { registry = reg; shared = σ; clock_handle = h }), calls)
  | err c ↦ (panic, server_drop errno calls)
  | panic ↦ (panic, server_drop errno calls)
]

unfoldable pub with_server :
    Boot
    → Result TransportError (Unit {0})
    → List FileCall
    → Result StartupError State × List FileCall
unfolding new with_registry
with_server b (err e) calls = (err (transport e), calls)
with_server b panic calls = (panic, calls)
with_server b (ok u) calls =
    with_registry b.drop_errno (new b.kernel b.arm_now b.start_now b.shared) calls

unfoldable pub daemon_start : Boot → Str → Result StartupError State × List FileCall
unfolding server_create with_server
daemon_start b path = let (r, calls) = server_create b.place path in with_server b r calls

-- `main` with `e`: what it prints, and the status it exits with. `daemon_run` does not return
-- otherwise.
unfoldable pub main_fatal : StartupError → Str × ℕ
unfolding StartupError_fmt
main_fatal e = (str "abacus: fatal: " ++ StartupError_fmt e, 1)

module _ (k : Kernel) (arm_now start_now : ℕ) (σ : Shared)
    (fits : k.now_ns + creation_ttl_nanos < sentinel) where
  armed :
      (p : ℕ × Shared)
      → (p.1.regions p.0).expiration_ns ≡ k.now_ns + creation_ttl_nanos
      → (arm p.0 arm_now 1_000_000_000 p.1).0 ≡ ok tt
  unfolding arm arm_atomic
  armed p q =
      let live : ((p.1.regions p.0).expiration_ns == sentinel) ≡ false = ground arith in
      rw live refl

  -- A registry that `new` returns has the clock.
  new-clock : Yields (λ r. clock r.0 ≡ ok σ.next_region) (new k arm_now start_now σ)
  unfolding new clock Map.get
  new-clock = Yields-bind (interlock_create-Yields k σ) λ p q.
      let set : (p.1.regions p.0).expiration_ns ≡ k.now_ns + creation_ttl_nanos =
        subst (λ (r : ℕ × Shared). (r.1.regions r.0).expiration_ns ≡ k.now_ns + creation_ttl_nanos)
          (sym q) (rw (==_refl σ.next_region) (omega arith)) in
      rw (armed p set) (yields (rw (str_eq_refl clock_name) (ap (λ (r : ℕ × Shared). ok r.0) q)))

-- How the start ends, with the path's calls.
abbrev pub Started : Place → Str → Result StartupError State → List FileCall → Type 0
Started p path (ok s) calls = IsFree p × Reachable s × EndsWith bound calls
Started p path (err e) calls =
    ((e' : TransportError) × (e ≡ transport e') × Refused p path e' × (calls ≡ []))
    ⊎ (IsFree p × (IsUndone calls ⊎ ((n : ℕ) × (e ≡ transport (io set_non_blocking n)))))
Started p path panic calls = ⊥

with_server-Started :
    (b : Boot) (path : Str) (r : Result TransportError (Unit {0})) (calls : List FileCall)
    → b.kernel.now_ns + creation_ttl_nanos < sentinel
    → Left b.place path r calls
    → Started b.place path (with_server b r calls).0 (with_server b r calls).1
unfolding with_server with_registry server_drop
with_server-Started b path (err e) calls fits (inl (refused, q)) = inl (e, refl, refused, q)
with_server-Started b path (err e) calls fits (inr (free, inl undone)) = inr (free, inl undone)
with_server-Started b path (err e) calls fits (inr (free, inr (n, q))) =
    inr (free, inr (n, ap transport q))
with_server-Started b path panic calls fits h = h
with_server-Started b path (ok u) calls fits (free, left) =
    registered (new b.kernel b.arm_now b.start_now b.shared) refl
      (new-clock b.kernel b.arm_now b.start_now b.shared fits)
  where
    registered :
        (made : Result Condition (Registry × Shared))
        → new b.kernel b.arm_now b.start_now b.shared ≡ made
        → Yields (λ r. clock r.0 ≡ ok b.shared.next_region) made
        → Started b.place path
            (with_registry b.drop_errno made calls).0
            (with_registry b.drop_errno made calls).1
    registered (ok (reg, σ)) e (yields found) =
        rw (with_registry, found)
          (
            free,
            start b.kernel b.arm_now b.start_now b.shared
                (record { registry = reg; shared = σ; clock_handle = b.shared.next_region }) e
                found,
            left,
          )
    registered panic e never = elim never [ ]
    registered (err c) e fails = inr (free, inl (inl (b.drop_errno, (calls, refl))))

-- While the creation's expiration lies below the sentinel, the start of a daemon returns. Where a
-- daemon answers at the path, or there is another file, or it cannot be looked at, it returns the
-- error that says so and has called nothing that changes the file. Otherwise it has reached a
-- state, with its socket bound as the last call; or it returns an error, and has bound nothing or
-- called for the removal of the file as the last call, unless it was making the listener
-- non-blocking that failed.
pub daemon_start-Started :
    (b : Boot) (path : Str) (stat_errno : Option ℕ) (is_socket : Bool)
    → b.place.is_socket ≡ is_socket_file stat_errno is_socket
    → b.kernel.now_ns + creation_ttl_nanos < sentinel
    → Started b.place path (daemon_start b path).0 (daemon_start b path).1
unfolding daemon_start
daemon_start-Started b path stat_errno is_socket found fits =
    with_server-Started b path (server_create b.place path).0 (server_create b.place path).1 fits
      (server_create-Left b.place path stat_errno is_socket found)
