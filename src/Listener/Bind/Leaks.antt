-- ===== src/Listener/Bind/Leaks.antt =====
-- What binding leaves behind where it fails.
use ringbahn.Base.{ℕ, ◌≡◌, refl, ◌∙◌, List, [], ◌∷◌, none}
use ringbahn.Machine.{World, returns, Cmd, ◌>>=◌}
use ringbahn.Machine.Returns.{Returns, returned, Returns-and_then, Returns-map, outcome}
use ringbahn.Completion.Types.{IoResult, ok, err, Error}
use ringbahn.Ring
use ringbahn.Sockets.{
  Nix, Domain, NixResult, done, failed, or_eio, domain, next_socket, first_socket, net_socket,
}
use ringbahn.Listener.{TcpListener, nothing}
use ringbahn.Listener.Bind.{go_on_if, bound, bind_on_driver}

-- A call returns and closes no descriptor.
abbrev pub IsQuiet : {A : Type 0} → Cmd A → Type 0
IsQuiet m = (w : World) → Returns (λ _ v. v.closed ≡ w.closed) (m w)

-- The calls of the crate nix with which a listener is made.
pub record Quietly (N : Nix) : Type 0 where
  pub sockets : (d : Domain) → IsQuiet (N.socket d)
  pub errors : IsQuiet N.last_os_error
  pub options : (fd : ℕ) → IsQuiet (N.set_reuse_addr fd)
  pub binds : (fd : ℕ) (a : N.SockAddr) → IsQuiet (N.bind fd a)
  pub listens : (fd n : ℕ) → IsQuiet (N.listen fd n)

-- A call has succeeded, or it has failed, with the error that its result is mapped to.
abbrev pub Succeeds : Cmd (NixResult (Unit {0})) → World → World → Type 0
Succeeds m w v = (r : NixResult (Unit {0})) × (m w ≡ returns r v) × (or_eio r ≡ ok tt)

abbrev pub Fails : Cmd (NixResult (Unit {0})) → World → Error → World → Type 0
Fails m w e v = (r : NixResult (Unit {0})) × (m w ≡ returns r v) × (or_eio r ≡ err e)

-- There is a socket for one of the addresses.
abbrev pub Opens :
    (N : Nix) → IoResult (List N.SocketAddr) → World → ℕ → N.SocketAddr → World → Type 0
Opens N addrs w fd addr v = net_socket N addrs w ≡ returns (ok (fd, addr)) v

-- The steps in their order: each is taken if those before it have succeeded, and the first that fails
-- decides the error, and the memory that is left. If none does, there is a listener for the socket, with
-- an inert ring and nothing under way.
pub data Binds (N : Nix) {Driver : Type 0} (addrs : IoResult (List N.SocketAddr)) (driver : Driver)
    (w : World) : IoResult (TcpListener Driver) → World → Type 0 where
  no_socket :
      {e : Error} {v : World}
      → net_socket N addrs w ≡ returns (err e) v
      → Binds N addrs driver w (err e) v
  no_reuse :
      {fd : ℕ} {addr : N.SocketAddr} {e : Error} {u v : World}
      → Opens N addrs w fd addr u
      → Fails (N.set_reuse_addr fd) u e v
      → Binds N addrs driver w (err e) v
  no_bind :
      {fd : ℕ} {addr : N.SocketAddr} {e : Error} {u x v : World}
      → Opens N addrs w fd addr u
      → Succeeds (N.set_reuse_addr fd) u x
      → Fails (N.bind fd (N.from_std addr)) x e v
      → Binds N addrs driver w (err e) v
  no_listen :
      {fd : ℕ} {addr : N.SocketAddr} {e : Error} {u x y v : World}
      → Opens N addrs w fd addr u
      → Succeeds (N.set_reuse_addr fd) u x
      → Succeeds (N.bind fd (N.from_std addr)) x y
      → Fails (N.listen fd 128) y e v
      → Binds N addrs driver w (err e) v
  listens :
      {fd : ℕ} {addr : N.SocketAddr} {u x y v : World}
      → Opens N addrs w fd addr u
      → Succeeds (N.set_reuse_addr fd) u x
      → Succeeds (N.bind fd (N.from_std addr)) x y
      → Succeeds (N.listen fd 128) y v
      → Binds N addrs driver w
          (ok (record { ring = Ring.new driver; fd = fd; active = nothing; addr = none }))
          v

module _ (N : Nix) (quietly : Quietly N) where
  next_socket-IsQuiet :
      (addr : N.SocketAddr) (go_on : Error → Cmd (IoResult (ℕ × N.SocketAddr))) (r : NixResult ℕ)
      → ((e : Error) → IsQuiet (go_on e))
      → IsQuiet (next_socket N addr go_on r)
  unfolding next_socket
  next_socket-IsQuiet addr go_on (done fd) next w = returned refl
  next_socket-IsQuiet addr go_on (failed n) next w =
      Returns-and_then (quietly.errors w) λ e v p. Returns-map (next e v) λ r u q. q ∙ p

  first_socket-IsQuiet : (addrs : List N.SocketAddr) (e : Error) → IsQuiet (first_socket N addrs e)
  unfolding first_socket
  first_socket-IsQuiet [] e w = returned refl
  first_socket-IsQuiet (addr ∷ rest) e w =
      Returns-and_then (quietly.sockets (domain N addr) w) λ r v p.
        Returns-map (next_socket-IsQuiet addr (first_socket N rest) r (first_socket-IsQuiet rest) v)
          λ r u q. q ∙ p

  net_socket-IsQuiet : (addrs : IoResult (List N.SocketAddr)) → IsQuiet (net_socket N addrs)
  unfolding net_socket
  net_socket-IsQuiet (err e) w = returned refl
  net_socket-IsQuiet (ok addrs) w = first_socket-IsQuiet addrs _ w

  module _ {Driver : Type 0} (addrs : IoResult (List N.SocketAddr)) (driver : Driver)
      (w : World) where
    abbrev Left : IoResult (TcpListener Driver) → World → Type 0
    Left r v = Binds N addrs driver w r v × (v.closed ≡ w.closed)

    -- a step that may fail, and what follows it
    go_on_if-Left :
        (m : Cmd (NixResult (Unit {0}))) (next : Cmd (IoResult (TcpListener Driver))) (u : World)
        → IsQuiet m
        → u.closed ≡ w.closed
        → ((e : Error) (v : World) → Fails m u e v → Binds N addrs driver w (err e) v)
        → ((v : World) → Succeeds m u v → v.closed ≡ w.closed → Returns Left (next v))
        → Returns Left ((m >>= λ r. go_on_if (or_eio r) next) u)
    unfolding go_on_if
    go_on_if-Left m next u quiet p stop rest =
        let (r, v, e, q) = outcome (quiet u) in rw e (answered r v e (q ∙ p) (or_eio r) refl)
      where
        answered :
            (r : NixResult (Unit {0})) (v : World)
            → m u ≡ returns r v
            → v.closed ≡ w.closed
            → (a : IoResult (Unit {0})) → or_eio r ≡ a
            → Returns Left (go_on_if (or_eio r) next v)
        answered r v e q (err x) f = rw f (returned (stop x v (r, e, f), q))
        answered r v e q (ok tt) f = rw f (rest v (r, e, f) q)

    bound-Left :
        (r : IoResult (ℕ × N.SocketAddr)) (u : World)
        → net_socket N addrs w ≡ returns r u
        → u.closed ≡ w.closed
        → Returns Left (bound N driver r u)
    unfolding bound
    bound-Left (err e) u opens p = returned (no_socket opens, p)
    bound-Left (ok (fd, addr)) u opens p =
        go_on_if-Left (N.set_reuse_addr fd) _ u (quietly.options fd) p
          (λ e v fails. no_reuse opens fails)
          λ v reuses q.
            go_on_if-Left (N.bind fd (N.from_std addr)) _ v (quietly.binds fd _) q
              (λ e x fails. no_bind opens reuses fails)
              λ x binds r.
                go_on_if-Left (N.listen fd 128) _ x (quietly.listens fd 128) r
                  (λ e y fails. no_listen opens reuses binds fails)
                  λ y heard s. returned (listens opens reuses binds heard, s)

    -- Where the calls of the system return, and close no descriptor themselves, `bind_on_driver` returns.
    -- It takes its steps in order: the socket, its option, binding it to the address that it was made for,
    -- and listening with room for 128. The first that fails ends it with that step's error, and it does
    -- nothing after; if none fails there is a listener for the socket, on an inert ring with no operation
    -- under way. It closes no descriptor in any case, not even that of its socket, if a later step fails.
    pub bind_on_driver-closed :
        Returns
          (λ r v. Binds N addrs driver w r v × (v.closed ≡ w.closed))
          (bind_on_driver N addrs driver w)
    unfolding bind_on_driver
    bind_on_driver-closed =
        let (r, u, e, p) = outcome (net_socket-IsQuiet addrs w) in rw e (bound-Left r u e p)
