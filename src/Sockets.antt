-- ===== src/Sockets.antt =====
-- src/net/mod.rs and src/unix/mod.rs: making sockets.
pub mod First
use ringbahn.Base.{ℕ, Bool, List, [], ◌∷◌, Option, none, some, if◌then◌else◌}
use ringbahn.Machine.{Cmd, pure, ◌>>=◌}
use ringbahn.Completion.Types.{IoResult, ok, err, Error, os, invalid_input}

-- the address families that are asked for
pub data Domain : Type 0 where
  inet inet6 unix : Domain

-- A result of the crate nix; its error may come with an error number of the system.
pub data NixResult (A : Type 0) : Type 0 where
  done : A → NixResult A
  failed : Option ℕ → NixResult A

-- `map_err(|e| e.as_errno().unwrap_or(Errno::EIO))`, with the conversion of an error number
unfoldable pub or_eio : {A : Type 0} → NixResult A → IoResult A
or_eio (done a) = ok a
or_eio (failed (some n)) = err (os n)
or_eio (failed none) = err (os 5)

-- The crate nix, of whose calls the system's state decides the result: `bytes` is what a box with an
-- address holds, and `unix_addr` is `UnixAddr::new`, which refuses some paths.
pub record Nix : Type 1 where
  pub SocketAddr : Type 0
  pub SockAddr : Type 0
  pub FilePath : Type 0
  pub is_ipv6 : SocketAddr → Bool
  pub from_std : SocketAddr → SockAddr
  pub unix_addr : FilePath → Option SockAddr
  pub bytes : SockAddr → List ℕ
  pub socket : Domain → Cmd (NixResult ℕ)
  pub socketpair : Cmd (NixResult (ℕ × ℕ))
  pub last_os_error : Cmd Error
  pub set_reuse_addr : ℕ → Cmd (NixResult (Unit {0}))
  pub bind : ℕ → SockAddr → Cmd (NixResult (Unit {0}))
  pub listen : ℕ → ℕ → Cmd (NixResult (Unit {0}))

module _ (N : Nix) where
  open N use {SocketAddr, is_ipv6, last_os_error}

  abbrev pub domain : SocketAddr → Domain
  domain addr = if is_ipv6 addr then inet6 else inet

  -- what a round of the loop makes of its socket; `go_on` is the loop's remaining rounds
  unfoldable pub next_socket :
      SocketAddr
      → (go_on : Error → Cmd (IoResult (ℕ × SocketAddr))) → NixResult ℕ
      → Cmd (IoResult (ℕ × SocketAddr))
  next_socket addr go_on (done fd) = pure (ok (fd, addr))
  next_socket addr go_on (failed _) = do error ← last_os_error; go_on error

  -- the loop of `net::socket`, with the error of the round before
  unfoldable pub first_socket : List SocketAddr → Error → Cmd (IoResult (ℕ × SocketAddr))
  unfolding next_socket
  first_socket [] error = pure (err error)
  first_socket (addr ∷ rest) error = do
    r ← N.socket (domain addr)
    next_socket addr (first_socket rest) r

  -- `net::socket`, for the addresses that the argument resolves to
  unfoldable pub net_socket : IoResult (List SocketAddr) → Cmd (IoResult (ℕ × SocketAddr))
  unfolding first_socket
  net_socket (err e) = pure (err e)
  net_socket (ok addrs) = first_socket addrs invalid_input

  -- `unix::socket` and `unix::socketpair`
  unfoldable pub or_last_error : {A : Type 0} → NixResult A → Cmd (IoResult A)
  or_last_error (done a) = pure (ok a)
  or_last_error (failed _) = do e ← last_os_error; pure (err e)

  unfoldable pub unix_socket : Cmd (IoResult ℕ)
  unfolding or_last_error
  unix_socket = N.socket unix >>= or_last_error

  unfoldable pub unix_socketpair : Cmd (IoResult (ℕ × ℕ))
  unfolding or_last_error
  unix_socketpair = N.socketpair >>= or_last_error
