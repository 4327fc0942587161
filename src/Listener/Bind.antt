-- ===== src/Listener/Bind.antt =====
-- src/net/listener.rs: making a listener.
pub mod Leaks
use ringbahn.Base.{ℕ, List, none}
use ringbahn.Machine.{Cmd, pure, ◌>>=◌}
use ringbahn.Completion.Types.{IoResult, ok, err}
use ringbahn.Ring
use ringbahn.Sockets.{Nix, or_eio, net_socket}
use ringbahn.Listener.{TcpListener, nothing}

module _ {A : Type 0} where
  -- `?` after `map_err(..)`, on a result of the crate nix
  unfoldable pub go_on_if : IoResult (Unit {0}) → Cmd (IoResult A) → Cmd (IoResult A)
  go_on_if (err e) next = pure (err e)
  go_on_if (ok _) next = next

module _ (N : Nix) {Driver : Type 0} where
  open N use {SocketAddr, from_std, set_reuse_addr, bind, listen}

  -- `bind_on_driver`, from the socket; `?` leaves it with the socket open.
  unfoldable pub bound : Driver → IoResult (ℕ × SocketAddr) → Cmd (IoResult (TcpListener Driver))
  unfolding go_on_if or_eio
  bound driver (err e) = pure (err e)
  bound driver (ok (fd, addr)) = do
    o ← set_reuse_addr fd
    go_on_if (or_eio o) (do
      b ← bind fd (from_std addr)
      go_on_if (or_eio b) (do
        l ← listen fd 128
        go_on_if (or_eio l) (
            pure (ok (record { ring = Ring.new driver; fd = fd; active = nothing; addr = none })))))

  unfoldable pub bind_on_driver :
      IoResult (List SocketAddr) → Driver → Cmd (IoResult (TcpListener Driver))
  unfolding bound
  bind_on_driver addrs driver = do socket ← net_socket N addrs; bound driver socket
