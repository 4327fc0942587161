-- ===== src/Unix/Stream.antt =====
-- src/unix/stream.rs: a stream of the unix domain passes its operations on to a `TcpStream`.
use ringbahn.Base.{ℕ, List}
use ringbahn.Operation.{Slice}
use ringbahn.Machine.{Cmd, pure, ◌>>=◌, Poll, pending, ready}
use ringbahn.Completion.Types.{IoResult, ok, err}
use ringbahn.Drive.{Context, Drive}
use ringbahn.Ring
use ringbahn.Ring.{Ring}
use ringbahn.Sockets.{Nix, unix_socketpair}
use ringbahn.Stream as Tcp
use ringbahn.Stream.{TcpStream}
use ringbahn.Connect
use ringbahn.Connect.{Connect}

pub record UnixStream (Driver : Type 0) : Type 0 where
  pub inner : TcpStream Driver

unfoldable pub from_fd : {Driver : Type 0} → ℕ → Ring Driver → UnixStream Driver
from_fd fd ring = record { inner = Tcp.from_fd fd ring }

-- `inner`: an operation on the stream inside
unfoldable pub through :
    {Driver A : Type 0}
    → (TcpStream Driver → Cmd (TcpStream Driver × A))
    → UnixStream Driver
    → Cmd (UnixStream Driver × A)
through op s = do (inner, a) ← op s.inner; pure (record { inner = inner }, a)

unfoldable pub consume : {Driver : Type 0} → ℕ → UnixStream Driver → UnixStream Driver
consume amt s = record { inner = Tcp.consume amt s.inner }

module _ (D : Drive) where
  open D use {Driver}

  unfoldable pub poll_read :
      Context → (len : ℕ) → UnixStream Driver → Cmd (UnixStream Driver × Poll (IoResult (List ℕ)))
  unfolding through
  poll_read ctx len = through (Tcp.poll_read D ctx len)

  unfoldable pub poll_fill_buf :
      Context → UnixStream Driver → Cmd (UnixStream Driver × Poll (IoResult Slice))
  unfolding through
  poll_fill_buf ctx = through (Tcp.poll_fill_buf D ctx)

  unfoldable pub poll_write :
      Context → List ℕ → UnixStream Driver → Cmd (UnixStream Driver × Poll (IoResult ℕ))
  unfolding through
  poll_write ctx bytes = through (Tcp.poll_write D ctx bytes)

  unfoldable pub poll_flush :
      Context → UnixStream Driver → Cmd (UnixStream Driver × Poll (IoResult (Unit {0})))
  unfolding through
  poll_flush ctx = through (Tcp.poll_flush D ctx)

  unfoldable pub poll_close :
      Context → UnixStream Driver → Cmd (UnixStream Driver × Poll (IoResult (Unit {0})))
  unfolding through
  poll_close ctx = through (Tcp.poll_close D ctx)

  -- the stream inside the answer of a `Connect`
  unfoldable pub wrapped : Poll (IoResult (TcpStream Driver)) → Poll (IoResult (UnixStream Driver))
  wrapped pending = pending
  wrapped (ready (err e)) = ready (err e)
  wrapped (ready (ok s)) = ready (ok (record { inner = s }))

  -- `Future::poll` of the `Connect` of this file
  unfoldable pub poll_connect :
      Context → Connect Driver → Cmd (Connect Driver × Poll (IoResult (UnixStream Driver)))
  unfolding wrapped
  poll_connect ctx connect = do (c, p) ← Connect.poll D ctx connect; pure (c, wrapped p)

  -- the two streams, each with a ring of its own
  unfoldable pub paired :
      Driver → IoResult (ℕ × ℕ) → IoResult (UnixStream Driver × UnixStream Driver)
  unfolding from_fd
  paired driver (err e) = err e
  paired driver (ok (fd1, fd2)) =
      ok (from_fd fd1 (Ring.new (D.clone driver)), from_fd fd2 (Ring.new driver))

  unfoldable pub pair_on_driver :
      Nix → Driver → Cmd (IoResult (UnixStream Driver × UnixStream Driver))
  unfolding paired
  pair_on_driver nix driver = do fds ← unix_socketpair nix; pure (paired driver fds)
