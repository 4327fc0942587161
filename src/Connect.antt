-- ===== src/Connect.antt =====
-- src/net/stream.rs and src/unix/stream.rs: the futures `Connect`, which hand over a stream when it is
-- connected.
pub mod Contract
use ringbahn.Base.{ℕ, List, Option, none, some}
use ringbahn.Machine.{
  Cmd, pure, panic, returns, unreachable, unwrap, polled_after_completion, ◌>>=◌, ◌>>◌, Poll,
  pending, ready, update, drop_callback,
}
use ringbahn.Completion.Types.{IoResult, ok, err, Error}
use ringbahn.Drive.{Context, Drive}
use ringbahn.Event
use ringbahn.Event.{Event}
use ringbahn.Submission
use ringbahn.Submission.{Submission}
use ringbahn.Ring
use ringbahn.Ring.{Ring}
use ringbahn.Stream
use ringbahn.Stream.{TcpStream}
use ringbahn.Sockets.{Nix, net_socket, unix_socket}

-- `Connect`: the submission, or the error with which there is none, until it has been handed over.
pub data Connect (Driver : Type 0) : Type 0 where
  connecting : Submission Driver → Connect Driver
  failed : Option Error → Connect Driver

-- The field `fd` of the event, of which the submission of a `Connect` has no other kind.
unfoldable pub connect_fd : Event → Cmd ℕ
connect_fd (Event.connect fd addr) = pure fd
connect_fd _ = panic unreachable

module _ (D : Drive) where
  open D use {Driver}

  -- What `poll` makes of the submission's answer; the event, and with it its box, is dropped.
  unfoldable pub connected :
      Submission Driver
      → Poll (Event × IoResult ℕ)
      → Cmd (Connect Driver × Poll (IoResult (TcpStream Driver)))
  unfolding connect_fd
  connected s pending = pure (connecting s, pending)
  connected s (ready (event, err e)) = do
    drop_callback (Event.cancel event)
    pure (connecting s, ready (err e))
  connected s (ready (event, ok _)) = do
    fd ← connect_fd event
    drop_callback (Event.cancel event)
    pure (connecting s, ready (ok (Stream.from_fd fd (Ring.new (D.clone s.ring.driver)))))

  -- `Future::poll`
  unfoldable pub poll :
      Context → Connect Driver → Cmd (Connect Driver × Poll (IoResult (TcpStream Driver)))
  unfolding connected
  poll ctx (connecting submission) = do (s, p) ← Submission.poll D ctx submission; connected s p
  poll ctx (failed (some e)) = pure (failed none, ready (err e))
  poll ctx (failed none) = panic polled_after_completion

module _ (N : Nix) where
  open N use {SockAddr, bytes}

  -- `Box::new` of an address, where the allocator answers with `fresh`
  unfoldable pub box_addr : (fresh : ℕ) → SockAddr → Cmd ℕ
  box_addr fresh addr w =
      returns fresh (record w { boxes = update w.boxes fresh (some (bytes addr)) })

module _ (N : Nix) {Driver : Type 0} where
  open N use {SocketAddr, SockAddr, FilePath, from_std, unix_addr}

  -- the submission, from the socket
  unfoldable pub submit_connect : (fresh fd : ℕ) → SockAddr → Driver → Cmd (Connect Driver)
  unfolding box_addr
  submit_connect fresh fd addr driver = do
    p ← box_addr N fresh addr
    pure (connecting (Submission.new (Event.connect fd p) driver))

  -- `TcpStream::connect_on_driver`, from the socket and the address that it was made for
  unfoldable pub tcp_submission :
      (fresh : ℕ) → Driver → IoResult (ℕ × SocketAddr) → Cmd (Connect Driver)
  unfolding submit_connect
  tcp_submission fresh driver (err e) = pure (failed (some e))
  tcp_submission fresh driver (ok (fd, addr)) = submit_connect fresh fd (from_std addr) driver

  unfoldable pub connect_on_driver :
      (fresh : ℕ) → IoResult (List SocketAddr) → Driver → Cmd (Connect Driver)
  unfolding tcp_submission
  connect_on_driver fresh addrs driver = do
    socket ← net_socket N addrs
    tcp_submission fresh driver socket

  -- `UnixStream::connect_on_driver`: the path is looked at when there is a socket.
  unfoldable pub unix_submission :
      (fresh : ℕ) → FilePath → Driver → IoResult ℕ → Cmd (Connect Driver)
  unfolding submit_connect unwrap
  unix_submission fresh path driver (err e) = pure (failed (some e))
  unix_submission fresh path driver (ok fd) = do
    addr ← unwrap (unix_addr path)
    submit_connect fresh fd addr driver

  unfoldable pub connect_unix_on_driver : (fresh : ℕ) → FilePath → Driver → Cmd (Connect Driver)
  unfolding unix_submission
  connect_unix_on_driver fresh path driver = do
    socket ← unix_socket N
    unix_submission fresh path driver socket
