-- ===== src/Listener/Futures.antt =====
-- src/net/listener.rs: the futures that borrow a listener, and what makes them. The listener comes back
-- with the future, which is polled again or given up.
use ringbahn.Machine.{Cmd, pure, ◌>>=◌, Poll}
use ringbahn.Completion.Types.{IoResult}
use ringbahn.Drive.{Context, Drive}
use ringbahn.Stream.{TcpStream}
use ringbahn.Listener
use ringbahn.Listener.{TcpListener, SockAddrs}

pub record Accept (Driver : Type 0) : Type 0 where
  pub socket : TcpListener Driver

pub record AcceptNoAddr (Driver : Type 0) : Type 0 where
  pub socket : TcpListener Driver

pub record Incoming (Driver : Type 0) : Type 0 where
  pub accept : Accept Driver

pub record IncomingNoAddr (Driver : Type 0) : Type 0 where
  pub accept : AcceptNoAddr Driver

pub record Close (Driver : Type 0) : Type 0 where
  pub socket : TcpListener Driver

module _ {Driver : Type 0} where
  -- Each function has a twin without the suffix, for a listener that is not pinned.
  unfoldable pub accept_pinned : TcpListener Driver → Accept Driver
  accept_pinned l = record { socket = l }

  unfoldable pub accept_no_addr_pinned : TcpListener Driver → AcceptNoAddr Driver
  accept_no_addr_pinned l = record { socket = l }

  unfoldable pub incoming_pinned : TcpListener Driver → Incoming Driver
  unfolding accept_pinned
  incoming_pinned l = record { accept = accept_pinned l }

  unfoldable pub incoming_no_addr_pinned : TcpListener Driver → IncomingNoAddr Driver
  unfolding accept_no_addr_pinned
  incoming_no_addr_pinned l = record { accept = accept_no_addr_pinned l }

  unfoldable pub close_pinned : TcpListener Driver → Close Driver
  close_pinned l = record { socket = l }

module _ (D : Drive) where
  open D use {Driver}

  -- `poll` of the future `AcceptNoAddr`
  unfoldable pub poll_no_addr :
      Context → AcceptNoAddr Driver → Cmd (AcceptNoAddr Driver × Poll (IoResult (TcpStream Driver)))
  poll_no_addr ctx a = do
    (l, p) ← Listener.poll_accept_no_addr D ctx a.socket
    pure (record { socket = l }, p)

  -- `poll` of the future `Close`
  unfoldable pub poll_closing :
      Context → Close Driver → Cmd (Close Driver × Poll (IoResult (Unit {0})))
  poll_closing ctx c = do
    (l, p) ← Listener.poll_close D ctx c.socket
    pure (record { socket = l }, p)

  module _ (A : SockAddrs) where
    -- `poll` of the future `Accept`
    unfoldable pub poll :
        Context
        → Accept Driver
        → Cmd (Accept Driver × Poll (IoResult (TcpStream Driver × A.SocketAddr)))
    poll ctx a = do (l, p) ← Listener.poll_accept A D ctx a.socket; pure (record { socket = l }, p)
