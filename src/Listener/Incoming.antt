-- ===== src/Listener/Incoming.antt =====
-- src/net/listener.rs: the streams of the connections that a listener accepts.
use ringbahn.Base.{Option, some}
use ringbahn.Machine.{Cmd, pure, ◌>>=◌, Poll, pending, ready}
use ringbahn.Completion.Types.{IoResult}
use ringbahn.Drive.{Context, Drive}
use ringbahn.Stream.{TcpStream}
use ringbahn.Listener.{SockAddrs}
use ringbahn.Listener.Futures as Futures
use ringbahn.Listener.Futures.{Incoming, IncomingNoAddr}

-- The next item of a stream that does not end.
unfoldable pub item : {A : Type 0} → Poll A → Poll (Option A)
item pending = pending
item (ready next) = ready (some next)

module _ (D : Drive) where
  open D use {Driver}

  module _ (A : SockAddrs) where
    -- `poll_next` of `Incoming`
    unfoldable pub poll_next :
        Context
        → Incoming Driver
        → Cmd (Incoming Driver × Poll (Option (IoResult (TcpStream Driver × A.SocketAddr))))
    unfolding item
    poll_next ctx i = do
      (accept, p) ← Futures.poll D A ctx i.accept
      pure (record { accept = accept }, item p)

  -- `poll_next` of `IncomingNoAddr`
  unfoldable pub poll_next_no_addr :
      Context
      → IncomingNoAddr Driver
      → Cmd (IncomingNoAddr Driver × Poll (Option (IoResult (TcpStream Driver))))
  unfolding item
  poll_next_no_addr ctx i = do
    (accept, p) ← Futures.poll_no_addr D ctx i.accept
    pure (record { accept = accept }, item p)
