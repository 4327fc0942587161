-- ===== src/Unix/Futures.antt =====
-- src/unix/listener.rs: the futures and the stream that borrow a listener, and what makes them.
use ringbahn.Base.{Option}
use ringbahn.Machine.{Cmd, pure, ◌>>=◌, Poll}
use ringbahn.Completion.Types.{IoResult}
use ringbahn.Drive.{Context, Drive}
use ringbahn.Listener.Incoming.{item}
use ringbahn.Unix.Stream.{UnixStream}
use ringbahn.Unix.Listener
use ringbahn.Unix.Listener.{UnixListener}

pub record Accept (Driver : Type 0) : Type 0 where
  pub socket : UnixListener Driver

pub record Incoming (Driver : Type 0) : Type 0 where
  pub accept : Accept Driver

pub record Close (Driver : Type 0) : Type 0 where
  pub socket : UnixListener Driver

module _ {Driver : Type 0} where
  unfoldable pub accept_pinned : UnixListener Driver → Accept Driver
  accept_pinned l = record { socket = l }

  unfoldable pub incoming_pinned : UnixListener Driver → Incoming Driver
  unfolding accept_pinned
  incoming_pinned l = record { accept = accept_pinned l }

  unfoldable pub close_pinned : UnixListener Driver → Close Driver
  close_pinned l = record { socket = l }

module _ (D : Drive) where
  open D use {Driver}

  -- `poll` of the future `Accept`
  unfoldable pub poll :
      Context → Accept Driver → Cmd (Accept Driver × Poll (IoResult (UnixStream Driver)))
  poll ctx a = do (l, p) ← Listener.poll_accept D ctx a.socket; pure (record { socket = l }, p)

  -- `poll` of the future `Close`
  unfoldable pub poll_closing :
      Context → Close Driver → Cmd (Close Driver × Poll (IoResult (Unit {0})))
  poll_closing ctx c = do
    (l, p) ← Listener.poll_close D ctx c.socket
    pure (record { socket = l }, p)

  -- `poll_next` of `Incoming`
  unfoldable pub poll_next :
      Context
      → Incoming Driver
      → Cmd (Incoming Driver × Poll (Option (IoResult (UnixStream Driver))))
  unfolding item
  poll_next ctx i = do (accept, p) ← poll ctx i.accept; pure (record { accept = accept }, item p)
