-- ===== src/Listener.antt =====
-- src/net/listener.rs: a socket that accepts connections.
pub mod Futures
pub mod Incoming
pub mod Uninit
pub mod Closing
pub mod Accepting
pub mod System
pub mod Drops
pub mod Bind
use ringbahn.Base.{ℕ, Bool, not, ◌&&◌, List, Option, none, some, ◌==◌, if◌then◌else◌}
use ringbahn.Cancellation
use ringbahn.Cancellation.{Object}
use ringbahn.Operation.{Operation}
use ringbahn.Machine.{
  Cmd, pure, panic, returns, faults, closed_object, unexpected_family, ◌>>=◌, ◌>>◌, Poll, pending,
  ready, update, drop_callback, close_fd,
}
use ringbahn.Completion.Types.{IoResult, ok, err}
use ringbahn.Drive.{Context, Drive, single_sqe}
use ringbahn.Ring
use ringbahn.Ring.{Ring}
use ringbahn.Event
use ringbahn.Stream
use ringbahn.Stream.{TcpStream}

pub data Op : Type 0 where
  nothing accept close closed : Op

-- `==`, which is derived: it compares the variants.
unfoldable pub variant : Op → ℕ
variant nothing = 0
variant accept = 1
variant close = 2
variant closed = 3

unfoldable pub same_op : Op → Op → Bool
unfolding variant
same_op a b = variant a == variant b

-- `addr` is the address of the box into which the kernel writes the peer's.
pub record TcpListener (Driver : Type 0) : Type 0 where
  pub ring : Ring Driver
  pub fd : ℕ
  pub active : Op
  pub addr : Option ℕ

-- Of the crates iou and nix: what is in a box that has not been written to, how the address is read
-- from a box, and the address of a peer by a protocol of the internet (`none` for any other).
pub record SockAddrs : Type 1 where
  pub SockAddr : Type 0
  pub SocketAddr : Type 0
  pub uninit : List ℕ
  pub as_socket_addr : List ℕ → IoResult SockAddr
  pub inet : SockAddr → Option SocketAddr

unfoldable pub guard_op : {Driver : Type 0} → Op → TcpListener Driver → Cmd (TcpListener Driver)
unfolding same_op
guard_op op l =
    if same_op l.active closed
    then panic closed_object
    else (if not (same_op l.active nothing) && not (same_op l.active op)
        then (do
          ring ← Ring.cancel l.ring (Event.from_maybe_box l.addr)
          pure (record l { ring = ring; addr = none; active = op }))
        else pure (record l { active = op }))

-- `cancel`, by cases on `active`
unfoldable pub cancel_active :
    {Driver : Type 0} → Op → TcpListener Driver → Cmd (TcpListener Driver)
cancel_active accept l = do
  ring ← Ring.cancel l.ring (Event.from_maybe_box l.addr)
  pure (record l { ring = ring; addr = none; active = nothing })
cancel_active close l = do
  ring ← Ring.cancel l.ring (Cancellation.new Object.unit)
  pure (record l { ring = ring; active = nothing })
cancel_active closed l = pure l
cancel_active nothing l = pure l

unfoldable pub cancel : {Driver : Type 0} → TcpListener Driver → Cmd (TcpListener Driver)
unfolding cancel_active
cancel l = cancel_active l.active l

unfoldable pub confirm_close : {Driver : Type 0} → TcpListener Driver → TcpListener Driver
confirm_close l = record l { active = closed }

-- `drop_addr`: the box is given back.
unfoldable pub drop_addr : {Driver : Type 0} → TcpListener Driver → Cmd (TcpListener Driver)
drop_addr l = do drop_callback (Event.from_maybe_box l.addr); pure (record l { addr = none })

-- `Drop`, by cases on `active`; the listener is returned, to speak of its state. The box that it may
-- still have is dropped after this, with its fields.
unfoldable pub drop_active : {Driver : Type 0} → Op → TcpListener Driver → Cmd (TcpListener Driver)
unfolding cancel
drop_active closed l = pure l
drop_active nothing l = do close_fd l.fd; pure l
drop_active accept l = cancel l
drop_active close l = cancel l

unfoldable pub drop : {Driver : Type 0} → TcpListener Driver → Cmd (TcpListener Driver)
unfolding drop_active
drop l = drop_active l.active l

module _ (S : SockAddrs) where
  open S use {SockAddr, SocketAddr, uninit, as_socket_addr, inet}

  -- `split_with_addr`: the box, which is made if there is none; the allocator answers with `fresh`.
  unfoldable pub addr_box : (fresh : ℕ) → Option ℕ → Cmd ℕ
  addr_box fresh none w = returns fresh (record w { boxes = update w.boxes fresh (some uninit) })
  addr_box fresh (some p) w = returns p w

  unfoldable pub load_addr : ℕ → Cmd (IoResult SockAddr)
  load_addr p w = elim (w.boxes p) [ none ↦ faults | some bytes ↦ returns (as_socket_addr bytes) w ]

  unfoldable pub to_std : Option SocketAddr → Cmd SocketAddr
  to_std none = panic unexpected_family
  to_std (some a) = pure a

  module _ (D : Drive) where
    open D use {Driver}

    -- from the address that was read to the stream
    unfoldable pub accepted :
        (fd : ℕ)
        → TcpListener Driver
        → IoResult SockAddr
        → Cmd (TcpListener Driver × Poll (IoResult (TcpStream Driver × SocketAddr)))
    unfolding to_std
    accepted fd l (err e) = pure (l, ready (err e))
    accepted fd l (ok sock_addr) = do
      a ← to_std (inet sock_addr)
      pure (l, ready (ok (Stream.from_fd fd (Ring.clone D l.ring), a)))

    -- what `poll_accept` makes of the ring's answer; `p` is the box with the address
    unfoldable pub accept_answer :
        (p : ℕ)
        → TcpListener Driver
        → Poll (IoResult ℕ)
        → Cmd (TcpListener Driver × Poll (IoResult (TcpStream Driver × SocketAddr)))
    unfolding load_addr drop_addr accepted
    accept_answer p l pending = pure (l, pending)
    accept_answer p l (ready (err e)) = pure (l, ready (err e))
    accept_answer p l (ready (ok fd)) = do
      result ← load_addr p
      l' ← drop_addr l
      accepted fd l' result

    unfoldable pub poll_accept :
        Context
        → TcpListener Driver
        → Cmd (TcpListener Driver × Poll (IoResult (TcpStream Driver × SocketAddr)))
    unfolding guard_op addr_box accept_answer
    poll_accept ctx listener = do
      l ← guard_op accept listener
      p ← addr_box ctx.fresh_box l.addr
      (ring, answer) ← Ring.poll D ctx 1 (single_sqe D (Operation.accept l.fd (some p) 0)) l.ring
      accept_answer p (record l { ring = ring; addr = some p }) answer

module _ (D : Drive) where
  open D use {Driver}

  -- what `poll_accept_no_addr` makes of the ring's answer
  unfoldable pub accept_no_addr_answer :
      TcpListener Driver
      → Poll (IoResult ℕ)
      → TcpListener Driver × Poll (IoResult (TcpStream Driver))
  accept_no_addr_answer l pending = (l, pending)
  accept_no_addr_answer l (ready (err e)) = (l, ready (err e))
  accept_no_addr_answer l (ready (ok fd)) =
      (l, ready (ok (Stream.from_fd fd (Ring.clone D l.ring))))

  unfoldable pub poll_accept_no_addr :
      Context → TcpListener Driver → Cmd (TcpListener Driver × Poll (IoResult (TcpStream Driver)))
  unfolding guard_op accept_no_addr_answer
  poll_accept_no_addr ctx listener = do
    l ← guard_op accept listener
    (ring, answer) ← Ring.poll D ctx 1 (single_sqe D (Operation.accept l.fd none 0)) l.ring
    pure (accept_no_addr_answer (record l { ring = ring }) answer)

  -- what the future `Close` makes of the ring's answer
  unfoldable pub close_answer :
      TcpListener Driver → Poll (IoResult ℕ) → TcpListener Driver × Poll (IoResult (Unit {0}))
  unfolding confirm_close
  close_answer l pending = (l, pending)
  close_answer l (ready (err e)) = (l, ready (err e))
  close_answer l (ready (ok _)) = (confirm_close l, ready (ok tt))

  -- `poll` of the future `Close`
  unfoldable pub poll_close :
      Context → TcpListener Driver → Cmd (TcpListener Driver × Poll (IoResult (Unit {0})))
  unfolding guard_op close_answer
  poll_close ctx listener = do
    l ← guard_op close listener
    (ring, answer) ← Ring.poll D ctx 1 (single_sqe D (Operation.close l.fd)) l.ring
    pure (close_answer (record l { ring = ring }) answer)
