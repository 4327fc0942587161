-- ===== src/Unix/Listener.antt =====
-- src/unix/listener.rs: a socket of the unix domain that accepts connections.
pub mod Contract
use ringbahn.Base.{ℕ, Bool, not, ◌&&◌, Option, none, some, ◌==◌, if◌then◌else◌}
use ringbahn.Cancellation
use ringbahn.Cancellation.{Object}
use ringbahn.Operation.{Operation}
use ringbahn.Machine.{
  Cmd, pure, panic, closed_object, ◌>>=◌, ◌>>◌, Poll, pending, ready, unwrap, close_fd,
}
use ringbahn.Completion.Types.{IoResult, ok, err, os}
use ringbahn.Drive.{Context, Drive, single_sqe}
use ringbahn.Ring
use ringbahn.Ring.{Ring}
use ringbahn.Sockets.{Nix, unix_socket, or_eio}
use ringbahn.Unix.Stream
use ringbahn.Unix.Stream.{UnixStream}

pub data Op : Type 0 where
  nothing accept close closed : Op

-- `==`, which is derived: it compares the variants.
unfoldable pub variant : Op → ℕ
variant nothing = 0
variant accept = 1
variant close = 2
variant closed = 3

unfoldable pub same_op : Op → Op → Bool
unfolding variant
same_op a b = variant a == variant b

pub record UnixListener (Driver : Type 0) : Type 0 where
  pub ring : Ring Driver
  pub fd : ℕ
  pub active : Op

-- `cancel`: nothing is shared with the kernel, so that the callback does nothing.
unfoldable pub cancel : {Driver : Type 0} → UnixListener Driver → Cmd (UnixListener Driver)
unfolding same_op
cancel l =
    if not (same_op l.active nothing) && not (same_op l.active closed)
    then (do
      ring ← Ring.cancel l.ring (Cancellation.new Object.unit)
      pure (record l { ring = ring; active = nothing }))
    else pure l

unfoldable pub guard_op : {Driver : Type 0} → Op → UnixListener Driver → Cmd (UnixListener Driver)
unfolding same_op cancel
guard_op op l =
    if same_op l.active closed
    then panic closed_object
    else (if not (same_op l.active nothing) && not (same_op l.active op)
        then (do l' ← cancel l; pure (record l' { active = op }))
        else pure (record l { active = op }))

unfoldable pub confirm_close : {Driver : Type 0} → UnixListener Driver → UnixListener Driver
confirm_close l = record l { active = closed }

-- `Drop`, by cases on `active`; the listener is returned, to speak of its state.
unfoldable pub drop_active :
    {Driver : Type 0} → Op → UnixListener Driver → Cmd (UnixListener Driver)
unfolding cancel
drop_active closed l = pure l
drop_active nothing l = do close_fd l.fd; pure l
drop_active accept l = cancel l
drop_active close l = cancel l

unfoldable pub drop : {Driver : Type 0} → UnixListener Driver → Cmd (UnixListener Driver)
unfolding drop_active
drop l = drop_active l.active l

module _ (N : Nix) {Driver : Type 0} where
  open N use {FilePath, unix_addr}

  -- `bind_on_driver`, from the socket; `?` leaves it with the socket open.
  unfoldable pub bound : FilePath → Driver → IoResult ℕ → Cmd (IoResult (UnixListener Driver))
  unfolding unwrap or_eio
  bound path driver (err e) = pure (err e)
  bound path driver (ok fd) = do
    addr ← unwrap (unix_addr path)
    b ← N.bind fd addr
    elim (or_eio b) [
      | err e ↦ pure (err e)
      | ok _ ↦ do
        l ← N.listen fd 128
        elim (or_eio l) [
          | err e ↦ pure (err e)
          | ok _ ↦ pure (ok (record { ring = Ring.new driver; fd = fd; active = nothing }))
        ]
    ]

  unfoldable pub bind_on_driver : FilePath → Driver → Cmd (IoResult (UnixListener Driver))
  unfolding bound
  bind_on_driver path driver = do socket ← unix_socket N; bound path driver socket

module _ (D : Drive) where
  open D use {Driver}

  -- what `poll_accept` makes of the ring's answer
  unfoldable pub accept_answer :
      UnixListener Driver
      → Poll (IoResult ℕ)
      → UnixListener Driver × Poll (IoResult (UnixStream Driver))
  accept_answer l pending = (l, pending)
  accept_answer l (ready (err e)) = (l, ready (err e))
  accept_answer l (ready (ok fd)) = (l, ready (ok (Stream.from_fd fd (Ring.clone D l.ring))))

  unfoldable pub poll_accept :
      Context
      → UnixListener Driver
      → Cmd (UnixListener Driver × Poll (IoResult (UnixStream Driver)))
  unfolding guard_op accept_answer
  poll_accept ctx listener = do
    l ← guard_op accept listener
    (ring, answer) ← Ring.poll D ctx 1 (single_sqe D (Operation.accept l.fd none 0)) l.ring
    pure (accept_answer (record l { ring = ring }) answer)

  -- what the future `Close` makes of the ring's answer
  unfoldable pub close_answer :
      UnixListener Driver → Poll (IoResult ℕ) → UnixListener Driver × Poll (IoResult (Unit {0}))
  unfolding confirm_close
  close_answer l pending = (l, pending)
  close_answer l (ready (err e)) = (l, ready (err e))
  close_answer l (ready (ok _)) = (confirm_close l, ready (ok tt))

  -- `poll` of the future `Close`
  unfoldable pub poll_close :
      Context → UnixListener Driver → Cmd (UnixListener Driver × Poll (IoResult (Unit {0})))
  unfolding guard_op close_answer
  poll_close ctx listener = do
    l ← guard_op close listener
    (ring, answer) ← Ring.poll D ctx 1 (single_sqe D (Operation.close l.fd)) l.ring
    pure (close_answer (record l { ring = ring }) answer)
