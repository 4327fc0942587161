-- ===== src/Stream.antt =====
-- src/net/stream.rs: a TCP stream, whose operations share one ring and one buffer. A stream of
-- src/unix/stream.rs passes each of these operations on to such a stream.
pub mod Sound
pub mod Guard
pub mod Held
pub mod Chunks
pub mod Reading
pub mod Writing
pub mod Closing
pub mod Box
pub mod System
use ringbahn.Base.{
  ℕ, Bool, true, false, not, ◌&&◌, List, [], min, length, take, ◌==◌, if◌then◌else◌,
}
use ringbahn.Operation.{Operation, Slice}
use ringbahn.Machine.{
  Cmd, pure, panic, closed_object, ◌>>=◌, ◌>>◌, Poll, pending, ready, load_slice, copy_into,
  close_fd,
}
use ringbahn.Completion.Types.{IoResult, ok, err}
use ringbahn.Drive.{Context, Drive, single_sqe}
use ringbahn.Ring
use ringbahn.Ring.{Ring}
use ringbahn.Buf
use ringbahn.Buf.{Buffer, fill_buf}

pub data Op : Type 0 where
  read write close nothing closed : Op

-- `==`, which is derived: it compares the variants.
unfoldable pub variant : Op → ℕ
variant read = 0
variant write = 1
variant close = 2
variant nothing = 3
variant closed = 4

unfoldable pub same_op : Op → Op → Bool
unfolding variant
same_op a b = variant a == variant b

pub record TcpStream (Driver : Type 0) : Type 0 where
  pub ring : Ring Driver
  pub buf : Buffer
  pub active : Op
  pub fd : ℕ

unfoldable pub from_fd : {Driver : Type 0} → ℕ → Ring Driver → TcpStream Driver
from_fd fd ring = record { ring = ring; buf = Buf.default; active = nothing; fd = fd }

-- Cancels what the ring is doing; the callback takes the box out of the buffer.
unfoldable pub cancel_ring : {Driver : Type 0} → TcpStream Driver → Cmd (TcpStream Driver)
cancel_ring s = do
  let (buf, callback) = Buf.cancellation s.buf
  ring ← Ring.cancel s.ring callback
  pure (record s { ring = ring; buf = buf })

unfoldable pub guard_op : {Driver : Type 0} → Op → TcpStream Driver → Cmd (TcpStream Driver)
unfolding same_op cancel_ring
guard_op op s =
    if same_op s.active closed
    then panic closed_object
    else (if not (same_op s.active nothing) && not (same_op s.active op)
        then (do s' ← cancel_ring s; pure (record s' { active = op }))
        else pure (record s { active = op }))

unfoldable pub cancel : {Driver : Type 0} → TcpStream Driver → Cmd (TcpStream Driver)
unfolding cancel_ring
cancel s = cancel_ring (record s { active = nothing })

unfoldable pub confirm_close : {Driver : Type 0} → TcpStream Driver → TcpStream Driver
confirm_close s = record s { active = closed }

-- `AsyncBufRead::consume`
unfoldable pub consume : {Driver : Type 0} → ℕ → TcpStream Driver → TcpStream Driver
consume amt s = record s { buf = Buf.consume amt s.buf }

-- `Drop`, by cases on `active`; the stream is returned, to speak of its state.
unfoldable pub drop_active : {Driver : Type 0} → Op → TcpStream Driver → Cmd (TcpStream Driver)
unfolding cancel
drop_active closed s = pure s
drop_active nothing s = do close_fd s.fd; pure s
drop_active read s = cancel s
drop_active write s = cancel s
drop_active close s = cancel s

unfoldable pub drop : {Driver : Type 0} → TcpStream Driver → Cmd (TcpStream Driver)
unfolding drop_active
drop s = drop_active s.active s

module _ (D : Drive) where
  open D use {Driver}

  -- the closure with which `poll_fill_buf` fills the buffer
  unfoldable pub read_into :
      Context → (fd : ℕ) → Ring Driver → Slice → Cmd (Ring Driver × Poll (IoResult ℕ))
  read_into ctx fd ring slice = Ring.poll D ctx 1 (single_sqe D (Operation.read fd slice 0)) ring

  unfoldable pub poll_fill_buf :
      Context → TcpStream Driver → Cmd (TcpStream Driver × Poll (IoResult Slice))
  unfolding guard_op read_into
  poll_fill_buf ctx stream = do
    s ← guard_op read stream
    (ring, buf, p) ← fill_buf ctx.fresh_box (read_into ctx s.fd) s.ring s.buf
    pure (record s { ring = ring; buf = buf }, p)

  -- What `poll_read` makes of the buffer: `len` is the room that its caller has. The bytes that are
  -- copied out are returned in place of their number.
  unfoldable pub read_out :
      (len : ℕ)
      → TcpStream Driver
      → Poll (IoResult Slice)
      → Cmd (TcpStream Driver × Poll (IoResult (List ℕ)))
  unfolding consume
  read_out len s pending = pure (s, pending)
  read_out len s (ready (err e)) = pure (s, ready (err e))
  read_out len s (ready (ok inner)) = do
    bytes ← load_slice inner
    pure (consume (length (take len bytes)) s, ready (ok (take len bytes)))

  unfoldable pub poll_read :
      Context → (len : ℕ) → TcpStream Driver → Cmd (TcpStream Driver × Poll (IoResult (List ℕ)))
  unfolding poll_fill_buf read_out
  poll_read ctx len stream = do (s, p) ← poll_fill_buf ctx stream; read_out len s p

  -- the closure with which `poll_write` fills the buffer; it captures nothing that it changes
  unfoldable pub write_into : List ℕ → Unit {0} → Slice → Cmd (Unit {0} × Poll (IoResult ℕ))
  unfolding copy_into
  write_into bytes _ slice = do n ← copy_into slice bytes; pure (tt, ready (ok n))

  -- what `poll_write` makes of the ring's answer
  unfoldable pub written :
      TcpStream Driver → Poll (IoResult ℕ) → TcpStream Driver × Poll (IoResult ℕ)
  unfolding Buf.clear
  written s pending = (s, pending)
  written s (ready (err e)) = (s, ready (err e))
  written s (ready (ok n)) = (record s { buf = Buf.clear s.buf }, ready (ok n))

  -- the submission of the buffered data
  unfoldable pub write_out :
      Context
      → TcpStream Driver
      → Poll (IoResult Slice)
      → Cmd (TcpStream Driver × Poll (IoResult ℕ))
  unfolding written
  write_out ctx s pending = pure (s, pending)
  write_out ctx s (ready (err e)) = pure (s, ready (err e))
  write_out ctx s (ready (ok slice)) = do
    (ring, p) ← Ring.poll D ctx 1 (single_sqe D (Operation.write s.fd slice 0)) s.ring
    pure (written (record s { ring = ring }) p)

  unfoldable pub poll_write :
      Context → List ℕ → TcpStream Driver → Cmd (TcpStream Driver × Poll (IoResult ℕ))
  unfolding guard_op write_into write_out
  poll_write ctx bytes stream = do
    s ← guard_op write stream
    (_, buf, p) ← fill_buf ctx.fresh_box (write_into bytes) tt s.buf
    write_out ctx (record s { buf = buf }) p

  -- an answer with its value left out
  unfoldable pub to_unit : Poll (IoResult ℕ) → Poll (IoResult (Unit {0}))
  to_unit pending = pending
  to_unit (ready (err e)) = ready (err e)
  to_unit (ready (ok _)) = ready (ok tt)

  unfoldable pub poll_flush :
      Context → TcpStream Driver → Cmd (TcpStream Driver × Poll (IoResult (Unit {0})))
  unfolding poll_write to_unit
  poll_flush ctx stream = do (s, p) ← poll_write ctx [] stream; pure (s, to_unit p)

  -- what `poll_close` makes of the ring's answer
  unfoldable pub close_answer :
      TcpStream Driver → Poll (IoResult ℕ) → TcpStream Driver × Poll (IoResult (Unit {0}))
  unfolding confirm_close
  close_answer s pending = (s, pending)
  close_answer s (ready (err e)) = (s, ready (err e))
  close_answer s (ready (ok _)) = (confirm_close s, ready (ok tt))

  unfoldable pub poll_close :
      Context → TcpStream Driver → Cmd (TcpStream Driver × Poll (IoResult (Unit {0})))
  unfolding guard_op close_answer
  poll_close ctx stream = do
    s ← guard_op close stream
    (ring, p) ← Ring.poll D ctx 1 (single_sqe D (Operation.close s.fd)) s.ring
    pure (close_answer (record s { ring = ring }) p)
