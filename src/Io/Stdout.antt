-- ===== src/Io/Stdout.antt =====
-- src/io.rs: a handle to the standard output.
pub mod AsStream
use ringbahn.Base.{ℕ, List, []}
use ringbahn.Operation.{Operation, Slice}
use ringbahn.Machine.{Cmd, pure, ◌>>=◌, Poll, pending, ready, copy_into}
use ringbahn.Completion.Types.{IoResult, ok, err}
use ringbahn.Drive.{Context, Drive, single_sqe}
use ringbahn.Ring
use ringbahn.Ring.{Ring}
use ringbahn.Buf
use ringbahn.Buf.{Buffer, fill_buf}

pub record Stdout (Driver : Type 0) : Type 0 where
  pub ring : Ring Driver
  pub buf : Buffer

unfoldable pub stdout_on_driver : {Driver : Type 0} → Driver → Stdout Driver
stdout_on_driver driver = record { ring = Ring.new driver; buf = Buf.default }

-- `as_raw_fd`: the number of the standard output
abbrev pub stdout_fileno : ℕ
stdout_fileno = 1

-- the closure with which `poll_write` fills the buffer; it captures nothing that it changes
unfoldable pub write_into : List ℕ → Unit {0} → Slice → Cmd (Unit {0} × Poll (IoResult ℕ))
unfolding copy_into
write_into bytes _ slice = do n ← copy_into slice bytes; pure (tt, ready (ok n))

module _ (D : Drive) where
  open D use {Driver}

  -- what `poll_write` makes of the ring's answer
  unfoldable pub written : Stdout Driver → Poll (IoResult ℕ) → Stdout Driver × Poll (IoResult ℕ)
  unfolding Buf.clear
  written s pending = (s, pending)
  written s (ready (err e)) = (s, ready (err e))
  written s (ready (ok n)) = (record s { buf = Buf.clear s.buf }, ready (ok n))

  -- the submission of the buffered data
  unfoldable pub write_out :
      Context → Stdout Driver → Poll (IoResult Slice) → Cmd (Stdout Driver × Poll (IoResult ℕ))
  unfolding written
  write_out ctx s pending = pure (s, pending)
  write_out ctx s (ready (err e)) = pure (s, ready (err e))
  write_out ctx s (ready (ok slice)) = do
    (ring, p) ← Ring.poll D ctx 1 (single_sqe D (Operation.write stdout_fileno slice 0)) s.ring
    pure (written (record s { ring = ring }) p)

  unfoldable pub poll_write :
      Context → List ℕ → Stdout Driver → Cmd (Stdout Driver × Poll (IoResult ℕ))
  unfolding write_into write_out
  poll_write ctx bytes s = do
    (_, buf, p) ← fill_buf ctx.fresh_box (write_into bytes) tt s.buf
    write_out ctx (record s { buf = buf }) p

  -- an answer with its value left out
  unfoldable pub to_unit : Poll (IoResult ℕ) → Poll (IoResult (Unit {0}))
  to_unit pending = pending
  to_unit (ready (err e)) = ready (err e)
  to_unit (ready (ok _)) = ready (ok tt)

  unfoldable pub poll_flush :
      Context → Stdout Driver → Cmd (Stdout Driver × Poll (IoResult (Unit {0})))
  unfolding poll_write to_unit
  poll_flush ctx s = do (s', p) ← poll_write ctx [] s; pure (s', to_unit p)

  unfoldable pub poll_close :
      Context → Stdout Driver → Cmd (Stdout Driver × Poll (IoResult (Unit {0})))
  unfolding poll_flush
  poll_close ctx s = poll_flush ctx s
