-- ===== src/File/Transfer.antt =====
-- src/fs.rs: reading from a file, writing to it and closing it.
use ringbahn.Base.{ℕ, ◌+◌, List, [], length, take, u64}
use ringbahn.Operation.{Operation, Slice}
use ringbahn.Machine.{Cmd, pure, ◌>>=◌, Poll, pending, ready, load_slice, copy_into}
use ringbahn.Completion.Types.{IoResult, ok, err}
use ringbahn.Drive.{Context, Drive, single_sqe}
use ringbahn.Ring
use ringbahn.Ring.{Ring}
use ringbahn.Buf
use ringbahn.Buf.{Buffer, fill_buf}
use ringbahn.File.Handle.{
  left, read, write, close, File, guard_op, confirm_close, unwrap_left, consume,
}

module _ (D : Drive) where
  open D use {Driver}

  -- the closure with which `poll_fill_buf` fills the buffer; it captures the ring and the position
  unfoldable pub count_read :
      Ring Driver → ℕ → Poll (IoResult ℕ) → (Ring Driver × ℕ) × Poll (IoResult ℕ)
  count_read ring at pending = ((ring, at), pending)
  count_read ring at (ready (err e)) = ((ring, at), ready (err e))
  count_read ring at (ready (ok n)) = ((ring, u64 (at + n)), ready (ok n))

  unfoldable pub read_into :
      Context → (fd : ℕ) → Ring Driver × ℕ → Slice → Cmd ((Ring Driver × ℕ) × Poll (IoResult ℕ))
  unfolding count_read
  read_into ctx fd (ring, at) slice = do
    (ring', p) ← Ring.poll D ctx 1 (single_sqe D (Operation.read fd slice at)) ring
    pure (count_read ring' at p)

  unfoldable pub poll_fill_buf : Context → File Driver → Cmd (File Driver × Poll (IoResult Slice))
  unfolding guard_op unwrap_left read_into
  poll_fill_buf ctx file = do
    f ← guard_op read file
    old ← unwrap_left f.buf
    ((ring, at), buf, p) ← fill_buf ctx.fresh_box (read_into ctx f.fd) (f.ring, f.pos) old
    pure (record f { ring = ring; buf = left buf; pos = at }, p)

  -- What `poll_read` makes of the buffer: `len` is the room that its caller has. The bytes that are
  -- copied out are returned in place of their number.
  unfoldable pub read_out :
      (len : ℕ) → File Driver → Poll (IoResult Slice) → Cmd (File Driver × Poll (IoResult (List ℕ)))
  unfolding consume
  read_out len f pending = pure (f, pending)
  read_out len f (ready (err e)) = pure (f, ready (err e))
  read_out len f (ready (ok inner)) = do
    bytes ← load_slice inner
    f' ← consume (length (take len bytes)) f
    pure (f', ready (ok (take len bytes)))

  unfoldable pub poll_read :
      Context → (len : ℕ) → File Driver → Cmd (File Driver × Poll (IoResult (List ℕ)))
  unfolding poll_fill_buf read_out
  poll_read ctx len file = do (f, p) ← poll_fill_buf ctx file; read_out len f p

  -- the closure with which `poll_write` fills the buffer; it captures nothing that it changes
  unfoldable pub write_into : List ℕ → Unit {0} → Slice → Cmd (Unit {0} × Poll (IoResult ℕ))
  unfolding copy_into
  write_into bytes _ slice = do n ← copy_into slice bytes; pure (tt, ready (ok n))

  -- what `poll_write` makes of the ring's answer
  unfoldable pub written :
      File Driver → Buffer → Poll (IoResult ℕ) → File Driver × Poll (IoResult ℕ)
  unfolding Buf.clear
  written f buf pending = (f, pending)
  written f buf (ready (err e)) = (f, ready (err e))
  written f buf (ready (ok n)) =
      (record f { buf = left (Buf.clear buf); pos = u64 (f.pos + n) }, ready (ok n))

  -- the submission of the buffered data, at the file's position
  unfoldable pub write_out :
      Context → File Driver → Buffer → Poll (IoResult Slice) → Cmd (File Driver × Poll (IoResult ℕ))
  unfolding written
  write_out ctx f buf pending = pure (f, pending)
  write_out ctx f buf (ready (err e)) = pure (f, ready (err e))
  write_out ctx f buf (ready (ok slice)) = do
    (ring, p) ← Ring.poll D ctx 1 (single_sqe D (Operation.write f.fd slice f.pos)) f.ring
    pure (written (record f { ring = ring }) buf p)

  unfoldable pub poll_write : Context → List ℕ → File Driver → Cmd (File Driver × Poll (IoResult ℕ))
  unfolding guard_op unwrap_left write_into write_out
  poll_write ctx bytes file = do
    f ← guard_op write file
    old ← unwrap_left f.buf
    (_, buf, p) ← fill_buf ctx.fresh_box (write_into bytes) tt old
    write_out ctx (record f { buf = left buf }) buf p

  -- an answer with its value left out
  unfoldable pub to_unit : Poll (IoResult ℕ) → Poll (IoResult (Unit {0}))
  to_unit pending = pending
  to_unit (ready (err e)) = ready (err e)
  to_unit (ready (ok _)) = ready (ok tt)

  unfoldable pub poll_flush : Context → File Driver → Cmd (File Driver × Poll (IoResult (Unit {0})))
  unfolding poll_write to_unit
  poll_flush ctx file = do (f, p) ← poll_write ctx [] file; pure (f, to_unit p)

  -- what `poll_close` makes of the ring's answer
  unfoldable pub close_answer :
      File Driver → Poll (IoResult ℕ) → File Driver × Poll (IoResult (Unit {0}))
  unfolding confirm_close
  close_answer f pending = (f, pending)
  close_answer f (ready (err e)) = (f, ready (err e))
  close_answer f (ready (ok _)) = (confirm_close f, ready (ok tt))

  unfoldable pub poll_close : Context → File Driver → Cmd (File Driver × Poll (IoResult (Unit {0})))
  unfolding guard_op close_answer
  poll_close ctx file = do
    f ← guard_op close file
    (ring, p) ← Ring.poll D ctx 1 (single_sqe D (Operation.close f.fd)) f.ring
    pure (close_answer (record f { ring = ring }) p)
