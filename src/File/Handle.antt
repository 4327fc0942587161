-- ===== src/File/Handle.antt =====
-- src/fs.rs: what a file keeps, the guard before each operation, and what cancels or ends it.
use ringbahn.Base.{ℕ, Bool, not, ◌&&◌, ◌==◌, if◌then◌else◌}
use ringbahn.Cancellation
use ringbahn.Cancellation.{Cancellation, Object}
use ringbahn.Operation.{Slice}
use ringbahn.Machine.{Cmd, pure, panic, unwrap_none, closed_object, ◌>>=◌, ◌>>◌, close_fd}
use ringbahn.Ring
use ringbahn.Ring.{Ring}
use ringbahn.Buf
use ringbahn.Buf.{Buffer, fill_buf}

-- `Either<Buffer, Box<libc::statx>>`
pub data FileBuf : Type 0 where
  left : Buffer → FileBuf
  right : ℕ → FileBuf

pub data Op : Type 0 where
  read write close nothing statx closed : Op

-- `==`, which is derived: it compares the variants.
unfoldable pub variant : Op → ℕ
variant read = 0
variant write = 1
variant close = 2
variant nothing = 3
variant statx = 4
variant closed = 5

unfoldable pub same_op : Op → Op → Bool
unfolding variant
same_op a b = variant a == variant b

pub record File (Driver : Type 0) : Type 0 where
  pub ring : Ring Driver
  pub fd : ℕ
  pub active : Op
  pub buf : FileBuf
  pub pos : ℕ

-- Also `run_on_driver`, which takes the descriptor out of a `std::fs::File`.
unfoldable pub from_fd : {Driver : Type 0} → ℕ → Driver → File Driver
from_fd fd driver = record {
  ring = Ring.new driver;
  fd = fd;
  active = nothing;
  buf = left Buf.default;
  pos = 0;
}

-- `Cancellation::from` of the `Either`
unfoldable pub into_cancellation : FileBuf → Cancellation
unfolding Buf.into_cancellation
into_cancellation (left buf) = Buf.into_cancellation buf
into_cancellation (right p) = Cancellation.new (Object.boxed p)

-- Puts a new buffer in the place of the old one, which the callback owns.
unfoldable pub cancel_ring : {Driver : Type 0} → File Driver → Cmd (File Driver)
unfolding into_cancellation
cancel_ring f = do
  ring ← Ring.cancel f.ring (into_cancellation f.buf)
  pure (record f { ring = ring; buf = left Buf.default })

unfoldable pub guard_op : {Driver : Type 0} → Op → File Driver → Cmd (File Driver)
unfolding same_op cancel_ring
guard_op op f =
    if same_op f.active closed
    then panic closed_object
    else (if not (same_op f.active nothing) && not (same_op f.active op)
        then (do f' ← cancel_ring f; pure (record f' { active = op }))
        else pure (record f { active = op }))

unfoldable pub cancel : {Driver : Type 0} → File Driver → Cmd (File Driver)
unfolding cancel_ring
cancel f = cancel_ring (record f { active = nothing })

unfoldable pub confirm_close : {Driver : Type 0} → File Driver → File Driver
confirm_close f = record f { active = closed }

-- `buf.as_mut().unwrap_left()`
unfoldable pub unwrap_left : FileBuf → Cmd Buffer
unwrap_left (left buf) = pure buf
unwrap_left (right _) = panic unwrap_none

-- the data that has been read and not consumed
unfoldable pub read_buffered : {Driver : Type 0} → File Driver → Cmd Slice
unfolding same_op unwrap_left
read_buffered f =
    if same_op f.active read
    then (do buf ← unwrap_left f.buf; Buf.buffered_from_read buf)
    else pure Buf.empty_slice

-- `AsyncBufRead::consume`
unfoldable pub consume : {Driver : Type 0} → ℕ → File Driver → Cmd (File Driver)
unfolding unwrap_left
consume amt f = do buf ← unwrap_left f.buf; pure (record f { buf = left (Buf.consume amt buf) })

-- `Drop`, by cases on `active`; the file is returned, to speak of its state.
unfoldable pub drop_active : {Driver : Type 0} → Op → File Driver → Cmd (File Driver)
unfolding cancel
drop_active closed f = pure f
drop_active nothing f = do close_fd f.fd; pure f
drop_active read f = cancel f
drop_active write f = cancel f
drop_active close f = cancel f
drop_active statx f = cancel f

unfoldable pub drop : {Driver : Type 0} → File Driver → Cmd (File Driver)
unfolding drop_active
drop f = drop_active f.active f

-- `From<File<D>> for fs::File`: what is left is the descriptor.
unfoldable pub into_std : {Driver : Type 0} → File Driver → Cmd ℕ
unfolding cancel
into_std f = do f' ← cancel f; pure f'.fd
