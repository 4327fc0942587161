-- ===== src/Event.antt =====
-- src/event/: the events that can be submitted, the operation each of them puts on the submission
-- queue, and the callback that cleans up after it when it is cancelled. A box is its address, and a
-- boxed slice its address and length; descriptors, flags and offsets are numbers.
pub mod Memory
pub mod Prepared
pub mod Cancelled
pub mod Constructors
use ringbahn.Base.{ℕ, Option, none, some}
use mathlib.Core.Option
use ringbahn.Cancellation
use ringbahn.Cancellation.{Cancellation, Object, Narrow}
use ringbahn.Operation.{BoxedSlice, whole, Operation, Slice, Sqe}
use ringbahn.Machine.{Cmd}
use ringbahn.Drive.{Drive, single_sqe}
use Prepared.{
  accept_operation, close_operation, connect_operation, epoll_ctl_operation, fadvise_operation,
  fallocate_operation, files_update_operation, fsync_operation, open_at_operation,
  provide_buffers_operation, remove_buffers_operation, read_operation, read_fixed_operation,
  read_vectored_operation, recv_operation, send_operation, splice_operation, statx_operation,
  static_timeout_operation, timeout_operation, write_operation, write_fixed_operation,
  write_vectored_operation,
}
unfoldable pub use Cancelled.{from_slice, from_box, from_maybe_box}
use Cancelled.{
  accept_cancellation, connect_cancellation, epoll_ctl_cancellation, files_update_cancellation,
  open_at_cancellation, provide_buffers_cancellation, read_cancellation, read_fixed_cancellation,
  read_vectored_cancellation, recv_cancellation, send_cancellation, statx_cancellation,
  timeout_cancellation, write_cancellation, write_fixed_cancellation, write_vectored_cancellation,
}

pub data Event : Type 0 where
  accept : (addr : Option ℕ) (fd flags : ℕ) → Event
  close : (fd : ℕ) → Event
  connect : (fd addr : ℕ) → Event
  epoll_ctl : (epoll_fd op fd : ℕ) (event : Option ℕ) → Event
  fadvise : (fd offset size flags : ℕ) → Event
  fallocate : (fd offset size flags : ℕ) → Event
  files_update : (files : BoxedSlice) (offset : ℕ) → Event
  fsync : (fd flags : ℕ) → Event
  open_at : (path dir_fd flags mode : ℕ) → Event
  provide_buffers : (bufs : BoxedSlice) (count group index : ℕ) → Event
  remove_buffers : (count group : ℕ) → Event
  read : (fd : ℕ) (buf : BoxedSlice) (offset : ℕ) → Event
  read_fixed : (fd : ℕ) (buf : BoxedSlice) (offset : ℕ) → Event
  read_vectored : (fd : ℕ) (bufs : BoxedSlice) (offset : ℕ) → Event
  recv : (fd : ℕ) (buf : BoxedSlice) (flags : ℕ) → Event
  send : (fd : ℕ) (buf : BoxedSlice) (flags : ℕ) → Event
  splice : (fd_in off_in fd_out off_out bytes flags : ℕ) → Event
  statx : (dir_fd path flags mask statx : ℕ) → Event
  static_timeout : (ts events flags : ℕ) → Event
  timeout : (ts events flags : ℕ) → Event
  write : (fd : ℕ) (buf : BoxedSlice) (offset : ℕ) → Event
  write_fixed : (fd : ℕ) (buf : BoxedSlice) (offset : ℕ) → Event
  write_vectored : (fd : ℕ) (bufs : BoxedSlice) (offset : ℕ) → Event

-- the same in every implementation
unfoldable pub sqes_needed : Event → ℕ
sqes_needed e = 1

-- The `prep_*` call in `Event::prepare`.
unfoldable pub operation : Event → Operation
operation (Event.accept addr fd flags) = accept_operation addr fd flags
operation (Event.close fd) = close_operation fd
operation (Event.connect fd addr) = connect_operation fd addr
operation (Event.epoll_ctl epoll_fd op fd event) = epoll_ctl_operation epoll_fd op fd event
operation (Event.fadvise fd offset size flags) = fadvise_operation fd offset size flags
operation (Event.fallocate fd offset size flags) = fallocate_operation fd offset size flags
operation (Event.files_update files offset) = files_update_operation files offset
operation (Event.fsync fd flags) = fsync_operation fd flags
operation (Event.open_at path dir_fd flags mode) = open_at_operation path dir_fd flags mode
operation (Event.provide_buffers bufs count group index) =
    provide_buffers_operation bufs count group index
operation (Event.remove_buffers count group) = remove_buffers_operation count group
operation (Event.read fd buf offset) = read_operation fd buf offset
operation (Event.read_fixed fd buf offset) = read_fixed_operation fd buf offset
operation (Event.read_vectored fd bufs offset) = read_vectored_operation fd bufs offset
operation (Event.recv fd buf flags) = recv_operation fd buf flags
operation (Event.send fd buf flags) = send_operation fd buf flags
operation (Event.splice fd_in off_in fd_out off_out bytes flags) =
    splice_operation fd_in off_in fd_out off_out bytes flags
operation (Event.statx dir_fd path flags mask buf) = statx_operation dir_fd path flags mask buf
operation (Event.static_timeout ts events flags) = static_timeout_operation ts events flags
operation (Event.timeout ts events flags) = timeout_operation ts events flags
operation (Event.write fd buf offset) = write_operation fd buf offset
operation (Event.write_fixed fd buf offset) = write_fixed_operation fd buf offset
operation (Event.write_vectored fd bufs offset) = write_vectored_operation fd bufs offset

-- `Event::prepare`: every implementation takes a single entry and fills it in.
unfoldable pub prepare : (D : Drive) → Event → D.Sqes → Cmd Sqe
unfolding single_sqe operation
prepare D e = single_sqe D (operation e)

-- `Event::cancel`. The last clause is the default of the trait.
unfoldable pub cancel : Event → Cancellation
unfolding from_slice from_box from_maybe_box
cancel (Event.accept addr fd flags) = accept_cancellation addr fd flags
cancel (Event.connect fd addr) = connect_cancellation fd addr
cancel (Event.epoll_ctl epoll_fd op fd event) = epoll_ctl_cancellation epoll_fd op fd event
cancel (Event.files_update files offset) = files_update_cancellation files offset
cancel (Event.open_at path dir_fd flags mode) = open_at_cancellation path dir_fd flags mode
cancel (Event.provide_buffers bufs count group index) =
    provide_buffers_cancellation bufs count group index
cancel (Event.read fd buf offset) = read_cancellation fd buf offset
cancel (Event.read_fixed fd buf offset) = read_fixed_cancellation fd buf offset
cancel (Event.read_vectored fd bufs offset) = read_vectored_cancellation fd bufs offset
cancel (Event.recv fd buf flags) = recv_cancellation fd buf flags
cancel (Event.send fd buf flags) = send_cancellation fd buf flags
cancel (Event.statx dir_fd path flags mask buf) = statx_cancellation dir_fd path flags mask buf
cancel (Event.timeout ts events flags) = timeout_cancellation ts events flags
cancel (Event.write fd buf offset) = write_cancellation fd buf offset
cancel (Event.write_fixed fd buf offset) = write_fixed_cancellation fd buf offset
cancel (Event.write_vectored fd bufs offset) = write_vectored_cancellation fd bufs offset
cancel _ = Cancellation.new Object.unit
