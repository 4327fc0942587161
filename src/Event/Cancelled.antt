-- ===== src/Event/Cancelled.antt =====
-- src/event/*.rs: the callback that `Event::cancel` of each type returns, where it has its own.
use mathlib.Core.Option
use ringbahn.Base.{ℕ, Option}
use ringbahn.Cancellation
use ringbahn.Cancellation.{Cancellation, Object, Narrow}
use ringbahn.Operation.{BoxedSlice}

-- `Cancellation::from` of a boxed slice, of a box, and of a box that may be missing
unfoldable pub from_slice : BoxedSlice → Cancellation
from_slice b = Cancellation.new (Object.boxed_slice b.address b.len)

unfoldable pub from_box : ℕ → Cancellation
from_box p = Cancellation.new (Object.boxed p)

unfoldable pub from_maybe_box : Option ℕ → Cancellation
from_maybe_box p = Cancellation.from_option (Option.map Object.boxed p)

abbrev pub accept_cancellation : (addr : Option ℕ) (fd flags : ℕ) → Cancellation
accept_cancellation addr fd flags = from_maybe_box addr

abbrev pub connect_cancellation : (fd addr : ℕ) → Cancellation
connect_cancellation fd addr = from_box addr

abbrev pub epoll_ctl_cancellation : (epoll_fd op fd : ℕ) (event : Option ℕ) → Cancellation
epoll_ctl_cancellation epoll_fd op fd event = from_maybe_box event

abbrev pub files_update_cancellation : (files : BoxedSlice) (offset : ℕ) → Cancellation
files_update_cancellation files offset = from_slice files

abbrev pub open_at_cancellation : (path dir_fd flags mode : ℕ) → Cancellation
open_at_cancellation path dir_fd flags mode = Cancellation.new (Object.c_string path)

abbrev pub provide_buffers_cancellation : (bufs : BoxedSlice) (count group index : ℕ) → Cancellation
provide_buffers_cancellation bufs count group index = from_slice bufs

abbrev pub read_cancellation : (fd : ℕ) (buf : BoxedSlice) (offset : ℕ) → Cancellation
read_cancellation fd buf offset = from_slice buf

abbrev pub read_fixed_cancellation : (fd : ℕ) (buf : BoxedSlice) (offset : ℕ) → Cancellation
read_fixed_cancellation fd buf offset = Cancellation.new (Object.registered_buf buf.address buf.len)

abbrev pub read_vectored_cancellation : (fd : ℕ) (bufs : BoxedSlice) (offset : ℕ) → Cancellation
read_vectored_cancellation fd bufs offset = from_slice bufs

abbrev pub recv_cancellation : (fd : ℕ) (buf : BoxedSlice) (flags : ℕ) → Cancellation
recv_cancellation fd buf flags = from_slice buf

abbrev pub send_cancellation : (fd : ℕ) (buf : BoxedSlice) (flags : ℕ) → Cancellation
send_cancellation fd buf flags = from_slice buf

abbrev pub statx_cancellation : (dir_fd path flags mask statx : ℕ) → Cancellation
statx_cancellation dir_fd path flags mask buf =
    Cancellation.new (Object.pair (Narrow.boxed buf) (Narrow.c_string path))

abbrev pub timeout_cancellation : (ts events flags : ℕ) → Cancellation
timeout_cancellation ts events flags = from_box ts

abbrev pub write_cancellation : (fd : ℕ) (buf : BoxedSlice) (offset : ℕ) → Cancellation
write_cancellation fd buf offset = from_slice buf

abbrev pub write_fixed_cancellation : (fd : ℕ) (buf : BoxedSlice) (offset : ℕ) → Cancellation
write_fixed_cancellation fd buf offset =
    Cancellation.new (Object.registered_buf buf.address buf.len)

abbrev pub write_vectored_cancellation : (fd : ℕ) (bufs : BoxedSlice) (offset : ℕ) → Cancellation
write_vectored_cancellation fd bufs offset = from_slice bufs
