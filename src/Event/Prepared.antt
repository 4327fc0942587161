-- ===== src/Event/Prepared.antt =====
-- src/event/*.rs: the operation that `Event::prepare` of each type fills its entry with.
use ringbahn.Base.{ℕ, Option}
use ringbahn.Operation.{BoxedSlice, whole, Operation}

abbrev pub accept_operation : (addr : Option ℕ) (fd flags : ℕ) → Operation
accept_operation addr fd flags = Operation.accept fd addr flags

abbrev pub close_operation : (fd : ℕ) → Operation
close_operation fd = Operation.close fd

abbrev pub connect_operation : (fd addr : ℕ) → Operation
connect_operation fd addr = Operation.connect fd addr

abbrev pub epoll_ctl_operation : (epoll_fd op fd : ℕ) (event : Option ℕ) → Operation
epoll_ctl_operation epoll_fd op fd event = Operation.epoll_ctl epoll_fd op fd event

abbrev pub fadvise_operation : (fd offset size flags : ℕ) → Operation
fadvise_operation fd offset size flags = Operation.fadvise fd offset size flags

abbrev pub fallocate_operation : (fd offset size flags : ℕ) → Operation
fallocate_operation fd offset size flags = Operation.fallocate fd offset size flags

abbrev pub files_update_operation : (files : BoxedSlice) (offset : ℕ) → Operation
files_update_operation files offset = Operation.files_update (whole files) offset

abbrev pub fsync_operation : (fd flags : ℕ) → Operation
fsync_operation fd flags = Operation.fsync fd flags

abbrev pub open_at_operation : (path dir_fd flags mode : ℕ) → Operation
open_at_operation path dir_fd flags mode = Operation.openat dir_fd path flags mode

abbrev pub provide_buffers_operation : (bufs : BoxedSlice) (count group index : ℕ) → Operation
provide_buffers_operation bufs count group index =
    Operation.provide_buffers (whole bufs) count group index

abbrev pub remove_buffers_operation : (count group : ℕ) → Operation
remove_buffers_operation count group = Operation.remove_buffers count group

abbrev pub read_operation : (fd : ℕ) (buf : BoxedSlice) (offset : ℕ) → Operation
read_operation fd buf offset = Operation.read fd (whole buf) offset

abbrev pub read_fixed_operation : (fd : ℕ) (buf : BoxedSlice) (offset : ℕ) → Operation
read_fixed_operation fd buf offset = Operation.read fd (whole buf) offset

abbrev pub read_vectored_operation : (fd : ℕ) (bufs : BoxedSlice) (offset : ℕ) → Operation
read_vectored_operation fd bufs offset = Operation.read_vectored fd (whole bufs) offset

abbrev pub recv_operation : (fd : ℕ) (buf : BoxedSlice) (flags : ℕ) → Operation
recv_operation fd buf flags = Operation.recv fd (whole buf) flags

abbrev pub send_operation : (fd : ℕ) (buf : BoxedSlice) (flags : ℕ) → Operation
send_operation fd buf flags = Operation.send fd (whole buf) flags

abbrev pub splice_operation : (fd_in off_in fd_out off_out bytes flags : ℕ) → Operation
splice_operation fd_in off_in fd_out off_out bytes flags =
    Operation.splice fd_in off_in fd_out off_out bytes flags

abbrev pub statx_operation : (dir_fd path flags mask statx : ℕ) → Operation
statx_operation dir_fd path flags mask buf = Operation.statx dir_fd path flags mask buf

abbrev pub static_timeout_operation : (ts events flags : ℕ) → Operation
static_timeout_operation ts events flags = Operation.timeout ts events flags

abbrev pub timeout_operation : (ts events flags : ℕ) → Operation
timeout_operation ts events flags = Operation.timeout ts events flags

abbrev pub write_operation : (fd : ℕ) (buf : BoxedSlice) (offset : ℕ) → Operation
write_operation fd buf offset = Operation.write fd (whole buf) offset

abbrev pub write_fixed_operation : (fd : ℕ) (buf : BoxedSlice) (offset : ℕ) → Operation
write_fixed_operation fd buf offset = Operation.write fd (whole buf) offset

abbrev pub write_vectored_operation : (fd : ℕ) (bufs : BoxedSlice) (offset : ℕ) → Operation
write_vectored_operation fd bufs offset = Operation.write_vectored fd (whole bufs) offset
