-- ===== src/Operation.antt =====
-- The entries of the submission queue (the `prep_*` calls of the crate iou that the source makes),
-- with their arguments. Memory that is handed to the kernel is named by its address.
use ringbahn.Base.{ℕ, Bool, false, Option}

-- A `&[u8]` or `&mut [u8]` into the heap: where the box starts, and which part of it is meant.
pub record Slice : Type 0 where
  pub address : ℕ
  pub start : ℕ
  pub len : ℕ

-- `Box<[T]>`, and a registered buffer, which is a `Box<[u8]>` inside
pub record BoxedSlice : Type 0 where
  pub address : ℕ
  pub len : ℕ

-- `&buf[..]`
abbrev pub whole : BoxedSlice → Slice
whole b = record { address = b.address; start = 0; len = b.len }

-- The flag sets, modes and advice arguments are the numbers that the kernel is given.
pub data Operation : Type 0 where
  cancel : (user_data flags : ℕ) → Operation
  accept : (fd : ℕ) (addr : Option ℕ) (flags : ℕ) → Operation
  close : (fd : ℕ) → Operation
  connect : (fd addr : ℕ) → Operation
  epoll_ctl : (epoll_fd op fd : ℕ) (event : Option ℕ) → Operation
  fadvise : (fd offset size advice : ℕ) → Operation
  fallocate : (fd offset size flags : ℕ) → Operation
  files_update : (files : Slice) (offset : ℕ) → Operation
  fsync : (fd flags : ℕ) → Operation
  openat : (dir_fd path flags mode : ℕ) → Operation
  provide_buffers : (bufs : Slice) (count group index : ℕ) → Operation
  remove_buffers : (count group : ℕ) → Operation
  read : (fd : ℕ) (buf : Slice) (offset : ℕ) → Operation
  read_vectored : (fd : ℕ) (bufs : Slice) (offset : ℕ) → Operation
  recv : (fd : ℕ) (buf : Slice) (flags : ℕ) → Operation
  send : (fd : ℕ) (buf : Slice) (flags : ℕ) → Operation
  splice : (fd_in off_in fd_out off_out bytes flags : ℕ) → Operation
  statx : (dir_fd path flags mask statx : ℕ) → Operation
  timeout : (ts events flags : ℕ) → Operation
  write : (fd : ℕ) (buf : Slice) (offset : ℕ) → Operation
  write_vectored : (fd : ℕ) (bufs : Slice) (offset : ℕ) → Operation

-- A submission queue entry: the kernel posts `user_data` with the completion of the entry, and a
-- hard linked entry is run before the one behind it, whatever its outcome.
pub record Sqe : Type 0 where
  pub op : Operation
  pub user_data : ℕ
  pub hard_linked : Bool

abbrev pub sqe : Operation → Sqe
sqe op = record { op = op; user_data = 0; hard_linked = false }
