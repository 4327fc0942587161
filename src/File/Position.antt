-- ===== src/File/Position.antt =====
-- src/fs.rs: the size of a file, and seeking in it.
use ringbahn.Base.{
  ℕ, suc, ◌+◌, ◌-◌, List, Option, none, some, ltb, leb, if◌then◌else◌, ℤ, pos, negsuc,
}
use ringbahn.Operation.{Operation}
use ringbahn.Machine.{
  Cmd, pure, returns, faults, ◌>>=◌, ◌>>◌, Poll, pending, ready, update, drop_callback,
}
use ringbahn.Completion.Types.{IoResult, ok, err, Error, os, invalid_input}
use ringbahn.Drive.{Context, Drive, single_sqe}
use ringbahn.Ring
use ringbahn.Ring.{Ring}
use ringbahn.Buf
use ringbahn.Buf.{Buffer, fill_buf}
use ringbahn.File.Handle.{FileBuf, left, right, statx, File, guard_op}

pub data SeekFrom : Type 0 where
  start : ℕ → SeekFrom
  current : ℤ → SeekFrom
  end : ℤ → SeekFrom

-- `libc::EOVERFLOW`
abbrev pub eoverflow : ℕ
eoverflow = 75

unfoldable pub checked_sub : ℕ → ℕ → Option ℕ
checked_sub a b = if leb b a then some (a - b) else none

unfoldable pub checked_add : ℕ → ℕ → Option ℕ
checked_add a b = if ltb (a + b) 18446744073709551616 then some (a + b) else none

-- `ok_or` with an early return
unfoldable pub or_error : Option ℕ → Error → IoResult ℕ
or_error none e = err e
or_error (some n) e = ok n

-- The position that `poll_seek` computes; the magnitude of `negsuc n`, as a `u64`, is `n + 1`.
unfoldable pub valid_seek : ℕ → ℤ → IoResult ℕ
unfolding checked_sub checked_add or_error
valid_seek whence (negsuc n) = or_error (checked_sub whence (suc n)) invalid_input
valid_seek whence (pos n) = or_error (checked_add whence n) (os eoverflow)

unfoldable pub seek_result :
    {Driver : Type 0} → File Driver → IoResult ℕ → File Driver × Poll (IoResult ℕ)
seek_result f (ok n) = (record f { pos = n }, ready (ok n))
seek_result f (err e) = (f, ready (err e))

-- Of the C library: the value of a zeroed `statx`, and the size of the file in one that the kernel has
-- filled in.
pub record Statx : Type 0 where
  pub zeroed : List ℕ
  pub stx_size : List ℕ → ℕ

-- the flag `AT_EMPTY_PATH`, the mask `STATX_SIZE` and the address of the static empty path
pub record StatxArguments : Type 0 where
  pub at_empty_path : ℕ
  pub mask_size : ℕ
  pub empty_path : ℕ

-- `split_with_statx`: a buffer in the place of the `statx` is dropped.
unfoldable pub statx_box : Statx → (fresh : ℕ) → FileBuf → Cmd ℕ
unfolding drop_callback
statx_box libc fresh (right p) = pure p
statx_box libc fresh (left buf) = do
  (λ w. returns tt (record w { boxes = update w.boxes fresh (some libc.zeroed) }))
  drop_callback (Buf.into_cancellation buf)
  pure fresh

unfoldable pub load_size : Statx → ℕ → Cmd ℕ
load_size libc p w = elim (w.boxes p) [
  | none ↦ faults
  | some bytes ↦ returns (libc.stx_size bytes) w
]

module _ (D : Drive) (libc : Statx) (arguments : StatxArguments) where
  open D use {Driver}
  open arguments use {at_empty_path, mask_size, empty_path}

  -- what `poll_file_size` makes of the ring's answer
  unfoldable pub size_answer :
      File Driver → ℕ → Poll (IoResult ℕ) → Cmd (File Driver × Poll (IoResult ℕ))
  unfolding load_size
  size_answer f p pending = pure (f, pending)
  size_answer f p (ready (err e)) = pure (f, ready (err e))
  size_answer f p (ready (ok _)) = do size ← load_size libc p; pure (f, ready (ok size))

  unfoldable pub poll_file_size : Context → File Driver → Cmd (File Driver × Poll (IoResult ℕ))
  unfolding guard_op statx_box size_answer
  poll_file_size ctx file = do
    f ← guard_op statx file
    p ← statx_box libc ctx.fresh_box f.buf
    (ring, answer) ←
        Ring.poll D ctx 1 (single_sqe D (Operation.statx f.fd empty_path at_empty_path mask_size p))
          f.ring
    size_answer (record f { ring = ring; buf = right p }) p answer

  -- the end of `poll_seek`, from the file's size
  unfoldable pub seek_from_end :
      ℤ → File Driver → Poll (IoResult ℕ) → File Driver × Poll (IoResult ℕ)
  unfolding seek_result valid_seek
  seek_from_end n f pending = (f, pending)
  seek_from_end n f (ready (err e)) = (f, ready (err e))
  seek_from_end n f (ready (ok size)) = seek_result f (valid_seek size n)

  unfoldable pub poll_seek :
      Context → SeekFrom → File Driver → Cmd (File Driver × Poll (IoResult ℕ))
  unfolding poll_file_size seek_from_end seek_result valid_seek
  poll_seek ctx (start n) file = pure (record file { pos = n }, ready (ok n))
  poll_seek ctx (current n) file = pure (seek_result file (valid_seek file.pos n))
  poll_seek ctx (end n) file = do (f, size) ← poll_file_size ctx file; pure (seek_from_end n f size)
