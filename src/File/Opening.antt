-- ===== src/File/Opening.antt =====
-- src/fs.rs: the futures `Open` and `Create`, which hand over a file when it has been opened.
pub mod Contract
use Prim.Native.Nat.{bit_or}
use ringbahn.Base.{ℕ, List}
use ringbahn.Machine.{Cmd, pure, ◌>>=◌, ◌>>◌, Poll, pending, ready, drop_callback}
use ringbahn.Completion.Types.{IoResult, ok, err}
use ringbahn.Drive.{Context, Drive}
use ringbahn.Submission
use ringbahn.Submission.{Submission}
use ringbahn.Event
use ringbahn.Event.{Event}
use ringbahn.Event.Constructors.{Libc, open_without_dir}
use ringbahn.File.Handle.{File, from_fd}

-- Of the C library: the flags that a file is opened with.
pub record OpenFlags : Type 0 where
  pub o_cloexec : ℕ
  pub o_rdonly : ℕ
  pub o_wronly : ℕ
  pub o_creat : ℕ
  pub o_trunc : ℕ

module _ (libc : Libc) (flags : OpenFlags) {Driver : Type 0} where
  open flags use {o_cloexec, o_rdonly, o_wronly, o_creat, o_trunc}

  -- `open_on_driver` and `create_on_driver`, with the mode 0o666
  unfoldable pub open_on_driver : (fresh : ℕ) (path : List ℕ) → Driver → Cmd (Submission Driver)
  unfolding open_without_dir
  open_on_driver fresh path driver = do
    event ← open_without_dir libc fresh path (bit_or o_cloexec o_rdonly) 438
    pure (Submission.new event driver)

  unfoldable pub create_on_driver : (fresh : ℕ) (path : List ℕ) → Driver → Cmd (Submission Driver)
  unfolding open_without_dir
  create_on_driver fresh path driver = do
    event ←
        open_without_dir libc fresh path
          (bit_or (bit_or (bit_or o_cloexec o_wronly) o_creat) o_trunc) 438
    pure (Submission.new event driver)

module _ (D : Drive) where
  -- What `poll` makes of the submission's answer; the event, and with it its path, is dropped.
  unfoldable pub opened :
      Submission D.Driver
      → Poll (Event × IoResult ℕ)
      → Cmd (Submission D.Driver × Poll (IoResult (File D.Driver)))
  opened s pending = pure (s, pending)
  opened s (ready (event, err e)) = do drop_callback (Event.cancel event); pure (s, ready (err e))
  opened s (ready (event, ok fd)) = do
    drop_callback (Event.cancel event)
    pure (s, ready (ok (from_fd fd (D.clone s.ring.driver))))

  -- `Future::poll` of `Open`
  unfoldable pub poll_open :
      Context → Submission D.Driver → Cmd (Submission D.Driver × Poll (IoResult (File D.Driver)))
  unfolding opened
  poll_open ctx s = do (s', p) ← Submission.poll D ctx s; opened s' p

  -- `Future::poll` of `Create`, which is written in the same way
  unfoldable pub poll_create :
      Context → Submission D.Driver → Cmd (Submission D.Driver × Poll (IoResult (File D.Driver)))
  unfolding opened
  poll_create ctx s = do (s', p) ← Submission.poll D ctx s; opened s' p
