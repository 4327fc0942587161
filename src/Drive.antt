-- ===== src/Drive.antt =====
-- src/drive/mod.rs: the interface between the rings and the code that drives the io-uring instance.
pub mod Conforms
pub mod Spares
use ringbahn.Base.{ℕ, Option}
use ringbahn.Operation.{Sqe, Operation, sqe}
use ringbahn.Machine.{Cmd, pure, ◌>>=◌, ◌>>◌, Poll, unwrap, push_sqe}
use ringbahn.Completion
use ringbahn.Completion.{Completion}
use ringbahn.Completion.Types.{Waker, IoResult}

-- The task's context. `fresh` and `fresh_box` are the addresses with which the allocator answers if
-- a completion or a buffer is made during the call; no call makes two of either.
pub record Context : Type 0 where
  pub waker : Waker
  pub fresh : ℕ
  pub fresh_box : ℕ

-- How a driver may answer a call of `poll_prepare`: it calls `prepare` with these entries and
-- returns the completion, it is not ready and does not call `prepare`, or (which is an error) it
-- calls `prepare` and does not return what it gives.
pub data Offer (S : Type 0) : Type 0 where
  offered : S → Offer S
  refused : Offer S
  swallowed : S → Offer S

-- The trait `Drive`, and of the crate iou the iterator over entries of the submission queue: both
-- of its functions take an entry out, and have none to give if the iterator is empty.
pub record Drive : Type 1 where
  pub Driver : Type 0
  pub Sqes : Type 0
  pub poll_prepare : Context → ℕ → Driver → Cmd (Offer Sqes × Driver)
  pub poll_submit : Context → Driver → Cmd (Poll (IoResult ℕ) × Driver)
  pub next_hard_linked : Sqes → Option Sqes
  pub single : Sqes → Option Sqes
  pub clone : Driver → Driver

-- `drive::Completion::new`: the entry carries the address of a new completion.
unfoldable pub new_completion : Sqe → Context → Cmd Completion
new_completion s ctx = do
  real ← Completion.new ctx.fresh ctx.waker
  push_sqe (record s { user_data = Completion.addr real })
  pure real

module _ (D : Drive) where
  open D use {Sqes, single}

  -- The closures that the source passes as `prepare`: take a single entry, and fill it in.
  unfoldable pub single_sqe : Operation → Sqes → Cmd Sqe
  unfolding unwrap
  single_sqe op sqs = do _ ← unwrap (single sqs); pure (sqe op)
