-- ===== src/Ring.antt =====
-- src/ring/mod.rs: the state machine that cycles through the events of one IO object.
pub mod Spec
pub mod Busy
pub mod Idle
pub mod Refines
pub mod Cancels
pub mod Delivery
pub mod Answers
pub mod Reuse
pub mod System
use ringbahn.Base.{ℕ, ◌+◌, true, u32}
use ringbahn.Cancellation.{Cancellation}
use ringbahn.Operation.{Operation, Sqe, sqe}
use ringbahn.Machine.{
  Cmd, pure, panic, unreachable, bad_ring_state, ◌>>=◌, ◌>>◌, Poll, pending, ready, unwrap,
  drop_callback, push_sqe,
}
use ringbahn.Completion
use ringbahn.Completion.{Completion, Checked, done, waiting}
use ringbahn.Completion.Types.{IoResult}
use ringbahn.Drive.{Context, Offer, offered, refused, swallowed, Drive, new_completion}

pub data State : Type 0 where
  inert : State
  prepared : Completion → State
  submitted : Completion → State
  cancelled : ℕ → State
  lost : State

pub record Ring (Driver : Type 0) : Type 0 where
  pub state : State
  pub driver : Driver

unfoldable pub new : {Driver : Type 0} → Driver → Ring Driver
new driver = record { state = inert; driver = driver }

-- `State::cancel`. A ring with no event under way drops the callback at once.
unfoldable pub cancel_state : State → Cancellation → Cmd State
cancel_state (prepared completion) cancellation = do
  Completion.cancel completion cancellation
  pure (cancelled (Completion.addr completion))
cancel_state (submitted completion) cancellation = do
  Completion.cancel completion cancellation
  pure (cancelled (Completion.addr completion))
cancel_state inert cancellation = do drop_callback cancellation; pure inert
cancel_state (cancelled prev) cancellation = do drop_callback cancellation; pure (cancelled prev)
cancel_state lost cancellation = do drop_callback cancellation; pure lost

-- `Ring::cancel` and `Ring::cancel_pinned`
unfoldable pub cancel : {Driver : Type 0} → Ring Driver → Cancellation → Cmd (Ring Driver)
unfolding cancel_state
cancel ring cancellation = do
  state ← cancel_state ring.state cancellation
  pure (record ring { state = state })

module _ (D : Drive) where
  open D use {Driver, Sqes, next_hard_linked}

  -- `Clone`: a new ring, on a clone of the driver
  unfoldable pub clone : Ring Driver → Ring Driver
  unfolding new
  clone ring = new (D.clone ring.driver)

  -- What the driver's answer makes of a call of its `poll_prepare` with this callback. The callback
  -- begins by setting the state to `Lost`.
  unfoldable pub answer :
      Offer Sqes → (Sqes → Cmd Completion) → State → Cmd (State × Poll Completion)
  answer (offered sqs) callback state = do completion ← callback sqs; pure (lost, ready completion)
  answer (swallowed sqs) callback state = do _ ← callback sqs; pure (lost, pending)
  answer refused callback state = pure (state, pending)

  -- the callback for a ring whose last event was cancelled
  unfoldable pub prepare_cancel : Context → (prev : ℕ) → (Sqes → Cmd Sqe) → Sqes → Cmd Completion
  unfolding unwrap new_completion
  prepare_cancel ctx prev prepare sqs = do
    rest ← unwrap (next_hard_linked sqs)
    push_sqe (record (sqe (Operation.cancel prev 0)) { hard_linked = true })
    s ← prepare rest
    new_completion s ctx

  -- the callback for an inert ring
  unfoldable pub prepare_event : Context → (Sqes → Cmd Sqe) → Sqes → Cmd Completion
  unfolding new_completion
  prepare_event ctx prepare sqs = do s ← prepare sqs; new_completion s ctx

  unfoldable pub call_driver :
      Context → ℕ → (Sqes → Cmd Completion) → Ring Driver → Cmd (Ring Driver × Poll (Unit {0}))
  unfolding answer
  call_driver ctx count callback ring = do
    (offer, driver) ← D.poll_prepare ctx count ring.driver
    (state, completion) ← answer offer callback ring.state
    elim completion [
      | pending ↦ pure (record { state = state; driver = driver }, pending)
      | ready real ↦ pure (record { state = prepared real; driver = driver }, ready tt)
    ]

  unfoldable pub poll_prepare_from :
      State → Context → ℕ → (Sqes → Cmd Sqe) → Ring Driver → Cmd (Ring Driver × Poll (Unit {0}))
  unfolding call_driver prepare_cancel prepare_event
  poll_prepare_from (cancelled prev) ctx count prepare ring =
      call_driver ctx (u32 (count + 1)) (prepare_cancel ctx prev prepare) ring
  poll_prepare_from inert ctx count prepare ring =
      call_driver ctx count (prepare_event ctx prepare) ring
  poll_prepare_from (prepared _) ctx count prepare ring = panic unreachable
  poll_prepare_from (submitted _) ctx count prepare ring = panic unreachable
  poll_prepare_from lost ctx count prepare ring = panic unreachable

  unfoldable pub poll_prepare :
      Context → ℕ → (Sqes → Cmd Sqe) → Ring Driver → Cmd (Ring Driver × Poll (Unit {0}))
  unfolding poll_prepare_from
  poll_prepare ctx count prepare ring = poll_prepare_from ring.state ctx count prepare ring

  -- the state after a submission that is not pending
  unfoldable pub submit_state : State → Cmd State
  submit_state (prepared completion) = pure (submitted completion)
  submit_state (submitted completion) = pure (submitted completion)
  submit_state inert = panic unreachable
  submit_state (cancelled _) = panic unreachable
  submit_state lost = panic unreachable

  -- The result of the submission is not looked at.
  unfoldable pub poll_submit : Context → Ring Driver → Cmd (Ring Driver × Poll (Unit {0}))
  unfolding submit_state
  poll_submit ctx ring = do
    (result, driver) ← D.poll_submit ctx ring.driver
    elim result [
      | pending ↦ pure (record ring { driver = driver }, pending)
      | ready _ ↦ do
        state ← submit_state ring.state
        pure (record { state = state; driver = driver }, ready tt)
    ]

  -- what becomes of the ring when its completion has been checked; `back` is the variant it was in
  unfoldable pub checked :
      (Completion → State) → Ring Driver → Checked → Cmd (Ring Driver × Poll (IoResult ℕ))
  checked back ring (done result) = pure (record ring { state = inert }, ready result)
  checked back ring (waiting completion) = pure (record ring { state = back completion }, pending)

  unfoldable pub poll_complete_from :
      State → Context → Ring Driver → Cmd (Ring Driver × Poll (IoResult ℕ))
  unfolding checked
  poll_complete_from (prepared completion) ctx ring =
      Completion.check completion ctx.waker >>= checked prepared ring
  poll_complete_from (submitted completion) ctx ring =
      Completion.check completion ctx.waker >>= checked submitted ring
  poll_complete_from inert ctx ring = panic unreachable
  poll_complete_from (cancelled _) ctx ring = panic unreachable
  poll_complete_from lost ctx ring = panic unreachable

  unfoldable pub poll_complete : Context → Ring Driver → Cmd (Ring Driver × Poll (IoResult ℕ))
  unfolding poll_complete_from
  poll_complete ctx ring = poll_complete_from ring.state ctx ring

  -- `poll` of a ring with no event under way, once `poll_prepare` has answered: if it is ready, so
  -- that there is an event, this is submitted; the poll itself is pending in any case.
  unfoldable pub poll_started :
      Context → Ring Driver → Poll (Unit {0}) → Cmd (Ring Driver × Poll (IoResult ℕ))
  unfolding poll_submit
  poll_started ctx ring pending = pure (ring, pending)
  poll_started ctx ring (ready _) = do (ring', _) ← poll_submit ctx ring; pure (ring', pending)

  unfoldable pub poll_idle :
      Context → ℕ → (Sqes → Cmd Sqe) → Ring Driver → Cmd (Ring Driver × Poll (IoResult ℕ))
  unfolding poll_prepare poll_started
  poll_idle ctx count prepare ring = do
    (ring', p) ← poll_prepare ctx count prepare ring
    poll_started ctx ring' p

  -- `poll` of a ring whose event has been prepared
  unfoldable pub poll_prepared : Context → Ring Driver → Cmd (Ring Driver × Poll (IoResult ℕ))
  unfolding poll_complete poll_submit
  poll_prepared ctx ring = do
    (ring', result) ← poll_complete ctx ring
    elim result [
      | ready r ↦ pure (ring', ready r)
      | pending ↦ do (ring'', _) ← poll_submit ctx ring'; pure (ring'', pending)
    ]

  unfoldable pub poll_from :
      State → Context → ℕ → (Sqes → Cmd Sqe) → Ring Driver → Cmd (Ring Driver × Poll (IoResult ℕ))
  unfolding poll_idle poll_prepared poll_complete
  poll_from inert ctx count prepare ring = poll_idle ctx count prepare ring
  poll_from (cancelled _) ctx count prepare ring = poll_idle ctx count prepare ring
  poll_from (prepared _) ctx count prepare ring = poll_prepared ctx ring
  poll_from (submitted _) ctx count prepare ring = poll_complete ctx ring
  poll_from lost ctx count prepare ring = panic bad_ring_state

  unfoldable pub poll :
      Context → ℕ → (Sqes → Cmd Sqe) → Ring Driver → Cmd (Ring Driver × Poll (IoResult ℕ))
  unfolding poll_from
  poll ctx count prepare ring = poll_from ring.state ctx count prepare ring
