-- ===== src/Submission.antt =====
-- src/submission.rs: the future of one event.
pub mod Contract
pub mod System
use ringbahn.Base.{ℕ, Option, none, some}
use ringbahn.Machine as M
use ringbahn.Machine.{Cmd, pure, panic, polled_after_completion, ◌>>=◌}
use ringbahn.Completion.Types.{IoResult}
use ringbahn.Drive.{Context, Drive}
use ringbahn.Event
use ringbahn.Event.{Event}
use ringbahn.Ring
use ringbahn.Ring.{Ring}

pub record Submission (Driver : Type 0) : Type 0 where
  pub ring : Ring Driver
  pub event : Option Event

unfoldable pub new : {Driver : Type 0} → Event → Driver → Submission Driver
new event driver = record { ring = Ring.new driver; event = some event }

-- cancels the event in the slot, if there is one
unfoldable pub cancel_event : {Driver : Type 0} → Option Event → Ring Driver → Cmd (Ring Driver)
cancel_event none ring = pure ring
cancel_event (some event) ring = Ring.cancel ring (Event.cancel event)

unfoldable pub replace_event :
    {Driver : Type 0} → Event → Submission Driver → Cmd (Submission Driver)
unfolding cancel_event
replace_event event s = do
  ring ← cancel_event s.event s.ring
  pure (record { ring = ring; event = some event })

-- `Drop`: the ring is returned, to speak of its state; it is not used again.
unfoldable pub drop : {Driver : Type 0} → Submission Driver → Cmd (Ring Driver)
unfolding cancel_event
drop s = cancel_event s.event s.ring

module _ (D : Drive) where
  -- what `poll` makes of the ring's answer
  unfoldable pub take_event :
      Event
      → Ring D.Driver
      → M.Poll (IoResult ℕ)
      → Submission D.Driver × M.Poll (Event × IoResult ℕ)
  take_event event ring M.pending = (record { ring = ring; event = some event }, M.pending)
  take_event event ring (M.ready result) =
      (record { ring = ring; event = none }, M.ready (event, result))

  unfoldable pub poll_event :
      Option Event
      → Context
      → Ring D.Driver
      → Cmd (Submission D.Driver × M.Poll (Event × IoResult ℕ))
  unfolding take_event Event.sqes_needed Event.prepare
  poll_event none ctx ring = panic polled_after_completion
  poll_event (some event) ctx ring = do
    (ring', p) ← Ring.poll D ctx (Event.sqes_needed event) (Event.prepare D event) ring
    pure (take_event event ring' p)

  unfoldable pub poll :
      Context → Submission D.Driver → Cmd (Submission D.Driver × M.Poll (Event × IoResult ℕ))
  unfolding poll_event
  poll ctx s = poll_event s.event ctx s.ring
