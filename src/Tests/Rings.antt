-- ===== src/Tests/Rings.antt =====
-- Rings and submissions, on a driver that is always ready.
use ringbahn.Base.{ℕ, ◌≡◌, refl, some, none, [], ◌∷◌, arith, Option}
use ringbahn.Operation.{Operation}
use ringbahn.Machine.{
  World, Run, Cmd, push_sqe, returns, panics, faults, out_of_fuel, ◌>>◌, ◌>>=◌, Poll, ready, update,
}
use ringbahn.Machine.Returns.{Returns}
use ringbahn.Cancellation
use ringbahn.Cancellation.{Object}
use ringbahn.Completion
use ringbahn.Completion.{Completion}
use ringbahn.Completion.Types as Kernel
use ringbahn.Completion.Types.{ok, IoResult}
use ringbahn.Completion.Branches.{erased, moved, cleaned}
use ringbahn.Drive.{single_sqe}
use ringbahn.Event
use ringbahn.Event.{Event}
use ringbahn.Ring.{Ring, inert, submitted, cancelled, poll, cancel}
use ringbahn.Ring.Spec.{Polled, is_submitted, unread}
use ringbahn.Ring.Refines.{poll-Polled}
use ringbahn.Ring.Cancels.{Cancels, cancel-Cancels}
use ringbahn.Ring.Delivery.{complete-poll}
use ringbahn.Submission
use ringbahn.Submission.Contract.{Gives, poll-Gives, drop-complete}
use ringbahn.Tests.Ready.{ready_driver, ready_driver-Conforms, start, task, ctx}

abbrev completion : Completion
completion = record { state = 64 }

abbrev waiting : World
waiting = record start { completions = update start.completions 64 (some (Kernel.submitted task)) }

abbrev finished : World
finished = record start {
  completions = update start.completions 64 (some (Kernel.completed (ok 5)));
}

abbrev after_cancel : Ring (Unit {0})
after_cancel = record { state = cancelled 32; driver = tt }

abbrev busy : Ring (Unit {0})
busy = record { state = submitted completion; driver = tt }

abbrev closing : Operation
closing = Operation.close 3

poll-Polled_example :
    Returns
      (λ (ring', p) v. Polled closing 64 start (cancelled 32) ring'.state p v)
      (poll ready_driver ctx 1 (single_sqe ready_driver closing) after_cancel start)
poll-Polled_example =
    poll-Polled ready_driver ready_driver-Conforms ctx closing 1 after_cancel start (omega arith)
      ready_driver-Conforms.enough tt

cancel-Cancels_example :
    Returns
      (λ ring' v.
        Cancels (Cancellation.new Object.unit) finished (submitted completion) ring'.state v)
      (cancel busy (Cancellation.new Object.unit) finished)
cancel-Cancels_example = cancel-Cancels (Cancellation.new Object.unit) finished busy unread

complete-poll_example :
    (Completion.complete (ok 5) (Completion.addr completion)
        >> poll ready_driver ctx 1 (single_sqe ready_driver closing) busy)
      waiting
    ≡ returns
        (record { state = inert; driver = tt }, ready (ok 5))
        (record (erased waiting 64) { woken = task ∷ [] })
complete-poll_example =
    complete-poll ready_driver ctx 1 (single_sqe ready_driver closing) busy completion waiting task
      (ok 5) is_submitted (omega arith) refl

abbrev reading : Event
reading = Event.read 3 (record { address = 4096; len = 1024 }) 0

poll-Gives_example :
    Returns
      (λ (t, p) v. Gives reading 64 finished (submitted completion) t p v)
      (Submission.poll ready_driver ctx (record { ring = busy; event = some reading }) finished)
poll-Gives_example = poll-Gives ready_driver ready_driver-Conforms ctx reading busy finished unread

drop-complete_example :
    (Submission.drop (record { ring = busy; event = some reading }) waiting
      ≡ returns
          (record busy { state = cancelled 64 })
          (moved waiting 64 (Kernel.cancelled (Event.cancel reading))))
    × ((Submission.drop (record { ring = busy; event = some reading }) >>= λ _.
            Completion.complete (ok 5) (Completion.addr completion))
          waiting
        ≡ returns tt (erased (cleaned waiting (Event.cancel reading)) 64))
drop-complete_example =
    drop-complete reading waiting completion task (ok 5) (omega arith) refl busy is_submitted

abbrev outcome : {A : Type 0} → Run A → Option A
outcome (returns a w) = some a
outcome (panics p) = none
outcome faults = none
outcome out_of_fuel = none

abbrev close_ring : Ring (Unit {0}) → Cmd (Ring (Unit {0}) × Poll (IoResult ℕ))
close_ring = poll ready_driver ctx 1 (single_sqe ready_driver closing)

-- From an inert ring to the result of its event, step by step.
whole_cycle :
    outcome (
      (do
        (r, _) ← close_ring (record { state = inert; driver = tt })
        Completion.complete (ok 5) 64
        close_ring r)
        start)
    ≡ some (record { state = inert; driver = tt }, ready (ok 5))
unfolding poll single_sqe Completion.complete Completion.check Completion.new Completion.addr
    push_sqe
whole_cycle = refl
