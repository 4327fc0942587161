-- ===== src/Submission/Contract.antt =====
-- A submission hands its event back with the kernel's result, or leaves its memory to the kernel.
use ringbahn.Base.{ℕ, ◌≡◌, refl, ◌≢◌, none, some}
use ringbahn.Machine.{World, returns, ◌>>=◌, Poll, pending, ready}
use ringbahn.Machine.Returns.{Returns, returned, Returns-and_then}
use ringbahn.Completion
use ringbahn.Completion.{Completion}
use ringbahn.Completion.Types as Kernel
use ringbahn.Completion.Types.{Waker, IoResult}
use ringbahn.Completion.Branches.{moved, erased, cleaned}
use ringbahn.Completion.Races.{complete-moved}
use ringbahn.Drive.{Context, Drive}
use ringbahn.Drive.Conforms.{Conforms}
use ringbahn.Event
use ringbahn.Event.{Event, operation}
use ringbahn.Ring
use ringbahn.Ring.{Ring, State, cancelled}
use ringbahn.Ring.Spec.{Owns, Busy, Polled}
use ringbahn.Ring.Busy.{ring_of}
use ringbahn.Ring.Cancels.{cancel-in_flight}
use ringbahn.Ring.Refines.{poll_one-Polled}
use ringbahn.Submission
use ringbahn.Submission.{Submission, take_event, poll_event, cancel_event}

-- A pending poll keeps the event, and a ready one hands it over with the result of the ring.
pub data Gives (e : Event) (fresh : ℕ) (w : World) (s : State) {Driver : Type 0}
    (t : Submission Driver) : Poll (Event × IoResult ℕ) → World → Type 0 where
  still_waits :
      {v : World}
      → t.event ≡ some e
      → Polled (operation e) fresh w s t.ring.state pending v
      → Gives e fresh w s t pending v
  hands_over :
      {v : World} {result : IoResult ℕ}
      → t.event ≡ none
      → Polled (operation e) fresh w s t.ring.state (ready result) v
      → Gives e fresh w s t (ready (e, result)) v

module _ (D : Drive) (conforms : Conforms D) (ctx : Context) (e : Event) where
  abbrev GivesPair :
      World → State → Submission D.Driver × Poll (Event × IoResult ℕ) → World → Type 0
  GivesPair w s (t, p) v = Gives e ctx.fresh w s t p v

  take_event-Gives :
      (w v : World) (s : State) (ring : Ring D.Driver) (p : Poll (IoResult ℕ))
      → Polled (operation e) ctx.fresh w s ring.state p v
      → GivesPair w s (take_event D e ring p) v
  unfolding take_event
  take_event-Gives w v s ring pending polled = still_waits refl polled
  take_event-Gives w v s ring (ready result) polled = hands_over refl polled

  -- On a conforming driver a poll of a submission that has its event returns: either it is pending
  -- and keeps the event, or it is ready and hands the same event over with the kernel's result.
  pub poll-Gives :
      (ring : Ring D.Driver) (w : World)
      → Owns ring.state w
      → Returns
          (λ (t, p) v. Gives e ctx.fresh w ring.state t p v)
          (Submission.poll D ctx (record { ring = ring; event = some e }) w)
  unfolding Submission.poll poll_event Event.prepare Event.sqes_needed
  poll-Gives ring w o =
      Returns-and_then (poll_one-Polled D conforms ctx (operation e) ring w o)
        λ (ring', p) v polled. returned (take_event-Gives w v ring.state ring' p polled)

module _ {Driver : Type 0} (e : Event) (w : World) (c : Completion) (waker : Waker)
    (result : IoResult ℕ) (ne : c.state ≢ 0)
    (holds : w.completions c.state ≡ some (Kernel.submitted waker)) where
  in_flight :
      {s : State} (d : Driver)
      → Busy c s
      → Ring.cancel (ring_of s d) (Event.cancel e) w
        ≡ returns
            (ring_of (cancelled c.state) d)
            (moved w c.state (Kernel.cancelled (Event.cancel e)))
  in_flight = cancel-in_flight (Event.cancel e) w c waker holds

  -- Dropping a submission whose event is with the kernel gives no memory back: it leaves the event's
  -- callback with the completion. When the kernel completes the event, the callback runs, once, and
  -- the completion's box goes.
  pub drop-complete :
      (ring : Ring Driver)
      → Busy c ring.state
      → (Submission.drop (record { ring = ring; event = some e }) w
          ≡ returns
              (record ring { state = cancelled c.state })
              (moved w c.state (Kernel.cancelled (Event.cancel e))))
        × ((Submission.drop (record { ring = ring; event = some e }) >>= λ _.
                Completion.complete result (Completion.addr c))
              w
            ≡ returns tt (erased (cleaned w (Event.cancel e)) c.state))
  unfolding Submission.drop cancel_event Completion.addr
  drop-complete ring busy = (
    in_flight ring.driver busy,
    rw (in_flight ring.driver busy) (complete-moved w c.state (Event.cancel e) result ne),
  )
