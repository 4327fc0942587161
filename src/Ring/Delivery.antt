-- ===== src/Ring/Delivery.antt =====
-- The kernel's result reaches the task that waits for it.
use ringbahn.Base.{ℕ, ◌≡◌, ◌≢◌, some, ◌∷◌, ap, ◌∙◌}
use ringbahn.Operation.{Sqe}
use ringbahn.Machine.{World, returns, Cmd, ◌>>◌, ready, update_self, update-update}
use ringbahn.Completion
use ringbahn.Completion.{Completion}
use ringbahn.Completion.Types as Kernel
use ringbahn.Completion.Types.{Waker, will_wake, IoResult}
use ringbahn.Completion.Branches.{erased, check-completed, complete-submitted}
use ringbahn.Drive.{Context, Drive}
use ringbahn.Ring.{State, inert, Ring, poll}
use ringbahn.Ring.Spec.{Busy, is_prepared, is_submitted}
use ringbahn.Ring.Busy.{ring_of}

module _ (D : Drive) (ctx : Context) (count : ℕ) (prepare : D.Sqes → Cmd Sqe) where
  -- A poll of a busy ring whose event has completed hands the result over, whatever the driver.
  pub poll-completed :
      {c : Completion} {s : State} (d : D.Driver) (w : World) (result : IoResult ℕ)
      → Busy c s
      → w.completions c.state ≡ some (Kernel.completed result)
      → poll D ctx count prepare (ring_of s d) w
        ≡ returns (ring_of inert d, ready result) (erased w c.state)
  unfolding poll
  poll-completed {c} d w result is_prepared holds = rw (check-completed w c result holds ctx.waker)
  poll-completed {c} d w result is_submitted holds = rw (check-completed w c result holds ctx.waker)

  delivered_from :
      {c : Completion} {s : State} (d : D.Driver) (w : World) (waker : Waker) (result : IoResult ℕ)
      → Busy c s
      → c.state ≢ 0
      → w.completions c.state ≡ some (Kernel.submitted waker)
      → (Completion.complete result (Completion.addr c) >> poll D ctx count prepare (ring_of s d)) w
        ≡ returns
            (ring_of inert d, ready result)
            (record (erased w c.state) { woken = waker ∷ w.woken })
  unfolding Completion.addr
  delivered_from {c} {s} d w waker result busy ne holds =
      rw (complete-submitted w c.state result ne waker holds) (
        poll-completed d _ result busy (update_self w.completions c.state _)
        ∙ ap
            (λ f.
              returns (ring_of inert d, ready result)
                (record w { completions = f; woken = waker ∷ w.woken }))
            (update-update w.completions c.state _ _))

  -- When the kernel completes the event of a busy ring, the task that waits is woken, and the poll
  -- that follows is ready with the kernel's result, gives the box back and leaves the ring inert,
  -- without a call of the driver.
  pub complete-poll :
      (ring : Ring D.Driver) (c : Completion) (w : World) (waker : Waker) (result : IoResult ℕ)
      → Busy c ring.state
      → c.state ≢ 0
      → w.completions c.state ≡ some (Kernel.submitted waker)
      → (Completion.complete result (Completion.addr c) >> poll D ctx count prepare ring) w
        ≡ returns
            (record ring { state = inert }, ready result)
            (record (erased w c.state) { woken = waker ∷ w.woken })
  complete-poll ring c w waker result busy ne holds =
      delivered_from ring.driver w waker result busy ne holds
