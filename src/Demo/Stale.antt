-- ===== src/Demo/Stale.antt =====
-- A driver keeps a listener that has been ready, and does not poll one that it has just made.
use ringbahn.Base.{ℕ, ◌≡◌, refl, true, none, some}
use ringbahn.Machine.{World, returns, panics, Panic, ◌>>=◌, pending, ready}
use ringbahn.Completion.Types.{ok, err, Error}
use ringbahn.Drive.{Context}
use ringbahn.Demo.{Iou, DemoDriver, wait, is_ebusy, submit_answer, submit_after, poll_submit}

-- A driver that has waited for room in the completion queue.
abbrev waiting_on : (I : Iou) → I.Listener → DemoDriver I
waiting_on I l = record { listener = some l }

module _ (I : Iou) (ctx ctx' : Context) (l l' : I.Listener) (w v u : World) (n : ℕ)
    (p : Panic) where
  -- A driver has waited; its listener is ready now, and the submission succeeds. The driver keeps the
  -- listener all the same, so that its next `poll_submit` polls it again, and panics if polling a
  -- listener that has been ready does.
  poll_submit-panics :
      I.poll_listener ctx l w ≡ returns (ready tt, l') v
      → I.submit v ≡ returns (ok n) u
      → I.poll_listener ctx' l' u ≡ panics p
      → (poll_submit I ctx (waiting_on I l) w ≡ returns (ready (ok n), waiting_on I l') u)
        × ((poll_submit I ctx (waiting_on I l) >>= λ (_, d). poll_submit I ctx' d) w ≡ panics p)
  unfolding poll_submit wait submit_after submit_answer
  poll_submit-panics polled submitted again =
      (rw (polled, submitted) refl, rw (polled, submitted, again) refl)

module _ (I : Iou) (l : I.Listener) (w v u : World) (e : Error) where
  -- The kernel is busy, and the driver answers that it is pending, with a listener that it has made and has
  -- not polled: whatever the task's context is, the answer and the memory are the same, so that no waker of
  -- the task is registered.
  poll_submit-unregistered :
      I.submit w ≡ returns (err e) v
      → is_ebusy e ≡ true
      → I.listen v ≡ returns l u
      → (ctx : Context)
      → poll_submit I ctx (record { listener = none }) w
        ≡ returns (pending, record { listener = some l }) u
  unfolding poll_submit wait submit_after submit_answer
  poll_submit-unregistered busy is_busy listens ctx = rw (busy, is_busy, listens) refl
