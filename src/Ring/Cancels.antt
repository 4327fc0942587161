-- ===== src/Ring/Cancels.antt =====
-- What cancelling does to a ring, its completion and the callback.
use ringbahn.Base.{ℕ, ◌≡◌, some, inl, inr}
use ringbahn.Cancellation.{Cancellation}
use ringbahn.Machine.{World, returns, give_back, drop_callback}
use ringbahn.Machine.Returns.{Returns, returned}
use ringbahn.Completion
use ringbahn.Completion.{Completion}
use ringbahn.Completion.Types as Kernel
use ringbahn.Completion.Types.{Waker, IoResult}
use ringbahn.Completion.Branches.{moved, erased, cleaned, cancel-submitted, cancel-completed}
use ringbahn.Ring.{State, inert, prepared, submitted, cancelled, lost, Ring, cancel}
use ringbahn.Ring.Spec.{Owns, Idle, is_inert, is_cancelled, Busy, is_prepared, is_submitted, Live}
use ringbahn.Ring.Busy.{Live_cases, ring_of}

-- The ways a cancellation may go, from a state and a memory to the state and memory after.
pub data Cancels (callback : Cancellation) (w : World) : State → State → World → Type 0 where
  nothing_under_way : {s : State} → Idle s → Cancels callback w s s (cleaned w callback)
  left_to_kernel :
      {s : State} {c : Completion} {waker : Waker}
      → Busy c s
      → w.completions c.state ≡ some (Kernel.submitted waker)
      → Cancels callback w s (cancelled c.state) (moved w c.state (Kernel.cancelled callback))
  completed_before :
      {s : State} {c : Completion} {result : IoResult ℕ}
      → Busy c s
      → w.completions c.state ≡ some (Kernel.completed result)
      → Cancels callback w s (cancelled c.state) (erased (cleaned w callback) c.state)

-- After a cancellation there is no event under way, and a state without one is sound.
pub Cancels-Idle :
    {callback : Cancellation} {w : World} {s t : State} {v : World}
    → Cancels callback w s t v
    → Idle t
Cancels-Idle (nothing_under_way idle) = idle
Cancels-Idle (left_to_kernel b h) = is_cancelled
Cancels-Idle (completed_before b h) = is_cancelled

pub Idle-Owns : {s : State} (w : World) → Idle s → Owns s w
Idle-Owns w is_inert = tt
Idle-Owns w is_cancelled = tt

pub not-Busy_of_Idle : {s : State} {c : Completion} → Idle s → ¬ Busy c s
not-Busy_of_Idle is_inert b = elim b [ ]
not-Busy_of_Idle is_cancelled b = elim b [ ]

module _ {Driver : Type 0} (callback : Cancellation) (w : World) where
  cancel-Busy :
      {s : State} {c : Completion} (d : Driver)
      → Busy c s
      → Live (w.completions c.state)
      → Returns (λ ring' v. Cancels callback w s ring'.state v) (cancel (ring_of s d) callback w)
  unfolding cancel Completion.addr
  cancel-Busy {c} d is_prepared live = elim (Live_cases live) [
    | inl (waker, holds) ↦
        rw (cancel-submitted w c waker holds callback) (returned (left_to_kernel is_prepared holds))
    | inr (result, holds) ↦
        rw (cancel-completed w c result holds callback)
          (returned (completed_before is_prepared holds))
  ]
  cancel-Busy {c} d is_submitted live = elim (Live_cases live) [
    | inl (waker, holds) ↦
        rw (cancel-submitted w c waker holds callback)
          (returned (left_to_kernel is_submitted holds))
    | inr (result, holds) ↦
        rw (cancel-completed w c result holds callback)
          (returned (completed_before is_submitted holds))
  ]

  cancel_from :
      (s : State) (d : Driver)
      → Owns s w
      → Returns (λ ring' v. Cancels callback w s ring'.state v) (cancel (ring_of s d) callback w)
  unfolding cancel drop_callback give_back
  cancel_from inert d o = returned (nothing_under_way is_inert)
  cancel_from (prepared c) d o = cancel-Busy d is_prepared o
  cancel_from (submitted c) d o = cancel-Busy d is_submitted o
  cancel_from (cancelled prev) d o = returned (nothing_under_way is_cancelled)
  cancel_from lost d o = absurd o

  -- Cancelling a ring in a sound state returns. If the event is with the kernel, the callback is
  -- kept for the completion and no memory is given back; if the event has completed, the callback
  -- runs and the completion's box goes; if there is no event, the callback runs. A ring with an
  -- event under way then holds the address of the cancelled event, any other is left as it was.
  pub cancel-Cancels :
      (ring : Ring Driver)
      → Owns ring.state w
      → Returns (λ ring' v. Cancels callback w ring.state ring'.state v) (cancel ring callback w)
  cancel-Cancels ring o = cancel_from ring.state ring.driver o

module _ {Driver : Type 0} (callback : Cancellation) (w : World) (c : Completion) (waker : Waker)
    (holds : w.completions c.state ≡ some (Kernel.submitted waker)) where
  -- A ring whose event is with the kernel leaves the callback with the completion.
  pub cancel-in_flight :
      {s : State} (d : Driver)
      → Busy c s
      → cancel (ring_of s d) callback w
        ≡ returns (ring_of (cancelled c.state) d) (moved w c.state (Kernel.cancelled callback))
  unfolding cancel Completion.addr
  cancel-in_flight d is_prepared = rw (cancel-submitted w c waker holds callback)
  cancel-in_flight d is_submitted = rw (cancel-submitted w c waker holds callback)
