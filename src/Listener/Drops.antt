-- ===== src/Listener/Drops.antt =====
-- Dropping a listener that accepts a connection.
use ringbahn.Base.{ℕ, ◌≡◌, refl, ◌≢◌, some, none, [], ◌∷◌, ◌++◌}
use ringbahn.Cancellation
use ringbahn.Cancellation.{allocation, sized}
use ringbahn.Machine.{World, returns, ◌>>=◌}
use ringbahn.Completion
use ringbahn.Completion.{Completion}
use ringbahn.Completion.Types as Kernel
use ringbahn.Completion.Types.{Waker, IoResult}
use ringbahn.Completion.Branches.{moved, erased, cleaned}
use ringbahn.Completion.Races.{complete-moved}
use ringbahn.Event
use ringbahn.Ring.{Ring, cancelled}
use ringbahn.Ring.Spec.{Busy}
use ringbahn.Ring.Cancels.{cancel-in_flight}
use ringbahn.Listener.{accept, nothing, TcpListener, drop}

-- A listener that accepts a connection, with the box for the peer's address at `p`.
abbrev pub accepting_into : {Driver : Type 0} → Ring Driver → ℕ → ℕ → TcpListener Driver
accepting_into ring fd p = record { ring = ring; fd = fd; active = accept; addr = some p }

module _ {Driver : Type 0} (fd p : ℕ) (w : World) (c : Completion) (waker : Waker)
    (result : IoResult ℕ) (ne : c.state ≢ 0)
    (holds : w.completions c.state ≡ some (Kernel.submitted waker)) where
  -- Dropping a listener whose accept is with the kernel gives no memory back, and leaves the box for
  -- the peer's address with the completion. When the kernel completes the accept, that box and what
  -- it owns are given back, once, and the completion's box goes.
  pub drop-allocation :
      (ring : Ring Driver)
      → Busy c ring.state
      → (drop (accepting_into ring fd p) w
          ≡ returns
              (record (accepting_into (record ring { state = cancelled c.state }) fd p) {
                active = nothing;
                addr = none;
              })
              (moved w c.state (Kernel.cancelled (Event.from_maybe_box (some p)))))
        × ((drop (accepting_into ring fd p) >>= λ _. Completion.complete result (Completion.addr c))
              w
            ≡ returns tt (erased (cleaned w (Event.from_maybe_box (some p))) c.state))
        × (Cancellation.drop w.inside (Event.from_maybe_box (some p))
            ≡ w.inside p ++ allocation p sized ∷ [])
  unfolding drop Completion.addr Event.from_maybe_box Cancellation.from_option Cancellation.new
      Cancellation.drop
  drop-allocation ring busy = (
    rw (cancel-in_flight (Event.from_maybe_box (some p)) w c waker holds ring.driver busy) refl,
    rw (cancel-in_flight (Event.from_maybe_box (some p)) w c waker holds ring.driver busy)
        (complete-moved w c.state (Event.from_maybe_box (some p)) result ne),
    refl,
  )
