-- ===== src/Ring/System.antt =====
-- Several rings over one memory: what their owners and the kernel may do, in any order.
pub mod Completes
pub mod Sound
pub mod Runs
pub mod Entries
pub mod Boxes
use ringbahn.Base.{ℕ, ◌≡◌, ◌⊎◌, Option, none, some, List, [], ◌∷◌}
use ringbahn.Cancellation.{Cancellation}
use ringbahn.Operation.{Operation}
use ringbahn.Machine.{
  World, Run, returns, panics, faults, out_of_fuel, Cmd, pure, ◌>>=◌, ◌>>◌, update,
}
use ringbahn.Completion
use ringbahn.Completion.Types as Kernel
use ringbahn.Completion.Types.{Waker, IoResult}
use ringbahn.Drive.{Context, Drive, single_sqe}
use ringbahn.Ring.{Ring, poll, cancel}

-- A ring is polled for an operation, a ring is cancelled, or the kernel completes an event.
pub data Action : Type 0 where
  polls : (ring : ℕ) → Context → Operation → Action
  cancels : (ring : ℕ) → Cancellation → Action
  completes : IoResult ℕ → (user_data : ℕ) → Action

-- A completion that the kernel owes a result.
pub data Owed : Option Kernel.State → Type 0 where
  awaited : {waker : Waker} → Owed (some (Kernel.submitted waker))
  abandoned : {callback : Cancellation} → Owed (some (Kernel.cancelled callback))

-- The allocator hands out an address without a completion, and the kernel completes what it owes, or the
-- entry of a cancellation, whose address is null.
abbrev pub Permitted : Action → World → Type 0
Permitted (polls i ctx op) w = w.completions ctx.fresh ≡ none
Permitted (cancels i callback) w = Unit {0}
Permitted (completes result a) w = (a ≡ 0) ⊎ Owed (w.completions a)

-- What holds after a run that returns.
abbrev pub Next : {A : Type 0} → (A → World → Type 0) → Run A → Type 0
Next P (returns a w) = P a w
Next P (panics _) = Unit {0}
Next P faults = Unit {0}
Next P out_of_fuel = Unit {0}

module _ (D : Drive) where
  open D use {Driver}

  -- the rings, by number
  abbrev pub Rings : Type 0
  Rings = ℕ → Ring Driver

  unfoldable pub perform : Action → Rings → Cmd Rings
  perform (polls i ctx op) rings = do
    (ring, _) ← poll D ctx 1 (single_sqe D op) (rings i)
    pure (update rings i ring)
  perform (cancels i callback) rings = do
    ring ← cancel (rings i) callback
    pure (update rings i ring)
  perform (completes result a) rings = Completion.complete result a >> pure rings

  unfoldable pub run : List Action → Rings → Cmd Rings
  unfolding perform
  run [] rings = pure rings
  run (x ∷ xs) rings = do rings' ← perform x rings; run xs rings'

  -- Each action is permitted when its turn comes.
  abbrev pub Schedule : List Action → Rings → World → Type 0
  Schedule [] rings w = Unit {0}
  Schedule (x ∷ xs) rings w = Permitted x w × Next (Schedule xs) (perform x rings w)
