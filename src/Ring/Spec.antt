-- ===== src/Ring/Spec.antt =====
-- The contract of a ring, without its driver and its memory: what a poll may do to its state, with
-- what answer, and which entries it puts on the submission queue.
use ringbahn.Base.{ℕ, ◌≡◌, ◌≢◌, true, Option, none, some, List, [], ◌∷◌, ◌++◌}
use ringbahn.Operation.{Operation, Sqe, sqe}
use ringbahn.Machine.{World, Poll, pending, ready}
use ringbahn.Completion.{Completion}
use ringbahn.Completion.Types as Kernel
use ringbahn.Completion.Types.{Waker, IoResult}
use ringbahn.Drive.Conforms.{Evolve}
use ringbahn.Drive.Spares.{Spares}
use ringbahn.Ring.{State, inert, prepared, submitted, cancelled, lost}

-- The completion that a ring holds is still submitted, or it has completed.
pub data Live : Option Kernel.State → Type 0 where
  awaited : {waker : Waker} → Live (some (Kernel.submitted waker))
  unread : {result : IoResult ℕ} → Live (some (Kernel.completed result))

-- A ring's state is sound in a memory: its completion is live, and it is not lost.
abbrev pub Owns : State → World → Type 0
Owns inert w = Unit {0}
Owns (prepared c) w = Live (w.completions c.state)
Owns (submitted c) w = Live (w.completions c.state)
Owns (cancelled _) w = Unit {0}
Owns lost w = ⊥

-- The entry of the event itself, which carries the address of its completion.
abbrev pub event_sqe : Operation → ℕ → Sqe
event_sqe op a = record (sqe op) { user_data = a }

-- The entry, linked to the event's, that cancels the event before it.
abbrev pub cancel_sqe : ℕ → Sqe
cancel_sqe prev = record (sqe (Operation.cancel prev 0)) { hard_linked = true }

-- The entries with which an event starts, newest first.
pub data Starts (op : Operation) (a : ℕ) : State → List Sqe → Type 0 where
  afresh : Starts op a inert (event_sqe op a ∷ [])
  over : {prev : ℕ} → Starts op a (cancelled prev) (event_sqe op a ∷ cancel_sqe prev ∷ [])

pub data Idle : State → Type 0 where
  is_inert : Idle inert
  is_cancelled : {prev : ℕ} → Idle (cancelled prev)

-- The completion of the event under way.
pub data Busy (c : Completion) : State → Type 0 where
  is_prepared : Busy c (prepared c)
  is_submitted : Busy c (submitted c)

-- No event of the ring has its completion at this address.
abbrev pub Apart : ℕ → State → Type 0
Apart a s = (c : Completion) → Busy c s → c.state ≢ a

-- The ring stays as it is, or the driver has submitted its prepared event.
pub data Advances (c : Completion) : State → State → Type 0 where
  stays : {s : State} → Busy c s → Advances c s s
  goes : Advances c (prepared c) (submitted c)

-- One poll for the event `op` in the memory `w`, where a completion that is made has the address
-- `fresh`: the states before and after, the answer, the entries it adds and the memory after.
pub data Transition (op : Operation) (fresh : ℕ) (w : World)
    : State → State → Poll (IoResult ℕ) → List Sqe → World → Type 0 where
  stalls : {s : State} {v : World} → Idle s → Transition op fresh w s s pending [] v
  starts :
      {s t : State} {c : Completion} {entries : List Sqe} {v : World}
      → Starts op fresh s entries
      → c.state ≡ fresh
      → Busy c t
      → Transition op fresh w s t pending entries v
  waits :
      {s t : State} {c : Completion} {waker : Waker} {v : World}
      → w.completions c.state ≡ some (Kernel.submitted waker)
      → Advances c s t
      → Transition op fresh w s t pending [] v
  finishes :
      {s : State} {c : Completion} {result : IoResult ℕ} {v : World}
      → Busy c s
      → w.completions c.state ≡ some (Kernel.completed result)
      → v.completions c.state ≡ none
      → Transition op fresh w s inert (ready result) [] v

-- A poll that went well: its transition, the entries of the queue, and a state that is sound again. The
-- completions that are not the ring's are left to the kernel, and memory is given back only by callbacks
-- that had been left with completions before.
pub record Polled (op : Operation) (fresh : ℕ) (w : World) (s t : State) (p : Poll (IoResult ℕ))
    (v : World) : Type 0 where
  pub entries : List Sqe
  pub transition : Transition op fresh w s t p entries v
  pub queued : v.queue ≡ entries ++ w.queue
  pub owns : Owns t v
  pub elsewhere : (a : ℕ) → Apart a s → Apart a t → Evolve (w.completions a) (v.completions a)
  pub spares : Spares w v
