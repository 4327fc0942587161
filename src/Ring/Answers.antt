-- ===== src/Ring/Answers.antt =====
-- What the answer of a poll says of the ring.
use ringbahn.Base.{ℕ, ◌≡◌, refl, subst, List, some}
use ringbahn.Operation.{Operation, Sqe}
use ringbahn.Machine.{World, Poll, pending, ready}
use ringbahn.Completion.{Completion}
use ringbahn.Completion.Types as Kernel
use ringbahn.Completion.Types.{IoResult}
use ringbahn.Ring.{State, inert}
use ringbahn.Ring.Spec.{Idle, Busy, Transition, stalls, starts, waits, finishes}
use ringbahn.Ring.Cancels.{not-Busy_of_Idle}

-- A poll of a ring with no event under way is never ready.
pub Idle-pending :
    {op : Operation} {fresh : ℕ} {w v : World} {s t : State} {p : Poll (IoResult ℕ)}
    {entries : List Sqe}
    → Transition op fresh w s t p entries v
    → Idle s
    → p ≡ pending
Idle-pending (stalls _) idle = refl
Idle-pending (starts _ _ _) idle = refl
Idle-pending (waits _ _) idle = refl
Idle-pending (finishes busy _ _) idle = absurd (not-Busy_of_Idle idle busy)

-- After a poll that is ready the ring is inert, and the result is that of its completion.
pub ready-inert :
    {op : Operation} {fresh : ℕ} {w v : World} {s t : State} {p : Poll (IoResult ℕ)}
    {entries : List Sqe} {r : IoResult ℕ}
    → Transition op fresh w s t p entries v
    → p ≡ ready r
    → (t ≡ inert)
      × ((c : Completion) × Busy c s × (w.completions c.state ≡ some (Kernel.completed r)))
ready-inert (stalls _) e = cc
ready-inert (starts _ _ _) e = cc
ready-inert (waits _ _) e = cc
ready-inert {w} (finishes {c} {result} busy holds _) e =
    (refl, (c, busy, subst (λ x. w.completions c.state ≡ some (Kernel.completed x)) (cc) holds))
