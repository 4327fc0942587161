-- ===== src/Tests/Small.antt =====
-- A submitted event whose result is no more than a buffer has room for.
use ringbahn.Base.{ℕ, ◌≤◌, ◌≡◌, Option, some, subst}
use ringbahn.Completion.{Completion}
use ringbahn.Completion.Types as Kernel
use ringbahn.Completion.Types.{ok}
use ringbahn.Ring.{submitted}
use ringbahn.Ring.Spec.{Busy, is_submitted}
use ringbahn.Buf.{capacity}

-- A result that is not more than there is room for.
abbrev pub IsSmall : Kernel.State → Type 0
IsSmall (Kernel.completed (ok n)) = n ≤ capacity
IsSmall _ = Unit {0}

pub submitted_small :
    (a : ℕ) (completions : ℕ → Option Kernel.State) (k : Kernel.State)
    → completions a ≡ some k
    → IsSmall k
    → (c : Completion) (n : ℕ) → Busy c (submitted (record { state = a }))
    → completions c.state ≡ some (Kernel.completed (ok n))
    → n ≤ capacity
submitted_small a completions k e small c n is_submitted holds =
    let same : k ≡ Kernel.completed (ok n) = cc in subst IsSmall same small
