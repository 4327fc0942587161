-- ===== src/Completion.antt =====
-- src/ring/completion.rs: an event that was submitted, shared by the program and the kernel. The
-- box `Box<Mutex<State>>` is the entry of `World.completions` at its address. Each function holds
-- the lock from its first to its last access, so that it is one step of the machine.
pub mod Types
pub mod Branches
pub mod Races
pub mod Wakeups
pub mod Ledger
use ringbahn.Base.{ℕ, none, some, ◌==◌, if◌then◌else◌}
use ringbahn.Cancellation.{Cancellation}
use ringbahn.Machine.{
  World, unreachable, Cmd, returns, faults, pure, panic, ◌>>=◌, ◌>>◌, update, drop_callback, wake,
}
use Types.{Waker, will_wake, IoResult, State, submitted, completed, cancelled, empty}

pub record Completion : Type 0 where
  pub state : ℕ

-- `Box::new`, where the allocator answers with the address `fresh`
unfoldable pub allocate : (fresh : ℕ) → State → Cmd Completion
allocate fresh s w =
    returns (record { state = fresh })
      (record w { completions = update w.completions fresh (some s) })

-- `state.lock()`, and a read through the guard
unfoldable pub load : ℕ → Cmd State
load a w = elim (w.completions a) [ none ↦ faults | some s ↦ returns s w ]

-- `*state = s`
unfoldable pub store : ℕ → State → Cmd (Unit {0})
store a s w = elim (w.completions a) [
  | none ↦ faults
  | some _ ↦ returns tt (record w { completions = update w.completions a (some s) })
]

-- `drop(ManuallyDrop::into_inner(self.state))`
unfoldable pub release : ℕ → Cmd (Unit {0})
release a w = elim (w.completions a) [
  | none ↦ faults
  | some _ ↦ returns tt (record w { completions = update w.completions a none })
]

unfoldable pub new : (fresh : ℕ) → Waker → Cmd Completion
unfolding allocate
new fresh waker = allocate fresh (submitted waker)

unfoldable pub addr : Completion → ℕ
addr c = c.state

-- The two outcomes of `check`: the result, or the completion itself to be checked again.
pub data Checked : Type 0 where
  done : IoResult ℕ → Checked
  waiting : Completion → Checked

-- the `match` of `check`, on the state that `mem::replace` took out
unfoldable pub check_state : Completion → Waker → State → Cmd Checked
unfolding store release will_wake
check_state c waker (submitted old_waker) =
    store c.state (submitted (if will_wake old_waker waker then old_waker else waker))
    >> pure (waiting c)
check_state c waker (completed result) = release c.state >> pure (done result)
check_state c waker (cancelled _) = panic unreachable
check_state c waker empty = panic unreachable

unfoldable pub check : Completion → Waker → Cmd Checked
unfolding load store check_state
check c waker = do s ← load c.state; store c.state empty; check_state c waker s

-- the `match` of `cancel`
unfoldable pub cancel_state : Completion → Cancellation → State → Cmd (Unit {0})
unfolding store release drop_callback
cancel_state c callback (submitted _) = store c.state (cancelled callback)
cancel_state c callback (completed _) = drop_callback callback >> release c.state
cancel_state c callback (cancelled _) = panic unreachable
cancel_state c callback empty = panic unreachable

unfoldable pub cancel : Completion → Cancellation → Cmd (Unit {0})
unfolding load cancel_state
cancel c callback = do s ← load c.state; cancel_state c callback s

-- the `match` of `Completion::complete`, on the state that `mem::replace` took out
unfoldable pub complete_state : Completion → IoResult ℕ → State → Cmd (Unit {0})
unfolding store release drop_callback wake
complete_state c result (submitted waker) = store c.state (completed result) >> wake waker
complete_state c result (cancelled callback) = drop_callback callback >> release c.state
complete_state c result (completed _) = panic unreachable
complete_state c result empty = panic unreachable

unfoldable pub complete_completion : Completion → IoResult ℕ → Cmd (Unit {0})
unfolding load store complete_state
complete_completion c result = do s ← load c.state; store c.state empty; complete_state c result s

-- The function `complete`, for an entry of the completion queue with this result and `user_data`.
-- A null `user_data`, which the entries of cancellations carry, stands for no completion.
unfoldable pub complete : IoResult ℕ → (user_data : ℕ) → Cmd (Unit {0})
unfolding complete_completion
complete result user_data =
    if user_data == 0 then pure tt else complete_completion (record { state = user_data }) result
