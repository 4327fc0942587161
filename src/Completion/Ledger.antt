-- ===== src/Completion/Ledger.antt =====
-- Every interleaving of the program and the kernel: who still refers to which completion.
pub mod Steps
pub mod Runs
use ringbahn.Base.{
  ℕ, ◌≡◌, refl, ◌≢◌, ◌⊎◌, inl, inr, Bool, true, false, Option, none, some, List, [], ◌∷◌, arith,
  ◌==◌, if◌then◌else◌, ap, subst, Bool-cases,
}
use ringbahn.Cancellation.{Cancellation}
use ringbahn.Machine.{World, Run, returns, panics, faults, out_of_fuel, update}
use ringbahn.Completion.Types.{
  Waker, will_wake, IoResult, State, submitted, cancelled, completed, empty,
}
use ringbahn.Completion.{Completion, allocate, new, Checked, done, waiting, check, cancel, complete}
use ringbahn.Completion.Branches.{
  erased, moved, cleaned, check-submitted, check-completed, cancel-submitted, cancel-completed,
  complete-submitted, complete-cancelled,
}

-- The memory, and at which addresses the program holds a `Completion` and the kernel owes an entry
-- of the completion queue.
pub record Ledger : Type 0 where
  pub world : World
  pub held : ℕ → Bool
  pub inflight : ℕ → Bool

-- What a completion's box says, against who refers to it: the program and the kernel.
pub data Agrees : Option State → Bool → Bool → Type 0 where
  unused : Agrees none false false
  awaited : {waker : Waker} → Agrees (some (submitted waker)) true true
  unread : {result : IoResult ℕ} → Agrees (some (completed result)) true false
  disowned : {callback : Cancellation} → Agrees (some (cancelled callback)) false true

abbrev pub IsConsistent : Ledger → Type 0
IsConsistent l =
    (l.world.completions 0 ≡ none)
    × ((a : ℕ) → Agrees (l.world.completions a) (l.held a) (l.inflight a))

-- What the program and the kernel may do: submit an event, check one, cancel one, complete one.
pub data Event : Type 0 where
  submits : (fresh : ℕ) → Waker → Event
  checks : ℕ → Waker → Event
  cancels : ℕ → Cancellation → Event
  completes : ℕ → IoResult ℕ → Event

-- The allocator hands out unused addresses, the program acts on a completion it holds, and the
-- kernel completes what it was given, once.
abbrev pub Permits : Ledger → Event → Type 0
Permits l (submits fresh _) = (fresh ≢ 0) × (l.world.completions fresh ≡ none)
Permits l (checks a _) = l.held a ≡ true
Permits l (cancels a _) = l.held a ≡ true
Permits l (completes a _) = l.inflight a ≡ true

unfoldable pub completion : ℕ → Completion
completion a = record { state = a }

-- A run's effect on the ledger; `none` where it panics or goes through a dangling pointer.
abbrev pub after : {A : Type 0} → Run A → (A → World → Ledger) → Option Ledger
after (returns a w) k = some (k a w)
after (panics _) k = none
after faults k = none
after out_of_fuel k = none

-- A check that hands the result over consumes the completion.
abbrev pub still_held : Checked → Bool
still_held (done _) = false
still_held (waiting _) = true

unfoldable pub step : Event → Ledger → Option Ledger
unfolding completion
step (submits fresh waker) l = after (new fresh waker l.world) λ c w. record {
  world = w;
  held = update l.held fresh true;
  inflight = update l.inflight fresh true;
}
step (checks a waker) l =
    after (check (completion a) waker l.world)
      λ r w. record l { world = w; held = update l.held a (still_held r) }
step (cancels a callback) l =
    after (cancel (completion a) callback l.world)
      λ _ w. record l { world = w; held = update l.held a false }
step (completes a result) l =
    after (complete result a l.world)
      λ _ w. record l { world = w; inflight = update l.inflight a false }

abbrev pub Sound : Option Ledger → Type 0
Sound none = ⊥
Sound (some l) = IsConsistent l
