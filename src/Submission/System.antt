-- ===== src/Submission/System.antt =====
-- Several submissions over one memory: what their tasks and the kernel may do, in any order.
pub mod Custody
pub mod Steps
pub mod Runs
pub mod Settles
use ringbahn.Base.{ℕ, ◌≡◌, ◌≢◌, ◌⊎◌, Option, none, some, List, [], ◌∷◌, ◌==◌, if◌then◌else◌}
use ringbahn.Operation.{Sqe}
use ringbahn.Machine.{World, Cmd, pure, ◌>>=◌, ◌>>◌, update}
use ringbahn.Completion
use ringbahn.Completion.Types.{IoResult}
use ringbahn.Drive.{Context, Drive}
use ringbahn.Event.{Event}
use ringbahn.Ring.System.{Owed, Next}
use ringbahn.Submission
use ringbahn.Submission.{Submission}

module _ (D : Drive) where
  open D use {Driver}

  -- A submission takes a slot, is polled, is given another event or is dropped, or the kernel completes
  -- an event.
  pub data Action : Type 0 where
    submits : (slot : ℕ) → Event → Driver → Action
    polls : (slot : ℕ) → Context → Action
    replaces : (slot : ℕ) → Event → Action
    drops : (slot : ℕ) → Action
    completes : IoResult ℕ → (user_data : ℕ) → Action

  -- the submissions, by slot
  abbrev pub Submissions : Type 0
  Submissions = ℕ → Submission Driver

  -- A slot is taken when there is no event in it; a future is polled until it has handed its event over;
  -- the allocator hands out an address without a completion, which is not null; the kernel completes
  -- what it owes, or the entry of a cancellation, whose address is null.
  abbrev pub Permitted : Action → Submissions → World → Type 0
  Permitted (submits i event driver) subs w = (subs i).event ≡ none
  Permitted (polls i ctx) subs w =
      ((event : Event) × ((subs i).event ≡ some event))
      × (ctx.fresh ≢ 0)
      × (w.completions ctx.fresh ≡ none)
  Permitted (replaces i event) subs w = Unit {0}
  Permitted (drops i) subs w = Unit {0}
  Permitted (completes result a) subs w = (a ≡ 0) ⊎ Owed (w.completions a)

  -- What is left of a submission that has been dropped is its ring; the result that a poll hands over is
  -- the task's.
  unfoldable pub perform : Action → Submissions → Cmd Submissions
  perform (submits i event driver) subs = pure (update subs i (Submission.new event driver))
  perform (polls i ctx) subs = do (s, _) ← Submission.poll D ctx (subs i); pure (update subs i s)
  perform (replaces i event) subs = do
    s ← Submission.replace_event event (subs i)
    pure (update subs i s)
  perform (drops i) subs = do
    ring ← Submission.drop (subs i)
    pure (update subs i (record { ring = ring; event = none }))
  perform (completes result a) subs = Completion.complete result a >> pure subs

  unfoldable pub run : List Action → Submissions → Cmd Submissions
  unfolding perform
  run [] subs = pure subs
  run (x ∷ xs) subs = do subs' ← perform x subs; run xs subs'

  -- Each action is permitted when its turn comes.
  abbrev pub Schedule : List Action → Submissions → World → Type 0
  Schedule [] subs w = Unit {0}
  Schedule (x ∷ xs) subs w = Permitted x subs w × Next (Schedule xs) (perform x subs w)
