-- ===== src/Submission/System/Steps.antt =====
-- What each call on a submission does to the custody of the events.
use ringbahn.Base.{ℕ, ◌≡◌, refl, ◌≢◌, inl, inr, Option, none, some}
use ringbahn.Machine.{World, Poll}
use ringbahn.Completion.{Completion}
use ringbahn.Completion.Types as Kernel
use ringbahn.Completion.Types.{IoResult}
use ringbahn.Event
use ringbahn.Event.{Event, operation}
use ringbahn.Drive.Conforms.{same}
use ringbahn.Ring.{State, Ring}
use ringbahn.Ring.Spec.{Idle, is_inert, Busy, Polled}
use ringbahn.Ring.Answers.{ready-inert}
use ringbahn.Ring.Cancels.{Cancels, Cancels-Idle, Idle-Owns, not-Busy_of_Idle}
use ringbahn.Ring.System.Runs.{Polled-Replaces, Cancels-Replaces}
use ringbahn.Ring.System.Entries.{
  Entered, Entered-same, Polled-Entered, Polled-Busy, Polled-lets_go, Cancels-queue,
  Cancels-callback,
}
use ringbahn.Submission.{Submission}
use ringbahn.Submission.Contract.{Gives, still_waits, hands_over}
use ringbahn.Submission.System.Custody.{Moves}

module _ (e : Event) (fresh : ℕ) (w : World) (nonnull : fresh ≢ 0)
    (free : w.completions fresh ≡ none) where
  -- what the owner knows of the ring's event before the poll
  abbrev Known : State → Type 0
  Known s =
      (c : Completion)
      → Busy c s
      → Entered (operation e) c.state w × ((k : Kernel.State) × (w.completions c.state ≡ some k))

  Polled-keeps :
      {s t : State} {p : Poll (IoResult ℕ)} {v : World}
      → Polled (operation e) fresh w s t p v
      → Known s
      → (c : Completion) → Busy c t
      → Entered (operation e) c.state v
  Polled-keeps polled known c b = elim (Polled-Busy (operation e) fresh w nonnull free polled c b) [
    | inl before ↦
        let (entered, (k, holds)) = known c before in
        Polled-Entered (operation e) fresh w nonnull free polled (operation e) c.state k holds
          entered
    | inr made ↦ made
  ]

  pub Gives-Moves :
      {Driver : Type 0} {s t : Submission Driver} {p : Poll (Event × IoResult ℕ)} {v : World}
      → Gives e fresh w s.ring.state t p v
      → Known s.ring.state
      → Moves s t w v
  Gives-Moves (still_waits stays polled) known = record {
    replaces = Polled-Replaces polled free;
    enters = Polled-Entered (operation e) fresh w nonnull free polled;
    idle = λ gone. absurd (let f : ⊥ = cc in f);
    keeps = λ c b. (e, stays, Polled-keeps polled known c b);
    leaves = λ c callback b holds.
        absurd (Polled-lets_go (operation e) fresh w nonnull free polled c callback b holds);
  }
  Gives-Moves {t} (hands_over gone polled) known =
      let (rests, _) = ready-inert polled.transition refl in
      let idle : Idle t.ring.state = rw rests is_inert in
      record {
        replaces = Polled-Replaces polled free;
        enters = Polled-Entered (operation e) fresh w nonnull free polled;
        idle = λ _. idle;
        keeps = λ c b. absurd (not-Busy_of_Idle idle b);
        leaves = λ c callback b holds.
            absurd (Polled-lets_go (operation e) fresh w nonnull free polled c callback b holds);
      }

module _ (e : Event) (w : World) where
  -- The ring of a submission is cancelled with the callback of its event, and another event, or none,
  -- takes the place of that one.
  pub Cancels-Moves :
      {Driver : Type 0} {s : Submission Driver} {ring : Ring Driver} {v : World}
      → (next : Option Event) → Cancels (Event.cancel e) w s.ring.state ring.state v
      → ((c : Completion) → Busy c s.ring.state → Entered (operation e) c.state w)
      → Moves s (record { ring = ring; event = next }) w v
  Cancels-Moves {v} next outcome entered = record {
    replaces = Cancels-Replaces outcome;
    enters = λ op a k holds before. Entered-same op a w v (Cancels-queue outcome) before;
    idle = λ _. Cancels-Idle outcome;
    keeps = λ c b. absurd (not-Busy_of_Idle (Cancels-Idle outcome) b);
    leaves = λ c callback b holds. (
      e,
      Cancels-callback outcome c callback b holds,
      Entered-same (operation e) c.state w v (Cancels-queue outcome) (entered c b),
    );
  }

-- A submission without an event, whose ring is idle, gives its place to another whose ring is.
pub Idle-Moves :
    {Driver : Type 0} {s t : Submission Driver} (w : World)
    → Idle s.ring.state
    → Idle t.ring.state
    → Moves s t w w
Idle-Moves {s} {t} w before after = record {
  replaces = record {
    owns = Idle-Owns w after;
    elsewhere = λ a _ _. same;
    takes = λ c b. absurd (not-Busy_of_Idle after b);
    leaves = λ c k b. absurd (not-Busy_of_Idle before b);
  };
  enters = λ op a k holds entered. entered;
  idle = λ _. after;
  keeps = λ c b. absurd (not-Busy_of_Idle after b);
  leaves = λ c callback b. absurd (not-Busy_of_Idle before b);
}
