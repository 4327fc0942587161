-- ===== src/Ring/System/Boxes/Steps.antt =====
-- What polls, cancellations and the kernel do to the custody of a box.
use ringbahn.Base.{ℕ, ◌≡◌, sym, ◌≢◌, inl, inr, Option, none, List, subst}
use ringbahn.Cancellation
use ringbahn.Cancellation.{Allocation, Cancellation}
use ringbahn.Operation.{Operation, BoxedSlice}
use ringbahn.Machine.{World, Poll}
use ringbahn.Completion.{Completion}
use ringbahn.Completion.Types.{IoResult}
use ringbahn.Drive.Conforms.{Evolve}
use ringbahn.Event.Memory.{All, All-map}
use ringbahn.Cancellation.Frees.{Frees}
use ringbahn.Ring.{State}
use ringbahn.Ring.Spec.{Idle, Busy, Polled}
use ringbahn.Ring.Busy.{Owns-boxes}
use ringbahn.Ring.Cancels.{Cancels, Cancels-Idle, Idle-Owns, not-Busy_of_Idle}
use ringbahn.Ring.System.Sound.{Busy-Live, Owns-Evolve, known_before}
use ringbahn.Ring.System.Runs.{Polled-Replaces, Cancels-Replaces}
use ringbahn.Ring.System.Entries.{
  Entered-same, some_of_Live, cancelled_before, Polled-Entered, Polled-Busy, Polled-lets_go,
  Cancels-queue, Cancels-callback,
}
use ringbahn.Ring.System.Boxes.{touched, InBox, Keeps, Custody, Custody-Moves}

module _ {s : State} {contents : Option BoxedSlice} {w : World}
    (custody : Custody s contents w) where
  -- The kernel may complete events at any time.
  pub Custody-Evolve :
      {v : World}
      → ((a : ℕ) → Evolve (w.completions a) (v.completions a))
      → v.queue ≡ w.queue
      → Custody s contents v
  Custody-Evolve {v} evolves queue = record {
    owns = Owns-Evolve s w v custody.owns λ c b. evolves c.state;
    keeps = λ c b. rw queue (custody.keeps c b);
    leaves = λ a callback e. rw queue (custody.leaves a callback (cancelled_before (evolves a) e));
    known = λ a k e. known_before k (evolves a) (custody.known a) e;
  }

  -- The ring is polled for an operation on a box, which is that of the buffer, if there was one.
  pub Custody-Polled :
      {contents' : Option BoxedSlice} {op : Operation} {fresh : ℕ} {t : State}
      {p : Poll (IoResult ℕ)} {v : World}
      → Polled op fresh w s t p v
      → fresh ≢ 0
      → w.completions fresh ≡ none
      → ((x : ℕ) → InBox contents x → InBox contents' x)
      → All (InBox contents') (touched op)
      → Custody t contents' v
  Custody-Polled {contents'} {op} {fresh} {t} {v} polled nonnull free widens all =
      Custody-Moves custody (record {
        replaces = Polled-Replaces polled free;
        enters = Polled-Entered op fresh w nonnull free polled;
        keeps = kept;
        leaves = λ c callback b holds.
            absurd (Polled-lets_go op fresh w nonnull free polled c callback b holds);
      })
    where
      kept : (c : Completion) → Busy c t → Keeps contents' c.state v
      kept c b = elim (Polled-Busy op fresh w nonnull free polled c b) [
        | inl before ↦
            let (op', entered, all') = custody.keeps c before in
            let (k, holds) = some_of_Live (Busy-Live w before custody.owns) in
            (
              op',
              Polled-Entered op fresh w nonnull free polled op' c.state k holds entered,
              All-map (touched op') widens all',
            )
        | inr made ↦ (op, made, all)
      ]

  -- The ring is cancelled with a callback that gives the box back.
  pub Custody-Cancels :
      {callback : Cancellation} {t : State} {v : World}
      → Cancels callback w s t v
      → ((inside : ℕ → List Allocation) (x : ℕ)
          → InBox contents x
          → Frees (Cancellation.drop inside callback) x)
      → (contents' : Option BoxedSlice) → Custody t contents' v
  Custody-Cancels {v} outcome frees contents' = Custody-Moves custody (record {
    replaces = Cancels-Replaces outcome;
    enters = λ op a k holds before. Entered-same op a w v (Cancels-queue outcome) before;
    keeps = λ c b. absurd (not-Busy_of_Idle (Cancels-Idle outcome) b);
    leaves = λ c callback' b holds.
        let (op, entered, all) = custody.keeps c b in
        (
          op,
          Entered-same op c.state w v (Cancels-queue outcome) entered,
          λ inside.
              subst (λ x. All (Frees (Cancellation.drop inside x)) (touched op))
                (sym (Cancels-callback outcome c callback' b holds))
                (All-map (touched op) (frees inside) all),
        );
  })

-- What is in the boxes does not matter.
pub Custody-boxes :
    {s : State} {contents : Option BoxedSlice} {w v : World}
    → v ≡ record w { boxes = v.boxes }
    → Custody s contents w
    → Custody s contents v
Custody-boxes {s} {contents} {w} {v} e custody = subst (Custody s contents) (sym e) (record {
  owns = Owns-boxes s w v.boxes custody.owns;
  keeps = custody.keeps;
  leaves = custody.leaves;
  known = custody.known;
})

-- A ring without an event needs no box.
pub Custody-Idle :
    {s : State} {contents : Option BoxedSlice} {w v : World}
    → Idle s
    → v ≡ record w { closed = v.closed }
    → Custody s contents w
    → Custody s none v
Custody-Idle {s} {contents} {w} {v} idle e custody = subst (Custody s none) (sym e) (record {
  owns = Idle-Owns _ idle;
  keeps = λ c b. absurd (not-Busy_of_Idle idle b);
  leaves = custody.leaves;
  known = custody.known;
})
