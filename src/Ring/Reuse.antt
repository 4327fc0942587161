-- ===== src/Ring/Reuse.antt =====
-- A ring keeps the address of a completion that is gone.
use ringbahn.Base.{ℕ, ◌≡◌, refl, ◌⊎◌, inl, inr, List, [], ◌∷◌, ◌++◌, none, some, ap, ◌∙◌}
use ringbahn.Cancellation.{Cancellation}
use ringbahn.Operation.{Operation, Sqe, sqe}
use ringbahn.Machine.{World, Cmd, ◌>>=◌, Poll, push_sqe, update-update, update_self}
use ringbahn.Machine.Returns.{Returns, Returns-map}
use ringbahn.Completion
use ringbahn.Completion.{Completion, allocate}
use ringbahn.Completion.Types as Kernel
use ringbahn.Completion.Types.{IoResult}
use ringbahn.Completion.Branches.{moved, cleaned, cancel-completed}
use ringbahn.Drive.{Context, Drive, new_completion, single_sqe}
use ringbahn.Drive.Conforms.{Conforms}
use ringbahn.Ring.{State, cancelled, Ring, cancel, poll}
use ringbahn.Ring.Spec.{
  Busy, is_prepared, is_submitted, afresh, over, Transition, stalls, starts, waits, finishes,
  event_sqe, cancel_sqe,
}
use ringbahn.Ring.Busy.{ring_of}
use ringbahn.Ring.Refines.{poll_one-Polled}

-- The entries that a ring adds whose last event was cancelled.
cancelled_entries :
    {op : Operation} {fresh prev : ℕ} {w v : World} {s t : State} {p : Poll (IoResult ℕ)}
    {entries : List Sqe}
    → Transition op fresh w s t p entries v
    → s ≡ cancelled prev
    → (entries ≡ []) ⊎ (entries ≡ event_sqe op fresh ∷ cancel_sqe prev ∷ [])
cancelled_entries (stalls idle) e = inl refl
cancelled_entries (starts afresh at busy) e = cc
cancelled_entries {op} {fresh} (starts over at busy) e =
    inr (ap (λ a. event_sqe op fresh ∷ cancel_sqe a ∷ []) (cc))
cancelled_entries (waits holds _) e = inl refl
cancelled_entries (finishes busy holds gone) e = inl refl

queue_after :
    {op : Operation} {fresh prev : ℕ} {entries before after : List Sqe}
    → (entries ≡ []) ⊎ (entries ≡ event_sqe op fresh ∷ cancel_sqe prev ∷ [])
    → after ≡ entries ++ before
    → (after ≡ before) ⊎ (after ≡ event_sqe op fresh ∷ cancel_sqe prev ∷ before)
queue_after {before} (inl e) q = inl (q ∙ ap (λ l. l ++ before) e)
queue_after {before} (inr e) q = inr (q ∙ ap (λ l. l ++ before) e)

-- The memory in which the allocator has used the address of the completion again, for the event of
-- another ring, which is with the kernel.
abbrev pub reused : Operation → World → Completion → Cancellation → Context → World
reused other w c callback ctx =
    record (moved (cleaned w callback) c.state (Kernel.submitted ctx.waker)) {
      queue = event_sqe other c.state ∷ w.queue;
    }

module _ (D : Drive) (conforms : Conforms D) (op other : Operation) (w : World) (c : Completion)
    (result : IoResult ℕ) (callback : Cancellation) (ctx ctx' : Context) where
  abbrev after : World
  after = reused other w c callback ctx'

  cancel-new :
      {s : State} {B : Type 0} (d : D.Driver) (next : Ring D.Driver → Cmd B)
      → Busy c s
      → w.completions c.state ≡ some (Kernel.completed result)
      → (cancel (ring_of s d) callback >>= λ r.
            new_completion (sqe other) (record ctx' { fresh = c.state }) >>= λ _. next r)
          w
        ≡ next (ring_of (cancelled c.state) d) after
  unfolding cancel new_completion Completion.new Completion.addr push_sqe allocate
  cancel-new d next is_prepared holds =
      rw
        (
          cancel-completed w c result holds callback,
          update-update w.completions c.state none (some (Kernel.submitted ctx'.waker)),
        )
        refl
  cancel-new d next is_submitted holds =
      rw
        (
          cancel-completed w c result holds callback,
          update-update w.completions c.state none (some (Kernel.submitted ctx'.waker)),
        )
        refl

  -- A ring is cancelled whose event has completed already, so that the completion is freed; the ring
  -- keeps its address all the same. The allocator then gives that address to a completion of another
  -- ring, whose event is submitted. The next poll of the first ring, on a conforming driver, either
  -- adds nothing to the queue, or asks the kernel to cancel the event of the other ring.
  pub cancel-cancel_sqe :
      (ring : Ring D.Driver)
      → Busy c ring.state
      → w.completions c.state ≡ some (Kernel.completed result)
      → (after.completions c.state ≡ some (Kernel.submitted ctx'.waker))
        × Returns
            (λ (ring', p) v.
              (v.queue ≡ after.queue)
              ⊎ (v.queue ≡ event_sqe op ctx.fresh ∷ cancel_sqe c.state ∷ after.queue))
            ((cancel ring callback >>= λ r.
                new_completion (sqe other) (record ctx' { fresh = c.state }) >>= λ _.
                poll D ctx 1 (single_sqe D op) r)
              w)
  cancel-cancel_sqe ring busy holds = (
    update_self w.completions c.state _,
    rw (cancel-new ring.driver (poll D ctx 1 (single_sqe D op)) busy holds) (
        Returns-map
          (poll_one-Polled D conforms ctx op (ring_of (cancelled c.state) ring.driver) after tt)
          λ (ring', p) v polled.
            queue_after (cancelled_entries polled.transition refl) polled.queued),
  )
