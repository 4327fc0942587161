-- ===== src/Completion/Races.antt =====
-- The race between a cancellation and the kernel's completion of the same event.
use ringbahn.Base.{ℕ, ◌≡◌, ◌≢◌, some, ◌∷◌, ap, ◌∙◌}
use ringbahn.Cancellation.{Cancellation}
use ringbahn.Machine.{World, returns, ◌>>◌, update-update, update_self}
use ringbahn.Completion.Types.{Waker, IoResult, submitted, cancelled, completed}
use ringbahn.Completion.{Completion, addr, cancel, complete}
use ringbahn.Completion.Branches.{
  erased, moved, cleaned, cancel-submitted, cancel-completed, complete-submitted,
  complete-cancelled,
}

-- The kernel's completion of an event that has been cancelled.
pub complete-moved :
    (w : World) (a : ℕ) (callback : Cancellation) (result : IoResult ℕ)
    → a ≢ 0
    → complete result a (moved w a (cancelled callback))
      ≡ returns tt (erased (cleaned w callback) a)
complete-moved w a callback result ne =
    complete-cancelled (moved w a (cancelled callback)) a result ne callback
      (update_self w.completions a _)
    ∙ ap (λ f. returns tt (record (cleaned w callback) { completions = f }))
        (update-update w.completions a _ _)

module _ (w : World) (c : Completion) (waker : Waker) (callback : Cancellation)
    (result : IoResult ℕ) (holds : w.completions c.state ≡ some (submitted waker))
    (ne : c.state ≢ 0) where
  cancel-complete :
      (cancel c callback >> complete result (addr c)) w
      ≡ returns tt (erased (cleaned w callback) c.state)
  unfolding addr
  cancel-complete =
      rw (cancel-submitted w c waker holds callback) (complete-moved w c.state callback result ne)

  complete-cancel :
      (complete result (addr c) >> cancel c callback) w
      ≡ returns tt (record (erased (cleaned w callback) c.state) { woken = waker ∷ w.woken })
  unfolding addr
  complete-cancel = rw (complete-submitted w c.state result ne waker holds) (
      cancel-completed (record (moved w c.state (completed result)) { woken = waker ∷ w.woken }) c
        result (update_self w.completions c.state _) callback
      ∙ ap
          (λ f.
            returns tt (record (cleaned w callback) { completions = f; woken = waker ∷ w.woken }))
          (update-update w.completions c.state _ _))

  -- An event is cancelled by the program and completed by the kernel, in either order. Both orders
  -- return, and in both the callback has run once and the completion's box is given back. They
  -- differ in the task: it is woken if the completion comes first, and not otherwise.
  pub cancel-complete_race :
      ((cancel c callback >> complete result (addr c)) w
        ≡ returns tt (erased (cleaned w callback) c.state))
      × ((complete result (addr c) >> cancel c callback) w
          ≡ returns tt (record (erased (cleaned w callback) c.state) { woken = waker ∷ w.woken }))
  cancel-complete_race = (cancel-complete, complete-cancel)
