-- ===== src/Completion/Wakeups.antt =====
-- The task that checked a completion last is the one that is woken.
use ringbahn.Base.{
  ℕ, ◌≡◌, refl, ◌≢◌, true, some, inl, inr, ◌∷◌, arith, ap, ◌∙◌, Bool-cases, if◌then◌else◌,
}
use ringbahn.Machine.{World, returns, ◌>>◌, update-update, update_self}
use ringbahn.Completion.Types.{Waker, will_wake, IoResult, submitted, completed}
use ringbahn.Completion.{Completion, addr, check, complete}
use ringbahn.Completion.Branches.{moved, check-submitted, complete-submitted}

will_wake_refl : (waker : Waker) → will_wake waker waker ≡ true
unfolding will_wake
will_wake_refl waker = ground arith

-- The waker that a check keeps wakes the task of the check.
will_wake-kept :
    (old waker : Waker) → will_wake (if will_wake old waker then old else waker) waker ≡ true
will_wake-kept old waker = elim (Bool-cases (will_wake old waker)) [
  | inl same ↦ rw (same, same) refl
  | inr other ↦ rw other (will_wake_refl waker)
]

module _ (w : World) (c : Completion) (old : Waker) (result : IoResult ℕ)
    (holds : w.completions c.state ≡ some (submitted old)) (ne : c.state ≢ 0) where
  -- A task checks a completion whose event the kernel has not completed, whichever task waited
  -- before. When the kernel then completes the event, a waker that wakes this task is woken, and no
  -- other, and the result is kept for the next check.
  pub check-complete :
      (waker : Waker)
      → (woken : Waker) × (will_wake woken waker ≡ true)
        × ((check c waker >> complete result (addr c)) w
            ≡ returns tt (record (moved w c.state (completed result)) { woken = woken ∷ w.woken }))
  unfolding addr
  check-complete waker =
      let kept = if will_wake old waker then old else waker in
      (
        kept,
        will_wake-kept old waker,
        rw (check-submitted w c old holds waker) (
            complete-submitted (moved w c.state (submitted kept)) c.state result ne kept
              (update_self w.completions c.state _)
            ∙ ap (λ f. returns tt (record w { completions = f; woken = kept ∷ w.woken }))
                (update-update w.completions c.state _ _)),
      )
