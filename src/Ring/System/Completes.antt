-- ===== src/Ring/System/Completes.antt =====
-- What the kernel's completion of an event that it owes does.
use ringbahn.Base.{
  ℕ, ◌≡◌, refl, ◌≢◌, ◌⊎◌, inl, inr, Option, some, ◌∷◌, ◌==◌, true, arith, Bool-cases,
}
use ringbahn.Cancellation.{Cancellation}
use ringbahn.Machine.{World}
use ringbahn.Machine.Returns.{Returns, returned}
use ringbahn.Completion
use ringbahn.Completion.Types as Kernel
use ringbahn.Completion.Types.{IoResult, Waker}
use ringbahn.Completion.Branches.{moved, erased, cleaned, complete-submitted, complete-cancelled}
use ringbahn.Ring.System.{Owed, awaited, abandoned}

-- The entry is that of a cancellation, or the result is kept and the task woken, or the callback is run
-- and the completion goes.
pub data Completes (result : IoResult ℕ) (a : ℕ) (w : World) : World → Type 0 where
  passes : a ≡ 0 → Completes result a w w
  hands_over :
      {waker : Waker}
      → w.completions a ≡ some (Kernel.submitted waker)
      → Completes result a w
          (record (moved w a (Kernel.completed result)) { woken = waker ∷ w.woken })
  cleans_up :
      {callback : Cancellation}
      → w.completions a ≡ some (Kernel.cancelled callback)
      → Completes result a w (erased (cleaned w callback) a)

-- What is owed, as an equation.
Owed-cases :
    {o : Option Kernel.State}
    → Owed o
    → ((waker : Waker) × (o ≡ some (Kernel.submitted waker)))
      ⊎ ((callback : Cancellation) × (o ≡ some (Kernel.cancelled callback)))
Owed-cases (awaited {waker}) = inl (waker, refl)
Owed-cases (abandoned {callback}) = inr (callback, refl)

module _ (result : IoResult ℕ) (a : ℕ) (w : World) where
  complete-null :
      (a == 0) ≡ true → Returns (λ _ v. Completes result a w v) (Completion.complete result a w)
  unfolding Completion.complete
  complete-null z = rw z (returned (passes (ground arith)))

  complete-Owed :
      a ≢ 0
      → Owed (w.completions a)
      → Returns (λ _ v. Completes result a w v) (Completion.complete result a w)
  complete-Owed ne owed = elim (Owed-cases owed) [
    | inl (waker, holds) ↦
        rw (complete-submitted w a result ne waker holds) (returned (hands_over holds))
    | inr (callback, holds) ↦
        rw (complete-cancelled w a result ne callback holds) (returned (cleans_up holds))
  ]

  pub complete-Completes :
      (a ≡ 0) ⊎ Owed (w.completions a)
      → Returns (λ _ v. Completes result a w v) (Completion.complete result a w)
  complete-Completes permitted = elim (Bool-cases (a == 0)) [
    | inl null ↦ complete-null null
    | inr ne ↦
        complete-Owed (ground arith)
          (elim permitted [ inl z ↦ absurd (let f : ⊥ = ground arith in f) | inr owed ↦ owed ])
  ]
