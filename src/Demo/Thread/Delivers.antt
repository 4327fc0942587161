-- ===== src/Demo/Thread/Delivers.antt =====
-- What the thread relies on of the completion queue.
use ringbahn.Base.{ℕ, suc, ◌+◌, ◌≤◌, ◌<◌, ◌≡◌, ◌⊎◌, Option, none, some, List}
use ringbahn.Cancellation.{Allocation}
use ringbahn.Machine.{World}
use ringbahn.Machine.Returns.{Returns}
use ringbahn.Completion.Types as Kernel
use ringbahn.Completion.Types.{IoResult, ok, err, Waker}
use ringbahn.Ring.System.{Owed}
use ringbahn.Demo.Thread.{Cqe, Queue}

-- A world in which the program's memory is another, and wakers have been woken.
abbrev pub elsewhere :
    World → (ℕ → Option Kernel.State) → (ℕ → Option (List ℕ)) → List Waker → List Allocation → World
elsewhere w completions boxes woken freed = record w {
  completions = completions;
  boxes = boxes;
  woken = woken;
  freed = freed;
}

-- The kernel owes a result for the entry's event, or the entry is that of a cancellation.
abbrev pub IsOwed : Cqe → World → Type 0
IsOwed cqe w = (cqe.user_data ≡ 0) ⊎ Owed (w.completions cqe.user_data)

-- What a world says of the queue: how many entries wait, how many will come from now on, these included,
-- how many have been taken, and how many listeners have been notified.
pub record Counts : Type 0 where
  pub waiting : World → ℕ
  pub left : World → ℕ
  pub taken : World → ℕ
  pub notified : World → ℕ

module _ (Q : Queue) (C : Counts) where
  open C use {waiting, left, taken, notified}

  -- Entries may arrive, and no more than that happens to the queue.
  pub record Keeps (w v : World) : Type 0 where
    pub waits : waiting w ≤ waiting v
    pub lefts : left v ≤ left w
    pub takes : taken v ≡ taken w
    pub notifies : notified v ≡ notified w

  -- An entry has been taken.
  pub record Takes (cqe : Cqe) (w v : World) : Type 0 where
    pub owed : IsOwed cqe v
    pub waits : waiting w ≤ suc (waiting v)
    pub lefts : left v < left w
    pub takes : taken v ≡ suc (taken w)
    pub notifies : notified v ≡ notified w

  abbrev pub Peeks : World → Option Cqe → World → Type 0
  Peeks w none v = (waiting w ≡ 0) × Keeps w v
  Peeks w (some cqe) v = Takes cqe w v

  abbrev pub Waits : World → IoResult Cqe → World → Type 0
  Waits w (err e) v = Keeps w v
  Waits w (ok cqe) v = Takes cqe w v

  -- What the thread relies on: each call returns, and does to the queue what its name says; what is
  -- owed stays so; the program's memory is not the queue's.
  pub record Delivers : Type 0 where
    pub waits : (w : World) → Returns (λ r v. Waits w r v) (Q.wait_for_cqe w)
    pub peeks : (w : World) → Returns (λ r v. Peeks w r v) (Q.peek_for_cqe w)
    pub readies :
        (w : World)
        → Returns
            (λ n v. (n ≤ waiting v) × Keeps w v × ((e : Cqe) → IsOwed e w → IsOwed e v))
            (Q.ready w)
    pub notifies :
        (n : ℕ) (w : World)
        → Returns
            (λ _ v.
              (waiting w ≤ waiting v)
              × (left v ≤ left w)
              × (taken v ≡ taken w)
              × (notified v ≡ notified w + n)
              × ((e : Cqe) → IsOwed e w → IsOwed e v))
            (Q.notify_additional n w)
    pub apart :
        (w : World) (c : ℕ → Option Kernel.State) (b : ℕ → Option (List ℕ)) (k : List Waker)
        (f : List Allocation)
        → Keeps w (elsewhere w c b k f)
