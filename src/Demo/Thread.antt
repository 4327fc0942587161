-- ===== src/Demo/Thread.antt =====
-- src/drive/demo.rs: the thread that takes entries from the completion queue, and whether it has started.
pub mod Delivers
pub mod Batches
pub mod Notifies
use ringbahn.Base.{
  ℕ, zero, suc, ◌+◌, ◌-◌, Bool, true, false, Option, none, some, ◌==◌, if◌then◌else◌,
}
use ringbahn.Machine.{Cmd, pure, panic, debug_assertion, out_of_fuel, ◌>>=◌, ◌>>◌}
use ringbahn.Completion
use ringbahn.Completion.Types.{IoResult, ok, err}

-- an entry of the completion queue
pub record Cqe : Type 0 where
  pub result : IoResult ℕ
  pub user_data : ℕ

-- The crates iou and event_listener: the completion queue, and the event that the driver listens to.
pub record Queue : Type 0 where
  pub wait_for_cqe : Cmd (IoResult Cqe)
  pub peek_for_cqe : Cmd (Option Cqe)
  pub ready : Cmd ℕ
  pub notify_additional : ℕ → Cmd (Unit {0})

-- `registrar`: the registrar of the queues, until the thread has started
unfoldable pub registrar :
    {Registrar : Type 0} → (is_completed : Bool) → Registrar → Option Registrar
registrar true r = none
registrar false r = some r

module _ (Q : Queue) where
  open Q use {wait_for_cqe, peek_for_cqe, ready, notify_additional}

  -- Notifies as many as there are entries, with the one that has been taken.
  unfoldable pub notify : Cmd ℕ
  notify = do n ← ready; notify_additional (n + 1); pure (n + 1)

  unfoldable pub notify_if_none : ℕ → Cmd ℕ
  unfolding notify
  notify_if_none count = if count == 0 then notify else pure count

  -- what a round of the inner loop makes of what it has peeked; `go_on` is the next round
  unfoldable pub peeked : (go_on : ℕ → Cmd ℕ) → ℕ → Option Cqe → Cmd ℕ
  unfolding notify_if_none
  peeked go_on count none = pure count
  peeked go_on count (some cqe) = do
    n ← notify_if_none count
    Completion.complete cqe.result cqe.user_data
    go_on (n - 1)

  -- the inner loop, with fuel; `count` is the source's `ready`, which is returned
  unfoldable pub drain : (fuel count : ℕ) → Cmd ℕ
  unfolding peeked
  drain zero count = λ w. out_of_fuel
  drain (suc fuel) count = do cqe ← peek_for_cqe; peeked (drain fuel) count cqe

  unfoldable pub debug_assert_none : ℕ → Cmd (Unit {0})
  debug_assert_none count = if count == 0 then pure tt else panic debug_assertion

  -- a round of the outer loop, and what follows it
  unfoldable pub waited : (fuel : ℕ) (go_on : Cmd (Unit {0})) → IoResult Cqe → Cmd (Unit {0})
  unfolding notify drain debug_assert_none
  waited fuel go_on (err e) = pure tt
  waited fuel go_on (ok cqe) = do
    n ← notify
    Completion.complete cqe.result cqe.user_data
    count ← drain fuel (n - 1)
    debug_assert_none count
    go_on

  -- the thread, with fuel for its rounds and for the rounds of the inner loop
  unfoldable pub thread : (rounds fuel : ℕ) → Cmd (Unit {0})
  unfolding waited
  thread zero fuel = λ w. out_of_fuel
  thread (suc rounds) fuel = do cqe ← wait_for_cqe; waited fuel (thread rounds fuel) cqe
