-- ===== src/Demo/Thread/Notifies.antt =====
-- The thread notifies as many listeners as it takes entries.
use ringbahn.Base.{ℕ, zero, suc, ◌-◌, ◌≤◌, ◌≡◌, true, ◌==◌, arith}
use ringbahn.Machine.{World, Cmd}
use ringbahn.Machine.Returns.{Returns, returned, Returns-and_then}
use ringbahn.Completion.Types.{ok, err}
use ringbahn.Demo.Thread.Delivers.{Counts, Keeps, Takes, Waits, Delivers}
use ringbahn.Demo.Thread.{Cqe, Queue, debug_assert_none, waited, thread}
use ringbahn.Demo.Thread.Batches.{
  complete-Keeps, notify-InHand, complete-Balanced, Balanced-mono, drain-Settled,
}

module _ (Q : Queue) (C : Counts) (delivers : Delivers Q C) where
  open C use {waiting, left, taken, notified}

  -- The thread between two batches: the fuel for its rounds suffices.
  record Rests (rounds fuel : ℕ) (w : World) : Type 0 where
    rounds_left : left w ≤ rounds
    fuel_left : left w ≤ fuel
    balance : notified w ≡ taken w

  waited-Settled :
      (rounds fuel : ℕ) (go_on : Cmd (Unit {0})) (cqe : Cqe) (w v : World)
      → Rests (suc rounds) fuel w
      → Takes Q C cqe w v
      → ((u : World) → Rests rounds fuel u → Returns (λ _ x. notified x ≡ taken x) (go_on u))
      → Returns (λ _ x. notified x ≡ taken x) (waited Q (suc fuel) go_on (ok cqe) v)
  unfolding waited debug_assert_none
  waited-Settled rounds fuel go_on cqe w v idle t rest =
      let few = idle.rounds_left in
      let fuelled = idle.fuel_left in
      let balance = idle.balance in
      let takes = t.takes in
      let notifies = t.notifies in
      let lefts = t.lefts in
      Returns-and_then (notify-InHand Q C delivers cqe v t.owed (omega arith)) λ n u h.
        Returns-and_then (complete-Keeps Q C delivers cqe u h.owed) λ _ x k.
          let b = complete-Balanced Q C delivers h k in
          let lefts' = b.lefts in
          Returns-and_then
            (drain-Settled Q C delivers fuel (n - 1) x (Balanced-mono Q C delivers b (omega arith)))
            λ m y s.
              let e = s.none_over in
              let none_over : (m == 0) ≡ true = ground arith in
              let lefts'' = s.lefts in
              rw none_over (
                rest y (record {
                  rounds_left = omega arith;
                  fuel_left = omega arith;
                  balance = s.balance;
                }))

  error_ends : {w v : World} → Keeps Q C w v → notified w ≡ taken w → notified v ≡ taken v
  error_ends k balance = let takes = k.takes in let notifies = k.notifies in omega arith

  none_left : {cqe : Cqe} {w v : World} → left w ≤ 0 → Takes Q C cqe w v → ⊥
  none_left few t = let lefts = t.lefts in omega arith

  thread-Rests :
      (rounds fuel : ℕ) (w : World)
      → Rests rounds fuel w
      → Returns (λ _ v. notified v ≡ taken v) (thread Q (suc rounds) (suc fuel) w)
  unfolding thread waited
  thread-Rests zero fuel w idle = Returns-and_then (delivers.waits w) λ r v p.
      elim r
          as (λ r.
            Waits Q C w r v
            → Returns (λ _ v. notified v ≡ taken v)
                (waited Q (suc fuel) (thread Q 0 (suc fuel)) r v)) [
                  | err e ↦ λ k. returned (error_ends k idle.balance)
                  | ok cqe ↦ λ t. absurd (none_left idle.rounds_left t)
                ]
        p
  thread-Rests (suc rounds) fuel w idle = Returns-and_then (delivers.waits w) λ r v p.
      elim r
          as (λ r.
            Waits Q C w r v
            → Returns (λ _ v. notified v ≡ taken v)
                (waited Q (suc fuel) (thread Q (suc rounds) (suc fuel)) r v)) [
                  | err e ↦ λ k. returned (error_ends k idle.balance)
                  | ok cqe ↦ λ t.
                      waited-Settled rounds fuel (thread Q (suc rounds) (suc fuel)) cqe w v idle t
                        (thread-Rests rounds fuel)
                ]
        p

  -- Where the queue delivers finitely many entries, each of an event that the kernel owes or of a
  -- cancellation, and then fails, the thread returns, with fuel for more rounds of its loops than there
  -- are entries: it neither panics, as for the debug assertion at the end of each batch, nor goes
  -- through a dangling pointer. It has then asked for as many listeners to be notified as it has taken
  -- entries, if that was so before.
  pub thread-notified :
      (rounds fuel : ℕ) (w : World)
      → left w ≤ rounds
      → left w ≤ fuel
      → notified w ≡ taken w
      → Returns (λ _ v. notified v ≡ taken v) (thread Q (suc rounds) (suc fuel) w)
  thread-notified rounds fuel w few fuelled balance =
      thread-Rests rounds fuel w
        (record { rounds_left = few; fuel_left = fuelled; balance = balance })
