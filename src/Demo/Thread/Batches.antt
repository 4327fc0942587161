-- ===== src/Demo/Thread/Batches.antt =====
-- A batch of entries: the inner loop of the thread.
use ringbahn.Base.{
  ℕ, zero, suc, ◌+◌, ◌-◌, ◌≤◌, ◌≡◌, refl, inl, inr, none, some, ◌==◌, arith, Bool-cases,
}
use ringbahn.Machine.{World}
use ringbahn.Machine.Returns.{Returns, returned, Returns-and_then, Returns-map}
use ringbahn.Completion
use ringbahn.Completion.Types.{IoResult}
use ringbahn.Ring.System.Completes.{Completes, passes, hands_over, cleans_up, complete-Completes}
use ringbahn.Demo.Thread.Delivers.{Counts, IsOwed, Keeps, Takes, Peeks, Delivers}
use ringbahn.Demo.Thread.{Cqe, Queue, notify, notify_if_none, peeked, drain}

module _ (Q : Queue) (C : Counts) (delivers : Delivers Q C) where
  open C use {waiting, left, taken, notified}

  Completes-Keeps :
      {result : IoResult ℕ} {a : ℕ} {w v : World} → Completes result a w v → Keeps Q C w v
  Completes-Keeps {w} (passes null) = record {
    waits = omega arith;
    lefts = omega arith;
    takes = refl;
    notifies = refl;
  }
  Completes-Keeps {w} (hands_over holds) = delivers.apart w _ _ _ _
  Completes-Keeps {w} (cleans_up holds) = delivers.apart w _ _ _ _

  pub complete-Keeps :
      (cqe : Cqe) (w : World)
      → IsOwed cqe w
      → Returns (λ _ v. Keeps Q C w v) (Completion.complete cqe.result cqe.user_data w)
  complete-Keeps cqe w owed =
      Returns-map (complete-Completes cqe.result cqe.user_data w owed) λ _ v c. Completes-Keeps c

  -- With an entry in hand: `count` listeners, this entry's included, have been notified of entries that
  -- have not been completed, and the others of these are in the queue.
  pub record InHand (cqe : Cqe) (limit count : ℕ) (w : World) : Type 0 where
    pub owed : IsOwed cqe w
    pub some_left : 1 ≤ count
    pub covered : count ≤ suc (waiting w)
    pub lefts : left w ≤ limit
    pub balance : suc (notified w) ≡ taken w + count

  pub notify-InHand :
      (cqe : Cqe) (w : World)
      → IsOwed cqe w
      → suc (notified w) ≡ taken w
      → Returns (λ n v. InHand cqe (left w) n v) (notify Q w)
  unfolding notify
  notify-InHand cqe w owed balance = Returns-and_then (delivers.readies w) λ n u (few, keeps, owes).
      Returns-and_then (delivers.notifies (n + 1) u) λ _ v (waits, lefts, takes, notifies, owes').
        let lefts' = keeps.lefts in
        let takes' = keeps.takes in
        let notifies' = keeps.notifies in
        returned (record {
          owed = owes' cqe (owes cqe owed);
          some_left = omega arith;
          covered = omega arith;
          lefts = omega arith;
          balance = omega arith;
        })

  -- Between two entries: `count` listeners have been notified of entries that are in the queue.
  pub record Balanced (limit count : ℕ) (w : World) : Type 0 where
    pub covered : count ≤ waiting w
    pub lefts : left w ≤ limit
    pub balance : notified w ≡ taken w + count

  pub Balanced-mono :
      {limit limit' count : ℕ} {w : World}
      → Balanced limit count w
      → limit ≤ limit'
      → Balanced limit' count w
  Balanced-mono b more =
      let lefts = b.lefts in
      record { covered = b.covered; lefts = omega arith; balance = b.balance }

  notify_if_none-InHand :
      (cqe : Cqe) (limit count : ℕ) (w v : World)
      → Balanced limit count w
      → Takes Q C cqe w v
      → Returns (λ n u. InHand cqe (left v) n u) (notify_if_none Q count v)
  unfolding notify_if_none
  notify_if_none-InHand cqe limit count w v b t =
      let covered = b.covered in
      let balance = b.balance in
      let waits = t.waits in
      let takes = t.takes in
      let notifies = t.notifies in
      elim (Bool-cases (count == 0)) [
        | inl z ↦
            let zero_left : count ≡ 0 = ground arith in
            rw z (notify-InHand cqe v t.owed (omega arith))
        | inr nz ↦
            let some_left : 1 ≤ count = ground arith in
            rw nz (
              returned (record {
                owed = t.owed;
                some_left = some_left;
                covered = omega arith;
                lefts = omega arith;
                balance = omega arith;
              }))
      ]

  -- completing the entry in hand
  pub complete-Balanced :
      {cqe : Cqe} {limit count : ℕ} {w v : World}
      → InHand cqe limit count w
      → Keeps Q C w v
      → Balanced limit (count - 1) v
  complete-Balanced h k =
      let some_left = h.some_left in
      let covered = h.covered in
      let lefts = h.lefts in
      let balance = h.balance in
      let waits = k.waits in
      let lefts' = k.lefts in
      let takes = k.takes in
      let notifies = k.notifies in
      record { covered = omega arith; lefts = omega arith; balance = omega arith }

  -- The inner loop is over: all that have been notified are those whose entries were taken.
  pub record Settled (start : World) (count : ℕ) (w : World) : Type 0 where
    pub none_over : count ≡ 0
    pub lefts : left w ≤ left start
    pub balance : notified w ≡ taken w

  none-Settled :
      {limit count : ℕ} {w v : World}
      → Balanced limit count w
      → Peeks Q C w none v
      → Settled w count v
  none-Settled b (empty, k) =
      let covered = b.covered in
      let balance = b.balance in
      let takes = k.takes in
      let notifies = k.notifies in
      record { none_over = omega arith; lefts = k.lefts; balance = omega arith }

  some-Settled :
      (fuel count : ℕ) (cqe : Cqe) (w v : World)
      → Balanced (suc fuel) count w
      → Takes Q C cqe w v
      → ((n : ℕ) (u : World)
          → Balanced fuel n u
          → Returns (λ m x. Settled u m x) (drain Q (suc fuel) n u))
      → Returns (λ m x. Settled w m x) (peeked Q (drain Q (suc fuel)) count (some cqe) v)
  unfolding peeked
  some-Settled fuel count cqe w v b t rest =
      let lefts = b.lefts in
      let lefts' = t.lefts in
      Returns-and_then (notify_if_none-InHand cqe (suc fuel) count w v b t) λ n u h.
        Returns-and_then (complete-Keeps cqe u h.owed) λ _ x k.
          let b' = complete-Balanced h k in
          let few = b'.lefts in
          Returns-map (rest (n - 1) x (Balanced-mono b' (omega arith))) λ m y s.
            let fewer = s.lefts in
            record { none_over = s.none_over; lefts = omega arith; balance = s.balance }

  no_more : {count : ℕ} {cqe : Cqe} {w v : World} → Balanced 0 count w → Takes Q C cqe w v → ⊥
  no_more b t = let lefts = b.lefts in let lefts' = t.lefts in omega arith

  pub drain-Settled :
      (fuel count : ℕ) (w : World)
      → Balanced fuel count w
      → Returns (λ n v. Settled w n v) (drain Q (suc fuel) count w)
  unfolding drain peeked
  drain-Settled zero count w b = Returns-and_then (delivers.peeks w) λ r v p.
      elim r
          as (λ r.
            Peeks Q C w r v → Returns (λ n v. Settled w n v) (peeked Q (drain Q 0) count r v)) [
              | none ↦ λ p. returned (none-Settled b p)
              | some cqe ↦ λ t. absurd (no_more b t)
            ]
        p
  drain-Settled (suc fuel) count w b = Returns-and_then (delivers.peeks w) λ r v p.
      elim r
          as (λ r.
            Peeks Q C w r v
            → Returns (λ n v. Settled w n v) (peeked Q (drain Q (suc fuel)) count r v)) [
              | none ↦ λ p. returned (none-Settled b p)
              | some cqe ↦ λ t. some-Settled fuel count cqe w v b t (drain-Settled fuel)
            ]
        p
