-- ===== src/Demo/Spins.antt =====
-- A queue that stays full keeps the loop of `poll_prepare` going.
use ringbahn.Base.{ℕ, zero, suc, ◌≡◌, refl, false, none}
use ringbahn.Machine.{World, Cmd, Poll, ready, and_then, out_of_fuel}
use ringbahn.Machine.Returns.{Returns, outcome}
use ringbahn.Completion.Types.{IoResult, ok, err}
use ringbahn.Drive.{Context, Offer}
use ringbahn.Demo.{
  Iou, DemoDriver, driver, is_ebusy, wait, submit_answer, submit_after, poll_submit, prepare_again,
  prepare_round, poll_prepare,
}

-- A submission that does not make the driver wait: it succeeds, or fails otherwise than with `EBUSY`.
abbrev pub Passes : IoResult ℕ → Type 0
Passes (ok n) = Unit {0}
Passes (err e) = is_ebusy e ≡ false

module _ (I : Iou) (ctx : Context) (count : ℕ) (Full : World → Type 0)
    (no_room : (w : World) → Full w → Returns (λ r v. (r ≡ none) × Full v) (I.prepare_sqes count w))
    (passes : (w : World) → Full w → Returns (λ r v. Passes r × Full v) (I.submit w)) where
  submit_answer-Passes :
      (r : IoResult ℕ) (k : Poll (IoResult ℕ) × DemoDriver I → Cmd (Offer I.Sqes × DemoDriver I))
      (w : World)
      → Passes r
      → ((p : IoResult ℕ) → k (ready p, driver I) w ≡ out_of_fuel)
      → and_then (submit_answer I (driver I) r w) k ≡ out_of_fuel
  unfolding submit_answer
  submit_answer-Passes (ok n) k w h next = next (ok n)
  submit_answer-Passes (err e) k w h next = rw h (next (err e))

  -- Where there is no room for the entries of an event, and submitting never makes the driver wait and
  -- never makes room, be it that it fails with another error than `EBUSY` or that the event has more
  -- entries than the queue, `poll_prepare` of a new driver does not come to an end with any fuel: it
  -- never answers that it is pending, nor hands the error over.
  pub poll_prepare-out_of_fuel :
      (fuel : ℕ) (w : World) → Full w → poll_prepare I fuel ctx count (driver I) w ≡ out_of_fuel
  unfolding poll_prepare prepare_round prepare_again poll_submit submit_after wait driver
  poll_prepare-out_of_fuel zero w full = refl
  poll_prepare-out_of_fuel (suc fuel) w full =
      let (r, v, e, (no_sqs, full')) = outcome (no_room w full) in
      let (s, u, e', (pass, full'')) = outcome (passes v full') in
      rw (e, no_sqs, e')
        (submit_answer-Passes s _ u pass λ p. poll_prepare-out_of_fuel fuel u full'')
