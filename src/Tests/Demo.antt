-- ===== src/Tests/Demo.antt =====
-- The demo driver, on queues of which the model says only how full they are.
use ringbahn.Base.{
  ℕ, suc, zero, ◌+◌, ◌-◌, ◌≡◌, refl, true, none, some, leb, length, inl, inr, arith, if◌then◌else◌,
  Bool-cases,
}
use ringbahn.Operation.{Operation}
use ringbahn.Machine.{World, returns, out_of_fuel, ready}
use ringbahn.Machine.Returns.{Returns, returned}
use ringbahn.Completion.Types.{ok, err, os}
use ringbahn.Drive.{single_sqe}
use ringbahn.Drive.Conforms.{Conforms, Suffices, Evolves, same}
use ringbahn.Drive.Spares.{Spares-refl}
use ringbahn.Ring.{poll, Ring, inert}
use ringbahn.Ring.Spec.{Polled}
use ringbahn.Ring.Refines.{poll_one-Polled}
use ringbahn.Demo.{Iou, DemoDriver, driver, drive, is_ebusy, poll_prepare}
use ringbahn.Demo.Contract.{Serves, Makes, Room, drive-Conforms}
use ringbahn.Demo.Spins.{poll_prepare-out_of_fuel}
use ringbahn.Tests.Ready.{next, start, ctx}

-- There is room as long as at most 32 entries are not submitted; the kernel takes all of them.
abbrev iou : Iou
iou = record {
  Sqes = ℕ;
  next_hard_linked = next;
  single = next;
  prepare_sqes = λ count w.
      if leb (length w.queue + count) (w.submitted + 32)
      then returns (some count) w
      else returns none w;
  submit =
      λ w. returns (ok (length w.queue - w.submitted)) (record w { submitted = length w.queue });
  Listener = Unit {0};
  listen = returns tt;
  poll_listener = λ ctx l. returns (ready tt, l);
}

suffices : (count : ℕ) → Suffices (drive iou 0) count count
suffices zero = record { one = λ h. absurd (omega arith); two = λ h. absurd (omega arith) }
suffices (suc zero) = record { one = λ h. (0, refl); two = λ h. absurd (omega arith) }
suffices (suc (suc n)) = record { one = λ h. (suc n, refl); two = λ h. (suc n, n, refl, refl) }

unchanged : (w : World) → Evolves w w
unchanged w = record { completions = λ a. same; queue = refl; spares = Spares-refl _ }

iou-Serves : Serves iou
iou-Serves = record {
  prepares = makes;
  submits = λ w. returned (
    room w,
    record {
      completions = λ a. same;
      queue = refl;
      spares = record { inside = refl; callbacks = λ a c h. h; boxes = λ x h. inl h };
    },
  );
  listens = λ w. returned (unchanged w);
  wakes = λ ctx l w. returned (unchanged w);
}
  where
    makes :
        (count : ℕ) (w : World)
        → Returns (λ r v. Makes iou count r × Evolves w v) (iou.prepare_sqes count w)
    makes count w = elim (Bool-cases (leb (length w.queue + count) (w.submitted + 32))) [
      | inl fits ↦ rw fits (returned (suffices count, unchanged w))
      | inr full ↦ rw full (returned (tt, unchanged w))
    ]

    room : (w : World) → Room iou (record w { submitted = length w.queue })
    room w count h =
        let fits : leb (length w.queue + count) (length w.queue + 32) ≡ true = ground arith in
        rw fits (returned ((count, refl, suffices count), unchanged _))

drive-Conforms_example : Conforms (drive iou 2)
drive-Conforms_example = drive-Conforms iou iou-Serves 0

-- a ring on this driver
abbrev ring : Ring (DemoDriver iou)
ring = record { state = inert; driver = record { listener = none } }

closing : Operation
closing = Operation.close 3

ring_on_demo :
    Returns
      (λ (ring', p) v. Polled closing 64 start inert ring'.state p v)
      (poll (drive iou 2) ctx 1 (single_sqe (drive iou 2) closing) ring start)
ring_on_demo = poll_one-Polled (drive iou 2) drive-Conforms_example ctx closing ring start tt

-- A queue that the kernel refuses, with another error than that it is busy.
abbrev refusing : Iou
refusing = record {
  Sqes = ℕ;
  next_hard_linked = next;
  single = next;
  prepare_sqes = λ count. returns none;
  submit = returns (err (os 9));
  Listener = Unit {0};
  listen = returns tt;
  poll_listener = λ ctx l. returns (ready tt, l);
}

poll_prepare-out_of_fuel_example :
    poll_prepare refusing 1000 ctx 1 (driver refusing) start ≡ out_of_fuel
unfolding is_ebusy
poll_prepare-out_of_fuel_example =
    poll_prepare-out_of_fuel refusing ctx 1 (λ w. Unit {0}) (λ w h. returned (refl, tt))
      (λ w h. returned (refl, tt)) 1000 start tt
