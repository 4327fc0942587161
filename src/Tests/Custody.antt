-- ===== src/Tests/Custody.antt =====
-- Two submissions and the kernel, on a driver that is always ready.
use ringbahn.Base.{refl, inr, none, ℕ, List, [], ◌∷◌, arith}
use ringbahn.Machine.{push_sqe}
use ringbahn.Machine.Returns.{Returns}
use ringbahn.Completion
use ringbahn.Completion.Types.{ok}
use ringbahn.Operation.{BoxedSlice}
use ringbahn.Drive.{single_sqe}
use ringbahn.Event
use ringbahn.Event.{Event}
use ringbahn.Ring
use ringbahn.Ring.{inert}
use ringbahn.Ring.Spec.{is_inert}
use ringbahn.Ring.System.{awaited, abandoned}
use ringbahn.Submission
use ringbahn.Submission.System.{
  Action, submits, polls, replaces, drops, completes, Submissions, perform, run, Schedule,
}
use ringbahn.Submission.System.Custody.{Custody, InCustody}
use ringbahn.Submission.System.Runs.{run-InCustody}
use ringbahn.Tests.Ready.{ready_driver, ready_driver-Conforms, start, ctx}
use ringbahn.Tests.Systems.{rings-Sound}

abbrev pub submissions : Submissions ready_driver
submissions i = record { ring = record { state = inert; driver = tt }; event = none }

submissions-Custody : Custody submissions start
submissions-Custody = record {
  sound = rings-Sound;
  idle = λ i e. is_inert;
  keeps = λ i c b. elim b [ ];
  leaves = λ a callback e. absurd (let f : ⊥ = cc in f);
}

abbrev pub buffer : BoxedSlice
buffer = record { address = 512; len = 8 }

-- One submission is given another event while its first one is with the kernel, and is dropped while
-- the second one is; the other gets its result.
abbrev actions : List (Action ready_driver)
actions =
    submits 0 (Event.read 3 buffer 0) tt
    ∷ submits 1 (Event.close 4) tt
    ∷ polls 0 ctx
    ∷ polls 1 (record ctx { fresh = 32 })
    ∷ replaces 0 (Event.close 5)
    ∷ polls 0 (record ctx { fresh = 96 })
    ∷ completes (ok 0) 64
    ∷ completes (ok 0) 32
    ∷ drops 0
    ∷ polls 1 (record ctx { fresh = 64 })
    ∷ []

actions-Schedule : Schedule ready_driver actions submissions start
unfolding perform Submission.new Submission.poll Submission.replace_event Submission.drop Ring.new
    Ring.poll Ring.cancel single_sqe Completion.complete Completion.check Completion.cancel
    Completion.new Completion.addr push_sqe Event.cancel
actions-Schedule = (
  refl,
  (
    refl,
    (
      ((_, refl), omega arith, refl),
      (
        ((_, refl), omega arith, refl),
        (
          tt,
          (
            ((_, refl), omega arith, refl),
            (inr abandoned, (inr awaited, (tt, (((_, refl), omega arith, refl), tt)))),
          ),
        ),
      ),
    ),
  ),
)

run-InCustody_example :
    Returns
      (λ subs' v. Custody subs' v × ((a : ℕ) → InCustody a subs' v))
      (run ready_driver actions submissions start)
run-InCustody_example =
    run-InCustody ready_driver ready_driver-Conforms actions submissions start submissions-Custody
      actions-Schedule
