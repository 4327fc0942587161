-- ===== src/Tests/Systems.antt =====
-- Two rings and the kernel, on a driver that is always ready.
use ringbahn.Base.{refl, inl, inr, List, [], ◌∷◌}
use ringbahn.Cancellation
use ringbahn.Cancellation.{Object}
use ringbahn.Operation.{Operation}
use ringbahn.Machine.{push_sqe}
use ringbahn.Machine.Returns.{Returns}
use ringbahn.Completion
use ringbahn.Completion.Types.{ok}
use ringbahn.Drive.{single_sqe}
use ringbahn.Ring
use ringbahn.Ring.{Ring, inert}
use ringbahn.Ring.System.{
  Action, polls, cancels, completes, awaited, abandoned, Rings, perform, run, Schedule,
}
use ringbahn.Ring.System.Sound.{Sound}
use ringbahn.Ring.System.Runs.{run-Sound}
use ringbahn.Tests.Ready.{ready_driver, ready_driver-Conforms, start, ctx}

abbrev rings : Rings ready_driver
rings i = record { state = inert; driver = tt }

pub rings-Sound : Sound rings start
rings-Sound = record {
  owns = λ i. tt;
  alone = λ i j c ne b. elim b [ ];
  known = λ a k e. absurd (let f : ⊥ = cc in f);
}

-- One ring is cancelled while its event is with the kernel, and used again; the other is not.
abbrev schedule : List Action
schedule =
    polls 0 ctx (Operation.close 3)
    ∷ polls 1 (record ctx { fresh = 32 }) (Operation.close 4)
    ∷ cancels 0 (Cancellation.new Object.unit)
    ∷ polls 0 (record ctx { fresh = 96 }) (Operation.close 5)
    ∷ completes (ok 0) 64
    ∷ completes (ok 0) 32
    ∷ completes (ok 0) 0
    ∷ polls 1 (record ctx { fresh = 64 }) (Operation.close 4)
    ∷ []

schedule-Schedule : Schedule ready_driver schedule rings start
unfolding perform Ring.poll Ring.cancel single_sqe Completion.complete Completion.check
    Completion.cancel Completion.new Completion.addr push_sqe
schedule-Schedule =
    (refl, (refl, (tt, (refl, (inr abandoned, (inr awaited, (inl refl, (refl, tt))))))))

run-Sound_example : Returns (λ rings' v. Sound rings' v) (run ready_driver schedule rings start)
run-Sound_example =
    run-Sound ready_driver ready_driver-Conforms schedule rings start rings-Sound schedule-Schedule
