-- ===== src/Tests/Streams.antt =====
-- A stream and the kernel, on a driver that is always ready.
use ringbahn.Base.{ℕ, refl, inr, none, List, [], ◌∷◌, arith}
use ringbahn.Cancellation
use ringbahn.Machine.{push_sqe, ◌>>=◌}
use ringbahn.Machine.Returns.{Returns}
use ringbahn.Completion
use ringbahn.Completion.Types as Kernel
use ringbahn.Completion.Types.{ok}
use ringbahn.Drive.{single_sqe}
use ringbahn.Ring
use ringbahn.Ring.Spec.{is_inert}
use ringbahn.Ring.System.{awaited, abandoned}
use ringbahn.Ring.System.Boxes.{InCustody}
use ringbahn.Buf
use ringbahn.Stream
use ringbahn.Stream.{TcpStream}
use ringbahn.Stream.System.{
  Action, fills, writes, flushes, closes, completes, perform, run, Schedule,
}
use ringbahn.Stream.System.Custody.{Custody}
use ringbahn.Stream.System.Runs.{drop-run}
use ringbahn.Tests.Ready.{ready_driver, ready_driver-Conforms, start, ctx}
use ringbahn.Tests.Small.{submitted_small}

abbrev stream : TcpStream (Unit {0})
stream = Stream.from_fd 3 (Ring.new tt)

stream-Custody : Custody stream start
unfolding Stream.from_fd Ring.new
stream-Custody = record {
  fits = record { ordered = omega arith; within = omega arith; small = omega arith };
  rests = λ _. is_inert;
  ring = record {
    owns = tt;
    keeps = λ c b. elim b [ ];
    leaves = λ a callback e. absurd (let f : ⊥ = cc in f);
    known = λ a k e. absurd (let f : ⊥ = cc in f);
  };
  memory = record {
    backed = λ x h. absurd h;
    bytes = λ x. refl;
    owned = λ a c x h. absurd (let f : ⊥ = cc in f);
    once = λ a b c d x h. absurd (let f : ⊥ = cc in f);
  };
}

-- A read is under way when the task writes: it is cancelled, and the kernel completes it after the write,
-- which has a box of its own. The stream is flushed and closed.
abbrev actions : List Action
actions =
    fills ctx
    ∷ writes (record ctx { fresh = 32; fresh_box = 16384 }) (1 ∷ 2 ∷ [])
    ∷ completes (ok 2) 32
    ∷ completes (ok 5) 64
    ∷ flushes ctx
    ∷ closes ctx
    ∷ []

actions-Schedule : Schedule ready_driver actions stream start
unfolding Stream.from_fd Ring.new perform Stream.guard_op Stream.same_op Stream.cancel_ring
    Stream.poll_fill_buf Stream.read_into Stream.poll_write Stream.poll_flush Stream.to_unit
    Stream.write_into Stream.write_out Stream.written Buf.fill_buf Buf.cancellation Buf.refill
    Buf.box_in Buf.allocate Buf.filled Buf.buffered_from_read Ring.poll Ring.cancel single_sqe
    Completion.complete Completion.check Completion.cancel Completion.new Completion.addr push_sqe
    Cancellation.drop Cancellation.new Cancellation.from_option Stream.poll_close
    Stream.close_answer Stream.confirm_close
actions-Schedule = (
  (refl, (λ c n b. elim b [ ]), omega arith, refl, refl),
  (
    (refl, submitted_small 64 _ _ refl tt, omega arith, refl, refl),
    (
      inr awaited,
      (
        inr abandoned,
        (
          (
            refl,
            submitted_small 32 _ (Kernel.completed (ok 2)) refl (omega arith),
            omega arith,
            refl,
            refl,
          ),
          ((refl, (λ c n b. elim b [ ]), omega arith, refl, refl), tt),
        ),
      ),
    ),
  ),
)

drop-run_example :
    Returns
      (λ s' v. Custody s' v × ((a : ℕ) → InCustody a s'.ring.state s'.buf.contents v))
      (run ready_driver actions stream start)
    × Returns
        (λ s' v. (a : ℕ) → InCustody a s'.ring.state none v)
        ((run ready_driver actions stream >>= Stream.drop) start)
drop-run_example =
    drop-run ready_driver ready_driver-Conforms actions stream start stream-Custody actions-Schedule
