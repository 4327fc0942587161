-- ===== src/Tests/Files.antt =====
-- A file and the kernel, on a driver that is always ready.
use ringbahn.Base.{ℕ, refl, inr, none, List, [], ◌∷◌, arith}
use ringbahn.Cancellation
use ringbahn.Machine.{push_sqe}
use ringbahn.Machine.Returns.{Returns}
use ringbahn.Machine.{◌>>=◌}
use ringbahn.Completion
use ringbahn.Completion.{Completion}
use ringbahn.Completion.Types as Kernel
use ringbahn.Completion.Types.{ok}
use ringbahn.Ring.{submitted}
use ringbahn.Drive.{single_sqe}
use ringbahn.Ring
use ringbahn.Ring.Spec.{is_inert}
use ringbahn.Ring.System.{awaited, abandoned}
use ringbahn.Ring.System.Boxes.{InCustody}
use ringbahn.Buf
use ringbahn.Buf.{capacity}
use ringbahn.File.Handle as Handle
use ringbahn.File.Handle.{File, from_fd}
use ringbahn.File.Transfer
use ringbahn.File.System.{Action, fills, writes, closes, completes, perform, run, Schedule}
use ringbahn.File.System.Custody.{Custody, contents_of}
use ringbahn.File.System.Runs.{run-drop}
use ringbahn.Tests.Small.{submitted_small}
use ringbahn.Tests.Ready.{ready_driver, ready_driver-Conforms, start, ctx}

abbrev file : File (Unit {0})
file = from_fd 3 tt

file-Custody : Custody file start
unfolding from_fd Ring.new
file-Custody = record {
  buf = Buf.default;
  has = refl;
  fits = record { ordered = omega arith; within = omega arith; small = omega arith };
  rests = λ _. is_inert;
  ring = record {
    owns = tt;
    keeps = λ c b. elim b [ ];
    leaves = λ a callback e. absurd (let f : ⊥ = cc in f);
    known = λ a k e. absurd (let f : ⊥ = cc in f);
  };
  memory = record {
    backed = λ x h. absurd h;
    bytes = λ x. refl;
    owned = λ a c x h. absurd (let f : ⊥ = cc in f);
    once = λ a b c d x h. absurd (let f : ⊥ = cc in f);
  };
}

-- A read is under way when the task writes: it is cancelled, and the kernel completes it after the write,
-- which has a box of its own. Then the file is closed.
abbrev actions : List Action
actions =
    fills ctx
    ∷ writes (record ctx { fresh = 32; fresh_box = 16384 }) (1 ∷ 2 ∷ [])
    ∷ completes (ok 2) 32
    ∷ completes (ok 5) 64
    ∷ writes ctx (1 ∷ 2 ∷ [])
    ∷ closes ctx
    ∷ []

actions-Schedule : Schedule ready_driver actions file start
unfolding from_fd Ring.new perform Handle.guard_op Handle.same_op Handle.unwrap_left
    Handle.cancel_ring Transfer.poll_fill_buf Transfer.read_into Transfer.count_read
    Transfer.poll_write Transfer.write_into Transfer.write_out Transfer.written Buf.fill_buf
    Buf.refill Buf.box_in Buf.allocate Buf.filled Buf.buffered_from_read Ring.poll Ring.cancel
    single_sqe Completion.complete Completion.check Completion.cancel Completion.new Completion.addr
    push_sqe Cancellation.drop Cancellation.new Cancellation.from_option Transfer.poll_close
    Transfer.close_answer Handle.confirm_close Handle.consume
actions-Schedule = (
  (refl, (λ c n b. elim b [ ]), (omega arith, refl, refl)),
  (
    (refl, submitted_small 64 _ _ refl tt, (omega arith, refl, refl)),
    (
      inr awaited,
      (
        inr abandoned,
        (
          (
            refl,
            submitted_small 32 _ (Kernel.completed (ok 2)) refl (omega arith),
            (omega arith, refl, refl),
          ),
          ((refl, (λ c n b. elim b [ ]), (omega arith, refl, refl)), tt),
        ),
      ),
    ),
  ),
)

run-drop_example :
    Returns
      (λ f' v. Custody f' v × ((a : ℕ) → InCustody a f'.ring.state (contents_of f'.buf) v))
      (run ready_driver actions file start)
    × Returns
        (λ f' v. (a : ℕ) → InCustody a f'.ring.state none v)
        ((run ready_driver actions file >>= Handle.drop) start)
run-drop_example =
    run-drop ready_driver ready_driver-Conforms actions file start file-Custody actions-Schedule
