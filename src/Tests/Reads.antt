-- ===== src/Tests/Reads.antt =====
-- Reading from a file and writing to it, after it has been asked for its size.
use ringbahn.Base.{ℕ, ◌≡◌, ◌≤◌, arith, refl, some, [], ◌∷◌}
use ringbahn.Machine.{World, update}
use ringbahn.Machine.Returns.{Returns}
use ringbahn.Completion.{Completion}
use ringbahn.Completion.Types as Kernel
use ringbahn.Completion.Types.{ok}
use ringbahn.Ring.{submitted}
use ringbahn.Ring.Spec.{Owns, Busy, unread, is_submitted}
use ringbahn.Buf.{Buffer, capacity}
use ringbahn.Buf.Fits.{Fits}
use ringbahn.File.Handle as File
use ringbahn.File.Handle.{File, left, right}
use ringbahn.Operation.{Operation, Slice}
use ringbahn.Ring.Spec.{Polled}
use ringbahn.Stream.Writing.{Offers, after}
use ringbahn.File.Writing.{behind, poll_write-behind}
use ringbahn.File.Transfer.{poll_fill_buf, poll_write}
use ringbahn.File.Sound.{IsSound, Guarded}
use ringbahn.File.Reading.{Reads, poll_fill_buf-Reads}
use ringbahn.Tests.Ready.{ready_driver, ready_driver-Conforms, start, ctx}

-- The kernel has answered with the size, and nobody has asked for the answer.
abbrev sized : File (Unit {0})
sized = record {
  ring = record { state = submitted (record { state = 32 }); driver = tt };
  fd = 3;
  active = File.statx;
  buf = right 8192;
  pos = 10;
}

abbrev answered : World
answered = record start {
  completions = update start.completions 32 (some (Kernel.completed (ok 0)));
  boxes = update start.boxes 8192 (some []);
}

sized-bounded :
    (c : Completion) (n : ℕ)
    → Busy c sized.ring.state
    → answered.completions c.state ≡ some (Kernel.completed (ok n))
    → n ≤ capacity
sized-bounded c n is_submitted holds = ground arith

sized-IsSound : IsSound sized answered
unfolding File.same_op
sized-IsSound = record { shaped = refl; owns = unread; bounded = sized-bounded }

poll_fill_buf-Reads_example :
    Returns
      (λ (f', p) v.
        (g : File (Unit {0})) × (u : World) × (buf : Buffer) × (buf' : Buffer) × Guarded File.read
          sized answered g buf u
        × Reads g.fd 64 4096 g.pos buf u g.ring.state f'.ring.state f'.pos buf' p v
        × Fits buf'
        × Owns f'.ring.state v
        × (f' ≡ record g { ring = f'.ring; buf = left buf'; pos = f'.pos }))
      (poll_fill_buf ready_driver ctx sized answered)
unfolding File.same_op
poll_fill_buf-Reads_example =
    poll_fill_buf-Reads ready_driver ready_driver-Conforms ctx sized answered sized-IsSound refl

poll_write-behind_example :
    Returns
      (λ (f', p) x.
        (g : File (Unit {0})) × (u : World) × (old : Buffer) × Guarded File.write sized answered g
          old u
        × ((buf : Buffer) × (slice : Slice) × (v : World) × Offers 4096
              (1 ∷ 2 ∷ [])
              old
              u
              buf
              slice
              v
            × Polled (Operation.write g.fd slice g.pos) 64 v g.ring.state f'.ring.state p x
            × (f' ≡ record g { ring = f'.ring; buf = left (after p buf); pos = behind p g.pos })))
      (poll_write ready_driver ctx (1 ∷ 2 ∷ []) sized answered)
unfolding File.same_op
poll_write-behind_example =
    poll_write-behind ready_driver ready_driver-Conforms ctx (1 ∷ 2 ∷ []) sized answered
      sized-IsSound tt refl
