-- ===== src/File/System/Custody.antt =====
-- The memory that the kernel works on for a file is in the file's buffer, or has been left to it, and has
-- not been given back.
use ringbahn.Base.{ℕ, ◌≡◌, true, Bool, ◌||◌, Option, none, List}
use ringbahn.Cancellation
use ringbahn.Cancellation.{Allocation, allocation, slice}
use ringbahn.Operation.{BoxedSlice}
use ringbahn.Machine.{World}
use ringbahn.Cancellation.Frees.{Frees}
use ringbahn.Ring.Spec.{Idle}
use ringbahn.Ring.System.Boxes as Boxes
use ringbahn.Ring.System.Boxes.Safe.{Safe, GivesBox}
use ringbahn.Ring.System.Boxes.{touched, InBox}
use ringbahn.Buf
use ringbahn.Buf.{Buffer}
use ringbahn.Buf.Fits.{Fits}
use ringbahn.Stream.Box.{contents-Frees, contents-GivesBox}
use ringbahn.File.Handle.{
  FileBuf, left, right, nothing, closed, Op, same_op, File, into_cancellation,
}

-- the box of a file
abbrev pub contents_of : FileBuf → Option BoxedSlice
contents_of (left buf) = buf.contents
contents_of (right p) = none

-- No operation has begun, or the file has been closed.
abbrev pub at_rest : Op → Bool
at_rest op = same_op op nothing || same_op op closed

pub record Custody {Driver : Type 0} (f : File Driver) (w : World) : Type 0 where
  pub buf : Buffer
  pub has : f.buf ≡ left buf
  pub fits : Fits buf
  pub rests : at_rest f.active ≡ true → Idle f.ring.state
  pub ring : Boxes.Custody f.ring.state buf.contents w
  pub memory : Safe buf.contents w

-- The callback that a file leaves owns its box.
pub into_cancellation-Frees :
    (buf : Buffer) (inside : ℕ → List Allocation) (p : ℕ)
    → InBox buf.contents p
    → Frees (Cancellation.drop inside (into_cancellation (left buf))) p
unfolding into_cancellation Buf.into_cancellation
into_cancellation-Frees buf = contents-Frees buf.contents

-- It gives back nothing else.
pub into_cancellation-GivesBox :
    (buf : Buffer) → GivesBox buf.contents (into_cancellation (left buf))
unfolding into_cancellation Buf.into_cancellation
into_cancellation-GivesBox buf = contents-GivesBox buf.contents
