-- ===== src/Stream/System/Custody.antt =====
-- The memory that the kernel works on for a stream is in the stream's buffer, or has been left to it, and has
-- not been given back.
use ringbahn.Base.{ℕ, ◌≡◌, ◌≢◌, true, Bool, ◌||◌, Option, none}
use ringbahn.Operation.{BoxedSlice}
use ringbahn.Machine.{World}
use ringbahn.Ring.{State}
use ringbahn.Ring.Spec.{Idle}
use ringbahn.Ring.System.Boxes as Boxes
use ringbahn.Ring.System.Boxes.Steps.{Custody-Cancels}
use ringbahn.Ring.System.Entries.{Cancels-none}
use ringbahn.Ring.System.Boxes.Safe.{Safe, Safe-Cancels, Cancels-unused}
use ringbahn.Drive.{Context}
use ringbahn.Buf
use ringbahn.Buf.Fits.{Fits}
use ringbahn.Stream.{Op, nothing, closed, same_op, TcpStream}
use ringbahn.Stream.Sound.{Guarded, continues, interrupts, taken-Fits}
use ringbahn.Stream.Box.{contents-Frees, contents-GivesBox, read-Polled}
use ringbahn.Stream.Reading.{Fills, untouched, used}

-- No operation has begun, or the stream has been closed.
abbrev pub at_rest : Op → Bool
at_rest op = same_op op nothing || same_op op closed

pub record Custody {Driver : Type 0} (s : TcpStream Driver) (w : World) : Type 0 where
  pub fits : Fits s.buf
  pub rests : at_rest s.active ≡ true → Idle s.ring.state
  pub ring : Boxes.Custody s.ring.state s.buf.contents w
  pub memory : Safe s.buf.contents w

-- What the guard leaves, for the operation that follows.
pub record Left {Driver : Type 0} (ctx : Context) (g : TcpStream Driver) (u : World) : Type 0 where
  pub fits : Fits g.buf
  pub ring : Boxes.Custody g.ring.state g.buf.contents u
  pub free : u.completions ctx.fresh ≡ none
  pub memory : Safe g.buf.contents u
  pub unused : u.boxes ctx.fresh_box ≡ none

pub Guarded-Left :
    {Driver : Type 0} {op : Op} {s g : TcpStream Driver} {w u : World} (ctx : Context)
    → Guarded op s w g u
    → Custody s w
    → w.completions ctx.fresh ≡ none
    → w.boxes ctx.fresh_box ≡ none
    → Left ctx g u
unfolding Buf.cancellation
Guarded-Left ctx (continues same) custody free unused = record {
  fits = custody.fits;
  ring = custody.ring;
  free = free;
  memory = custody.memory;
  unused = unused;
}
Guarded-Left {s} ctx (interrupts other outcome) custody free unused = record {
  fits = taken-Fits s.buf custody.fits;
  ring = Custody-Cancels custody.ring outcome (contents-Frees s.buf.contents) none;
  free = Cancels-none ctx.fresh outcome free;
  memory = Safe-Cancels _ custody.memory (contents-GivesBox s.buf.contents) outcome;
  unused = Cancels-unused ctx.fresh_box outcome unused;
}

pub Fills-Custody :
    {fd fresh fresh_box : ℕ} {s t : State} {contents contents' : Option BoxedSlice} {w u : World}
    → Fills fd fresh fresh_box s contents w t contents' u
    → fresh ≢ 0
    → w.completions fresh ≡ none
    → Boxes.Custody s contents w
    → Safe contents w
    → w.boxes fresh_box ≡ none
    → Boxes.Custody t contents' u × Safe contents' u
Fills-Custody untouched nonnull free custody safe spare = (custody, safe)
Fills-Custody (used placed polled) nonnull free custody safe spare =
    read-Polled nonnull custody free safe spare placed polled
