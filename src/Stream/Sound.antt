-- ===== src/Stream/Sound.antt =====
-- The guard of an operation leaves a stream sound, and cancels any other operation.
use ringbahn.Base.{
  ℕ, ◌≤◌, ◌≡◌, Bool, true, false, not, ◌&&◌, Option, none, some, inl, inr, Bool-cases, arith,
}
use ringbahn.Operation.{BoxedSlice}
use ringbahn.Machine.{World}
use ringbahn.Machine.Returns.{Returns, returned, Returns-and_then}
use ringbahn.Completion.{Completion}
use ringbahn.Completion.Types as Kernel
use ringbahn.Completion.Types.{IoResult, ok, err}
use ringbahn.Ring.{State, Ring}
use ringbahn.Ring.Spec.{Owns, Idle, Busy}
use ringbahn.Ring.Cancels.{Cancels-Idle, Idle-Owns, not-Busy_of_Idle, Cancels, cancel-Cancels}
use ringbahn.Buf
use ringbahn.Buf.{Buffer, capacity}
use ringbahn.Buf.Fits.{Within, Fits}
use ringbahn.Stream.{Op, nothing, closed, same_op, TcpStream, cancel_ring, guard_op}

-- The kernel has read no more into a buffer than it has room for.
abbrev pub KernelBounded : State → World → Type 0
KernelBounded s w =
    (c : Completion) (n : ℕ)
    → Busy c s
    → w.completions c.state ≡ some (Kernel.completed (ok n))
    → n ≤ capacity

-- A stream between two operations.
pub record IsSound {Driver : Type 0} (s : TcpStream Driver) (w : World) : Type 0 where
  pub fits : Fits s.buf
  pub owns : Owns s.ring.state w
  pub bounded : KernelBounded s.ring.state w

-- An operation is under way that is not this one.
abbrev pub other_under_way : {Driver : Type 0} → Op → TcpStream Driver → Bool
other_under_way op s = not (same_op s.active nothing) && not (same_op s.active op)

-- What the guard makes of an open stream: the buffer and the ring stay as they are, or what was under
-- way is cancelled, with the buffer's box for the callback.
pub data Guarded {Driver : Type 0} (op : Op) (s : TcpStream Driver) (w : World)
    : TcpStream Driver → World → Type 0 where
  continues : other_under_way op s ≡ false → Guarded op s w (record s { active = op }) w
  interrupts :
      {ring : Ring Driver} {v : World}
      → other_under_way op s ≡ true
      → Cancels (Buf.cancellation s.buf).1 w s.ring.state ring.state v
      → Guarded op s w
          (record s { ring = ring; buf = record s.buf { contents = none }; active = op })
          v

Within-none : {cap : ℕ} (contents : Option BoxedSlice) → Within cap contents → Within cap none
Within-none none h = h
Within-none (some b) h = omega arith

-- The data fits in a buffer whose box has been taken.
pub taken-Fits : (buf : Buffer) → Fits buf → Fits (record buf { contents = none })
taken-Fits buf fits = record {
  ordered = fits.ordered;
  within = Within-none buf.contents fits.within;
  small = fits.small;
}

module _ {Driver : Type 0} (s : TcpStream Driver) (w : World) (sound : IsSound s w) where
  interrupted-IsSound :
      {op : Op} {ring : Ring Driver} {v : World}
      → Idle ring.state
      → IsSound (record s { ring = ring; buf = record s.buf { contents = none }; active = op }) v
  interrupted-IsSound idle = record {
    fits = taken-Fits s.buf sound.fits;
    owns = Idle-Owns _ idle;
    bounded = λ c n busy. absurd (not-Busy_of_Idle idle busy);
  }

  cancel_ring-Returns :
      {P : TcpStream Driver → World → Type 0}
      → ((ring : Ring Driver) (v : World)
          → Cancels (Buf.cancellation s.buf).1 w s.ring.state ring.state v
          → P (record s { ring = ring; buf = record s.buf { contents = none } }) v)
      → Returns P (cancel_ring s w)
  unfolding cancel_ring Buf.cancellation
  cancel_ring-Returns h =
      Returns-and_then (cancel-Cancels _ w s.ring sound.owns)
        λ ring' v outcome. returned (h ring' v outcome)

  -- Before an operation begins, the guard leaves a sound stream with this operation under way,
  -- unless the stream has been closed.
  pub guard_op-IsSound :
      (op : Op)
      → same_op s.active closed ≡ false
      → Returns (λ s' v. IsSound s' v × Guarded op s w s' v) (guard_op op s w)
  unfolding guard_op
  guard_op-IsSound op open? = elim (Bool-cases (other_under_way op s)) [
    | inl other ↦
        rw (open?, other)
          (Returns-and_then
            (cancel_ring-Returns
              {P = λ s' v. let t = record s' { active = op } in IsSound t v × Guarded op s w t v}
              λ ring v outcome.
                (interrupted-IsSound (Cancels-Idle outcome), interrupts other outcome))
            λ s' v q. returned q)
    | inr same ↦
        rw (open?, same)
          (returned (
            record { fits = sound.fits; owns = sound.owns; bounded = sound.bounded },
            continues same,
          ))
  ]
