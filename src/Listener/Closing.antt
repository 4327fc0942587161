-- ===== src/Listener/Closing.antt =====
-- Closing a listener, also while it accepts a connection.
use ringbahn.Base.{ℕ, ◌≡◌, refl, sym, Bool, true, false, not, ◌&&◌, inl, inr, none, Bool-cases}
use ringbahn.Operation.{Operation}
use ringbahn.Machine.{World, Poll, pending, ready}
use ringbahn.Machine.Returns.{Returns, returned, Returns-and_then}
use ringbahn.Completion.Types.{IoResult, ok, err}
use ringbahn.Drive.{Context, Drive}
use ringbahn.Drive.Conforms.{Conforms}
use ringbahn.Event
use ringbahn.Ring.{Ring}
use ringbahn.Ring.Spec.{Owns, Polled}
use ringbahn.Ring.Refines.{poll_one-Polled}
use ringbahn.Ring.Cancels.{Cancels, Cancels-Idle, Idle-Owns, cancel-Cancels}
use ringbahn.Listener.{
  Op, nothing, close, closed, same_op, TcpListener, guard_op, close_answer, poll_close,
}

-- An operation is under way that is not this one.
abbrev pub other_under_way : {Driver : Type 0} → Op → TcpListener Driver → Bool
other_under_way op l = not (same_op l.active nothing) && not (same_op l.active op)

-- What the guard makes of an open listener: the ring and the box stay as they are, or what was under
-- way is cancelled, with the box for the callback.
pub data Guarded {Driver : Type 0} (op : Op) (l : TcpListener Driver) (w : World)
    : TcpListener Driver → World → Type 0 where
  continues : other_under_way op l ≡ false → Guarded op l w (record l { active = op }) w
  interrupts :
      {ring : Ring Driver} {v : World}
      → other_under_way op l ≡ true
      → Cancels (Event.from_maybe_box l.addr) w l.ring.state ring.state v
      → Guarded op l w (record l { ring = ring; addr = none; active = op }) v

pub guard_op-Guarded :
    {Driver : Type 0} (op : Op) (l : TcpListener Driver) (w : World)
    → Owns l.ring.state w
    → same_op l.active closed ≡ false
    → Returns (λ g v. Guarded op l w g v × Owns g.ring.state v) (guard_op op l w)
unfolding guard_op
guard_op-Guarded op l w o open? = elim (Bool-cases (other_under_way op l)) [
  | inl other ↦
      rw (open?, other)
        (Returns-and_then (cancel-Cancels _ w l.ring o)
          λ ring v outcome. returned (interrupts other outcome, Idle-Owns v (Cancels-Idle outcome)))
  | inr same ↦ rw (open?, same) (returned (continues same, o))
]

-- How the ring's answer ends the attempt.
abbrev pub left_as : Poll (IoResult ℕ) → Op
left_as pending = close
left_as (ready (err e)) = close
left_as (ready (ok n)) = closed

-- The answer to the caller, which leaves out the kernel's number.
abbrev pub to_caller : Poll (IoResult ℕ) → Poll (IoResult (Unit {0}))
to_caller pending = pending
to_caller (ready (err e)) = ready (err e)
to_caller (ready (ok n)) = ready (ok tt)

pub Guarded-active :
    {Driver : Type 0} {op : Op} {l g : TcpListener Driver} {w v : World}
    → Guarded op l w g v
    → g.active ≡ op
Guarded-active (continues same) = refl
Guarded-active (interrupts other outcome) = refl

close_answer-left_as :
    (D : Drive) (g : TcpListener D.Driver) (answer : Poll (IoResult ℕ))
    → g.active ≡ close
    → close_answer D g answer ≡ (record g { active = left_as answer }, to_caller answer)
unfolding close_answer
close_answer-left_as D g pending e = rw (sym e) refl
close_answer-left_as D g (ready (err x)) e = rw (sym e) refl
close_answer-left_as D g (ready (ok n)) e = refl

module _ (D : Drive) (conforms : Conforms D) (ctx : Context) where
  -- On a conforming driver, a poll that closes a listener which is not closed returns: it neither
  -- panics nor goes through a dangling pointer. An accept that was under way is cancelled first, with
  -- the box for the peer's address; then the ring makes a transition of its contract for the close.
  -- The listener is closed exactly if the kernel has closed the descriptor without an error, and the
  -- ring is in a sound state again.
  pub poll_close-left_as :
      (l : TcpListener D.Driver) (w : World)
      → Owns l.ring.state w
      → same_op l.active closed ≡ false
      → Returns
          (λ (l', p) v.
            (g : TcpListener D.Driver) × (u : World) × (answer : Poll (IoResult ℕ)) × Guarded close
              l w g u
            × Polled (Operation.close g.fd) ctx.fresh u g.ring.state l'.ring.state answer v
            × (l' ≡ record g { ring = l'.ring; active = left_as answer })
            × (p ≡ to_caller answer))
          (poll_close D ctx l w)
  unfolding poll_close
  poll_close-left_as l w o open? =
      Returns-and_then (guard_op-Guarded close l w o open?) λ g u (guarded, o').
        Returns-and_then (poll_one-Polled D conforms ctx (Operation.close g.fd) g.ring u o')
          λ (ring, answer) v polled.
            rw (close_answer-left_as D (record g { ring = ring }) answer (Guarded-active guarded))
              (returned (g, u, answer, guarded, polled, refl, refl))
