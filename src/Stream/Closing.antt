-- ===== src/Stream/Closing.antt =====
-- Closing a stream, on a conforming driver.
use ringbahn.Base.{ℕ, ◌≡◌, refl, sym, false}
use ringbahn.Operation.{Operation}
use ringbahn.Machine.{World, Poll, pending, ready}
use ringbahn.Machine.Returns.{Returns, returned, Returns-and_then}
use ringbahn.Completion.Types.{IoResult, ok, err}
use ringbahn.Drive.{Context, Drive}
use ringbahn.Drive.Conforms.{Conforms}
use ringbahn.Ring.Spec.{Polled}
use ringbahn.Ring.Refines.{poll_one-Polled}
use ringbahn.Stream.{Op, close, closed, same_op, TcpStream, to_unit, close_answer, poll_close}
use ringbahn.Stream.Sound.{IsSound, Guarded, continues, interrupts, guard_op-IsSound}

-- How the ring's answer ends the attempt.
abbrev pub left_as : Poll (IoResult ℕ) → Op
left_as pending = close
left_as (ready (err e)) = close
left_as (ready (ok n)) = closed

pub Guarded-active :
    {Driver : Type 0} {op : Op} {s g : TcpStream Driver} {w u : World}
    → Guarded op s w g u
    → g.active ≡ op
Guarded-active (continues same) = refl
Guarded-active (interrupts other outcome) = refl

close_answer-left_as :
    (D : Drive) (g : TcpStream D.Driver) (answer : Poll (IoResult ℕ))
    → g.active ≡ close
    → close_answer D g answer ≡ (record g { active = left_as answer }, to_unit D answer)
unfolding close_answer to_unit
close_answer-left_as D g pending e = rw (sym e) refl
close_answer-left_as D g (ready (err x)) e = rw (sym e) refl
close_answer-left_as D g (ready (ok n)) e = refl

module _ (D : Drive) (conforms : Conforms D) (ctx : Context) where
  -- On a conforming driver, a poll that closes a sound stream which is not closed returns. An operation
  -- that was under way is cancelled first; then the ring makes a transition of its contract for the
  -- close. The stream is closed exactly if the kernel has closed the descriptor without an error.
  pub poll_close-left_as :
      (s : TcpStream D.Driver) (w : World)
      → IsSound s w
      → same_op s.active closed ≡ false
      → Returns
          (λ (s', p) v.
            (g : TcpStream D.Driver) × (u : World) × (answer : Poll (IoResult ℕ)) × Guarded close s
              w g u
            × Polled (Operation.close g.fd) ctx.fresh u g.ring.state s'.ring.state answer v
            × (s' ≡ record g { ring = s'.ring; active = left_as answer })
            × (p ≡ to_unit D answer))
          (poll_close D ctx s w)
  unfolding poll_close
  poll_close-left_as s w sound open? =
      Returns-and_then (guard_op-IsSound s w sound close open?) λ g u (sound', guarded).
        Returns-and_then
          (poll_one-Polled D conforms ctx (Operation.close g.fd) g.ring u sound'.owns)
          λ (ring, answer) v polled.
            rw (close_answer-left_as D (record g { ring = ring }) answer (Guarded-active guarded))
              (returned (g, u, answer, guarded, polled, refl, refl))
