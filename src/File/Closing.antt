-- ===== src/File/Closing.antt =====
-- Closing a file, on a conforming driver.
use ringbahn.Base.{ℕ, ◌≡◌, refl, sym, false}
use ringbahn.Operation.{Operation}
use ringbahn.Machine.{World, Poll, pending, ready}
use ringbahn.Machine.Returns.{Returns, returned, Returns-and_then}
use ringbahn.Completion.Types.{IoResult, ok, err}
use ringbahn.Drive.{Context, Drive}
use ringbahn.Drive.Conforms.{Conforms}
use ringbahn.Ring.Spec.{Polled}
use ringbahn.Ring.Refines.{poll_one-Polled}
use ringbahn.Buf.{Buffer}
use ringbahn.File.Handle.{Op, close, closed, same_op, File}
use ringbahn.File.Transfer.{close_answer, poll_close}
use ringbahn.File.Sound.{IsSound, Guarded, continues, interrupts, Ready, guard_op-Ready}

-- How the ring's answer ends the attempt.
abbrev pub left_as : Poll (IoResult ℕ) → Op
left_as pending = close
left_as (ready (err e)) = close
left_as (ready (ok n)) = closed

-- The answer to the caller, which leaves out the kernel's number.
abbrev pub to_caller : Poll (IoResult ℕ) → Poll (IoResult (Unit {0}))
to_caller pending = pending
to_caller (ready (err e)) = ready (err e)
to_caller (ready (ok n)) = ready (ok tt)

pub Guarded-active :
    {Driver : Type 0} {op : Op} {f g : File Driver} {buf : Buffer} {w v : World}
    → Guarded op f w g buf v
    → g.active ≡ op
Guarded-active (continues same has) = refl
Guarded-active (interrupts other outcome) = refl

close_answer-left_as :
    (D : Drive) (g : File D.Driver) (answer : Poll (IoResult ℕ))
    → g.active ≡ close
    → close_answer D g answer ≡ (record g { active = left_as answer }, to_caller answer)
unfolding close_answer
close_answer-left_as D g pending e = rw (sym e) refl
close_answer-left_as D g (ready (err x)) e = rw (sym e) refl
close_answer-left_as D g (ready (ok n)) e = refl

module _ (D : Drive) (conforms : Conforms D) (ctx : Context) where
  -- On a conforming driver, a poll that closes a sound file which is not closed returns. An operation
  -- that was under way is cancelled first; then the ring makes a transition of its contract for the
  -- close. The file is closed exactly if the kernel has closed the descriptor without an error.
  pub poll_close-left_as :
      (f : File D.Driver) (w : World)
      → IsSound f w
      → same_op f.active closed ≡ false
      → Returns
          (λ (f', p) v.
            (g : File D.Driver) × (u : World) × (answer : Poll (IoResult ℕ)) × Ready close f w g u
            × Polled (Operation.close g.fd) ctx.fresh u g.ring.state f'.ring.state answer v
            × (f' ≡ record g { ring = f'.ring; active = left_as answer })
            × (p ≡ to_caller answer))
          (poll_close D ctx f w)
  unfolding poll_close same_op
  poll_close-left_as f w sound open? =
      Returns-and_then (guard_op-Ready close f w sound open? refl) λ g u r.
        Returns-and_then (poll_one-Polled D conforms ctx (Operation.close g.fd) g.ring u r.owns)
          λ (ring, answer) v polled.
            rw (close_answer-left_as D (record g { ring = ring }) answer (Guarded-active r.guarded))
              (returned (g, u, answer, r, polled, refl, refl))
