-- ===== src/Unix/Listener/Contract.antt =====
-- Accepting and closing on a conforming driver.
use ringbahn.Base.{ℕ, ◌≡◌, refl, Bool, true, false, not, ◌&&◌, inl, inr, none, arith, Bool-cases}
use ringbahn.Cancellation
use ringbahn.Cancellation.{Object}
use ringbahn.Operation.{Operation}
use ringbahn.Machine.{World, pure, ◌>>=◌, Poll, pending, ready}
use ringbahn.Machine.Returns.{Returns, returned, Returns-and_then}
use ringbahn.Completion.Types.{IoResult, ok, err}
use ringbahn.Drive.{Context, Drive}
use ringbahn.Drive.Conforms.{Conforms}
use ringbahn.Ring
use ringbahn.Ring.{Ring}
use ringbahn.Ring.Spec.{Owns, Polled}
use ringbahn.Ring.Refines.{poll_one-Polled}
use ringbahn.Ring.Cancels.{Cancels, Cancels-Idle, Idle-Owns, cancel-Cancels}
use ringbahn.Unix.Stream
use ringbahn.Unix.Stream.{UnixStream}
use ringbahn.Unix.Listener.{
  Op, nothing, accept, closed, same_op, UnixListener, guard_op, accept_answer, poll_accept,
}

-- An operation is under way that is not this one.
abbrev pub other_under_way : {Driver : Type 0} → Op → UnixListener Driver → Bool
other_under_way op l = not (same_op l.active nothing) && not (same_op l.active op)

-- What the guard makes of an open listener: it goes on, or what was under way is cancelled.
pub data Guarded {Driver : Type 0} (op : Op) (l : UnixListener Driver) (w : World)
    : UnixListener Driver → World → Type 0 where
  continues : other_under_way op l ≡ false → Guarded op l w (record l { active = op }) w
  interrupts :
      {ring : Ring Driver} {v : World}
      → other_under_way op l ≡ true
      → Cancels (Cancellation.new Object.unit) w l.ring.state ring.state v
      → Guarded op l w (record l { ring = ring; active = op }) v

module _ {Driver : Type 0} (op : Op) (l : UnixListener Driver) (w : World) (o : Owns l.ring.state w)
    (open? : same_op l.active closed ≡ false) where
  interrupt :
      other_under_way op l ≡ true
      → Returns
          (λ l' v. Guarded op l w (record l' { active = op }) v × Owns l'.ring.state v)
          ((do
            ring ← Ring.cancel l.ring (Cancellation.new Object.unit)
            pure (record l { ring = ring; active = nothing }))
            w)
  interrupt other =
      Returns-and_then (cancel-Cancels _ w l.ring o)
        λ ring v outcome. returned (interrupts other outcome, Idle-Owns v (Cancels-Idle outcome))

  begun : other_under_way op l ≡ true → not (same_op l.active nothing) ≡ true
  begun other = ground arith

  guard_op-Guarded : Returns (λ g v. Guarded op l w g v × Owns g.ring.state v) (guard_op op l w)
  unfolding guard_op
  guard_op-Guarded = elim (Bool-cases (other_under_way op l)) [
    | inl other ↦
        rw (open?, other, begun other)
          (Returns-and_then (interrupt other) λ l' v kept. returned kept)
    | inr same ↦ rw (open?, same) (returned (continues same, o))
  ]

-- The answer to the caller: a stream of the descriptor that the kernel has given, on a new ring.
abbrev pub to_stream :
    {Driver : Type 0} → Driver → Poll (IoResult ℕ) → Poll (IoResult (UnixStream Driver))
to_stream d pending = pending
to_stream d (ready (err e)) = ready (err e)
to_stream d (ready (ok fd)) = ready (ok (Stream.from_fd fd (Ring.new d)))

accept_answer-to_stream :
    (D : Drive) (l : UnixListener D.Driver) (answer : Poll (IoResult ℕ))
    → accept_answer D l answer ≡ (l, to_stream (D.clone l.ring.driver) answer)
unfolding accept_answer Ring.clone
accept_answer-to_stream D l pending = refl
accept_answer-to_stream D l (ready (err e)) = refl
accept_answer-to_stream D l (ready (ok fd)) = refl

module _ (D : Drive) (conforms : Conforms D) (ctx : Context) where
  -- On a conforming driver, `poll_accept` of a listener that is not closed returns: it neither panics
  -- nor goes through a dangling pointer. A close that was under way is cancelled first; then the ring
  -- makes a transition of its contract for an accept without an address. The answer is pending, the
  -- kernel's error, or a stream of the descriptor that the kernel has given, which has a new ring on a
  -- clone of the driver. The listener keeps its descriptor, and its ring is in a sound state again.
  pub poll_accept-to_stream :
      (l : UnixListener D.Driver) (w : World)
      → Owns l.ring.state w
      → same_op l.active closed ≡ false
      → Returns
          (λ (l', p) v.
            (g : UnixListener D.Driver) × (u : World) × (answer : Poll (IoResult ℕ)) × Guarded
              accept l w g u
            × Polled (Operation.accept g.fd none 0) ctx.fresh u g.ring.state l'.ring.state answer v
            × (l' ≡ record g { ring = l'.ring })
            × (p ≡ to_stream (D.clone l'.ring.driver) answer))
          (poll_accept D ctx l w)
  unfolding poll_accept
  poll_accept-to_stream l w o open? =
      Returns-and_then (guard_op-Guarded accept l w o open?) λ g u (guarded, o').
        Returns-and_then (poll_one-Polled D conforms ctx (Operation.accept g.fd none 0) g.ring u o')
          λ (ring, answer) v polled.
            rw (accept_answer-to_stream D (record g { ring = ring }) answer)
              (returned (g, u, answer, guarded, polled, refl, refl))
