-- ===== src/Connect/Contract.antt =====
-- What a poll of a `Connect` gives on a conforming driver.
use ringbahn.Base.{ℕ, ◌≡◌, ap, some}
use ringbahn.Machine.{World, Poll, pending, ready, drop_callback, give_back}
use ringbahn.Machine.Returns.{Returns, returned, Returns-and_then}
use ringbahn.Completion.Types.{IoResult, ok, err, Error}
use ringbahn.Completion.Branches.{cleaned}
use ringbahn.Drive.{Context, Drive}
use ringbahn.Drive.Conforms.{Conforms}
use ringbahn.Event
use ringbahn.Event.{Event}
use ringbahn.Operation.{Operation}
use ringbahn.Ring
use ringbahn.Ring.{Ring, State}
use ringbahn.Ring.Spec.{Owns, Polled}
use ringbahn.Submission.{Submission}
use ringbahn.Submission.Contract.{Gives, still_waits, hands_over, poll-Gives}
use ringbahn.Stream
use ringbahn.Stream.{TcpStream}
use ringbahn.Connect.{Connect, connecting, connect_fd, connected, poll}

-- While the event is under way no memory is given back but by callbacks that had been left with
-- completions before, as `Polled` says. When it is over, the box with the address is,
-- and there is a stream of the descriptor on a new ring, or the kernel's error.
pub data Connects (fd addr fresh : ℕ) (w : World) (s : State) {Driver : Type 0} (t : Connect Driver)
    : Poll (IoResult (TcpStream Driver)) → World → Type 0 where
  still_connects :
      {v : World} {ring : Ring Driver}
      → t ≡ connecting (record { ring = ring; event = some (Event.connect fd addr) })
      → Polled (Operation.connect fd addr) fresh w s ring.state pending v
      → Connects fd addr fresh w s t pending v
  fails :
      {u : World} {e : Error} {r : State}
      → Polled (Operation.connect fd addr) fresh w s r (ready (err e)) u
      → Connects fd addr fresh w s t (ready (err e)) (cleaned u (Event.from_box addr))
  connects :
      {u : World} {n : ℕ} {r : State} (driver : Driver)
      → Polled (Operation.connect fd addr) fresh w s r (ready (ok n)) u
      → Connects fd addr fresh w s t
          (ready (ok (Stream.from_fd fd (Ring.new driver))))
          (cleaned u (Event.from_box addr))

module _ (D : Drive) (ctx : Context) (fd addr : ℕ) (s : State) (w : World) where
  connected-Connects :
      (t : Submission D.Driver) (p : Poll (Event × IoResult ℕ)) (v : World)
      → Gives (Event.connect fd addr) ctx.fresh w s t p v
      → Returns (λ (t', r) u. Connects fd addr ctx.fresh w s t' r u) (connected D t p v)
  unfolding connected connect_fd Event.operation Event.cancel drop_callback give_back
  connected-Connects t pending v (still_waits e polled) =
      returned (still_connects (ap (λ o. connecting (record t { event = o })) e) polled)
  connected-Connects t (ready (event, err e)) v (hands_over gone polled) = returned (fails polled)
  connected-Connects t (ready (event, ok n)) v (hands_over gone polled) =
      returned (connects (D.clone t.ring.driver) polled)

module _ (D : Drive) (conforms : Conforms D) (ctx : Context) (fd addr : ℕ) where
  -- On a conforming driver, a poll of a `Connect` whose event is not over returns, and its ring makes
  -- a transition of its contract for the operation. While that is pending the event stays where it
  -- is, and no memory is given back but by callbacks that had been left with completions before. When the kernel has connected the socket, the answer is a stream of the same descriptor on a
  -- new, inert ring, and when it has failed, the kernel's error; in both cases the box with the
  -- address is given back then, and not before.
  pub poll-Connects :
      (ring : Ring D.Driver) (w : World)
      → Owns ring.state w
      → Returns
          (λ (t, p) v. Connects fd addr ctx.fresh w ring.state t p v)
          (poll D ctx (connecting (record { ring = ring; event = some (Event.connect fd addr) })) w)
  unfolding poll
  poll-Connects ring w o =
      Returns-and_then (poll-Gives D conforms ctx (Event.connect fd addr) ring w o)
        λ (t, p) v gives. connected-Connects D ctx fd addr ring.state w t p v gives
