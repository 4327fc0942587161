-- ===== src/Ring/Refines.antt =====
-- A ring on a conforming driver keeps its contract.
use ringbahn.Base.{ℕ, ◌+◌, ◌≤◌, arith}
use ringbahn.Operation.{Operation}
use ringbahn.Machine.{World}
use ringbahn.Machine.Returns.{Returns}
use ringbahn.Drive.{Context, Drive, single_sqe}
use ringbahn.Drive.Conforms.{Conforms}
use ringbahn.Ring.{State, inert, prepared, submitted, cancelled, lost, Ring, poll}
use ringbahn.Ring.Spec.{Owns, is_inert, is_cancelled, Polled}
use ringbahn.Ring.Busy.{ring_of, PolledRing, poll_submitted-Returns, poll_prepared-Returns}
use ringbahn.Ring.Idle.{poll_idle-Returns}

module _ (D : Drive) (conforms : Conforms D) (ctx : Context) where
  open D use {Driver, Sqes}

  poll_from-Polled :
      (op : Operation) (count : ℕ) (s : State) (d : Driver) (w : World)
      → 1 ≤ count
      → count + 1 ≤ conforms.limit
      → Owns s w
      → Returns (PolledRing ctx op w s) (poll D ctx count (single_sqe D op) (ring_of s d) w)
  unfolding poll
  poll_from-Polled op count inert d w h k o =
      poll_idle-Returns D conforms ctx op count inert d w is_inert h k
  poll_from-Polled op count (cancelled prev) d w h k o =
      poll_idle-Returns D conforms ctx op count (cancelled prev) d w is_cancelled h k
  poll_from-Polled op count (prepared c) d w h k o = poll_prepared-Returns D conforms ctx op c d w o
  poll_from-Polled op count (submitted c) d w h k o =
      poll_submitted-Returns D conforms ctx op c d w o
  poll_from-Polled op count lost d w h k o = absurd o

  -- On a conforming driver, a poll of a ring in a sound state never panics and never goes through a
  -- dangling pointer: it makes one of the transitions of the contract. An event is prepared only by
  -- a ring with none under way, the result handed over is the completion's own, whose box is given
  -- back then, and the state is sound again. No memory is given back but by callbacks that had been left
  -- with completions before.
  pub poll-Polled :
      (op : Operation) (count : ℕ) (ring : Ring Driver) (w : World)
      → 1 ≤ count
      → count + 1 ≤ conforms.limit
      → Owns ring.state w
      → Returns
          (λ (ring', p) v. Polled op ctx.fresh w ring.state ring'.state p v)
          (poll D ctx count (single_sqe D op) ring w)
  poll-Polled op count ring w h k o = poll_from-Polled op count ring.state ring.driver w h k o

  -- the same, of an event with a single entry, such as all those of the source
  pub poll_one-Polled :
      (op : Operation) (ring : Ring Driver) (w : World)
      → Owns ring.state w
      → Returns
          (λ (ring', p) v. Polled op ctx.fresh w ring.state ring'.state p v)
          (poll D ctx 1 (single_sqe D op) ring w)
  poll_one-Polled op ring w o =
      let enough = conforms.enough in poll-Polled op 1 ring w (omega arith) (omega arith) o
