-- ===== src/File/Opening/Contract.antt =====
-- What a poll of `Open` or `Create` gives on a conforming driver.
use ringbahn.Base.{ℕ, ◌≡◌, some}
use ringbahn.Cancellation
use ringbahn.Cancellation.{Object}
use ringbahn.Machine.{World, Poll, pending, ready, drop_callback, give_back}
use ringbahn.Machine.Returns.{Returns, returned, Returns-and_then}
use ringbahn.Operation.{Operation}
use ringbahn.Completion.Types.{IoResult, ok, err, Error}
use ringbahn.Completion.Branches.{cleaned}
use ringbahn.Drive.{Context, Drive}
use ringbahn.Drive.Conforms.{Conforms}
use ringbahn.Event
use ringbahn.Event.{Event}
use ringbahn.Ring.{Ring, State}
use ringbahn.Ring.Spec.{Owns, Polled}
use ringbahn.Submission.{Submission}
use ringbahn.Submission.Contract.{Gives, still_waits, hands_over, poll-Gives}
use ringbahn.File.Handle.{File, from_fd}
use ringbahn.File.Opening.{opened, poll_open, poll_create}

-- While the event is under way no memory is given back but by callbacks that had been left with
-- completions before, as `Polled` says. When it is over, the path is, and there is a file
-- of the descriptor that the kernel has given, or the kernel's error.
pub data Opens (path dir_fd flags mode fresh : ℕ) (w : World) (s : State) {Driver : Type 0}
    (t : Submission Driver) : Poll (IoResult (File Driver)) → World → Type 0 where
  still_opens :
      {v : World}
      → t.event ≡ some (Event.open_at path dir_fd flags mode)
      → Polled (Operation.openat dir_fd path flags mode) fresh w s t.ring.state pending v
      → Opens path dir_fd flags mode fresh w s t pending v
  fails :
      {u : World} {e : Error}
      → Polled (Operation.openat dir_fd path flags mode) fresh w s t.ring.state (ready (err e)) u
      → Opens path dir_fd flags mode fresh w s t
          (ready (err e))
          (cleaned u (Cancellation.new (Object.c_string path)))
  opens :
      {u : World} {fd : ℕ} (driver : Driver)
      → Polled (Operation.openat dir_fd path flags mode) fresh w s t.ring.state (ready (ok fd)) u
      → Opens path dir_fd flags mode fresh w s t
          (ready (ok (from_fd fd driver)))
          (cleaned u (Cancellation.new (Object.c_string path)))

module _ (D : Drive) (ctx : Context) (path dir_fd flags mode : ℕ) (s : State) (w : World) where
  opened-Opens :
      (t : Submission D.Driver) (p : Poll (Event × IoResult ℕ)) (v : World)
      → Gives (Event.open_at path dir_fd flags mode) ctx.fresh w s t p v
      → Returns (λ (t', r) u. Opens path dir_fd flags mode ctx.fresh w s t' r u) (opened D t p v)
  unfolding opened Event.operation Event.cancel drop_callback give_back
  opened-Opens t pending v (still_waits e polled) = returned (still_opens e polled)
  opened-Opens t (ready (event, err e)) v (hands_over gone polled) = returned (fails polled)
  opened-Opens t (ready (event, ok n)) v (hands_over gone polled) =
      returned (opens (D.clone t.ring.driver) polled)

module _ (D : Drive) (conforms : Conforms D) (ctx : Context) (path dir_fd flags mode : ℕ) where
  -- On a conforming driver, a poll of an `Open`, and one of a `Create`, whose event is not over returns,
  -- and its ring makes a transition of its contract for the operation. While that is pending the event
  -- stays where it is, and no memory is given back but by callbacks that had been left with completions
  -- before. When the kernel has opened the file, the answer is a file of the descriptor that
  -- the kernel has given, and when it has failed, the kernel's error; in both cases the path is given
  -- back then, and not before.
  pub poll_open-Opens :
      (ring : Ring D.Driver) (w : World)
      → Owns ring.state w
      → Returns
          (λ (t, p) v. Opens path dir_fd flags mode ctx.fresh w ring.state t p v)
          (poll_open D ctx
            (record { ring = ring; event = some (Event.open_at path dir_fd flags mode) })
            w)
        × Returns
            (λ (t, p) v. Opens path dir_fd flags mode ctx.fresh w ring.state t p v)
            (poll_create D ctx
              (record { ring = ring; event = some (Event.open_at path dir_fd flags mode) })
              w)
  unfolding poll_open poll_create
  poll_open-Opens ring w o =
      let opens =
        Returns-and_then (poll-Gives D conforms ctx (Event.open_at path dir_fd flags mode) ring w o)
          λ (t, p) v gives. opened-Opens D ctx path dir_fd flags mode ring.state w t p v gives in
      (opens, opens)
